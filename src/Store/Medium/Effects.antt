-- ===== src/Store/Medium/Effects.antt =====
-- What the operations of `Medium` leave in the table.
use native.Mathlib.Omega.{arith}
use go_io.Common.{
  ◌≡◌, ap, inl, inr, Bool-cases, ◌&&◌, ◌||◌, Option, Option-cases, none, some, [], if◌then◌else◌,
}
use go_io.Common.Bytes.{Bytes, str_eq}
use go_io.Common.Results.{Result, Result-cases, ok, err, not_exist}
use go_io.CoreText.{CoreText}
use go_io.Store
use go_io.Store.{Table, get}
use go_io.Store.Medium.{group_of, key_of, delete_all, rename, same_entry}

abbrev read_of : Option Bytes → Result Bytes
read_of none = err not_exist
read_of (some content) = ok content

module _ (c : CoreText) (table : Table) (T : Store.IsLawful table) where
  get_ok :
      (s : table.State) (group key content : Bytes)
      → get table s group key ≡ ok content
      → T.value s group key ≡ some content
  unfolding get
  get_ok s group key content e = elim (Result-cases (table.select_value s group key)) [
    | inr (f, failed) ↦ absurd (ground arith)
    | inl (found, done) ↦ elim (Option-cases found) [
      | inl absent ↦ absurd (ground arith)
      | inr (v, present) ↦ ground (arith, T.select_value_eq s group key found done)
    ]
  ]

  -- After a `DeleteAll` that succeeds the table has nothing for the entry of the path or, if the path
  -- is a group, for any entry of the group, and for every other entry what it had.
  delete_all_values :
      (s s' : table.State) (path g k : Bytes)
      → delete_all c table s path ≡ ok s'
      → T.value s' g k ≡ (
          if str_eq (group_of c table path) g
            && (str_eq (key_of c table path) [] || str_eq (key_of c table path) k)
          then none
          else T.value s g k)
  unfolding delete_all
  delete_all_values s s' path g k e = elim (Bool-cases (str_eq (key_of c table path) [])) [
    | inl whole ↦
        ground (arith, T.delete_entries_eq s s' (group_of c table path) g k (ground arith))
    | inr single ↦ ground (
      arith,
      T.delete_entry_eq s s' (group_of c table path) (key_of c table path) g k (ground arith),
    )
  ]

  -- A `Rename` that ends with no error: if the two paths name one entry, the table is as before.
  -- Else it had a value for the old entry; it has none for it now, that value for the new entry, and
  -- for every other entry what it had.
  rename_values :
      (s s' : table.State) (old_path new_path g k : Bytes)
      → rename c table s old_path new_path ≡ (s', none)
      → T.value s' g k ≡ (
          if same_entry c table old_path new_path
          then T.value s g k
          else if str_eq (group_of c table old_path) g && str_eq (key_of c table old_path) k
          then none
          else if str_eq (group_of c table new_path) g && str_eq (key_of c table new_path) k
          then T.value s (group_of c table old_path) (key_of c table old_path)
          else T.value s g k)
  unfolding rename
  rename_values s s' old_path new_path g k e =
      let og = group_of c table old_path in
      let ok_ = key_of c table old_path in
      let ng = group_of c table new_path in
      let nk = key_of c table new_path in
      elim (Bool-cases (str_eq ok_ [] || str_eq nk [])) [
        | inl refused ↦ absurd (ground (arith, ap (λ o. o.1) e))
        | inr fine ↦ elim (Bool-cases (same_entry c table old_path new_path)) [
          | inl same ↦
              let stays : s ≡ s' = ground (arith, ap (λ o. o.0) e) in
              ground (arith, ap (λ t. T.value t g k) stays)
          | inr apart ↦ elim (Result-cases (get table s og ok_)) [
            | inr (f, failed) ↦ absurd (ground (arith, ap (λ o. o.1) e))
            | inl (content, found) ↦ elim (Result-cases (table.upsert s ng nk content)) [
              | inr (f, failed) ↦ absurd (ground (arith, ap (λ o. o.1) e))
              | inl (written, done) ↦ elim (Result-cases (table.delete_entry written og ok_)) [
                | inr (f, failed) ↦ absurd (ground (arith, ap (λ o. o.1) e))
                | inl (renamed, gone) ↦
                    let ends : renamed ≡ s' = ground (arith, ap (λ o. o.0) e) in
                    ground (
                      arith,
                      ap (λ t. T.value t g k) ends,
                      T.delete_entry_eq written renamed og ok_ g k gone,
                      T.upsert_eq s written ng nk content g k done,
                      get_ok s og ok_ content found,
                    )
              ]
            ]
          ]
        ]
      ]
