-- ===== src/Sigil/Json/Whitespace.antt =====
-- `indentJSON` changes nothing but the white space between tokens.
use native.Mathlib.Omega.{arith}
use mathlib.Core.List.{append_assoc}
use go_io.Common.{
  ℕ, zero, suc, ◌≡◌, refl, sym, ap, ◌∙◌, Bool, true, false, ◌||◌, Option, none, some, [], ◌∷◌, ◌++◌,
  ◌==◌, if◌then◌else◌,
}
use go_io.Common.Bytes.{Bytes}
use go_io.Common.Int.{ℤ, rounds, incr, decr, pos}
use go_io.Sigil.Json.{
  newline, space, string_state, spaces, open_container, close_container, structural_byte, head?,
  indent_from, indent_json,
}

-- `strip` by the flags of the loop of `indentJSON`.
unfoldable strip_from : Bool → Bool → Bytes → Bytes
strip_from in_string escaped [] = []
strip_from true escaped (ch ∷ s) =
    let (in_string, next_escaped) = string_state ch escaped in
    ch ∷ strip_from in_string next_escaped s
strip_from false escaped (ch ∷ s) =
    let skip = strip_from false escaped s in
    let keep = ch ∷ strip_from (ch == b'"') escaped s in
    if ch == space || ch == newline then skip else keep

strip-spaces :
    (n : ℕ) (s : Bytes) → strip_from false false (spaces n ++ s) ≡ strip_from false false s
unfolding strip_from spaces
strip-spaces zero s = refl
strip-spaces (suc n) s = strip-spaces n s

strip-open_container :
    (next : Option ℕ) (indent : ℤ) (s : Bytes)
    → strip_from false false ((open_container next indent).0 ++ s) ≡ strip_from false false s
unfolding strip_from open_container
strip-open_container none indent s = refl
strip-open_container (some next) indent s = ground (arith, strip-spaces (rounds (incr indent)) s)

strip-close_container :
    (prev : Option ℕ) (indent : ℤ) (s : Bytes)
    → strip_from false false ((close_container prev indent).0 ++ s) ≡ strip_from false false s
unfolding strip_from close_container
strip-close_container none indent s = refl
strip-close_container (some prev) indent s = ground (arith, strip-spaces (rounds (decr indent)) s)

-- What is written for a byte between strings strips like the byte itself.
strip-structural_byte :
    (prev : Option ℕ) (ch : ℕ) (next : Option ℕ) (indent : ℤ) (s : Bytes)
    → strip_from false false ((structural_byte prev ch next indent).0 ++ s)
      ≡ strip_from false false (ch ∷ s)
unfolding strip_from structural_byte
strip-structural_byte prev ch next indent s =
    let before = (close_container prev indent).0 in
    let closed : strip_from false false ((before ++ ch ∷ []) ++ s)
        ≡ strip_from false false (ch ∷ s) =
      ap (strip_from false false) (append_assoc before (ch ∷ []) s)
      ∙ strip-close_container prev indent (ch ∷ s) in
    ground (arith, strip-open_container next indent s, closed, strip-spaces (rounds indent) s)

in_string-structural_byte :
    (prev : Option ℕ) (ch : ℕ) (next : Option ℕ) (indent : ℤ)
    → (structural_byte prev ch next indent).2 ≡ (ch == b'"')
unfolding structural_byte
in_string-structural_byte prev ch next indent = ground arith

unescaped-string_state :
    (ch : ℕ) (escaped : Bool)
    → (string_state ch escaped).0 ≡ false
    → (string_state ch escaped).1 ≡ false
unfolding string_state
unescaped-string_state ch true h = cc
unescaped-string_state ch false h = ground arith

strip-indent_from :
    (prev : Option ℕ) (indent : ℤ) (in_string escaped : Bool) (compact : Bytes)
    → (in_string ≡ false → escaped ≡ false)
    → strip_from in_string escaped (indent_from prev indent in_string escaped compact)
      ≡ strip_from in_string escaped compact
unfolding strip_from indent_from
strip-indent_from prev indent true escaped [] h = refl
strip-indent_from prev indent false escaped [] h = refl
strip-indent_from prev indent true escaped (ch ∷ compact) h =
    ap (λ s. ch ∷ s)
      (strip-indent_from (some ch) indent (string_state ch escaped).0 (string_state ch escaped).1
        compact (unescaped-string_state ch escaped))
strip-indent_from prev indent false true (ch ∷ compact) h = absurd (cc (h refl))
strip-indent_from prev indent false false (ch ∷ compact) h =
    let step = structural_byte prev ch (head? compact) indent in
    let out = indent_from (some ch) step.1 step.2 false compact in
    let ih : strip_from step.2 false out ≡ strip_from step.2 false compact =
      strip-indent_from (some ch) step.1 step.2 false compact (λ _. refl) in
    strip-structural_byte prev ch (head? compact) indent out
    ∙ ground (arith, ih, in_string-structural_byte prev ch (head? compact) indent)

-- Where a byte of a text stands: between string literals, in one, or in one behind a backslash.
pub data Place : Type 0 where
  between inside escape : Place

-- A text without the spaces and line ends that stand outside string literals. A literal goes from a
-- quote to the next one that stands behind no backslash, or behind a backslash that another one
-- takes.
unfoldable pub strip : Place → Bytes → Bytes
strip place [] = []
strip escape (ch ∷ s) = ch ∷ strip inside s
strip inside (ch ∷ s) =
    let ended = strip between s in
    let escaped = strip escape s in
    let further = strip inside s in
    ch ∷ (if ch == 0x22 then ended else if ch == 0x5c then escaped else further)
strip between (ch ∷ s) =
    let opened = strip inside s in
    let further = strip between s in
    if ch == 0x20 || ch == 0x0a then further else ch ∷ (if ch == 0x22 then opened else further)

abbrev place : Bool → Bool → Place
place false escaped = between
place true true = escape
place true false = inside

strip-strip_from :
    (in_string escaped : Bool) (s : Bytes)
    → (in_string ≡ false → escaped ≡ false)
    → strip_from in_string escaped s ≡ strip (place in_string escaped) s
unfolding strip strip_from string_state
strip-strip_from false false [] h = refl
strip-strip_from true false [] h = refl
strip-strip_from true true [] h = refl
strip-strip_from false true s h = absurd (cc (h refl))
strip-strip_from true true (ch ∷ s) h = ap (λ t. ch ∷ t) (strip-strip_from true false s (λ e. refl))
strip-strip_from true false (ch ∷ s) h =
    let ended = strip-strip_from false false s (λ e. refl) in
    let escaped = strip-strip_from true true s (λ e. absurd (cc)) in
    let further = strip-strip_from true false s (λ e. refl) in
    ground (arith, ended, escaped, further)
strip-strip_from false false (ch ∷ s) h =
    let opened = strip-strip_from true false s (λ e. refl) in
    let further = strip-strip_from false false s (λ e. refl) in ground (arith, opened, further)

-- Whatever the text, JSON or not: without the spaces and line ends outside string literals the
-- indented text is the text. A quote behind a backslash ends no literal.
pub strip-indent_json :
    (compact : Bytes) → strip between (indent_json compact) ≡ strip between compact
unfolding indent_json
strip-indent_json compact =
    sym (strip-strip_from false false (indent_json compact) (λ e. refl))
    ∙ strip-indent_from none (pos 0) false false compact (λ _. refl)
    ∙ strip-strip_from false false compact (λ e. refl)
