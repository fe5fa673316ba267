-- ===== src/Sigil/Json.antt =====
-- go/sigil/sigils.go: `indentJSON` and its helpers. The builder only appends: each helper returns
-- the bytes that it writes. The byte before index i is `prev`, none at the start of the text.
pub mod Whitespace
use go_io.Common.{
  ℕ, zero, suc, Bool, true, false, not, ◌&&◌, ◌||◌, Option, none, some, List, [], ◌∷◌, ◌++◌, ◌==◌,
  if◌then◌else◌,
}
use go_io.Common.Bytes.{Bytes, bytes}
use go_io.Common.Int.{ℤ, pos, incr, decr, rounds}

abbrev pub backslash : ℕ
backslash = 0x5c

abbrev pub newline : ℕ
newline = 0x0a

abbrev pub space : ℕ
space = 0x20

-- `writeJSONStringByte`: the new values of `inString` and `escaped`
unfoldable pub string_state : ℕ → Bool → Bool × Bool
string_state ch true = (true, false)
string_state ch false = if ch == backslash then (true, true) else (not (ch == b'"'), false)

-- `writeJSONIndent`
unfoldable pub spaces : ℕ → Bytes
spaces zero = []
spaces (suc n) = space ∷ space ∷ spaces n

abbrev pub is_byte : ℕ → Option ℕ → Bool
is_byte b none = false
is_byte b (some c) = c == b

-- `writeJSONOpenContainer`: what follows the bracket, and the new indentation; `next` is the byte
-- after it.
unfoldable pub open_container : Option ℕ → ℤ → Bytes × ℤ
unfolding spaces
open_container none indent = ([], indent)
open_container (some next) indent =
    if next == b'}' || next == b']'
    then ([], indent)
    else (newline ∷ spaces (rounds (incr indent)), incr indent)

-- `writeJSONCloseContainer`: what goes before the bracket, and the new indentation.
unfoldable pub close_container : Option ℕ → ℤ → Bytes × ℤ
unfolding spaces
close_container none indent = ([], indent)
close_container (some prev) indent =
    if prev == b'{' || prev == b'['
    then ([], indent)
    else (newline ∷ spaces (rounds (decr indent)), decr indent)

-- `writeJSONStructuralByte`: the bytes written, the new indentation, and whether a string starts.
unfoldable pub structural_byte : Option ℕ → ℕ → Option ℕ → ℤ → Bytes × ℤ × Bool
structural_byte prev ch next indent =
    if ch == b'"'
    then (ch ∷ [], indent, true)
    else if ch == b'{' || ch == b'['
    then (let (after, level) = open_container next indent in (ch ∷ after, level, false))
    else if ch == b'}' || ch == b']'
    then (let (before, level) = close_container prev indent in (before ++ ch ∷ [], level, false))
    else if ch == b','
    then (ch ∷ newline ∷ spaces (rounds indent), indent, false)
    else if ch == b':'
    then (b':' ∷ space ∷ [], indent, false)
    else (ch ∷ [], indent, false)

abbrev pub head? : Bytes → Option ℕ
head? [] = none
head? (b ∷ s) = some b

-- The loop of `indentJSON`.
unfoldable pub indent_from : Option ℕ → ℤ → Bool → Bool → Bytes → Bytes
indent_from prev indent in_string escaped [] = []
indent_from prev indent true escaped (ch ∷ compact) =
    let (in_string, next_escaped) = string_state ch escaped in
    ch ∷ indent_from (some ch) indent in_string next_escaped compact
indent_from prev indent false escaped (ch ∷ compact) =
    let (written, level, in_string) = structural_byte prev ch (head? compact) indent in
    written ++ indent_from (some ch) level in_string escaped compact

-- `indentJSON`
unfoldable pub indent_json : Bytes → Bytes
unfolding indent_from structural_byte open_container close_container string_state spaces
indent_json compact = indent_from none (pos 0) false false compact
