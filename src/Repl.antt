-- ===== src/Repl.antt =====
-- cmd/gokd/parse.go: the addresses and counts of the command line, with the words of a line (`strings.Fields`,
-- `strings.Split`).
pub mod Commands
pub mod Lines
pub mod Addresses
pub mod Sequence
use go_kd.Prelude.{
  ℕ, ◌+◌, ◌^◌, Bool, true, false, ◌&&◌, ◌||◌, Option, none, some, List, [], ◌∷◌, ◌++◌, leb, drop,
  ◌==◌, if◌then◌else◌,
}
use go_kd.Text.{Text, codes, is_empty, is_space, trim_space, to_lower, has_prefix, contains}
use go_kd.Errors.{Result, ok, err, other}
use go_kd.Numbers.{parse_in_base}
use go_kd.Session.{Program, refuse, done}
use go_kd.Session.Calls

-- the characters that `isAllHex` lets pass
unfoldable pub is_hex_code : ℕ → Bool
is_hex_code c =
    (leb b'0' c && leb c b'9') || (leb b'a' c && leb c b'f') || (leb b'A' c && leb c b'F')

unfoldable pub all_hex_codes : Text → Bool
all_hex_codes [] = true
all_hex_codes (c ∷ s) = is_hex_code c && all_hex_codes s

unfoldable pub is_all_hex : Text → Bool
is_all_hex [] = false
is_all_hex (c ∷ s) = all_hex_codes (c ∷ s)

unfoldable pub looks_hex : Text → Bool
looks_hex text = let t = trim_space text in has_prefix (to_lower t) (codes "0x") || is_all_hex t

abbrev pub parse_64 : ℕ → Text → Result ℕ
parse_64 base text = parse_in_base (2 ^ 64) base text

unfoldable pub parse_addr : Text → Program (Result ℕ)
parse_addr text =
    let t = trim_space text in
    if has_prefix (to_lower t) (codes "0d")
    then done (parse_64 10 (drop 2 t))
    else if has_prefix (to_lower t) (codes "0x")
    then done (parse_64 16 (drop 2 t))
    else if is_all_hex t
    then done (parse_64 16 t)
    else if contains t (codes "!")
    then Calls.name_to_addr t
    else refuse (codes "invalid address")

-- a count that begins with `L` is hexadecimal
unfoldable pub count_from : Text → Result ℕ
count_from [] = err (other (codes "empty count"))
count_from (c ∷ s) = if c == b'l' || c == b'L' then parse_64 16 s else parse_64 10 (c ∷ s)

unfoldable pub parse_count : Text → Result ℕ
parse_count text = count_from (trim_space text)

-- a word that has been read, unless it is empty
abbrev pub word_before : Text → List Text → List Text
word_before word words = if is_empty word then words else word ∷ words

-- `strings.Fields`, with the word so far
unfoldable pub fields_from : Text → Text → List Text
fields_from word [] = word_before word []
fields_from word (c ∷ s) = elim (is_space c) [
  | true ↦ word_before word (fields_from [] s)
  | false ↦ fields_from (word ++ (c ∷ [])) s
]

abbrev pub fields : Text → List Text
fields text = fields_from [] text

-- `strings.Split` at one character, with the part so far
unfoldable pub split_from : ℕ → Text → Text → List Text
split_from d part [] = part ∷ []
split_from d part (c ∷ s) = elim (c == d) [
  | true ↦ part ∷ split_from d [] s
  | false ↦ split_from d (part ++ (c ∷ [])) s
]
