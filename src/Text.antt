-- ===== src/Text.antt =====
-- Go's `string` as a list of byte codes, with what the program uses of the packages `strings`, `fmt`
-- and `encoding/hex`. Texts that the program walks are ASCII here, so bytes and runes
-- agree; the patterns of Readonly decode the runes that matter to them.
pub mod Hex
pub mod Trim
use Prim.Native.Char.{code}
use go_kd.Prelude.{
  ℕ, zero, suc, ◌+◌, ◌-◌, ◌*◌, ◌/◌, ◌%◌, String, Bool, true, false, ◌&&◌, ◌||◌, Option, none, some,
  List, [], ◌∷◌, ◌++◌, map, ltb, leb, length, drop, ◌==◌, if◌then◌else◌,
}

abbrev pub Text : Type 0
Text = List ℕ

-- a string constant
abbrev pub codes : String → Text
codes String.[] = []
codes (String.◌∷◌ c s) = code c ∷ codes s

unfoldable pub is_empty : Text → Bool
is_empty [] = true
is_empty (c ∷ s) = false

unfoldable pub text_eq : Text → Text → Bool
text_eq [] [] = true
text_eq (c ∷ s) (d ∷ t) = c == d && text_eq s t
text_eq _ _ = false

abbrev pub is_space : ℕ → Bool
is_space c = c == b' ' || (leb 9 c && leb c 13)

-- `strings.TrimLeftFunc` and `strings.TrimRightFunc`
unfoldable pub trim_left : (ℕ → Bool) → Text → Text
trim_left p [] = []
trim_left p (c ∷ s) = if p c then trim_left p s else c ∷ s

unfoldable pub trim_right : (ℕ → Bool) → Text → Text
unfolding is_empty
trim_right p [] = []
trim_right p (c ∷ s) = let r = trim_right p s in if is_empty r && p c then [] else c ∷ r

unfoldable pub trim_space : Text → Text
trim_space s = trim_right is_space (trim_left is_space s)

-- `strings.TrimRight(s, "\r\n")`
abbrev pub is_newline : ℕ → Bool
is_newline c = c == 13 || c == 10

unfoldable pub has_prefix : Text → Text → Bool
has_prefix s [] = true
has_prefix [] (d ∷ p) = false
has_prefix (c ∷ s) (d ∷ p) = c == d && has_prefix s p

unfoldable pub contains : Text → Text → Bool
contains [] p = has_prefix [] p
contains (c ∷ s) p = has_prefix (c ∷ s) p || contains s p

unfoldable pub has_suffix : Text → Text → Bool
has_suffix [] p = text_eq [] p
has_suffix (c ∷ s) p = text_eq (c ∷ s) p || has_suffix s p

-- `strings.TrimPrefix`, and `strings.TrimSuffix` for one character
unfoldable pub trim_prefix : Text → Text → Text
trim_prefix s p = if has_prefix s p then drop (length p) s else s

unfoldable pub trim_last : ℕ → Text → Text
trim_last d [] = []
trim_last d (c ∷ []) = if c == d then [] else c ∷ []
trim_last d (c ∷ b ∷ s) = c ∷ trim_last d (b ∷ s)

-- The text before and behind the first occurrence of a character, by `strings.Index`.
unfoldable pub cut_at : ℕ → Text → Option (Text × Text)
cut_at d [] = none
cut_at d (c ∷ s) =
    if c == d
    then some ([], s)
    else elim (cut_at d s) [ none ↦ none | some (l, r) ↦ some (c ∷ l, r) ]

-- whether a text is one of the cases of a `switch`
unfoldable pub is_case : Text → List Text → Bool
is_case s [] = false
is_case s (t ∷ ts) = text_eq s t || is_case s ts

abbrev pub lower_code : ℕ → ℕ
lower_code c = if leb b'A' c && leb c b'Z' then c + 32 else c

unfoldable pub to_lower : Text → Text
to_lower = map lower_code

-- The hexadecimal digit of a value below 16, in lower case.
unfoldable pub hex_digit : ℕ → ℕ
hex_digit d = if ltb d 10 then b'0' + d else b'a' + (d - 10)

-- the low `w` hexadecimal digits
unfoldable pub hex_fixed : ℕ → ℕ → Text
hex_fixed zero v = []
hex_fixed (suc w) v = hex_fixed w (v / 16) ++ (hex_digit (v % 16) ∷ [])

-- `%08X` and the like: the low `w` digits in upper case
unfoldable pub upper_hex : ℕ → ℕ → Text
unfolding hex_fixed hex_digit
upper_hex w v = map (λ c. if leb b'a' c then c - 32 else c) (hex_fixed w v)

-- `%x`: no leading zeros. Sixteen rounds are enough for 64 bits.
unfoldable pub hex_min : ℕ → ℕ → Text
hex_min zero v = []
hex_min (suc f) v =
    let rest = hex_min f (v / 16) in
    if ltb v 16 then hex_digit v ∷ [] else rest ++ (hex_digit (v % 16) ∷ [])

-- `%d`. Twenty rounds are enough for 64 bits.
unfoldable pub decimal : ℕ → ℕ → Text
decimal zero v = []
decimal (suc f) v =
    let rest = decimal f (v / 10) in
    if ltb v 10 then (b'0' + v) ∷ [] else rest ++ ((b'0' + v % 10) ∷ [])

abbrev pub format_d : ℕ → Text
format_d = decimal 20

abbrev pub format_x : ℕ → Text
format_x = hex_min 16

-- `hex.EncodeToString`
unfoldable pub encode_to_string : List ℕ → Text
encode_to_string [] = []
encode_to_string (b ∷ bs) = hex_digit (b / 16) ∷ hex_digit (b % 16) ∷ encode_to_string bs

-- `fromHexChar` of `encoding/hex`
unfoldable pub from_hex_char : ℕ → Option ℕ
from_hex_char c =
    if leb b'0' c && leb c b'9'
    then some (c - b'0')
    else if leb b'a' c && leb c b'f'
    then some (c - b'a' + 10)
    else if leb b'A' c && leb c b'F'
    then some (c - b'A' + 10)
    else none

unfoldable pub join_digits : Option ℕ → Option ℕ → Option (List ℕ) → Option (List ℕ)
join_digits (some hi) (some lo) (some bs) = some ((hi * 16 + lo) ∷ bs)
join_digits _ _ _ = none

-- `hex.DecodeString`, `none` for its errors
unfoldable pub decode_string : Text → Option (List ℕ)
unfolding from_hex_char join_digits
decode_string [] = some []
decode_string (c ∷ []) = none
decode_string (c ∷ d ∷ s) = join_digits (from_hex_char c) (from_hex_char d) (decode_string s)
