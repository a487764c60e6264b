-- ===== src/Text/Hex.antt =====
-- Bytes survive the way through hexadecimal text.
use go_kd.Prelude.{ℕ, ◌*◌, ◌/◌, ◌%◌, ◌<◌, ◌≡◌, refl, some, List, [], ◌∷◌, arith, length}
use go_kd.Text.{hex_digit, encode_to_string, from_hex_char, join_digits, decode_string}

abbrev pub IsBytes : List ℕ → Type 0
IsBytes [] = Unit
IsBytes (b ∷ bs) = (b < 256) × IsBytes bs

pub from_hex_char-hex_digit : (d : ℕ) → d < 16 → from_hex_char (hex_digit d) ≡ some d
unfolding from_hex_char hex_digit
from_hex_char-hex_digit d h = ground arith

pub decode-encode : (bs : List ℕ) → IsBytes bs → decode_string (encode_to_string bs) ≡ some bs
unfolding decode_string encode_to_string join_digits
decode-encode [] h = refl
decode-encode (b ∷ bs) h = ground (
  arith,
  from_hex_char-hex_digit (b / 16),
  from_hex_char-hex_digit (b % 16),
  decode-encode bs h.1,
)

pub length-encode_to_string : (bs : List ℕ) → length (encode_to_string bs) ≡ 2 * length bs
unfolding encode_to_string
length-encode_to_string [] = refl
length-encode_to_string (b ∷ bs) = omega (arith, length-encode_to_string bs)
