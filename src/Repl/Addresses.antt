-- ===== src/Repl/Addresses.antt =====
-- An address that the command line prints is read back, but for those whose first byte is 0d.
use go_kd.Prelude.{
  ℕ, zero, suc, ◌/◌, ◌%◌, ◌^◌, ◌<◌, ◌≡◌, ◌≢◌, refl, ◌∙◌, ap, true, false, [], ◌∷◌, ◌++◌, arith,
}
use go_kd.Text.{
  Text, codes, is_space, trim_space, trim_right, to_lower, has_prefix, hex_digit, hex_fixed,
}
use go_kd.Text.Trim.{trim_left-Free, trim_right-Free}
use go_kd.Errors.{ok}
use go_kd.Numbers.Printed.{parse_in_base-hex_fixed, hex_fixed-Free}
use go_kd.Session.{done, done}
use go_kd.Repl.{is_hex_code, all_hex_codes, is_all_hex, parse_64, parse_addr}

hex_digit-is_hex_code : (d : ℕ) → d < 16 → is_hex_code (hex_digit d) ≡ true
unfolding is_hex_code hex_digit
hex_digit-is_hex_code d h = ground arith

all_hex_codes-snoc :
    (s : Text) (c : ℕ)
    → all_hex_codes s ≡ true
    → is_hex_code c ≡ true
    → all_hex_codes (s ++ (c ∷ [])) ≡ true
unfolding all_hex_codes
all_hex_codes-snoc [] c h e = ground arith
all_hex_codes-snoc (d ∷ s) c h e = ground (arith, all_hex_codes-snoc s c)

all_hex_codes-hex_fixed : (w v : ℕ) → all_hex_codes (hex_fixed w v) ≡ true
unfolding all_hex_codes hex_fixed
all_hex_codes-hex_fixed zero v = refl
all_hex_codes-hex_fixed (suc w) v =
    all_hex_codes-snoc (hex_fixed w (v / 16)) (hex_digit (v % 16))
      (all_hex_codes-hex_fixed w (v / 16)) (hex_digit-is_hex_code (v % 16) (omega arith))

hex_fixed-trim : (w v : ℕ) → trim_space (hex_fixed w v) ≡ hex_fixed w v
unfolding trim_space
hex_fixed-trim w v =
    let free = hex_fixed-Free w v in
    ap (trim_right is_space) (trim_left-Free is_space _ free) ∙ trim_right-Free is_space _ free

-- a number without its lowest `w` hexadecimal digits
abbrev shift : ℕ → ℕ → ℕ
shift zero v = v
shift (suc w) v = shift w (v / 16)

-- the first two of sixteen digits
abbrev high : ℕ → ℕ
high v = shift 15 v % 16

abbrev low : ℕ → ℕ
low v = shift 14 v % 16

-- A text of two characters or more that has neither prefix and only hexadecimal digits is read in
-- base 16.
parse_addr-plain :
    (a b : ℕ) (rest : Text)
    → trim_space (a ∷ b ∷ rest) ≡ a ∷ b ∷ rest
    → all_hex_codes (a ∷ b ∷ rest) ≡ true
    → has_prefix (to_lower (a ∷ b ∷ rest)) (codes "0d") ≡ false
    → has_prefix (to_lower (a ∷ b ∷ rest)) (codes "0x") ≡ false
    → parse_addr (a ∷ b ∷ rest) ≡ done (parse_64 16 (a ∷ b ∷ rest))
unfolding parse_addr is_all_hex
parse_addr-plain a b rest trim hex no_decimal no_prefix = rw (trim, no_decimal, no_prefix, hex)

no_prefix_d :
    (a b : ℕ) (rest : Text)
    → a < 16
    → b < 16
    → ((a ≡ 0) → b ≢ 13)
    → has_prefix (to_lower (hex_digit a ∷ hex_digit b ∷ rest)) (codes "0d") ≡ false
unfolding has_prefix to_lower hex_digit
no_prefix_d a b rest h g ne = ground arith

no_prefix_x :
    (a b : ℕ) (rest : Text)
    → a < 16
    → b < 16
    → has_prefix (to_lower (hex_digit a ∷ hex_digit b ∷ rest)) (codes "0x") ≡ false
unfolding has_prefix to_lower hex_digit
no_prefix_x a b rest h g = ground arith

not_decimal : (v : ℕ) → v < 2 ^ 64 → v / 2 ^ 56 ≢ 13 → (high v ≡ 0) → low v ≢ 13
not_decimal v h ne zero_high thirteen = ne (omega arith)

-- An address that `bl`, `lm`, `u` or `th` prints, sixteen hexadecimal digits, is read back as the number that
-- was printed, with no call of the bindings, unless its first byte is 0d, which stands for a decimal
-- number.
pub parse_addr-hex_fixed :
    (v : ℕ) → v < 2 ^ 64 → v / 2 ^ 56 ≢ 13 → parse_addr (hex_fixed 16 v) ≡ done (ok v)
unfolding hex_fixed
parse_addr-hex_fixed v h ne =
    parse_addr-plain (hex_digit (high v)) (hex_digit (low v)) _ (hex_fixed-trim 16 v)
      (all_hex_codes-hex_fixed 16 v)
      (no_prefix_d (high v) (low v) _ (omega arith) (omega arith) (not_decimal v h ne))
      (no_prefix_x (high v) (low v) _ (omega arith) (omega arith))
    ∙ ap (λ r. done r) (parse_in_base-hex_fixed v h)
