-- ===== src/Numbers/Printed.antt =====
-- An address that the tools print is read back as itself.
use go_kd.Prelude.{
  Bool, true, false, ◌==◌, ℕ, zero, suc, ◌+◌, ◌*◌, ◌/◌, ◌%◌, ◌^◌, ◌<◌, ◌≡◌, refl, ◌∙◌, ap, false,
  some, [], ◌∷◌, ◌++◌, arith, lt→ltb, append-nil, lt→leb, sym,
}
use go_kd.Text.{Text, trim_right, is_empty, is_space, trim_space, hex_digit, hex_fixed}
use go_kd.Text.Trim.{Free, trim_left-Free, trim_right-Free}
use go_kd.Errors.{ok}
use go_kd.Events.{hex64}
use go_kd.Numbers.{
  digit_of, parse_digits, split_base, parse_uint, parse_uint_below, parse_in_base, parse_hex_uint64,
}

digit_of-hex_digit : (d : ℕ) → d < 16 → digit_of (hex_digit d) ≡ some d
unfolding digit_of hex_digit
digit_of-hex_digit d h = ground arith

hex_digit-is_space : (d : ℕ) → d < 16 → is_space (hex_digit d) ≡ false
unfolding hex_digit
hex_digit-is_space d h = ground arith

hex_digit-not_underscore : (d : ℕ) → d < 16 → (hex_digit d == b'_') ≡ false
unfolding hex_digit
hex_digit-not_underscore d h = ground arith

-- one digit of a number that still fits
parse_digits-digit :
    (base0 : Bool) (n d : ℕ) (s : Text)
    → d < 16
    → n * 16 + d < 2 ^ 64
    → parse_digits (2 ^ 64) base0 16 n false (hex_digit d ∷ s)
      ≡ parse_digits (2 ^ 64) base0 16 (n * 16 + d) false s
unfolding parse_digits
parse_digits-digit true n d s h k = rw (
  hex_digit-not_underscore d h,
  digit_of-hex_digit d h,
  lt→leb 16 d h,
  lt→ltb (n * 16 + d) (2 ^ 64) k,
)
parse_digits-digit false n d s h k =
    rw (digit_of-hex_digit d h, lt→leb 16 d h, lt→ltb (n * 16 + d) (2 ^ 64) k)

-- Whether a number has at most `w` hexadecimal digits.
abbrev Fits : ℕ → ℕ → Type 0
Fits zero v = v ≡ 0
Fits (suc w) v = Fits w (v / 16)

Fits-16 : (v : ℕ) → v < 2 ^ 64 → Fits 16 v
Fits-16 v h = omega arith

append_snoc : (s t : Text) (d : ℕ) → (s ++ (d ∷ [])) ++ t ≡ s ++ (d ∷ t)
append_snoc [] t d = refl
append_snoc (c ∷ s) t d = ap (λ r. c ∷ r) (append_snoc s t d)

parse_digits-hex_fixed :
    (base0 : Bool) (w v : ℕ) (s : Text)
    → Fits w v
    → v < 2 ^ 64
    → parse_digits (2 ^ 64) base0 16 0 false (hex_fixed w v ++ s)
      ≡ parse_digits (2 ^ 64) base0 16 v false s
unfolding hex_fixed
parse_digits-hex_fixed base0 zero v s fits h =
    ap (λ n. parse_digits (2 ^ 64) base0 16 n false s) (sym fits)
parse_digits-hex_fixed base0 (suc w) v s fits h =
    let d = v % 16 in
    let whole : v / 16 * 16 + v % 16 ≡ v = omega arith in
    ap (parse_digits (2 ^ 64) base0 16 0 false)
      (append_snoc (hex_fixed w (v / 16)) s (hex_digit (v % 16)))
    ∙ parse_digits-hex_fixed base0 w (v / 16) (hex_digit (v % 16) ∷ s) fits (omega arith)
    ∙ parse_digits-digit base0 (v / 16) (v % 16) s (omega arith) (omega arith)
    ∙ ap (λ n. parse_digits (2 ^ 64) base0 16 n false s) whole

Free-snoc :
    (s : Text) (c : ℕ) → Free is_space s → is_space c ≡ false → Free is_space (s ++ (c ∷ []))
Free-snoc [] c h e = (e, tt)
Free-snoc (d ∷ s) c h e = (h.0, Free-snoc s c h.1 e)

pub hex_fixed-Free : (w v : ℕ) → Free is_space (hex_fixed w v)
unfolding hex_fixed
hex_fixed-Free zero v = tt
hex_fixed-Free (suc w) v =
    Free-snoc (hex_fixed w (v / 16)) (hex_digit (v % 16)) (hex_fixed-Free w (v / 16))
      (hex_digit-is_space (v % 16) (omega arith))

hex64-trim : (v : ℕ) → trim_space (hex64 v) ≡ hex64 v
unfolding trim_space
hex64-trim v =
    let free : Free is_space (hex64 v) = (refl, (refl, hex_fixed-Free 16 v)) in
    ap (trim_right is_space) (trim_left-Free is_space _ free) ∙ trim_right-Free is_space _ free

-- the text has more than the two characters of the prefix
split_base-hex : (c : ℕ) (s : Text) → split_base (b'0' ∷ b'x' ∷ c ∷ s) ≡ (16, c ∷ s)
unfolding split_base
split_base-hex c s = refl

parse_uint-hex :
    (c : ℕ) (s : Text) (n : ℕ)
    → parse_digits (2 ^ 64) true 16 0 false (c ∷ s) ≡ ok (n, false)
    → parse_uint (b'0' ∷ b'x' ∷ c ∷ s) ≡ ok n
unfolding parse_uint parse_uint_below is_empty
parse_uint-hex c s n h = rw (split_base-hex c s, h)

parse_uint-printed : (v : ℕ) → v < 2 ^ 64 → parse_uint (hex64 v) ≡ ok v
unfolding hex_fixed parse_digits
parse_uint-printed v h =
    let digits : parse_digits (2 ^ 64) true 16 0 false (hex_fixed 16 v) ≡ ok (v, false) =
      ap (parse_digits (2 ^ 64) true 16 0 false) (sym (append-nil (hex_fixed 16 v)))
      ∙ parse_digits-hex_fixed true 16 v [] (Fits-16 v h) h in
    parse_uint-hex _ _ v digits

-- A number of 64 bits that is printed as an address, in any tool's answer, is the number that a tool
-- reads when that text is its `address_hex`.
pub parse_hex_uint64-hex64 : (v : ℕ) → v < 2 ^ 64 → parse_hex_uint64 (hex64 v) ≡ ok v
unfolding parse_hex_uint64 is_empty
parse_hex_uint64-hex64 v h = rw (hex64-trim v, parse_uint-printed v h)

digits_of :
    (base0 : Bool) (v : ℕ)
    → v < 2 ^ 64
    → parse_digits (2 ^ 64) base0 16 0 false (hex_fixed 16 v) ≡ ok (v, false)
unfolding parse_digits
digits_of base0 v h =
    ap (parse_digits (2 ^ 64) base0 16 0 false) (sym (append-nil (hex_fixed 16 v)))
    ∙ parse_digits-hex_fixed base0 16 v [] (Fits-16 v h) h

in_base_at :
    (c : ℕ) (s : Text) (n : ℕ)
    → parse_digits (2 ^ 64) false 16 0 false (c ∷ s) ≡ ok (n, false)
    → parse_in_base (2 ^ 64) 16 (c ∷ s) ≡ ok n
unfolding parse_in_base is_empty
in_base_at c s n h = rw h

-- the digits on their own, in base 16
pub parse_in_base-hex_fixed :
    (v : ℕ) → v < 2 ^ 64 → parse_in_base (2 ^ 64) 16 (hex_fixed 16 v) ≡ ok v
unfolding hex_fixed
parse_in_base-hex_fixed v h = in_base_at _ _ v (digits_of false v h)
