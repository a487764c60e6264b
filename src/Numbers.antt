-- ===== src/Numbers.antt =====
-- cmd/gokd-mcp/format.go: `parseHexUint64`, with what it uses of `strconv.ParseUint` (base 0, 64 bits).
pub mod Printed
use go_kd.Prelude.{
  ℕ, zero, suc, ◌+◌, ◌-◌, ◌*◌, ◌^◌, Bool, true, false, not, ◌&&◌, ◌||◌, Option, none, some, List,
  [], ◌∷◌, ltb, leb, ◌==◌, if◌then◌else◌,
}
use go_kd.Text.{Text, codes, is_empty, trim_space, lower_code}
use go_kd.Errors.{GoError, other, Result, ok, err}

abbrev pub syntax_error : GoError
syntax_error = other (codes "invalid syntax")

abbrev pub range_error : GoError
range_error = other (codes "value out of range")

-- what a character stands for as a digit
unfoldable pub digit_of : ℕ → Option ℕ
digit_of c =
    if leb b'0' c && leb c b'9'
    then some (c - b'0')
    else if leb b'a' (lower_code c) && leb (lower_code c) b'z'
    then some (lower_code c - b'a' + 10)
    else none

-- The loop: the number so far, and whether an underscore was seen, which only base 0 lets pass. The
-- numbers are below a limit, 2^bitSize.
unfoldable pub parse_digits : ℕ → Bool → ℕ → ℕ → Bool → Text → Result (ℕ × Bool)
parse_digits limit base0 base n seen [] = ok (n, seen)
parse_digits limit base0 base n seen (c ∷ s) =
    if base0 && c == b'_' then parse_digits limit base0 base n true s else elim (digit_of c) [
      | none ↦ err syntax_error
      | some d ↦
          if leb base d
          then err syntax_error
          else if ltb (n * base + d) limit
          then parse_digits limit base0 base (n * base + d) seen s
          else err range_error
    ]

-- `underscoreOK` behind a sign and a base prefix: `last` is the class of the character before, a
-- digit `0`, an underscore `1`, or another `2`.
unfoldable pub underscores_from : Bool → ℕ → Text → Bool
underscores_from hex last [] = not (last == 1)
underscores_from hex last (c ∷ s) =
    if (leb b'0' c && leb c b'9') || (hex && leb b'a' (lower_code c) && leb (lower_code c) b'f')
    then underscores_from hex 0 s
    else if c == b'_'
    then (last == 0) && underscores_from hex 1 s
    else not (last == 1) && underscores_from hex 2 s

-- the base of a prefix `0b`, `0o` or `0x`
abbrev pub prefix_base : ℕ → ℕ
prefix_base c =
    if lower_code c == b'b'
    then 2
    else if lower_code c == b'o'
    then 8
    else if lower_code c == b'x'
    then 16
    else 0

unfoldable pub underscore_ok : Text → Bool
underscore_ok [] = true
underscore_ok (c ∷ []) = underscores_from false 2 (c ∷ [])
underscore_ok (c ∷ d ∷ s) =
    if c == b'0' && not (prefix_base d == 0)
    then underscores_from (prefix_base d == 16) 0 s
    else underscores_from false 2 (c ∷ d ∷ s)

-- The base of a text and the text of its digits, for base 0.
unfoldable pub split_base : Text → ℕ × Text
split_base [] = (10, [])
split_base (c ∷ []) = if c == b'0' then (8, []) else (10, c ∷ [])
split_base (c ∷ d ∷ []) = if c == b'0' then (8, d ∷ []) else (10, c ∷ d ∷ [])
split_base (c ∷ d ∷ e ∷ s) =
    if c == b'0'
    then if prefix_base d == 0 then (8, d ∷ e ∷ s) else (prefix_base d, e ∷ s)
    else (10, c ∷ d ∷ e ∷ s)

-- `strconv.ParseUint(s, 0, bitSize)`
unfoldable pub parse_uint_below : ℕ → Text → Result ℕ
parse_uint_below limit s =
    if is_empty s
    then err syntax_error
    else let (base, digits) = split_base s in
      elim (parse_digits limit true base 0 false digits) [
        | err e ↦ err e
        | ok (n, seen) ↦ if seen && not (underscore_ok s) then err syntax_error else ok n
      ]

-- `strconv.ParseUint(s, 0, 64)`
unfoldable pub parse_uint : Text → Result ℕ
parse_uint s = parse_uint_below (2 ^ 64) s

-- `strconv.ParseUint(s, base, bitSize)` for a base that is not 0
unfoldable pub parse_in_base : ℕ → ℕ → Text → Result ℕ
parse_in_base limit base s =
    if is_empty s
    then err syntax_error
    else elim (parse_digits limit false base 0 false s) [ err e ↦ err e | ok (n, seen) ↦ ok n ]

unfoldable pub parse_hex_uint64 : Text → Result ℕ
parse_hex_uint64 text =
    let t = trim_space text in
    if is_empty t then err (other (codes "is required")) else parse_uint t
