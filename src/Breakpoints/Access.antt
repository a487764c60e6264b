-- ===== src/Breakpoints/Access.antt =====
-- The access list of a shown breakpoint, read back. The sixteen masks are checked one by one.
use go_kd.Prelude.{ℕ, ◌<◌, ◌≡◌, refl, ap, ◌==◌, Bool, true, false, arith, all_below, all_below-at}
use go_kd.Text.{is_empty, text_eq, to_lower, trim_space, trim_left, trim_right}
use go_kd.Errors.{Result, ok, err}
use go_kd.Breakpoints.{
  Breakpoint, format_breakpoint, access_bit, parse_access_from, parse_breakpoint_access,
  format_access,
}

abbrev is_value : ℕ → Result ℕ → Bool
is_value m (ok k) = k == m
is_value m (err e) = false

is_value-eq : (m : ℕ) (r : Result ℕ) → is_value m r ≡ true → r ≡ ok m
is_value-eq m (ok k) h = let same : k ≡ m = ground arith in ap ok same
is_value-eq m (err e) h = ground arith

reads_back : ℕ → Bool
reads_back m = is_value m (parse_breakpoint_access (format_access m))

reads_back-all : all_below reads_back 16 ≡ true
unfolding reads_back parse_breakpoint_access parse_access_from access_bit format_access text_eq
    is_empty to_lower trim_space trim_left trim_right
reads_back-all = refl

-- For a breakpoint whose access mask has no bits but those of the four kinds, the access list that a
-- client is shown is read back as the same mask.
pub parse_breakpoint_access-format_breakpoint :
    (bp : Breakpoint)
    → bp.access < 16
    → parse_breakpoint_access (format_breakpoint bp).access ≡ ok bp.access
unfolding format_breakpoint reads_back
parse_breakpoint_access-format_breakpoint bp h =
    is_value-eq bp.access _ (all_below-at reads_back 16 bp.access reads_back-all h)
