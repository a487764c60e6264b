-- ===== src/Breakpoints.antt =====
-- cmd/gokd-mcp/format.go: how a breakpoint is shown and how its access list is read, with the breakpoint
-- of gokd.go. An access mask is a `uint32` whose bits 1, 2, 4 and 8 stand for the four kinds.
pub mod Access
use go_kd.Prelude.{
  ℕ, ◌+◌, ◌/◌, ◌%◌, ◌||◌, Bool, true, false, Option, none, some, List, [], ◌∷◌, ◌++◌, ◌==◌,
  if◌then◌else◌,
}
use go_kd.Text.{Text, codes, is_empty, text_eq, to_lower, trim_space}
use go_kd.Errors.{GoError, other, Result, ok, err}
use go_kd.Events.{hex64}

abbrev pub access_read : ℕ
access_read = 1

abbrev pub access_write : ℕ
access_write = 2

abbrev pub access_execute : ℕ
access_execute = 4

abbrev pub access_io : ℕ
access_io = 8

abbrev pub match_thread_any : ℕ
match_thread_any = 0xFFFFFFFF

-- `mask & bit != 0` and `mask | bit`, for a power of two
abbrev pub has_bit : ℕ → ℕ → Bool
has_bit mask bit = (mask / bit) % 2 == 1

abbrev pub with_bit : ℕ → ℕ → ℕ
with_bit mask bit = if has_bit mask bit then mask else mask + bit

-- The `switch` on one word: the bit to set, `some 0` for a blank word, and `none` for an unknown one.
unfoldable pub access_bit : Text → Option ℕ
access_bit word =
    if text_eq word (codes "read") || text_eq word (codes "r")
    then some access_read
    else if text_eq word (codes "write") || text_eq word (codes "w")
    then some access_write
    else if text_eq word (codes "execute")
        || text_eq word (codes "exec")
        || text_eq word (codes "x")
    then some access_execute
    else if text_eq word (codes "io")
    then some access_io
    else if is_empty word
    then some 0
    else none

-- the loop, with the mask so far
unfoldable pub parse_access_from : ℕ → List Text → Result ℕ
parse_access_from mask [] = ok mask
parse_access_from mask (s ∷ words) = elim (access_bit (to_lower (trim_space s))) [
  | none ↦ err (other (codes "unknown breakpoint access"))
  | some bit ↦ parse_access_from (if bit == 0 then mask else with_bit mask bit) words
]

unfoldable pub parse_breakpoint_access : List Text → Result ℕ
parse_breakpoint_access words = parse_access_from 0 words

abbrev pub shown_bit : ℕ → ℕ → Text → List Text
shown_bit mask bit word = if has_bit mask bit then word ∷ [] else []

-- the access list of `formatBreakpoint`
unfoldable pub format_access : ℕ → List Text
format_access mask =
    if mask == 0
    then []
    else shown_bit mask access_read (codes "read")
      ++ shown_bit mask access_write (codes "write")
      ++ shown_bit mask access_execute (codes "execute")
      ++ shown_bit mask access_io (codes "io")

pub record Breakpoint : Type 0 where
  pub id : ℕ
  pub address : ℕ
  pub expression : Text
  pub enabled : Bool
  pub is_data : Bool
  pub size : ℕ
  pub access : ℕ
  pub pass_count : ℕ
  pub current_pass : ℕ
  pub match_thread_id : ℕ
  pub command : Text

pub record BreakpointInfo : Type 0 where
  pub id : ℕ
  pub address_hex : Text
  pub expression : Text
  pub enabled : Bool
  pub kind : Text
  pub size : ℕ
  pub access : List Text
  pub pass_count : ℕ
  pub current_pass : ℕ
  pub match_thread_id : Option ℕ
  pub command : Text

unfoldable pub format_breakpoint : Breakpoint → BreakpointInfo
format_breakpoint bp = record {
  id = bp.id;
  address_hex = hex64 bp.address;
  expression = bp.expression;
  enabled = bp.enabled;
  kind = if bp.is_data then codes "data" else codes "code";
  size = bp.size;
  access = format_access bp.access;
  pass_count = bp.pass_count;
  current_pass = bp.current_pass;
  match_thread_id =
      if bp.match_thread_id == match_thread_any then none else some bp.match_thread_id;
  command = bp.command;
}
