-- ===== src/Handlers/Points.antt =====
-- cmd/gokd-mcp/tools.go: the breakpoint tools.
use go_kd.Prelude.{
  ℕ, Bool, true, false, not, Option, none, some, List, [], ◌∷◌, map, ◌==◌, if◌then◌else◌,
}
use go_kd.Text.{Text, codes, is_empty, trim_space}
use go_kd.Errors.{Result, ok, err}
use go_kd.Events.{hex64}
use go_kd.Breakpoints.{
  Breakpoint, BreakpointInfo, format_breakpoint, match_thread_any, parse_breakpoint_access,
}
use go_kd.Numbers.{parse_hex_uint64}
use go_kd.Session.{Context, Program, bind, ◌>>=◌, finish, refuse, check_context, done}
use go_kd.Session.Calls
use go_kd.Session.Points.{BreakpointOptions}
use go_kd.Session.Points
use go_kd.Handlers.{OkOutput, then_ok, required}
use go_kd.Handlers.Data.{positive}

pub record AddBreakpointOutput : Type 0 where
  pub id : ℕ
  pub address_hex : Text

abbrev pub given_point : Breakpoint → ℕ → AddBreakpointOutput
given_point bp address = record { id = bp.id; address_hex = hex64 address }

-- The answer for a breakpoint on a symbol: an address of 0 is looked up once more, and a failure of
-- that leaves 0.
unfoldable pub resolved_answer : Text → Breakpoint → Program (Result AddBreakpointOutput)
resolved_answer symbol bp =
    if bp.address == 0
    then bind (Calls.name_to_addr symbol) (λ r. elim r [
      | ok resolved ↦ finish (given_point bp resolved)
      | err e ↦ finish (given_point bp 0)
    ])
    else finish (given_point bp bp.address)

abbrev pub equal_tests : Bool → Bool → Bool
equal_tests true b = b
equal_tests false b = not b

-- the two ways to name the place
unfoldable pub add_at : Text → Program (Result AddBreakpointOutput)
add_at address_hex = done (parse_hex_uint64 address_hex) >>= λ address.
    Points.add_breakpoint address >>= λ bp. finish (given_point bp bp.address)

unfoldable pub add_on : Text → Program (Result AddBreakpointOutput)
add_on symbol = Points.add_breakpoint_sym symbol >>= λ bp. resolved_answer symbol bp

unfoldable pub add_breakpoint : Context → Text → Text → Program (Result AddBreakpointOutput)
add_breakpoint ctx address_hex symbol =
    let has_addr = not (is_empty (trim_space address_hex)) in
    let has_sym = not (is_empty (trim_space symbol)) in
    check_context ctx >>= λ u.
    if equal_tests has_addr has_sym
    then refuse (codes "set exactly one of address_hex or symbol")
    else if has_addr
    then add_at address_hex
    else add_on symbol

unfoldable pub remove_breakpoint : Context → ℕ → Program (Result OkOutput)
remove_breakpoint ctx id = check_context ctx >>= λ u. then_ok (Points.remove_breakpoint id)

unfoldable pub enable_breakpoint : Context → ℕ → Bool → Program (Result OkOutput)
enable_breakpoint ctx id enabled =
    check_context ctx >>= λ u. then_ok (Points.enable_breakpoint id enabled)

unfoldable pub list_breakpoints : Context → Program (Result (List BreakpointInfo))
list_breakpoints ctx =
    check_context ctx >>= λ u. Points.breakpoints >>= λ bps. finish (map format_breakpoint bps)

unfoldable pub add_breakpoint_source_line :
    Context → Text → ℕ → Program (Result AddBreakpointOutput)
add_breakpoint_source_line ctx file line = check_context ctx >>= λ u.
    required file (codes "file is required") >>= λ v.
    positive line (codes "line must be >= 1") >>= λ w.
    Points.add_breakpoint_source_line file line >>= λ bp. finish (given_point bp bp.address)

-- an access list must have an entry
abbrev pub some_access : List Text → Program (Result Unit)
some_access [] =
    refuse (codes "access must contain at least one of 'read', 'write', 'execute', 'io'")
some_access (word ∷ words) = finish tt

unfoldable pub add_data_breakpoint :
    Context → Text → ℕ → List Text → Program (Result AddBreakpointOutput)
add_data_breakpoint ctx address_hex size access = check_context ctx >>= λ u.
    done (parse_hex_uint64 address_hex) >>= λ address. some_access access >>= λ v.
    done (parse_breakpoint_access access) >>= λ mask.
    Points.add_data_breakpoint address size mask >>= λ bp. finish (given_point bp bp.address)

-- the options of a `configure_breakpoint` request, whose absent fields are `none`
unfoldable pub options_of : ℕ → Option ℕ → Option Text → BreakpointOptions
options_of pass_count match_thread_id command = record {
  pass_count = pass_count;
  match_thread_id = elim match_thread_id [ none ↦ match_thread_any | some t ↦ t ];
  command = elim command [ none ↦ [] | some c ↦ c ];
  clear_command = elim command [ none ↦ false | some c ↦ is_empty c ];
}

unfoldable pub configure_breakpoint :
    Context → ℕ → ℕ → Option ℕ → Option Text → Program (Result OkOutput)
configure_breakpoint ctx id pass_count match_thread_id command = check_context ctx >>= λ u.
    then_ok (Points.configure_breakpoint id (options_of pass_count match_thread_id command))

unfoldable pub breakpoint_command : Context → ℕ → Program (Result Text)
breakpoint_command ctx id = check_context ctx >>= λ u. Points.breakpoint_command id
