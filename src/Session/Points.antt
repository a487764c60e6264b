-- ===== src/Session/Points.antt =====
-- gokd.go: the breakpoint methods of `session`.
use go_kd.Prelude.{
  ℕ, Bool, true, false, ◌||◌, Option, none, some, List, [], ◌∷◌, ◌==◌, not, if◌then◌else◌,
}
use go_kd.Text.{Text, is_empty}
use go_kd.Errors.{GoError, hresult, Result, ok, err}
use go_kd.Breakpoints.{Breakpoint, match_thread_any}
use go_kd.Session.{
  inner_add_breakpoint, inner_add_breakpoint_sym, inner_add_data_breakpoint,
  inner_configure_breakpoint, inner_breakpoint_command, inner_remove_breakpoint,
  inner_enable_breakpoint, inner_list_breakpoints, Program, done, call, bind, ◌>>=◌, finish,
}
use go_kd.Session.Calls.{direct, line_to_addr}

abbrev pub invalid_argument : GoError
invalid_argument = hresult 0x80070057

unfoldable pub add_breakpoint : ℕ → Program (Result Breakpoint)
add_breakpoint address = direct (inner_add_breakpoint address) >>= λ id. finish (record {
  id = id;
  address = address;
  expression = [];
  enabled = true;
  is_data = false;
  size = 0;
  access = 0;
  pass_count = 0;
  current_pass = 0;
  match_thread_id = 0;
  command = [];
})

unfoldable pub add_breakpoint_sym : Text → Program (Result Breakpoint)
add_breakpoint_sym symbol = direct (inner_add_breakpoint_sym symbol) >>= λ id. finish (record {
  id = id;
  address = 0;
  expression = symbol;
  enabled = true;
  is_data = false;
  size = 0;
  access = 0;
  pass_count = 0;
  current_pass = 0;
  match_thread_id = 0;
  command = [];
})

abbrev pub valid_size : ℕ → Bool
valid_size size = size == 1 || size == 2 || size == 4 || size == 8

unfoldable pub add_data_breakpoint : ℕ → ℕ → ℕ → Program (Result Breakpoint)
add_data_breakpoint address size access =
    if not (valid_size size)
    then done (err invalid_argument)
    else if access == 0
    then done (err invalid_argument)
    else direct (inner_add_data_breakpoint address size access) >>= λ id. finish (record {
      id = id;
      address = address;
      expression = [];
      enabled = true;
      is_data = true;
      size = size;
      access = access;
      pass_count = 0;
      current_pass = 0;
      match_thread_id = match_thread_any;
      command = [];
    })

pub record BreakpointOptions : Type 0 where
  pub pass_count : ℕ
  pub match_thread_id : ℕ
  pub command : Text
  pub clear_command : Bool

-- the command that is handed on: a nil pointer leaves the old one alone
unfoldable pub command_change : BreakpointOptions → Option Text
command_change opts =
    if opts.clear_command
    then some []
    else if is_empty opts.command
    then none
    else some opts.command

unfoldable pub configure_breakpoint : ℕ → BreakpointOptions → Program (Result Unit)
configure_breakpoint id opts =
    let match_tid = if opts.match_thread_id == 0 then match_thread_any else opts.match_thread_id in
    direct (inner_configure_breakpoint id opts.pass_count match_tid (command_change opts))

unfoldable pub breakpoint_command : ℕ → Program (Result Text)
breakpoint_command id = direct (inner_breakpoint_command id)

unfoldable pub remove_breakpoint : ℕ → Program (Result Unit)
remove_breakpoint id = direct (inner_remove_breakpoint id)

unfoldable pub enable_breakpoint : ℕ → Bool → Program (Result Unit)
enable_breakpoint id enabled = direct (inner_enable_breakpoint id enabled)

-- `cmd, _ :=`
abbrev pub or_empty : Result Text → Text
or_empty (ok text) = text
or_empty (err e) = []

abbrev pub with_command : Breakpoint → Text → Breakpoint
with_command b text = record {
  id = b.id;
  address = b.address;
  expression = b.expression;
  enabled = b.enabled;
  is_data = b.is_data;
  size = b.size;
  access = b.access;
  pass_count = b.pass_count;
  current_pass = b.current_pass;
  match_thread_id = b.match_thread_id;
  command = text;
}

-- the loop, which asks for the command of each breakpoint
unfoldable pub with_commands : List Breakpoint → Program (List Breakpoint)
with_commands [] = done []
with_commands (b ∷ bps) =
    call (inner_breakpoint_command b.id)
      (λ r. bind (with_commands bps) (λ rest. done (with_command b (or_empty r) ∷ rest)))

unfoldable pub breakpoints : Program (Result (List Breakpoint))
breakpoints = direct inner_list_breakpoints >>= λ bps. bind (with_commands bps) (λ out. finish out)

unfoldable pub add_breakpoint_source_line : Text → ℕ → Program (Result Breakpoint)
add_breakpoint_source_line file line = line_to_addr file line >>= λ address. add_breakpoint address
