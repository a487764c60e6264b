-- ===== src/Handlers/Target.antt =====
-- cmd/gokd-mcp/tools.go: the tools that choose a target, run it, and read or change its threads and
-- registers.
use go_kd.Prelude.{ℕ, Bool, true, false, Option, none, some, List, [], ◌∷◌, map, if◌then◌else◌}
use go_kd.Prelude.Int.{ℤ}
use go_kd.Text.{Text, codes, trim_space, to_lower}
use go_kd.Errors.{Result, ok, err, other}
use go_kd.Events.{hex64}
use go_kd.Numbers.{parse_uint}
use go_kd.Session.{
  Context, Register, Program, ◌>>=◌, finish, check_context, context_with_seconds, done,
}
use go_kd.Session.Calls
use go_kd.Session.Stops.{StopEvent}
use go_kd.Session.Stops
use go_kd.Handlers.{
  OkOutput, then_ok, required, ThreadInfo, format_thread, StopInfo, format_stop_event,
}

unfoldable pub attach_process : Context → ℕ → Program (Result OkOutput)
attach_process ctx pid = check_context ctx >>= λ u. then_ok (Calls.attach_process pid 0)

unfoldable pub create_process : Context → Text → Bool → Program (Result OkOutput)
create_process ctx command_line initial_break = check_context ctx >>= λ u.
    required command_line (codes "command_line is required") >>= λ v.
    then_ok (Calls.create_process command_line 1 initial_break)

unfoldable pub open_dump : Context → Text → Program (Result OkOutput)
open_dump ctx path = check_context ctx >>= λ u.
    required path (codes "path is required") >>= λ v. then_ok (Calls.open_dump path)

unfoldable pub attach_kernel : Context → Text → ℤ → Bool → Program (Result OkOutput)
attach_kernel parent_ctx connection timeout passive =
    done (context_with_seconds parent_ctx timeout) >>= λ ctx.
    required connection (codes "connection_string is required") >>= λ v.
    then_ok (Calls.attach_kernel ctx connection (if passive then false else true))

unfoldable pub detach : Context → Program (Result OkOutput)
detach ctx = check_context ctx >>= λ u. then_ok Calls.detach

unfoldable pub connect_remote : Context → Text → Program (Result OkOutput)
connect_remote ctx connection = check_context ctx >>= λ u.
    required connection (codes "connection is required") >>= λ v.
    then_ok (Calls.connect_remote connection)

unfoldable pub disconnect_remote : Context → Program (Result OkOutput)
disconnect_remote ctx = check_context ctx >>= λ u. then_ok Calls.disconnect_remote

unfoldable pub get_threads : Context → Program (Result (List ThreadInfo))
get_threads ctx = check_context ctx >>= λ u. Calls.threads >>= λ ts. finish (map format_thread ts)

unfoldable pub set_thread : Context → ℕ → Program (Result OkOutput)
set_thread ctx system_id = check_context ctx >>= λ u. then_ok (Calls.set_thread system_id)

-- A map from register names to values: the first entry of a name counts.
abbrev pub RegisterMap : Type 0
RegisterMap = List (Text × Text)

-- `if r.Valid { out[r.Name] = hex64(r.Value) }`
unfoldable pub put_register : Register → RegisterMap → RegisterMap
put_register r out = if r.valid then (r.name, hex64 r.value) ∷ out else out

unfoldable pub all_registers : RegisterMap → List Register → RegisterMap
all_registers out [] = out
all_registers out (r ∷ rs) = all_registers (put_register r out) rs

-- a name as it is, or else in lower case
unfoldable pub find_register : List Register → Text → Option Register
find_register regs name = elim (Calls.by_name regs name) [
  | some r ↦ some r
  | none ↦ Calls.by_name regs (to_lower name)
]

unfoldable pub named_registers : List Register → RegisterMap → List Text → RegisterMap
named_registers regs out [] = out
named_registers regs out (name ∷ names) =
    let next : RegisterMap = elim (find_register regs name) [
      | none ↦ out
      | some r ↦ put_register r out
    ] in
    named_registers regs next names

unfoldable pub select_registers : List Register → List Text → RegisterMap
select_registers regs [] = all_registers [] regs
select_registers regs (name ∷ names) = named_registers regs [] (name ∷ names)

unfoldable pub get_registers : Context → List Text → Program (Result RegisterMap)
get_registers ctx names =
    check_context ctx >>= λ u. Calls.registers >>= λ regs. finish (select_registers regs names)

-- `fmt.Errorf("invalid …: %w", err)`, whose text is the constant part
abbrev pub as_invalid : {A : Type 0} → Text → Result A → Result A
as_invalid message (ok a) = ok a
as_invalid message (err e) = err (other message)

unfoldable pub set_register : Context → Text → Text → Program (Result OkOutput)
set_register ctx name value_hex = check_context ctx >>= λ u.
    done (as_invalid (codes "invalid value_hex") (parse_uint (trim_space value_hex))) >>= λ value.
    then_ok (Calls.set_register name value)

unfoldable pub run_execution :
    Context → ℤ → (Context → Program (Result StopEvent)) → Program (Result StopInfo)
run_execution parent_ctx timeout fn = done (context_with_seconds parent_ctx timeout) >>= λ ctx.
    fn ctx >>= λ ev. finish (format_stop_event ev)

unfoldable pub go_execution : Context → ℤ → Program (Result StopInfo)
go_execution ctx timeout = run_execution ctx timeout Stops.go

unfoldable pub step_in : Context → ℤ → Program (Result StopInfo)
step_in ctx timeout = run_execution ctx timeout Stops.step_in

unfoldable pub step_over : Context → ℤ → Program (Result StopInfo)
step_over ctx timeout = run_execution ctx timeout Stops.step_over

unfoldable pub step_out : Context → ℤ → Program (Result StopInfo)
step_out ctx timeout = run_execution ctx timeout Stops.step_out

unfoldable pub break_in : Context → Program (Result OkOutput)
break_in ctx = check_context ctx >>= λ u. then_ok Stops.break_in
