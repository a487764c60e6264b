-- ===== src/Session/Stops.antt =====
-- gokd.go: the execution methods of `session` and what they say of a stop.
use go_kd.Prelude.{ℕ, Bool, not, Option, none, some, ◌==◌, ◌++◌, if◌then◌else◌}
use go_kd.Text.{Text, codes, format_d}
use go_kd.Errors.{Result}
use go_kd.Events.{Thread}
use go_kd.Session.{
  Context, EngineStop, inner_go, inner_step_in, inner_step_over, inner_step_out, inner_break_in,
  Program, ◌>>=◌, finish,
}
use go_kd.Session.Calls.{direct, run_with_cancel}

abbrev pub stop_exception : ℕ
stop_exception = 3

-- `StopReason.String`
unfoldable pub stop_reason_string : ℕ → Text
stop_reason_string r =
    if r == 1
    then codes "Breakpoint"
    else if r == 2
    then codes "Step"
    else if r == stop_exception
    then codes "Exception"
    else if r == 4
    then codes "ProcessExit"
    else codes "Unknown(" ++ format_d r ++ codes ")"

pub record ExceptionInfo : Type 0 where
  pub code : ℕ
  pub address : ℕ
  pub first_chance : Bool

pub record StopEvent : Type 0 where
  pub reason : ℕ
  pub address : ℕ
  pub thread : Option Thread
  pub exception : Option ExceptionInfo

unfoldable pub make_stop_event : EngineStop → StopEvent
make_stop_event cev = record {
  reason = cev.reason;
  address = cev.address;
  thread =
      some (record {
        system_id = cev.thread_system_id;
        handle = 0;
        data_offset = 0;
        start_offset = 0;
      });
  exception =
      if cev.reason == stop_exception
      then some (record {
        code = cev.exception_code;
        address = cev.address;
        first_chance = not (cev.exception_first_chance == 0);
      })
      else none;
}

unfoldable pub exec_with_cancel : Context → Program (Result EngineStop) → Program (Result StopEvent)
exec_with_cancel ctx fn = run_with_cancel ctx fn >>= λ cev. finish (make_stop_event cev)

unfoldable pub go : Context → Program (Result StopEvent)
go ctx = exec_with_cancel ctx (direct (inner_go ctx))

unfoldable pub step_in : Context → Program (Result StopEvent)
step_in ctx = exec_with_cancel ctx (direct (inner_step_in ctx))

unfoldable pub step_over : Context → Program (Result StopEvent)
step_over ctx = exec_with_cancel ctx (direct (inner_step_over ctx))

unfoldable pub step_out : Context → Program (Result StopEvent)
step_out ctx = exec_with_cancel ctx (direct (inner_step_out ctx))

unfoldable pub break_in : Program (Result Unit)
break_in = direct inner_break_in
