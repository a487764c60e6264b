-- ===== src/Handlers.antt =====
-- cmd/gokd-mcp/tools.go: the tool handlers, as programs over the calls of the session's bindings. The
-- first argument is the request's context; an error is what `toolErr` wraps into the envelope. This
-- file has what they share, with the shapes of cmd/gokd-mcp/format.go that they answer with.
pub mod Target
pub mod Data
pub mod Faults
pub mod Points
pub mod Settings
pub mod Requests
pub mod Queries
pub mod Ended
use go_kd.Prelude.{ℕ, Bool, true, Option, none, some, List, [], ◌∷◌, ◌==◌, if◌then◌else◌}
use go_kd.Text.{Text, codes, is_empty, trim_space, encode_to_string}
use go_kd.Errors.{Result, ok, err}
use go_kd.Events.{Thread, hex64}
use go_kd.Session.{Program, ◌>>=◌, finish, refuse}
use go_kd.Session.Calls.{Instruction}
use go_kd.Session.Stops.{ExceptionInfo, StopEvent, stop_reason_string}

pub record OkOutput : Type 0 where
  pub done_ok : Bool

-- `okOutput{OK: true}` behind a call
unfoldable pub then_ok : Program (Result Unit) → Program (Result OkOutput)
then_ok m = m >>= λ u. finish (record { done_ok = true })

-- a text that may not be blank
unfoldable pub required : Text → Text → Program (Result Unit)
required text message = if is_empty (trim_space text) then refuse message else finish tt

pub record ThreadInfo : Type 0 where
  pub system_id : ℕ
  pub handle_hex : Text
  pub data_offset_hex : Text
  pub start_offset_hex : Text

unfoldable pub format_thread : Thread → ThreadInfo
format_thread t = record {
  system_id = t.system_id;
  handle_hex = hex64 t.handle;
  data_offset_hex = hex64 t.data_offset;
  start_offset_hex = hex64 t.start_offset;
}

pub record InstructionInfo : Type 0 where
  pub address_hex : Text
  pub text : Text
  pub size : ℕ
  pub bytes_hex : Text

unfoldable pub format_instruction : Instruction → InstructionInfo
format_instruction i = record {
  address_hex = hex64 i.address;
  text = i.text;
  size = i.size;
  bytes_hex = encode_to_string i.bytes;
}

pub record StopExceptionInfo : Type 0 where
  pub code : ℕ
  pub address_hex : Text
  pub first_chance : Bool

pub record StopInfo : Type 0 where
  pub reason : Text
  pub address_hex : Text
  pub thread : Option ThreadInfo
  pub exception : Option StopExceptionInfo

abbrev pub exception_info : ExceptionInfo → StopExceptionInfo
exception_info e = record {
  code = e.code;
  address_hex = hex64 e.address;
  first_chance = e.first_chance;
}

abbrev pub mapped : {A B : Type 0} → (A → B) → Option A → Option B
mapped f none = none
mapped f (some a) = some (f a)

unfoldable pub format_stop_event : StopEvent → StopInfo
format_stop_event ev = record {
  reason = stop_reason_string ev.reason;
  address_hex = hex64 ev.address;
  thread = mapped format_thread ev.thread;
  exception = mapped exception_info ev.exception;
}
