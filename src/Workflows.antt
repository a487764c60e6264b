-- ===== src/Workflows.antt =====
-- cmd/gokd-mcp/workflows.go: the composite tools `walk_stacks_all`, `triage_crash` and `summarise_target`,
-- as programs over the session's methods. A failed call of theirs is passed over, but for the listing
-- of the threads of `walk_stacks_all`.
pub mod Stacks
pub mod Faults
pub mod Triage
pub mod Summary
pub mod Reading
use go_kd.Prelude.{
  ℕ, Bool, true, false, not, Option, none, some, List, [], ◌∷◌, map, ltb, length, take, ◌==◌,
  if◌then◌else◌,
}
use go_kd.Prelude.Int.{ℤ}
use go_kd.Text.{Text, codes}
use go_kd.Errors.{Result, ok, err}
use go_kd.Events.{Thread}
use go_kd.Listing.{
  Frame, FrameInfo, format_frame, limit_within, default_stack_frames, max_stack_frames,
}
use go_kd.Session.{Context, Register, Program, bind, ◌>>=◌, finish, check_context, done}
use go_kd.Session.Calls
use go_kd.Handlers.{ThreadInfo, format_thread}
use go_kd.Handlers.Target.{RegisterMap, all_registers}

abbrev pub default_walk_stack_frames : ℕ
default_walk_stack_frames = 32

abbrev pub default_walk_stack_threads : ℕ
default_walk_stack_threads = 64

abbrev pub max_walk_stack_threads : ℕ
max_walk_stack_threads = 256

pub record ThreadStack : Type 0 where
  pub thread : ThreadInfo
  pub frames : List FrameInfo
  pub truncated : Bool
  pub registers : Option RegisterMap
  pub caveat : Text

-- the first so many of a list
abbrev pub capped_at : {A : Type 0} → ℕ → List A → List A
capped_at limit xs = if ltb limit (length xs) then take limit xs else xs

-- An entry from the answer to `Stack`, but for its registers. Error texts are the constant part.
unfoldable pub stack_entry : ℕ → Thread → Result (List Frame) → ThreadStack
stack_entry max_frames th (ok frames) = record {
  thread = format_thread th;
  frames = map format_frame (capped_at max_frames frames);
  truncated = ltb max_frames (length frames);
  registers = none;
  caveat = [];
}
stack_entry max_frames th (err e) = record {
  thread = format_thread th;
  frames = [];
  truncated = false;
  registers = none;
  caveat = codes "Stack() failed";
}

unfoldable pub unswitched : Thread → ThreadStack
unswitched th = record {
  thread = format_thread th;
  frames = [];
  truncated = false;
  registers = none;
  caveat = codes "set_thread failed";
}

unfoldable pub with_registers : ThreadStack → Result (List Register) → ThreadStack
with_registers entry (err e) = entry
with_registers entry (ok regs) = record {
  thread = entry.thread;
  frames = entry.frames;
  truncated = entry.truncated;
  registers = some (all_registers [] regs);
  caveat = entry.caveat;
}

-- the registers, if they are asked for
unfoldable pub finish_entry : Bool → ThreadStack → Program ThreadStack
finish_entry false entry = done entry
finish_entry true entry = bind Calls.registers (λ r. done (with_registers entry r))

-- the body of the loop behind `SetThread`
unfoldable pub walk_switched : ℕ → Bool → Thread → Result (Unit {0}) → Program ThreadStack
walk_switched max_frames include th (err e) = done (unswitched th)
walk_switched max_frames include th (ok u) =
    bind Calls.stack (λ frames. finish_entry include (stack_entry max_frames th frames))

unfoldable pub walk_thread : ℕ → Bool → Thread → Program ThreadStack
walk_thread max_frames include th =
    bind (Calls.set_thread th.system_id) (walk_switched max_frames include th)

unfoldable pub walk_threads : ℕ → Bool → List Thread → Program (List ThreadStack)
walk_threads max_frames include [] = done []
walk_threads max_frames include (th ∷ ths) =
    bind (walk_thread max_frames include th)
      (λ entry. bind (walk_threads max_frames include ths) (λ rest. done (entry ∷ rest)))

-- `origTID`, the id of the first thread
unfoldable pub first_thread : List Thread → ℕ
first_thread [] = 0
first_thread (th ∷ ths) = th.system_id

unfoldable pub restore : ℕ → Program (Result Unit)
restore orig = if orig == 0 then finish tt else Calls.set_thread orig

pub record WalkStacksAllOutput : Type 0 where
  pub items : List ThreadStack
  pub returned : ℕ
  pub total_threads : ℕ
  pub truncated : Bool

-- What follows once the threads are listed and the limits are known.
unfoldable pub walk_listed : ℕ → ℕ → Bool → List Thread → Program (Result WalkStacksAllOutput)
walk_listed max_frames max_threads include threads =
    let walked = capped_at max_threads threads in
    bind (walk_threads max_frames include walked) (λ items.
      bind (restore (first_thread walked)) (λ r. finish (record {
        items = items;
        returned = length items;
        total_threads = length threads;
        truncated = ltb max_threads (length threads);
      })))

unfoldable pub walk_stacks_all : Context → ℤ → ℤ → Bool → Program (Result WalkStacksAllOutput)
walk_stacks_all ctx max_frames max_threads include = check_context ctx >>= λ u.
    Calls.threads >>= λ threads.
    walk_listed (limit_within default_walk_stack_frames max_stack_frames max_frames)
      (limit_within default_walk_stack_threads max_walk_stack_threads max_threads) include threads
