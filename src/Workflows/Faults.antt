-- ===== src/Workflows/Faults.antt =====
-- cmd/gokd-mcp/workflows.go: `triage_crash`. An absent part of the answer is `none`, or an empty list.
use go_kd.Prelude.{ℕ, ◌-◌, ◌++◌, Option, none, some, List, [], ◌∷◌, map, ltb, if◌then◌else◌}
use go_kd.Prelude.Int.{ℤ}
use go_kd.Text.{Text, codes, is_empty, text_eq, format_x}
use go_kd.Errors.{GoError, Result, ok, err}
use go_kd.Events.{Thread, Module, hex64}
use go_kd.Listing.{
  Frame, FrameInfo, ModuleInfo, format_frame, format_module, limit_within, default_stack_frames,
  max_stack_frames,
}
use go_kd.Numbers.{parse_hex_uint64}
use go_kd.Session.{Context, LastException, Program, bind, ◌>>=◌, finish, check_context, done}
use go_kd.Session.Calls.{BugCheck, Instruction}
use go_kd.Session.Calls
use go_kd.Handlers.{ThreadInfo, format_thread, InstructionInfo, format_instruction}
use go_kd.Handlers.Target.{RegisterMap, all_registers}
use go_kd.Handlers.Data.{is_not_found}
use go_kd.Handlers.Faults.{
  LastExceptionOutput, BugCheckOutput, format_exception, format_bug_check, hex32,
}
use go_kd.Workflows.{capped_at}

pub record TriageCrashOutput : Type 0 where
  pub bug_check : Option BugCheckOutput
  pub exception : Option LastExceptionOutput
  pub faulting_thread : Option ThreadInfo
  pub faulting_frame : Option FrameInfo
  pub stack : List FrameInfo
  pub registers : Option RegisterMap
  pub nearby_code : List InstructionInfo
  pub modules : List ModuleInfo
  pub summary : Text

-- `v, err :=` where the error is dropped
abbrev pub kept {ℓ} : {A : Type ℓ} → Result A → Option A
kept (ok a) = some a
kept (err e) = none

abbrev pub bug_check_part : BugCheck → Text
bug_check_part bc = codes "Bug check 0x" ++ format_x bc.code ++ codes " (" ++ bc.name ++ codes ")"

abbrev pub exception_part : LastException → Text
exception_part ex = codes "Exception " ++ hex32 ex.code ++ codes " at " ++ hex64 ex.address

abbrev pub frame_part : FrameInfo → List Text
frame_part f =
    if is_empty f.function
    then []
    else (codes "at " ++ f.function ++ codes "+0x" ++ format_x f.displacement) ∷ []

-- `strings.Join`
unfoldable pub join : Text → List Text → Text
join sep [] = []
join sep (p ∷ []) = p
join sep (p ∷ q ∷ ps) = p ++ sep ++ join sep (q ∷ ps)

unfoldable pub triage_summary : List Text → Text
triage_summary [] =
    codes
      "No bug check or exception found. Inspect get_session_state and walk_stacks_all to diagnose the stop."
triage_summary (p ∷ parts) = join (codes ". ") (p ∷ parts) ++ codes "."

abbrev pub mapped {ℓ κ} : {A : Type ℓ} {B : Type κ} → (A → B) → Option A → Option B
mapped f none = none
mapped f (some a) = some (f a)

abbrev pub listed {ℓ κ} : {A : Type ℓ} {B : Type κ} → (A → B) → Option A → List B
listed f none = []
listed f (some a) = f a ∷ []

abbrev pub first_of {ℓ} : {A : Type ℓ} → List A → Option A
first_of [] = none
first_of (a ∷ as_) = some a

-- Whether both records are out of reach: then the error of the exception is the answer.
unfoldable pub unreadable : Result BugCheck → Result LastException → Option GoError
unreadable bc (ok ex) = none
unreadable (ok bc) (err e) = none
unreadable (err e₁) (err e) = if is_not_found e then none else some e

-- twenty bytes before the faulting instruction
unfoldable pub code_start : ℕ → ℕ
code_start rip = if ltb rip 20 then rip else rip - 20

abbrev pub shown_code : Result (List Instruction) → List InstructionInfo
shown_code (ok ins) = map format_instruction ins
shown_code (err e) = []

unfoldable pub code_near : Result ℕ → Program (List InstructionInfo)
code_near (err e) = done []
code_near (ok rip) = bind (Calls.disassemble_range (code_start rip) 11) (λ r. done (shown_code r))

-- the code at the address that the top frame shows
unfoldable pub nearby_code : Option FrameInfo → Program (List InstructionInfo)
nearby_code none = done []
nearby_code (some f) = code_near (parse_hex_uint64 f.instruction_offset_hex)

-- the first module of a name
unfoldable pub module_named : Text → List Module → List ModuleInfo
module_named name [] = []
module_named name (m ∷ ms) =
    let rest = module_named name ms in
    if text_eq m.module_name name then format_module m ∷ [] else rest

unfoldable pub named_among : Text → Result (List Module) → List ModuleInfo
named_among name (ok ms) = module_named name ms
named_among name (err e) = []

unfoldable pub faulting_module : Option FrameInfo → Program (List ModuleInfo)
faulting_module none = done []
faulting_module (some f) =
    if is_empty f.module_name
    then done []
    else bind Calls.modules (λ r. done (named_among f.module_name r))

-- the frames that are shown
unfoldable pub shown_stack : ℕ → Result (List Frame) → List FrameInfo
shown_stack max_frames (ok frames) = map format_frame (capped_at max_frames frames)
shown_stack max_frames (err e) = []

-- the first thread that is listed
unfoldable pub shown_thread : Result (List Thread) → Option ThreadInfo
shown_thread (ok (th ∷ ths)) = some (format_thread th)
shown_thread (ok []) = none
shown_thread (err e) = none

-- What follows the two records.
unfoldable pub triage_rest :
    ℕ → Option BugCheck → Option LastException → Program (Result TriageCrashOutput)
triage_rest max_frames bc ex = bind Calls.threads (λ threads. bind Calls.stack (λ frames.
    let stack = shown_stack max_frames frames in
    let top : Option FrameInfo = first_of stack in
    bind Calls.registers (λ regs. bind (nearby_code top) (λ code.
      bind (faulting_module top) (λ mods. finish (record {
        bug_check = mapped format_bug_check bc;
        exception = mapped format_exception ex;
        faulting_thread = shown_thread threads;
        faulting_frame = top;
        stack = stack;
        registers = mapped (all_registers []) (kept regs);
        nearby_code = code;
        modules = mods;
        summary = triage_summary (
            listed bug_check_part bc
            ++ listed exception_part ex
            ++ (elim top [ none ↦ [] | some f ↦ frame_part f ]));
      }))))))

-- `return toolErr(…, err)` for the error that there is
abbrev pub unless : {A : Type 0} → Option GoError → Program (Result A) → Program (Result A)
unless none rest = rest
unless (some e) rest = done (err e)

unfoldable pub triage_found :
    ℕ → Result BugCheck → Result LastException → Program (Result TriageCrashOutput)
triage_found max_frames bc ex =
    unless (unreadable bc ex) (triage_rest max_frames (kept bc) (kept ex))

unfoldable pub triage_crash : Context → ℤ → Program (Result TriageCrashOutput)
triage_crash ctx max_frames = check_context ctx >>= λ u. bind Calls.bug_check (λ bc.
    bind Calls.last_exception
      (λ ex. triage_found (limit_within default_stack_frames max_stack_frames max_frames) bc ex))
