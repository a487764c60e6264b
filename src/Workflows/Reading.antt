-- ===== src/Workflows/Reading.antt =====
-- `triage_crash`, `get_session_state` and `summarise_target` only read.
use go_kd.Prelude.{ℕ, ◌≡◌, refl, true, Option, none, some, []}
use go_kd.Prelude.Int.{ℤ}
use go_kd.Text.{is_empty}
use go_kd.Errors.{GoError, Result, ok, err}
use go_kd.Events.{Srv}
use go_kd.Listing.{FrameInfo}
use go_kd.Numbers.{parse_hex_uint64}
use go_kd.SessionState.{probe_status}
use go_kd.Session.{Context, LastException, Command, AnswerOf, Program, bind, run}
use go_kd.Session.OnlyCalls.{is_query, OnlyCalls, OnlyCalls-bind, OnlyCalls-done, run-OnlyCalls}
use go_kd.Session.Calls.{BugCheck}
use go_kd.Session.Calls
use go_kd.Session.Points
use go_kd.Handlers.Queries.{
  Reads, checked, asked_both, Reads-if, Reads-modules, Reads-disassemble_range, Reads-breakpoints,
  Reads-bug_check,
}
use go_kd.Workflows.Faults.{
  kept, unreadable, code_start, code_near, nearby_code, faulting_module, triage_rest, unless,
  triage_found, triage_crash,
}
use go_kd.Workflows.Summary.{
  count_of, unasked, view_attached, view_from, session_state, summarise_target,
}

Reads-code_near : (rip : Result ℕ) → Reads (code_near rip)
unfolding code_near
Reads-code_near (err e) = OnlyCalls-done is_query []
Reads-code_near (ok rip) = asked_both _ _ (Reads-disassemble_range 11 (code_start rip))

Reads-nearby_code : (top : Option FrameInfo) → Reads (nearby_code top)
unfolding nearby_code
Reads-nearby_code none = OnlyCalls-done is_query []
Reads-nearby_code (some f) = Reads-code_near (parse_hex_uint64 f.instruction_offset_hex)

Reads-faulting_module : (top : Option FrameInfo) → Reads (faulting_module top)
unfolding faulting_module
Reads-faulting_module none = OnlyCalls-done is_query []
Reads-faulting_module (some f) =
    Reads-if (is_empty f.module_name) _ _ (OnlyCalls-done is_query [])
      (asked_both Calls.modules _ Reads-modules)

-- a part of a chain of parts
part :
    {A B : Type 0} (m : Program A) (k : A → Program B)
    → Reads m
    → ((a : A) → Reads (k a))
    → Reads (bind m k)
part m k = OnlyCalls-bind is_query m k

Reads-triage_rest :
    (max_frames : ℕ) (bc : Option BugCheck) (ex : Option LastException)
    → Reads (triage_rest max_frames bc ex)
unfolding triage_rest Calls.threads Calls.stack Calls.registers OnlyCalls is_query
Reads-triage_rest max_frames bc ex =
    part Calls.threads _ (refl, λ r. tt)
      (λ threads.
        part Calls.stack _ (refl, λ r. tt)
          (λ frames.
            part Calls.registers _ (refl, λ r. tt)
              (λ regs.
                part _ _ (Reads-nearby_code _) (λ code. asked_both _ _ (Reads-faulting_module _)))))

Reads-unless :
    {A : Type 0} (e : Option GoError) (rest : Program (Result A))
    → Reads rest
    → Reads (unless e rest)
Reads-unless none rest h = h
Reads-unless (some e) rest h = OnlyCalls-done is_query (err e)

Reads-triage_crash : (ctx : Context) (max_frames : ℤ) → Reads (triage_crash ctx max_frames)
unfolding triage_crash triage_found Calls.last_exception OnlyCalls is_query
Reads-triage_crash ctx max_frames = checked ctx _ (λ u.
    part Calls.bug_check _ Reads-bug_check (λ bc.
      part Calls.last_exception _ (refl, λ r. tt)
        (λ ex. Reads-unless (unreadable bc ex) _ (Reads-triage_rest _ (kept bc) (kept ex)))))

Reads-view_from : (threads : Result ℕ) → Reads (view_from threads)
unfolding view_from view_attached Calls.radix Calls.expression_syntax Calls.symbol_path OnlyCalls
    is_query
Reads-view_from threads =
    Reads-if (probe_status threads).attached _ _
      (part Calls.modules _ Reads-modules (λ mods.
        part Points.breakpoints _ Reads-breakpoints (λ bps.
          part Calls.radix _ (refl, λ r. tt)
            (λ r.
              part Calls.expression_syntax _ (refl, λ r. tt)
                (λ syn. asked_both Calls.symbol_path _ (refl, λ r. tt))))))
      (OnlyCalls-done is_query (unasked threads))

Reads-session_state : (ctx : Context) (s : Srv) → Reads (session_state ctx s)
unfolding session_state Calls.threads OnlyCalls is_query
Reads-session_state ctx s = checked ctx _ (λ u.
    part Calls.threads _ (refl, λ r. tt) (λ ts. asked_both _ _ (Reads-view_from (count_of ts))))

Reads-summarise_target : (ctx : Context) (s : Srv) → Reads (summarise_target ctx s)
unfolding summarise_target Calls.threads Calls.last_exception OnlyCalls is_query
Reads-summarise_target ctx s = checked ctx _ (λ u. part _ _ (Reads-session_state ctx s) (λ state.
    part Calls.modules _ Reads-modules (λ mods.
      part Calls.threads _ (refl, λ r. tt)
        (λ ths.
          part Calls.last_exception _ (refl, λ r. tt)
            (λ ex. asked_both Calls.bug_check _ Reads-bug_check)))))

-- `triage_crash` and `summarise_target`, with the `get_session_state` that it runs, leave the state of the
-- target as it is, if the calls of the bindings that only read leave it.
pub orientation-kept :
    {M : Type 0} (ctx : Context) (max_frames : ℤ) (s : Srv)
    (engine : (c : Command) → M → AnswerOf c × M)
    → ((c : Command) (m : M) → is_query c ≡ true → (engine c m).1 ≡ m)
    → (m : M)
    → ((run engine (triage_crash ctx max_frames) m).1 ≡ m)
      × ((run engine (summarise_target ctx s) m).1 ≡ m)
orientation-kept ctx max_frames s engine keeps m = (
  run-OnlyCalls is_query engine keeps _ (Reads-triage_crash ctx max_frames) m,
  run-OnlyCalls is_query engine keeps _ (Reads-summarise_target ctx s) m,
)
