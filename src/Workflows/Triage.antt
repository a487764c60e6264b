-- ===== src/Workflows/Triage.antt =====
-- When `triage_crash` answers, and what of the two fault records its answer has.
use mathlib.Core.Path.{subst}
use go_kd.Prelude.{ℕ, ◌≡◌, refl, sym, ◌∙◌, ap, Bool, true, false, Option, none, some, if◌then◌else◌}
use go_kd.Errors.{GoError, Result, ok, err}
use go_kd.Handlers.Faults.{format_exception, format_bug_check}
use go_kd.Handlers.Data.{is_not_found}
use go_kd.Prelude.Int.{ℤ}
use go_kd.Listing.{limit_within, default_stack_frames, max_stack_frames}
use go_kd.Session.{
  Context, LastException, Command, AnswerOf, Program, bind, ◌>>=◌, finish, run, ended,
  check_context, context_err,
}
use go_kd.Session.Calls.{BugCheck}
use go_kd.Session.Calls
use go_kd.Session.Runs.{run-bind}
use go_kd.Workflows.Faults.{
  unless, TriageCrashOutput, kept, mapped, unreadable, triage_rest, triage_found, triage_crash,
}

module _ {M : Type 0} (engine : (c : Command) → M → AnswerOf c × M) where
  -- The run returns a value, and the value has a property.
  Answers : {A : Type 0} → (A → Type 0) → Program (Result A) → Type 0
  Answers {A = A} P p = (m : M) → (a : A) × ((run engine p m).0 ≡ ok a) × P a

  Answers-bind :
      {A B : Type 0} (P : B → Type 0) (p : Program A) (k : A → Program (Result B))
      → ((a : A) → Answers P (k a))
      → Answers P (bind p k)
  unfolding Answers
  Answers-bind P p k h m =
      let (b, e, holds) = h (run engine p m).0 (run engine p m).1 in
      (b, ap (λ r. r.0) (run-bind engine p k m) ∙ e, holds)

  Answers-finish : {A : Type 0} (P : A → Type 0) (a : A) → P a → Answers P (finish a)
  unfolding Answers run
  Answers-finish P a h m = (a, refl, h)

  -- both fault records as they were read
  abbrev pub Shows : Option BugCheck → Option LastException → TriageCrashOutput → Type 0
  Shows bc ex out =
      (out.bug_check ≡ mapped format_bug_check bc) × (out.exception ≡ mapped format_exception ex)

  triage_rest-Answers :
      (max_frames : ℕ) (bc : Option BugCheck) (ex : Option LastException)
      → Answers (Shows bc ex) (triage_rest max_frames bc ex)
  unfolding triage_rest
  triage_rest-Answers max_frames bc ex = Answers-bind _ _ _ (λ threads.
      Answers-bind _ _ _ (λ frames. Answers-bind _ _ _ (λ regs.
        Answers-bind _ _ _ (λ code. Answers-bind _ _ _ (λ mods. Answers-finish _ _ (refl, refl))))))

  -- the tool answers with the given records
  abbrev pub Shown : Option BugCheck → Option LastException → Result TriageCrashOutput → Type 0
  Shown bc ex r = (out : TriageCrashOutput) × (r ≡ ok out) × Shows bc ex out

  -- where neither record was read: by whether the exception's error says that there is none
  abbrev pub NeitherRead : Bool → GoError → Result TriageCrashOutput → Type 0
  NeitherRead true e r = Shown none none r
  NeitherRead false e r = r ≡ err e

  -- what `triage_crash` returns for the answers about the two records
  abbrev pub Outcome : Result BugCheck → Result LastException → Result TriageCrashOutput → Type 0
  Outcome bc (ok ex) r = Shown (kept bc) (some ex) r
  Outcome (ok bc) (err e) r = Shown (some bc) none r
  Outcome (err e') (err e) r = NeitherRead (is_not_found e) e r

  at_error :
      (max_frames : ℕ) (e : GoError) (m : M) (b : Bool)
      → is_not_found e ≡ b
      → (run engine (triage_found max_frames (err e) (err e)) m).0
        ≡ (run engine (unless (if b then none else some e) (triage_rest max_frames none none)) m).0
  unfolding triage_found unreadable
  at_error max_frames e m b h =
      ap
        (λ t.
          (run engine (unless (if t then none else some e) (triage_rest max_frames none none)) m).0)
        h

  neither_read :
      (max_frames : ℕ) (e : GoError) (m : M) (b : Bool)
      → is_not_found e ≡ b
      → NeitherRead b e (run engine (triage_found max_frames (err e) (err e)) m).0
  unfolding run Answers
  neither_read max_frames e m true h =
      let (out, answered, shown) = triage_rest-Answers max_frames none none m in
      (out, at_error max_frames e m true h ∙ answered, shown)
  neither_read max_frames e m false h = at_error max_frames e m false h

  triage_found-Outcome :
      (max_frames : ℕ) (bc : Result BugCheck) (ex : Result LastException) (m : M)
      → Outcome bc ex (run engine (triage_found max_frames bc ex) m).0
  unfolding triage_found unreadable Answers
  triage_found-Outcome max_frames bc (ok ex) m =
      triage_rest-Answers max_frames (kept bc) (some ex) m
  triage_found-Outcome max_frames (ok bc) (err e) m =
      triage_rest-Answers max_frames (some bc) none m
  triage_found-Outcome max_frames (err e') (err e) m =
      neither_read max_frames e m (is_not_found e) refl

  -- What the tool returns from the state `m`, by the context's answer: its error, or the outcome for the
  -- answers that the bug check and then the exception give.
  abbrev pub Triaged : Option GoError → M → Result TriageCrashOutput → Type 0
  Triaged (some e) m r = r ≡ err e
  Triaged none m r =
      Outcome (run engine Calls.bug_check m).0
        (run engine Calls.last_exception (run engine Calls.bug_check m).1).0 r

  -- what follows the context's check
  records : ℤ → Program (Result TriageCrashOutput)
  records max_frames = bind Calls.bug_check (λ bc.
      bind Calls.last_exception
        (λ ex. triage_found (limit_within default_stack_frames max_stack_frames max_frames) bc ex))

  records-Triaged : (max_frames : ℤ) (m : M) → Triaged none m (run engine (records max_frames) m).0
  unfolding records
  records-Triaged max_frames m =
      subst (Outcome _ _)
        (sym (
          ap (λ r. r.0)
            (run-bind engine Calls.bug_check _ m ∙ run-bind engine Calls.last_exception _ _)))
        (triage_found-Outcome _ _ _ _)

  checked-Triaged :
      (max_frames : ℤ) (o : Option GoError) (m : M)
      → Triaged o m (run engine (ended o >>= λ u. records max_frames) m).0
  unfolding ended ◌>>=◌ bind
  checked-Triaged max_frames none m = records-Triaged max_frames m
  checked-Triaged max_frames (some e) m = unfold run in refl

  -- If its context has ended, `triage_crash` returns the context's error. Otherwise, if neither the bug
  -- check nor the exception can be read, and the latter for another reason than that there is none, it
  -- returns the exception's error; in all other cases it answers, whatever the other calls return, and
  -- shows those of the two records that were read.
  pub triage_crash-Triaged :
      (ctx : Context) (max_frames : ℤ) (m : M)
      → Triaged
          (engine (context_err ctx) m).0
          (engine (context_err ctx) m).1
          (run engine (triage_crash ctx max_frames) m).0
  unfolding triage_crash check_context run ◌>>=◌ bind records
  triage_crash-Triaged ctx max_frames m =
      checked-Triaged max_frames (engine (context_err ctx) m).0 (engine (context_err ctx) m).1
