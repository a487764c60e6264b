-- ===== src/Workflows/Stacks.antt =====
-- What `walk_stacks_all` shows, and the thread that it leaves current.
use go_kd.Prelude.{
  ℕ, zero, suc, ◌<◌, ◌≡◌, ◌≢◌, refl, ◌∙◌, ap, Bool, true, false, List, [], ◌∷◌, map, length,
  length-map, take_of_length-le, ltb, ◌==◌, take, arith, if◌then◌else◌,
}
use go_kd.Errors.{Result, ok}
use go_kd.Events.{Thread}
use go_kd.Listing.{Frame}
use go_kd.Session.{
  Register, Command, AnswerOf, bind, finish, run, inner_get_registers, inner_get_stack,
  inner_set_current_thread,
}
use go_kd.Session.Calls
use go_kd.Session.Runs.{run-bind_at}
use go_kd.Workflows.{
  ThreadStack, capped_at, stack_entry, with_registers, finish_entry, walk_switched, walk_thread,
  walk_threads, first_thread, restore, walk_listed,
}

-- the entry of a thread with that thread's stack and registers
abbrev pub own_entry :
    (ℕ → Result (List Frame)) → (ℕ → Result (List Register)) → ℕ → Bool → Thread → ThreadStack
own_entry stacks registers max_frames false th = stack_entry max_frames th (stacks th.system_id)
own_entry stacks registers max_frames true th =
    with_registers (stack_entry max_frames th (stacks th.system_id)) (registers th.system_id)

capped_at-take : {A : Type 0} (n : ℕ) (xs : List A) → capped_at n xs ≡ take n xs
capped_at-take n xs = ground (arith, take_of_length-le n xs)

ne→eqb : (a : ℕ) → a ≢ 0 → (a == 0) ≡ false
ne→eqb a h = ground arith

-- Bindings with a current thread: switching succeeds, and stacks and registers are the current
-- thread's.
module _ {M : Type 0} (engine : (c : Command) → M → AnswerOf c × M) (current : M → ℕ)
    (switch : ℕ → M → M) (stacks : ℕ → Result (List Frame)) (registers : ℕ → Result (List Register))
    (switches : (id : ℕ) (m : M) → engine (inner_set_current_thread id) m ≡ (ok tt, switch id m))
    (switched : (id : ℕ) (m : M) → current (switch id m) ≡ id)
    (shows_stack : (n : ℕ) (m : M) → engine (inner_get_stack n) m ≡ (stacks (current m), m))
    (shows_registers : (m : M) → engine inner_get_registers m ≡ (registers (current m), m)) where
  entry_finished :
      (include : Bool) (max_frames : ℕ) (th : Thread) (m : M)
      → current m ≡ th.system_id
      → run engine (finish_entry include (stack_entry max_frames th (stacks (current m)))) m
        ≡ (own_entry stacks registers max_frames include th, m)
  unfolding finish_entry run bind Calls.registers
  entry_finished false max_frames th m at = ap (λ id. (stack_entry max_frames th (stacks id), m)) at
  entry_finished true max_frames th m at =
      ap (λ r. (with_registers (stack_entry max_frames th (stacks (current m))) r.0, r.1))
        (shows_registers m)
      ∙ ap (λ id. (with_registers (stack_entry max_frames th (stacks id)) (registers id), m)) at

  walk_switched-own :
      (max_frames : ℕ) (include : Bool) (th : Thread) (m : M)
      → current m ≡ th.system_id
      → run engine (walk_switched max_frames include th (ok tt)) m
        ≡ (own_entry stacks registers max_frames include th, m)
  unfolding walk_switched run bind Calls.stack
  walk_switched-own max_frames include th m at =
      ap (λ r. run engine (finish_entry include (stack_entry max_frames th r.0)) r.1)
        (shows_stack 256 m)
      ∙ entry_finished include max_frames th m at

  walk_thread-own :
      (max_frames : ℕ) (include : Bool) (th : Thread) (m : M)
      → run engine (walk_thread max_frames include th) m
        ≡ (own_entry stacks registers max_frames include th, switch th.system_id m)
  unfolding walk_thread run bind Calls.set_thread
  walk_thread-own max_frames include th m =
      ap (λ r. run engine (walk_switched max_frames include th r.0) r.1) (switches th.system_id m)
      ∙ walk_switched-own max_frames include th (switch th.system_id m) (switched th.system_id m)

  -- the state behind the loop
  unfoldable switch_all : List Thread → M → M
  switch_all [] m = m
  switch_all (th ∷ ths) m = switch_all ths (switch th.system_id m)

  walk_threads-own :
      (max_frames : ℕ) (include : Bool) (ths : List Thread) (m : M)
      → run engine (walk_threads max_frames include ths) m
        ≡ (map (own_entry stacks registers max_frames include) ths, switch_all ths m)
  unfolding walk_threads run switch_all
  walk_threads-own max_frames include [] m = refl
  walk_threads-own max_frames include (th ∷ ths) m =
      run-bind_at engine (walk_thread max_frames include th) _ m
        (walk_thread-own max_frames include th m)
      ∙ run-bind_at engine (walk_threads max_frames include ths) _ (switch th.system_id m)
          (walk_threads-own max_frames include ths (switch th.system_id m))

  unfoldable restored : ℕ → M → M
  restored orig m = if orig == 0 then m else switch orig m

  run-restore : (orig : ℕ) (m : M) → run engine (restore orig) m ≡ (ok tt, restored orig m)
  unfolding restore restored run Calls.set_thread
  run-restore orig m = restore_at (orig == 0)
    where
      restore_at :
          (none_yet : Bool)
          → run engine (if none_yet then finish tt else Calls.set_thread orig) m
            ≡ (ok tt, if none_yet then m else switch orig m)
      restore_at true = refl
      restore_at false = switches orig m

  run-walk_listed :
      (max_frames max_threads : ℕ) (include : Bool) (threads : List Thread) (m : M)
      → run engine (walk_listed max_frames max_threads include threads) m ≡ (
        ok (record {
          items =
              map (own_entry stacks registers max_frames include) (capped_at max_threads threads);
          returned =
              length (
                map
                  (own_entry stacks registers max_frames include)
                  (capped_at max_threads threads));
          total_threads = length threads;
          truncated = ltb max_threads (length threads);
        }),
        restored
            (first_thread (capped_at max_threads threads))
            (switch_all (capped_at max_threads threads) m),
      )
  unfolding walk_listed run
  run-walk_listed max_frames max_threads include threads m =
      let walked = capped_at max_threads threads in
      run-bind_at engine (walk_threads max_frames include walked) _ m
        (walk_threads-own max_frames include walked m)
      ∙ run-bind_at engine (restore (first_thread walked)) _ (switch_all walked m)
          (run-restore (first_thread walked) (switch_all walked m))

  -- The items of `walk_stacks_all` are the first `max_threads` threads in the listing's order, each with its
  -- own stack (and its own registers, if they are asked for), whichever thread was current before; the
  -- bindings switch, and show the current thread.
  pub walk_listed-own_stacks :
      (max_frames max_threads : ℕ) (include : Bool) (threads : List Thread) (m : M)
      → (run engine (walk_listed max_frames max_threads include threads) m).0
        ≡ ok (record {
          items = map (own_entry stacks registers max_frames include) (take max_threads threads);
          returned = length (take max_threads threads);
          total_threads = length threads;
          truncated = ltb max_threads (length threads);
        })
  walk_listed-own_stacks max_frames max_threads include threads m =
      ap (λ r. r.0) (run-walk_listed max_frames max_threads include threads m)
      ∙ rw (
        capped_at-take max_threads threads,
        length-map (own_entry stacks registers max_frames include) (take max_threads threads),
      )

  left_current :
      (max_threads : ℕ) (th : Thread) (ths : List Thread) (m : M)
      → 0 < max_threads
      → th.system_id ≢ 0
      → current (restored (first_thread (capped_at max_threads (th ∷ ths))) m) ≡ th.system_id
  unfolding restored first_thread
  left_current zero th ths m some_thread id = absurd (omega arith)
  left_current (suc n) th ths m some_thread id =
      rw (capped_at-take (suc n) (th ∷ ths), ne→eqb (th.system_id) id, switched th.system_id m)

  -- The thread that `walk_stacks_all` leaves current is the first one of the listing, if it walks any and
  -- that thread's id is not 0, and not the one that was current before.
  pub walk_listed-current :
      (max_frames max_threads : ℕ) (include : Bool) (th : Thread) (ths : List Thread) (m : M)
      → 0 < max_threads
      → th.system_id ≢ 0
      → current (run engine (walk_listed max_frames max_threads include (th ∷ ths)) m).1
        ≡ th.system_id
  walk_listed-current max_frames max_threads include th ths m some_thread id =
      ap (λ r. current r.1) (run-walk_listed max_frames max_threads include (th ∷ ths) m)
      ∙ left_current max_threads th ths (switch_all (capped_at max_threads (th ∷ ths)) m)
          some_thread id
