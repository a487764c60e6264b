-- ===== src/Events/Batch/Notices.antt =====
-- What clients are told of the target's state.
use mathlib.Core.Path.{subst}
use go_kd.Prelude.{
  ℕ, ◌≡◌, ◌≢◌, refl, sym, ap, ◌∙◌, inl, inr, false, some, List, [], ◌∷◌, ◌++◌, ◌||◌, arith,
  append-nil, Bool-cases, Option-cases, List-cases,
}
use go_kd.Text.{Text, is_empty, text_eq}
use go_kd.Text.Trim.{text_eq_refl, text_eq→eq}
use go_kd.Events.{Event, RingOutput, SessionStatus, push_event, push_output}
use go_kd.Events.Batch.{
  Notice, event, output, state_changed, StateChanged, Drainer, Step, on_event, on_output, on_timer,
  on_send, append_output, take_batch, taken_at, send_batch, queue_output, maybe_state_changed, step,
  run,
}

-- the states that clients were told of, in order
abbrev pub kinds_of : List Notice → List Text
kinds_of [] = []
kinds_of (event e ∷ ns) = kinds_of ns
kinds_of (output es ∷ ns) = kinds_of ns
kinds_of (state_changed c ∷ ns) = c.kind ∷ kinds_of ns

abbrev pub last_or : Text → List Text → Text
last_or k [] = k
last_or k (j ∷ l) = last_or j l

-- Each state differs from the one before it, the first from `k`.
abbrev pub Changes : Text → List Text → Type 0
Changes k [] = Unit
Changes k (j ∷ l) = (j ≢ k) × Changes j l

-- The states told so far: each a change, and the last of them is the one that the drainer knows.
pub record IsTold (d : Drainer) : Type 0 where
  pub change : Changes [] (kinds_of d.sent)
  pub known : last_or [] (kinds_of d.sent) ≡ d.prev_last

kinds_of-append : (ns ms : List Notice) → kinds_of (ns ++ ms) ≡ kinds_of ns ++ kinds_of ms
kinds_of-append [] ms = refl
kinds_of-append (event e ∷ ns) ms = kinds_of-append ns ms
kinds_of-append (output es ∷ ns) ms = kinds_of-append ns ms
kinds_of-append (state_changed c ∷ ns) ms = ap (c.kind ∷◌) (kinds_of-append ns ms)

Changes-snoc :
    (k j : Text) (l : List Text) → Changes k l → j ≢ last_or k l → Changes k (l ++ (j ∷ []))
Changes-snoc k j [] c n = (n, tt)
Changes-snoc k j (i ∷ l) c n = (c.0, Changes-snoc i j l c.1 n)

last_or-snoc : (k j : Text) (l : List Text) → last_or k (l ++ (j ∷ [])) ≡ j
last_or-snoc k j [] = refl
last_or-snoc k j (i ∷ l) = last_or-snoc i j l

-- A notice that names no state leaves what clients were told.
IsTold-same :
    (d d' : Drainer)
    → kinds_of d'.sent ≡ kinds_of d.sent
    → d'.prev_last ≡ d.prev_last
    → IsTold d
    → IsTold d'
IsTold-same d d' e p t = record {
  change = subst (Changes []) (sym e) t.change;
  known = ap (last_or []) e ∙ t.known ∙ sym p;
}

take_batch-IsTold : (d : Drainer) → IsTold d → IsTold (take_batch d)
unfolding take_batch
take_batch-IsTold d t = elim (List-cases d.out_batch.buf) [
  | inl e ↦ rw (e, take_batch) (IsTold-same d _ refl refl t)
  | inr (x, rest, e) ↦ rw (e, take_batch) (IsTold-same d _ refl refl t)
]

send_batch-IsTold : (k : ℕ) (d : Drainer) → IsTold d → IsTold (send_batch k d)
unfolding send_batch
send_batch-IsTold k d t = elim (Option-cases (taken_at k d.in_flight)) [
  | inl e ↦ rw (e, send_batch) t
  | inr (r, e) ↦
      rw (e, send_batch)
        (IsTold-same d _ (kinds_of-append d.sent (output r.0 ∷ []) ∙ append-nil (kinds_of d.sent))
          refl t)
]

queue_output-IsTold : (d : Drainer) (e : RingOutput) → IsTold d → IsTold (queue_output d e)
unfolding queue_output
queue_output-IsTold d e t = elim (Bool-cases (append_output d.out_batch e).1) [
  | inl over ↦ rw (over, queue_output) (take_batch-IsTold _ (IsTold-same d _ refl refl t))
  | inr under ↦ rw (under, queue_output) (IsTold-same d _ refl refl t)
]

differs : (j k : Text) → text_eq j k ≡ false → j ≢ k
differs j k h e =
    let same : text_eq j j ≡ false = ap (text_eq j) e ∙ h in ground (arith, text_eq_refl j)

maybe_state_changed-IsTold : (d : Drainer) → IsTold d → IsTold (maybe_state_changed d)
unfolding maybe_state_changed
maybe_state_changed-IsTold d t = elim (Option-cases d.srv.status) [
  | inl e ↦ rw (e, maybe_state_changed) t
  | inr (st, e) ↦ elim (Bool-cases (is_empty st.last_kind || text_eq st.last_kind d.prev_last)) [
    | inl same ↦ rw (e, same, maybe_state_changed) t
    | inr new ↦
        let n : StateChanged = record {
          kind = st.last_kind;
          target_kind = st.target_kind;
          target_name = st.target_name;
        } in
        let other : text_eq st.last_kind d.prev_last ≡ false = ground arith in
        let told : kinds_of (d.sent ++ (state_changed n ∷ []))
            ≡ kinds_of d.sent ++ (st.last_kind ∷ []) =
          kinds_of-append d.sent (state_changed n ∷ []) in
        rw (e, new, maybe_state_changed)
          (record {
            change = subst (Changes []) (sym told) (
                Changes-snoc [] st.last_kind (kinds_of d.sent) t.change
                  (λ q. differs st.last_kind d.prev_last other (q ∙ t.known)));
            known = ap (last_or []) told ∙ last_or-snoc [] st.last_kind (kinds_of d.sent);
          })
  ]
]

step-IsTold : (d : Drainer) (s : Step) → IsTold d → IsTold (step d s)
unfolding step
step-IsTold d (on_event ev) t = maybe_state_changed-IsTold _ (
    IsTold-same d _
      (kinds_of-append d.sent (event (push_event d.srv ev).1 ∷ []) ∙ append-nil (kinds_of d.sent))
      refl t)
step-IsTold d (on_output line) t =
    queue_output-IsTold _ (push_output d.srv line).1 (IsTold-same d _ refl refl t)
step-IsTold d on_timer t = take_batch-IsTold d t
step-IsTold d (on_send k) t = send_batch-IsTold k d t

-- Whatever happens in a run: if it was so before, clients are told of a state only when it differs
-- from the one told last, and the drainer knows the one told last.
pub run-IsTold : (d : Drainer) (ss : List Step) → IsTold d → IsTold (run d ss)
unfolding run
run-IsTold d [] t = t
run-IsTold d (s ∷ ss) t = run-IsTold (step d s) ss (step-IsTold d s t)

maybe_state_changed-srv : (d : Drainer) → (maybe_state_changed d).srv ≡ d.srv
unfolding maybe_state_changed
maybe_state_changed-srv d = ground arith

current :
    (d : Drainer) (st : SessionStatus)
    → d.srv.status ≡ some st
    → is_empty st.last_kind ≡ false
    → (maybe_state_changed d).prev_last ≡ st.last_kind
unfolding maybe_state_changed
current d st e known = elim (Bool-cases (text_eq st.last_kind d.prev_last)) [
  | inl same ↦
      rw (e, known, same, maybe_state_changed) (sym (text_eq→eq st.last_kind d.prev_last same))
  | inr new ↦ rw (e, known, new, maybe_state_changed)
]

-- After an event, if the drainer knew the state that clients were told last, and the server then has
-- a status that names a state, this is the state that clients were told last.
pub step-current :
    (d : Drainer) (ev : Event) (st : SessionStatus)
    → IsTold d
    → (step d (on_event ev)).srv.status ≡ some st
    → is_empty st.last_kind ≡ false
    → last_or [] (kinds_of (step d (on_event ev)).sent) ≡ st.last_kind
step-current d ev st t e known = (step-IsTold d (on_event ev) t).known ∙ up_to_date d ev st e known
  where
    up_to_date :
        (d : Drainer) (ev : Event) (st : SessionStatus)
        → (step d (on_event ev)).srv.status ≡ some st
        → is_empty st.last_kind ≡ false
        → (step d (on_event ev)).prev_last ≡ st.last_kind
    up_to_date d ev st e known =
        unfold step in current _ st (ap (λ s. s.status) (sym (maybe_state_changed-srv _)) ∙ e) known
