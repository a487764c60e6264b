-- ===== src/Events/Batch/Delivery.antt =====
-- The drainer's batches lose and repeat no line, also where flushes overlap.
use mathlib.Core.Path.{subst}
use mathlib.Core.List.{Perm}
use mathlib.Core.List.Perm
use go_kd.Prelude.{
  ℕ, zero, suc, ◌+◌, ◌≡◌, refl, sym, ap, ◌∙◌, inl, inr, none, some, List, [], ◌∷◌, ◌++◌, ◌||◌, leb,
  length, append_assoc, append-nil, arith, false, Bool-cases, Option-cases, List-cases,
}
use go_kd.Text.{is_empty, text_eq}
use go_kd.Events.{RingOutput, push_event, push_output}
use go_kd.Events.Batch.{
  Notice, event, output, state_changed, Drainer, Step, on_event, on_output, on_timer, on_send,
  output_cap, append_output, take_batch, taken_at, send_batch, queue_output, maybe_state_changed,
  step, run,
}

-- the batches that were sent, in order
abbrev pub batches_of : List Notice → List (List RingOutput)
batches_of [] = []
batches_of (event e ∷ ns) = batches_of ns
batches_of (output es ∷ ns) = es ∷ batches_of ns
batches_of (state_changed c ∷ ns) = batches_of ns

abbrev pub concat {ℓ} : {A : Type ℓ} → List (List A) → List A
concat [] = []
concat (l ∷ ls) = l ++ concat ls

-- The batches sent and those in flight, put in some order (`taken`), with the waiting lines behind
-- them, are `lines`.
pub record IsDelivered (lines : List RingOutput) (d : Drainer) : Type 0 where
  pub taken : List (List RingOutput)
  pub all_taken : Perm taken (batches_of d.sent ++ d.in_flight)
  pub in_order : concat taken ++ d.out_batch.buf ≡ lines

-- the entry that the server stores in a step for a line
unfoldable pub stored : Drainer → Step → List RingOutput
stored d (on_output line) = (push_output d.srv line).1 ∷ []
stored d (on_event ev) = []
stored d on_timer = []
stored d (on_send k) = []

-- the entries that it stores in a run, in order
unfoldable pub accepted : Drainer → List Step → List RingOutput
accepted d [] = []
accepted d (s ∷ ss) = stored d s ++ accepted (step d s) ss

batches_of-append : (ns ms : List Notice) → batches_of (ns ++ ms) ≡ batches_of ns ++ batches_of ms
batches_of-append [] ms = refl
batches_of-append (event e ∷ ns) ms = batches_of-append ns ms
batches_of-append (output es ∷ ns) ms = ap (es ∷◌) (batches_of-append ns ms)
batches_of-append (state_changed c ∷ ns) ms = batches_of-append ns ms

concat-snoc {ℓ} :
    {A : Type ℓ} (ls : List (List A)) (l : List A) → concat (ls ++ (l ∷ [])) ≡ concat ls ++ l
concat-snoc [] l = append-nil l
concat-snoc (k ∷ ls) l = ap (k ++◌) (concat-snoc ls l) ∙ sym (append_assoc k (concat ls) l)

taken_at-Perm {ℓ} :
    {A : Type ℓ} (k : ℕ) (xs : List A) (y : A) (rest : List A)
    → taken_at k xs ≡ some (y, rest)
    → Perm xs (y ∷ rest)
unfolding taken_at
taken_at-Perm k [] y rest h = ground arith
taken_at-Perm zero (x ∷ xs) y rest h =
    let here : x ≡ y = ground arith in
    let others : xs ≡ rest = ground arith in rw (here, others) (Perm.refl (y ∷ rest))
taken_at-Perm (suc k) (x ∷ xs) y rest h = elim (Option-cases (taken_at k xs)) [
  | inl e ↦
      let nothing : taken_at (suc k) (x ∷ xs) ≡ none = rw (e, taken_at) refl in
      ground (arith, nothing)
  | inr ((z, others), e) ↦
      let found : taken_at (suc k) (x ∷ xs) ≡ some (z, x ∷ others) = rw (e, taken_at) refl in
      let item : z ≡ y = ground (arith, found) in
      let left : x ∷ others ≡ rest = ground (arith, found) in
      subst (λ r. Perm (x ∷ xs) (y ∷ r)) left
        (subst (λ w. Perm (x ∷ xs) (w ∷ x ∷ others)) item
          (Perm.trans (Perm.cons x (taken_at-Perm k xs z others e)) (Perm.swap z x others)))
]

-- A step that sends no batch and leaves the waiting lines.
IsDelivered-same :
    (lines : List RingOutput) (d d' : Drainer)
    → batches_of d'.sent ≡ batches_of d.sent
    → d'.in_flight ≡ d.in_flight
    → d'.out_batch.buf ≡ d.out_batch.buf
    → IsDelivered lines d
    → IsDelivered lines d'
IsDelivered-same lines d d' e f b h = record {
  taken = h.taken;
  all_taken = rw (e, f) h.all_taken;
  in_order = ap (concat h.taken ++◌) b ∙ h.in_order;
}

take_batch-IsDelivered :
    (lines : List RingOutput) (d : Drainer) → IsDelivered lines d → IsDelivered lines (take_batch d)
unfolding take_batch
take_batch-IsDelivered lines d h = elim (List-cases d.out_batch.buf) [
  | inl e ↦
      rw (e, take_batch)
        (IsDelivered-same lines d (record d { out_batch = record d.out_batch { pending = false } })
          refl refl refl h)
  | inr (x, rest, e) ↦
      rw (e, take_batch)
        (record {
          taken = h.taken ++ ((x ∷ rest) ∷ []);
          all_taken =
              subst (Perm _) (append_assoc (batches_of d.sent) d.in_flight _)
                (Perm.append h.all_taken (Perm.refl _));
          in_order =
              append-nil _
              ∙ concat-snoc h.taken (x ∷ rest)
              ∙ ap (concat h.taken ++◌) (sym e)
              ∙ h.in_order;
        })
]

send_batch-IsDelivered :
    (lines : List RingOutput) (k : ℕ) (d : Drainer)
    → IsDelivered lines d
    → IsDelivered lines (send_batch k d)
unfolding send_batch
send_batch-IsDelivered lines k d h = elim (Option-cases (taken_at k d.in_flight)) [
  | inl e ↦ rw (e, send_batch) h
  | inr ((batch, rest), e) ↦
      rw (e, send_batch)
        (record {
          taken = h.taken;
          all_taken = rw (batches_of-append d.sent (output batch ∷ [])) (
              subst (Perm _) (sym (append_assoc (batches_of d.sent) (batch ∷ []) rest)) (
                Perm.trans h.all_taken
                  (Perm.append (Perm.refl _) (taken_at-Perm k d.in_flight batch rest e))));
          in_order = h.in_order;
        })
]

queue_output-IsDelivered :
    (lines : List RingOutput) (d : Drainer) (e : RingOutput)
    → IsDelivered lines d
    → IsDelivered (lines ++ (e ∷ [])) (queue_output d e)
unfolding queue_output append_output
queue_output-IsDelivered lines d e h =
    elim (Bool-cases (leb output_cap (d.out_batch.bytes + length e.text))) [
      | inl over ↦ rw (over, queue_output) (take_batch-IsDelivered _ _ grown)
      | inr under ↦ rw (under, queue_output) grown
    ]
  where
    grown :
        IsDelivered (lines ++ (e ∷ [])) (record d { out_batch = (append_output d.out_batch e).0 })
    grown = record {
      taken = h.taken;
      all_taken = h.all_taken;
      in_order =
          sym (append_assoc (concat h.taken) d.out_batch.buf (e ∷ []))
          ∙ ap (λ l. l ++ (e ∷ [])) h.in_order;
    }

maybe_state_changed-IsDelivered :
    (lines : List RingOutput) (d : Drainer)
    → IsDelivered lines d
    → IsDelivered lines (maybe_state_changed d)
unfolding maybe_state_changed
maybe_state_changed-IsDelivered lines d h = elim (Option-cases d.srv.status) [
  | inl e ↦ rw (e, maybe_state_changed) h
  | inr (st, e) ↦ elim (Bool-cases (is_empty st.last_kind || text_eq st.last_kind d.prev_last)) [
    | inl same ↦ rw (e, same, maybe_state_changed) h
    | inr new ↦
        rw (e, new, maybe_state_changed)
          (IsDelivered-same lines d _
            (batches_of-append d.sent (state_changed _ ∷ []) ∙ append-nil (batches_of d.sent)) refl
            refl h)
  ]
]

step-IsDelivered :
    (lines : List RingOutput) (d : Drainer) (s : Step)
    → IsDelivered lines d
    → IsDelivered (lines ++ stored d s) (step d s)
unfolding step stored
step-IsDelivered lines d (on_event ev) h = rw (append-nil lines) (
    maybe_state_changed-IsDelivered lines _ (
      IsDelivered-same lines d _
        (batches_of-append d.sent (event (push_event d.srv ev).1 ∷ [])
          ∙ append-nil (batches_of d.sent))
        refl refl h))
step-IsDelivered lines d (on_output line) h =
    queue_output-IsDelivered lines _ (push_output d.srv line).1
      (IsDelivered-same lines d _ refl refl refl h)
step-IsDelivered lines d on_timer h = rw (append-nil lines) (take_batch-IsDelivered lines d h)
step-IsDelivered lines d (on_send k) h = rw (append-nil lines) (send_batch-IsDelivered lines k d h)

-- Whatever happens in a run, whenever the timer fires, and in whichever order flushes that overlap
-- send their batches: if before it the batches sent and in flight, put in some order, with the waiting
-- lines behind them, are the lines `lines`, then after it they are `lines` followed by the entries
-- stored for the run's lines. So no line is lost, none is sent twice, and each batch holds lines that
-- follow one another.
pub run-IsDelivered :
    (lines : List RingOutput) (d : Drainer) (ss : List Step)
    → IsDelivered lines d
    → IsDelivered (lines ++ accepted d ss) (run d ss)
unfolding run accepted
run-IsDelivered lines d [] h = rw (append-nil lines) h
run-IsDelivered lines d (s ∷ ss) h =
    subst (λ l. IsDelivered l (run (step d s) ss))
      (append_assoc lines (stored d s) (accepted (step d s) ss))
      (run-IsDelivered (lines ++ stored d s) (step d s) ss (step-IsDelivered lines d s h))
