-- ===== src/Events/Batch/Waiting.antt =====
-- What waits in the batch between steps, and what clients have been told of the target's state.
use mathlib.Core.Path.{subst}
use go_kd.Prelude.{
  ℕ, ◌+◌, ◌<◌, ◌≡◌, refl, sym, inl, inr, true, List, [], ◌∷◌, ◌++◌, arith, leb, length, Bool-cases,
  List-cases, if◌then◌else◌,
}
use go_kd.Events.{RingOutput, push_output}
use go_kd.Events.Batch.{
  OutputBatcher, Drainer, Step, on_event, on_output, on_timer, on_send, send_batch, output_cap,
  append_output, take_batch, queue_output, maybe_state_changed, step, run, no_batch,
}

abbrev pub total_text : List RingOutput → ℕ
total_text [] = 0
total_text (e ∷ es) = length e.text + total_text es

-- A batch that waits is small, counted right, and has its timer.
pub record IsBatch (b : OutputBatcher) : Type 0 where
  pub counted : b.bytes ≡ total_text b.buf
  pub below_cap : b.bytes < output_cap
  pub waits : 0 < length b.buf → b.pending ≡ true
  pub live : b.pending ≡ true → b.timer ≡ true

total_text-snoc :
    (es : List RingOutput) (e : RingOutput)
    → total_text (es ++ (e ∷ [])) ≡ total_text es + length e.text
total_text-snoc [] e = omega arith
total_text-snoc (d ∷ es) e = omega (arith, total_text-snoc es e)

pub no_batch-IsBatch : IsBatch no_batch
no_batch-IsBatch = record {
  counted = refl;
  below_cap = omega arith;
  waits = λ h. absurd (omega arith);
  live = λ h. ground arith;
}

take_batch-IsBatch : (d : Drainer) → IsBatch d.out_batch → IsBatch (take_batch d).out_batch
unfolding take_batch
take_batch-IsBatch d b = elim (List-cases d.out_batch.buf) [
  | inl e ↦
      rw (e, take_batch)
        (record {
          counted = b.counted;
          below_cap = b.below_cap;
          waits = λ h. ground arith;
          live = λ h. ground arith;
        })
  | inr (x, rest, e) ↦ rw (e, take_batch) no_batch-IsBatch
]

-- An overflowing batch is taken at once.
take_batch-clears :
    (d : Drainer) (x : RingOutput) (rest : List RingOutput)
    → d.out_batch.buf ≡ rest ++ (x ∷ [])
    → IsBatch (take_batch d).out_batch
unfolding take_batch
take_batch-clears d x [] e = rw e no_batch-IsBatch
take_batch-clears d x (y ∷ rest) e = rw e no_batch-IsBatch

queue_output-IsBatch :
    (d : Drainer) (e : RingOutput) → IsBatch d.out_batch → IsBatch (queue_output d e).out_batch
unfolding queue_output append_output
queue_output-IsBatch d e b =
    elim (Bool-cases (leb output_cap (d.out_batch.bytes + length e.text))) [
      | inl over ↦ rw (over, queue_output) (take_batch-clears _ e d.out_batch.buf refl)
      | inr under ↦
          rw (under, queue_output)
            (record {
              counted = omega (arith, b.counted, total_text-snoc d.out_batch.buf e);
              below_cap = ground arith;
              waits = λ h. refl;
              live = λ h. armed;
            })
    ]
  where
    armed : (if d.out_batch.pending then d.out_batch.timer else true) ≡ true
    armed = ground (arith, b.live)

maybe_state_changed-batch : (d : Drainer) → (maybe_state_changed d).out_batch ≡ d.out_batch
unfolding maybe_state_changed
maybe_state_changed-batch d = ground arith

send_batch-batch : (k : ℕ) (d : Drainer) → (send_batch k d).out_batch ≡ d.out_batch
unfolding send_batch
send_batch-batch k d = ground arith

step-IsBatch : (d : Drainer) (s : Step) → IsBatch d.out_batch → IsBatch (step d s).out_batch
unfolding step
step-IsBatch d (on_event ev) b = subst IsBatch (sym (maybe_state_changed-batch _)) b
step-IsBatch d (on_output line) b = queue_output-IsBatch _ (push_output d.srv line).1 b
step-IsBatch d on_timer b = take_batch-IsBatch d b
step-IsBatch d (on_send k) b = subst IsBatch (sym (send_batch-batch k d)) b

-- Whatever happens in a run, and whenever the timer fires: if the batch was so before, its byte count
-- is the size of the lines that wait, it is below 4096, and while a line waits the timer that will
-- send it is set.
pub run-IsBatch :
    (d : Drainer) (ss : List Step) → IsBatch d.out_batch → IsBatch (run d ss).out_batch
unfolding run
run-IsBatch d [] b = b
run-IsBatch d (s ∷ ss) b = run-IsBatch (step d s) ss (step-IsBatch d s b)
