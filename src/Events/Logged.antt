-- ===== src/Events/Logged.antt =====
-- The rings of the server as logs whose entries carry their own places.
use mathlib.Core.Path.{subst}
use go_kd.Prelude.{
  ℕ, ◌+◌, ◌<◌, ◌^◌, ◌≡◌, refl, sym, ap, ◌∙◌, some, List, [], ◌∷◌, ◌++◌, arith, length,
}
use go_kd.Ring.{Ring, push_locked, push_with}
use go_kd.Ring.Refine.{Tracks, push_locked-Tracks}
use go_kd.Text.{Text}
use go_kd.Events.{
  Event, RingEvent, RingOutput, blank_event, blank_output, Srv, template_of, push_event,
  push_output,
}

-- The entries of the log carry the numbers from `i` on.
abbrev pub Counts {ℓ} : {T : Type ℓ} → (T → ℕ) → ℕ → List T → Type 0
Counts seq i [] = Unit
Counts seq i (e ∷ h) = (seq e ≡ i) × Counts seq (i + 1) h

pub Counts-snoc {ℓ} :
    {T : Type ℓ} (seq : T → ℕ) (i : ℕ) (h : List T) (e : T)
    → Counts seq i h
    → seq e ≡ i + length h
    → Counts seq i (h ++ (e ∷ []))
Counts-snoc seq i [] e c s = (omega arith, tt)
Counts-snoc seq i (d ∷ h) e c s = (c.0, Counts-snoc seq (i + 1) h e c.1 (omega arith))

-- A ring of `cap` slots that tracks a log of entries with their own places in it.
pub record Logs {T : Type 0} (blank : T) (seq : T → ℕ) (cap : ℕ) (h : List T) (r : Ring T)
    : Type 0 where
  pub tracks : Tracks blank cap h r
  pub counts : Counts seq 1 h

pub push_with-Logs :
    {T : Type 0} (blank : T) (seq : T → ℕ) {cap : ℕ} {h : List T} {r : Ring T} (build : ℕ → T)
    → ((n : ℕ) → seq (build n) ≡ n)
    → Logs blank seq cap h r
    → length h + 2 < 2 ^ 64
    → Logs blank seq cap (h ++ (build (length h + 1) ∷ [])) (push_with r build).0
      × ((push_with r build).1 ≡ length h + 1)
unfolding push_with
push_with-Logs blank seq {cap} {h} {r} build own l b =
    let place : r.next_seq ≡ length h + 1 = l.tracks.next in
    let (t, n) = push_locked-Tracks blank (build r.next_seq) l.tracks b in
    (
      record {
        tracks =
            subst (λ k. Tracks blank cap (h ++ (build k ∷ [])) (push_locked r (build r.next_seq)).0)
              place t;
        counts = Counts-snoc seq 1 h (build (length h + 1)) l.counts (own _ ∙ omega arith);
      },
      n,
    )

-- While sequence numbers fit 64 bits and the event ring tracks a log, an event is appended to that
-- log: the answer is the entry made of it with the next number, which is in the ring from then on.
-- The output ring stays as it is.
pub push_event-Logs :
    (s : Srv) (ev : Event) {cap : ℕ} {h : List RingEvent} {r : Ring RingEvent}
    → s.event_ring ≡ some r
    → Logs blank_event (λ e. e.seq) cap h r
    → length h + 2 < 2 ^ 64
    → (r' : Ring RingEvent) × ((push_event s ev).0.event_ring ≡ some r')
      × Logs blank_event (λ e. e.seq) cap (h ++ ((push_event s ev).1 ∷ [])) r'
      × ((push_event s ev).1 ≡ record (template_of ev) { seq = length h + 1 })
      × ((push_event s ev).0.output_ring ≡ s.output_ring)
unfolding push_event
push_event-Logs s ev {cap} {h} {r} at l b =
    let build : ℕ → RingEvent = λ n. record (template_of ev) { seq = n } in
    let (l', n) = push_with-Logs blank_event (λ e. e.seq) build (λ n. refl) l b in
    let same : build (length h + 1) ≡ build (push_with r build).1 = ap build (sym n) in
    rw at (
      (push_with r build).0,
      refl,
      subst (λ e. Logs blank_event (λ e. e.seq) cap (h ++ (e ∷ [])) (push_with r build).0) same l',
      sym same,
      refl,
    )

-- While sequence numbers fit 64 bits and the output ring tracks a log, a line of output is appended
-- to that log, under the next number. The event ring and the status stay as they are.
pub push_output-Logs :
    (s : Srv) (line : Text) {cap : ℕ} {h : List RingOutput} {r : Ring RingOutput}
    → s.output_ring ≡ some r
    → Logs blank_output (λ e. e.seq) cap h r
    → length h + 2 < 2 ^ 64
    → (r' : Ring RingOutput) × ((push_output s line).0.output_ring ≡ some r')
      × Logs blank_output (λ e. e.seq) cap (h ++ ((push_output s line).1 ∷ [])) r'
      × ((push_output s line).1 ≡ record { seq = length h + 1; text = line })
      × ((push_output s line).0.event_ring ≡ s.event_ring)
      × ((push_output s line).0.status ≡ s.status)
unfolding push_output
push_output-Logs s line {cap} {h} {r} at l b =
    let build : ℕ → RingOutput = λ n. record { seq = n; text = line } in
    let (l', n) = push_with-Logs blank_output (λ e. e.seq) build (λ n. refl) l b in
    let same : build (length h + 1) ≡ build (push_with r build).1 = ap build (sym n) in
    rw at (
      (push_with r build).0,
      refl,
      subst (λ e. Logs blank_output (λ e. e.seq) cap (h ++ (e ∷ [])) (push_with r build).0) same l',
      sym same,
      refl,
      refl,
    )
