-- ===== src/Polling/Clients.antt =====
-- The two handlers at every limit, and a client that polls until nothing more is announced.
use go_kd.Prelude.{
  ℕ, zero, suc, ◌+◌, ◌-◌, ◌*◌, ◌≤◌, ◌<◌, ◌^◌, max, ◌≡◌, refl, sym, ap, ap₂, ◌∙◌, inl, inr, none,
  some, List, [], ◌++◌, arith, ltb, length, take, drop, length-drop, length-take, take_of_length-le,
  take-append-drop, drop-drop, ltb→lt, ltb→le, lt→ltb, le→ltb, Bool-cases, if◌then◌else◌,
}
use go_kd.Prelude.Int.{ℤ, pos, negsuc}
use go_kd.Errors.{ok}
use go_kd.Ring.{Ring}
use go_kd.Events.{RingEvent, RingOutput, blank_event, blank_output, Srv}
use go_kd.Events.Logged.{Logs}
use go_kd.Polling.{
  RecentOutput, recent, events_limit, output_limit, get_recent_events, get_recent_output,
}
use go_kd.Polling.Pages.{IsPage, start_of, recent-IsPage}

events_limit-positive : (limit : ℤ) → (0 < events_limit limit) × (events_limit limit ≤ 32)
unfolding events_limit
events_limit-positive (pos n) = ground arith
events_limit-positive (negsuc n) = ground arith

output_limit-positive : (limit : ℤ) → (0 < output_limit limit) × (output_limit limit ≤ 256)
unfolding output_limit
output_limit-positive (pos n) = ground arith
output_limit-positive (negsuc n) = ground arith

-- Whatever limit a client asks for, `get_recent_events` on a ring that tracks a log of numbered
-- events, for a token whose successor fits 64 bits, succeeds with a page of at least one and at
-- most 32 of the events behind the token, as far as there are any.
pub get_recent_events-IsPage :
    (s : Srv) {cap : ℕ} {h : List RingEvent} {r : Ring RingEvent} (token : ℕ) (limit : ℤ)
    → s.event_ring ≡ some r
    → Logs blank_event (λ e. e.seq) cap h r
    → token + 1 < 2 ^ 64
    → (k : ℕ) × (out : RecentOutput RingEvent) × (get_recent_events none s token limit ≡ ok out)
      × (0 < k)
      × (k ≤ 32)
      × IsPage blank_event (λ e. e.seq) cap k token h out
unfolding get_recent_events
get_recent_events-IsPage s {cap} {h} {r} token limit at l b =
    let (room, bound) = events_limit-positive limit in
    rw at (
      events_limit limit,
      _,
      refl,
      room,
      bound,
      recent-IsPage blank_event (λ e. e.seq) (events_limit limit) token l b room,
    )

-- Whatever limit a client asks for, `get_recent_output` on a ring that tracks a log of numbered
-- lines, for a token whose successor fits 64 bits, succeeds with a page of at least one and at most
-- 256 of the lines behind the token, as far as there are any.
pub get_recent_output-IsPage :
    (s : Srv) {cap : ℕ} {h : List RingOutput} {r : Ring RingOutput} (token : ℕ) (limit : ℤ)
    → s.output_ring ≡ some r
    → Logs blank_output (λ e. e.seq) cap h r
    → token + 1 < 2 ^ 64
    → (k : ℕ) × (out : RecentOutput RingOutput) × (get_recent_output none s token limit ≡ ok out)
      × (0 < k)
      × (k ≤ 256)
      × IsPage blank_output (λ e. e.seq) cap k token h out
unfolding get_recent_output
get_recent_output-IsPage s {cap} {h} {r} token limit at l b =
    let (room, bound) = output_limit-positive limit in
    rw at (
      output_limit limit,
      _,
      refl,
      room,
      bound,
      recent-IsPage blank_output (λ e. e.seq) (output_limit limit) token l b room,
    )

module _ {T : Type 0} (blank : T) (seq : T → ℕ) where
  -- A client asks again at the next token, until the answer is not cut short.
  unfoldable pub poll_all : ℕ → ℕ → Ring T → ℕ → List T
  poll_all zero limit r token = []
  poll_all (suc fuel) limit r token =
      let out = recent blank seq limit r token in
      let rest = poll_all fuel limit r out.next_token in
      if out.truncated then out.items ++ rest else out.items

  poll_all-last :
      {cap : ℕ} {h : List T} (r : Ring T) (fuel limit token : ℕ)
      → IsPage blank seq cap limit token h (recent blank seq limit r token)
      → length h - start_of blank seq cap token h ≤ limit
      → poll_all (suc fuel) limit r token ≡ drop (start_of blank seq cap token h) h
  unfolding poll_all
  poll_all-last {cap} {h} r fuel limit token p few =
      let start = start_of blank seq cap token h in
      let whole : take limit (drop start h) ≡ drop start h =
        take_of_length-le limit (drop start h) (omega (arith, length-drop start h)) in
      rw (p.truncated_is, le→ltb limit (length h - start) few, poll_all) (p.items_are ∙ whole)

  poll_all-more :
      {cap : ℕ} {h : List T} (r : Ring T) (fuel limit token : ℕ)
      → IsPage blank seq cap limit token h (recent blank seq limit r token)
      → limit < length h - start_of blank seq cap token h
      → poll_all (suc fuel) limit r token
        ≡ take limit (drop (start_of blank seq cap token h) h)
          ++ poll_all fuel limit r (start_of blank seq cap token h + limit)
  unfolding poll_all
  poll_all-more {cap} {h} r fuel limit token p many =
      let start = start_of blank seq cap token h in
      let page : length (recent blank seq limit r token).items ≡ limit =
        ap length p.items_are
        ∙ length-take limit (drop start h)
        ∙ omega (arith, length-drop start h) in
      let next : (recent blank seq limit r token).next_token ≡ start + limit =
        p.next_is ∙ ap (start +◌) page in
      rw (p.truncated_is, lt→ltb limit (length h - start) many, poll_all)
        (ap₂ ◌++◌ p.items_are (ap (poll_all fuel limit r) next))

  -- While the ring does not change, a client with a positive limit and enough rounds, whose token is
  -- within the log, polls exactly the entries behind its token that are still there: each once, in
  -- order. The log's length fits 64 bits.
  pub poll_all-drop :
      {cap : ℕ} {h : List T} {r : Ring T} (fuel limit token : ℕ)
      → Logs blank seq cap h r
      → length h + 1 < 2 ^ 64
      → 0 < limit
      → token ≤ length h
      → length h ≤ token + suc fuel * limit
      → poll_all (suc fuel) limit r token ≡ drop (max token (length h - cap)) h
  poll_all-drop {cap} {h} {r} fuel limit token l b room within enough = go fuel token within enough
    where
      start : ℕ → ℕ
      start t = max t (length h - cap)

      page : (t : ℕ) → t ≤ length h → IsPage blank seq cap limit t h (recent blank seq limit r t)
      page t within = recent-IsPage blank seq limit t l (omega arith) room

      go :
          (fuel t : ℕ)
          → t ≤ length h
          → length h ≤ t + suc fuel * limit
          → poll_all (suc fuel) limit r t ≡ drop (start t) h
      go zero t within enough = poll_all-last r 0 limit t (page t within) (omega arith)
      go (suc fuel) t within enough = elim (Bool-cases (ltb limit (length h - start t))) [
        | inl more ↦
            let many : limit < length h - start t = ltb→lt limit (length h - start t) more in
            let same : max (start t + limit) (length h - cap) ≡ start t + limit = omega arith in
            poll_all-more r (suc fuel) limit t (page t within) many
            ∙ ap (take limit (drop (start t) h) ++◌) (
                go fuel (start t + limit) (omega arith) (omega arith)
                ∙ ap (λ k. drop k h) same
                ∙ sym (drop-drop limit (start t) h))
            ∙ take-append-drop limit (drop (start t) h)
        | inr last ↦
            poll_all-last r (suc fuel) limit t (page t within)
              (ltb→le limit (length h - start t) last)
      ]
