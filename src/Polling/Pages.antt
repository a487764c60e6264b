-- ===== src/Polling/Pages.antt =====
-- What a client gets by polling: pages of the log, one behind the other, without a gap.
use go_kd.Prelude.{
  ℕ, zero, suc, ◌+◌, ◌-◌, ◌<◌, ◌^◌, max, min, ◌≡◌, refl, sym, ap, ◌∙◌, inl, inr, List, [], ◌∷◌,
  arith, ltb, length, take, drop, length-drop, length-take, take_of_length-le, ltb→le, Bool-cases,
  if◌then◌else◌,
}
use go_kd.Ring.{Ring, since}
use go_kd.Ring.Reads.{since_lem}
use go_kd.Events.Logged.{Counts, Logs}
use go_kd.Polling.{RecentOutput, next_after, recent}

module _ {T : Type 0} (seq : T → ℕ) where
  Counts-cong : (i j : ℕ) (h : List T) → i ≡ j → Counts seq i h → Counts seq j h
  Counts-cong i j [] p c = tt
  Counts-cong i j (e ∷ h) p c = (c.0 ∙ p, Counts-cong (i + 1) (j + 1) h (omega arith) c.1)

  Counts-drop : (k i : ℕ) (h : List T) → Counts seq i h → Counts seq (i + k) (drop k h)
  Counts-drop zero i h c = Counts-cong i (i + 0) h (omega arith) c
  Counts-drop (suc k) i [] c = tt
  Counts-drop (suc k) i (e ∷ h) c =
      Counts-cong (i + 1 + k) (i + suc k) (drop k h) (omega arith) (Counts-drop k (i + 1) h c.1)

  Counts-take : (k i : ℕ) (h : List T) → Counts seq i h → Counts seq i (take k h)
  Counts-take zero i h c = tt
  Counts-take (suc k) i [] c = tt
  Counts-take (suc k) i (e ∷ h) c = (c.0, Counts-take k (i + 1) h c.1)

  -- The next token is the number of the last item, and with no items the token itself.
  next_after-Counts :
      (token i : ℕ) (l : List T)
      → Counts seq (i + 1) l
      → (length l ≡ 0 → token ≡ i)
      → next_after seq token l ≡ i + length l
  next_after-Counts token i [] c e = e refl ∙ omega arith
  next_after-Counts token i (x ∷ []) c e = c.0
  next_after-Counts token i (x ∷ y ∷ l) c e =
      next_after-Counts token (i + 1) (y ∷ l) c.1 (λ z. absurd (omega arith)) ∙ omega arith

module _ {T : Type 0} (blank : T) (seq : T → ℕ) where
  -- the first place of the log that a token has still to read and can
  abbrev pub start_of : ℕ → ℕ → List T → ℕ
  start_of cap token h = max token (length h - cap)

  -- what one page holds
  pub record IsPage (cap limit token : ℕ) (h : List T) (out : RecentOutput T) : Type 0 where
    pub items_are : out.items ≡ take limit (drop (start_of cap token h) h)
    pub dropped_is : out.dropped ≡ length h - cap - token
    pub next_is : out.next_token ≡ start_of cap token h + length out.items
    pub truncated_is : out.truncated ≡ ltb limit (length h - start_of cap token h)

  cut : (limit : ℕ) (l : List T) → (if ltb limit (length l) then take limit l else l) ≡ take limit l
  cut limit l = elim (Bool-cases (ltb limit (length l))) [
    | inl e ↦ rw e
    | inr e ↦ rw e (sym (take_of_length-le limit l (ltb→le limit (length l) e)))
  ]

  -- On a ring that tracks a log of numbered entries, for a token whose successor fits 64 bits and a
  -- positive limit, a page holds the entries of the log behind the token, from the oldest that is
  -- still there, up to the limit; it counts those that are gone, says whether more are there, and
  -- its next token is the place of its last item, so that nothing lies between it and the next page.
  pub recent-IsPage :
      {cap : ℕ} {h : List T} {r : Ring T} (limit token : ℕ)
      → Logs blank seq cap h r
      → token + 1 < 2 ^ 64
      → 0 < limit
      → IsPage cap limit token h (recent blank seq limit r token)
  unfolding recent
  recent-IsPage {cap} {h} {r} limit token l b some_room =
      let start = start_of cap token h in
      let read : since blank r token ≡ (drop start h, length h - cap - token) =
        since_lem blank token l.tracks b in
      let page : List T = take limit (drop start h) in
      let size : length page ≡ min limit (length h - start) =
        length-take limit (drop start h) ∙ ap (min limit) (length-drop start h) in
      let counts : Counts seq (start + 1) page =
        Counts-cong seq (1 + start) (start + 1) page (omega arith)
          (Counts-take seq limit (1 + start) (drop start h) (Counts-drop seq start 1 h l.counts)) in
      rw (read, cut limit (drop start h))
        (record {
          items_are = refl;
          dropped_is = refl;
          next_is =
              next_after-Counts seq token start page counts (λ z. omega (arith, l.tracks.positive));
          truncated_is = ap (ltb limit) (length-drop start h);
        })
