-- ===== src/Ring/Reads.antt =====
-- What `Since`, `Last` and `Len` return, by the log that the ring tracks.
use go_kd.Prelude.{
  ℕ, zero, suc, ◌+◌, ◌-◌, ◌%◌, ◌^◌, ◌≤◌, ◌<◌, max, min, ◌≡◌, refl, sym, ap, ap₂, ◌∙◌, inl, inr,
  some, List, [], ◌∷◌, map, arith, length, drop, get_or, get_last?, drop-drop, drop_of_length-le,
  ◌==◌, Bool-cases,
}
use go_kd.Ring.{Ring, RingEntry, blank_entry, copy_loop, copy_from, since, last, len}
use go_kd.Ring.Window.{window, drop-window}
use go_kd.Ring.Refine.{numbered, Tracks}

module _ {T : Type 0} where
  abbrev vals : List (RingEntry T) → List T
  vals = map (λ e. e.val)

  vals-drop : (k : ℕ) (es : List (RingEntry T)) → vals (drop k es) ≡ drop k (vals es)
  vals-drop zero es = refl
  vals-drop (suc k) [] = refl
  vals-drop (suc k) (e ∷ es) = vals-drop k es

  vals-numbered : (i : ℕ) (h : List T) → vals (numbered i h) ≡ h
  vals-numbered i [] = refl
  vals-numbered i (v ∷ h) = ap (◌∷◌ v) (vals-numbered (i + 1) h)

module _ {T : Type 0} (blank : T) where
  copy_loop-window :
      (r : Ring T) (k n : ℕ)
      → copy_loop blank r k n ≡ vals (window r.cap (blank_entry blank) r.entries (r.head + k) n)
  unfolding copy_loop
  copy_loop-window r k zero = refl
  copy_loop-window r k (suc n) =
      let next : r.head + (k + 1) ≡ r.head + k + 1 = omega arith in
      ap (◌∷◌ (get_or r.entries ((r.head + k) % r.cap) (blank_entry blank)).val) (
        copy_loop-window r (k + 1) n
        ∙ ap (λ i. vals (window r.cap (blank_entry blank) r.entries i n)) next)

  copy_loop-drop :
      {cap : ℕ} {h : List T} {r : Ring T} (k : ℕ)
      → Tracks blank cap h r
      → k ≤ r.size
      → copy_loop blank r k (r.size - k) ≡ drop (length h - cap + k) h
  copy_loop-drop {cap} {h} {r} k t le =
      let past : length h - r.cap ≡ length h - cap = ap (λ (c : ℕ). length h - c) t.cap_is in
      copy_loop-window r k (r.size - k)
      ∙ ap vals (sym (drop-window r.cap (blank_entry blank) r.entries r.head k r.size le))
      ∙ ap (λ es. vals (drop k es)) t.holds
      ∙ ap vals (drop-drop k (length h - r.cap) (numbered 1 h))
      ∙ vals-drop (length h - r.cap + k) (numbered 1 h)
      ∙ ap₂ drop (ap (λ (m : ℕ). m + k) past) (vals-numbered 1 h)

  copy_from-drop :
      {cap : ℕ} {h : List T} {r : Ring T} (s : ℕ)
      → Tracks blank cap h r
      → r.head_seq ≤ s
      → s < r.next_seq
      → 0 < length h
      → copy_from blank r s ≡ drop (s - 1) h
  unfolding copy_from
  copy_from-drop {cap} {h} {r} s t ge lt some_pushed =
      let o : r.head_seq ≡ length h - r.cap + 1 = t.oldest some_pushed in
      ground (arith, copy_loop-drop (s - r.head_seq) t (omega arith), ap (λ (m : ℕ). drop m h) at)
    where
      at : length h - cap + (s - r.head_seq) ≡ s - 1
      at = omega (arith, t.oldest some_pushed, t.cap_is)

  -- On a ring that tracks a log, for a token whose successor fits 64 bits, `Since` returns the part
  -- of the log behind the token that is among the newest `cap` entries, and the number of entries
  -- behind the token that are gone.
  pub since_lem :
      {cap : ℕ} {h : List T} {r : Ring T} (token : ℕ)
      → Tracks blank cap h r
      → token + 1 < 2 ^ 64
      → since blank r token ≡ (drop (max token (length h - cap)) h, length h - cap - token)
  unfolding since
  since_lem {cap} {h} {r} token t b = elim (Bool-cases (r.size == 0)) [
    | inl e ↦
        let empty : length h ≡ 0 = grind arith in
        rw e (ap₂ (λ l n. (l, n)) (sym (drop_of_length-le _ h (omega arith))) (omega arith))
    | inr n ↦
        let o : r.head_seq ≡ length h - r.cap + 1 = t.oldest (ground arith) in
        ground (
          arith,
          copy_from-drop r.head_seq t,
          copy_from-drop (token + 1) t,
          drop_of_length-le (max token (length h - cap)) h,
        )
  ]

  -- On a ring that tracks a log, `Len` is the log's length or the capacity, whichever is less.
  pub len_lem :
      {cap : ℕ} {h : List T} {r : Ring T} → Tracks blank cap h r → len r ≡ min (length h) cap
  unfolding len
  len_lem t = omega arith

  last-drop :
      (n : ℕ) (h : List T)
      → length h ≡ suc n
      → (v : T) × (drop n h ≡ v ∷ []) × (get_last? h ≡ some v)
  last-drop n [] e = absurd (omega arith)
  last-drop zero (v ∷ []) e = (v, refl, refl)
  last-drop zero (v ∷ w ∷ h) e = absurd (omega arith)
  last-drop (suc n) (v ∷ []) e = absurd (omega arith)
  last-drop (suc n) (v ∷ w ∷ h) e = last-drop n (w ∷ h) (omega arith)

  -- On a ring that tracks a log, `Last` returns the log's last value, and nothing if the log is empty.
  pub last_lem :
      {cap : ℕ} {h : List T} {r : Ring T} → Tracks blank cap h r → last blank r ≡ get_last? h
  unfolding last copy_loop
  last_lem {h = []} {r} t = ground arith
  last_lem {cap} {h = v ∷ h} {r} t =
      let (w, one, end) = last-drop (length h) (v ∷ h) refl in
      let one_left : r.size - (r.size - 1) ≡ suc 0 = omega arith in
      let index : suc (length h) - cap + (r.size - 1) ≡ length h = omega arith in
      let read : copy_loop blank r (r.size - 1) (suc 0) ≡ w ∷ [] =
        ap (copy_loop blank r (r.size - 1)) (sym one_left)
        ∙ copy_loop-drop (r.size - 1) t (omega arith)
        ∙ ap (λ k. drop k (v ∷ h)) index
        ∙ one in
      ground (arith, read, end)
