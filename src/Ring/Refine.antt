-- ===== src/Ring/Refine.antt =====
-- The ring against its specification: the log of everything pushed, of which it keeps the newest
-- `cap` entries.
use go_kd.Prelude.{
  ℕ, zero, suc, ◌+◌, ◌-◌, ◌%◌, ◌^◌, ◌≤◌, ◌<◌, min, ◌≡◌, refl, sym, ap, ◌∙◌, inl, inr, List, [], ◌∷◌,
  ◌++◌, arith, length, drop, length-append, length-set, length-replicate, append_assoc, append-nil,
  drop-append_of_le, drop-drop, drop-nil, ltb, ltb→lt, ltb→le, Bool-cases, lt→ltb, le→ltb, set,
}
use mathlib.Core.Path.{subst}
use native.Mathlib.Nat.{mod-lt}
use go_kd.Prelude.Int.{ℤ, pos, negsuc, to_ℕ}
use go_kd.Ring.{Ring, RingEntry, new_ring, push_locked, blank_entry}
use go_kd.Ring.Window.{window, window-set_end, window-set_full}

-- The log's values with their sequence numbers, the first of them `i`.
abbrev pub numbered {ℓ} : {T : Type ℓ} → ℕ → List T → List (RingEntry T)
numbered i [] = []
numbered i (v ∷ vs) = record { seq = i; val = v } ∷ numbered (i + 1) vs

module _ {ℓ} {T : Type ℓ} where
  pub numbered-append :
      (i : ℕ) (xs ys : List T)
      → numbered i (xs ++ ys) ≡ numbered i xs ++ numbered (i + length xs) ys
  numbered-append i [] ys = ap (λ k. numbered k ys) (omega arith)
  numbered-append i (x ∷ xs) ys =
      ap (◌∷◌ (record { seq = i; val = x })) (
        numbered-append (i + 1) xs ys
        ∙ ap (λ k. numbered (i + 1) xs ++ numbered k ys) (omega arith))

  pub length-numbered : (i : ℕ) (xs : List T) → length (numbered i xs) ≡ length xs
  length-numbered i [] = refl
  length-numbered i (x ∷ xs) = ap suc (length-numbered (i + 1) xs)

  -- a client's pushes, one after the other
  pub push_all : Ring T → List T → Ring T
  push_all r [] = r
  push_all r (v ∷ vs) = push_all (push_locked r v).0 vs

module _ {ℓ} {T : Type ℓ} (blank : T) where
  -- the live entries, oldest first
  abbrev pub contents : Ring T → List (RingEntry T)
  contents r = window r.cap (blank_entry blank) r.entries r.head r.size

  -- `r` holds the end of the log `h` in `cap` slots.
  pub record Tracks (cap : ℕ) (h : List T) (r : Ring T) : Type ℓ where
    pub cap_is : r.cap ≡ cap
    pub positive : 0 < cap
    pub slots : length r.entries ≡ r.cap
    pub head_in : r.head < r.cap
    pub next : r.next_seq ≡ length h + 1
    pub size_is : r.size ≡ min (length h) r.cap
    pub oldest : 0 < length h → r.head_seq ≡ length h - r.cap + 1
    pub holds : contents r ≡ drop (length h - r.cap) (numbered 1 h)

  abbrev pub capacity_of : ℤ → ℕ
  capacity_of n = to_ℕ n - 1 + 1

  -- `newRing` makes a ring that tracks the empty log, in at least one slot.
  pub new_ring-Tracks : (n : ℤ) → Tracks (capacity_of n) [] (new_ring blank n)
  unfolding new_ring
  new_ring-Tracks (pos zero) = record {
    cap_is = refl;
    positive = omega arith;
    slots = refl;
    head_in = omega arith;
    next = refl;
    size_is = omega arith;
    oldest = λ h. absurd (omega arith);
    holds = refl;
  }
  new_ring-Tracks (pos (suc n)) = rw (le→ltb (suc n) 1 (omega arith)) (record {
    cap_is = omega arith;
    positive = omega arith;
    slots = length-replicate (suc n) (blank_entry blank);
    head_in = omega arith;
    next = refl;
    size_is = omega arith;
    oldest = λ h. absurd (omega arith);
    holds = sym (drop-nil (0 - suc n));
  })
  new_ring-Tracks (negsuc n) = record {
    cap_is = refl;
    positive = omega arith;
    slots = refl;
    head_in = omega arith;
    next = refl;
    size_is = omega arith;
    oldest = λ h. absurd (omega arith);
    holds = refl;
  }

  log_snoc :
      (h : List T) (v : T) (k seq : ℕ)
      → k ≤ length h
      → seq ≡ length h + 1
      → drop k (numbered 1 h) ++ (record { seq = seq; val = v } ∷ [])
        ≡ drop k (numbered 1 (h ++ (v ∷ [])))
  log_snoc h v k seq le e =
      ap (λ (m : ℕ). drop k (numbered 1 h) ++ numbered m (v ∷ [])) (omega arith)
      ∙ sym (
          drop-append_of_le k (numbered 1 h) (numbered (1 + length h) (v ∷ []))
            (omega (arith, length-numbered 1 h)))
      ∙ ap (drop k) (sym (numbered-append 1 h (v ∷ [])))

  push-Tracks_room :
      {cap : ℕ} {h : List T} {r : Ring T} (v : T)
      → Tracks cap h r
      → length h + 2 < 2 ^ 64
      → r.size < r.cap
      → Tracks cap (h ++ (v ∷ [])) (push_locked r v).0
  unfolding push_locked
  push-Tracks_room {h = h} {r = r} v t b room =
      let e : RingEntry T = record { seq = r.next_seq; val = v } in
      let grown : r.size + 1 ≡ suc r.size = omega arith in
      rw (lt→ltb r.size r.cap room) (record {
        cap_is = t.cap_is;
        positive = t.positive;
        slots = length-set r.entries ((r.head + r.size) % r.cap) e ∙ t.slots;
        head_in = t.head_in;
        next = omega (arith, length-append h (v ∷ []));
        size_is = omega (arith, length-append h (v ∷ []));
        oldest = λ _. ground (arith, length-append h (v ∷ []));
        holds =
            ap
              (window r.cap (blank_entry blank) (set r.entries ((r.head + r.size) % r.cap) e)
                r.head)
              grown
            ∙ window-set_end r.cap (blank_entry blank) r.entries r.head r.size e room (omega arith)
            ∙ ap (λ l. l ++ (e ∷ [])) t.holds
            ∙ log_snoc h v (length h - r.cap) r.next_seq (omega arith) t.next
            ∙ ap (λ k. drop k (numbered 1 (h ++ (v ∷ []))))
                (omega (arith, length-append h (v ∷ [])));
      })

  push-Tracks_full :
      {cap : ℕ} {h : List T} {r : Ring T} (v : T)
      → Tracks cap h r
      → length h + 2 < 2 ^ 64
      → r.cap ≤ r.size
      → Tracks cap (h ++ (v ∷ [])) (push_locked r v).0
  unfolding push_locked
  push-Tracks_full {h = h} {r = r} v t b full =
      let e : RingEntry T = record { seq = r.next_seq; val = v } in
      let all : r.size ≡ r.cap = omega arith in
      rw (le→ltb r.size r.cap full) (record {
        cap_is = t.cap_is;
        positive = t.positive;
        slots = length-set r.entries r.head e ∙ t.slots;
        head_in = mod-lt (r.head + 1) (omega arith);
        next = omega (arith, length-append h (v ∷ []));
        size_is = omega (arith, length-append h (v ∷ []));
        oldest = λ _. omega (arith, length-append h (v ∷ []), t.oldest (omega arith));
        holds =
            ap (window r.cap (blank_entry blank) (set r.entries r.head e) ((r.head + 1) % r.cap))
              all
            ∙ window-set_full r.cap (blank_entry blank) r.entries r.head e t.head_in (omega arith)
            ∙ ap (λ n. drop 1 (window r.cap (blank_entry blank) r.entries r.head n) ++ (e ∷ []))
                (sym all)
            ∙ ap (λ l. drop 1 l ++ (e ∷ [])) t.holds
            ∙ ap (λ l. l ++ (e ∷ [])) (drop-drop 1 (length h - r.cap) (numbered 1 h))
            ∙ log_snoc h v (length h - r.cap + 1) r.next_seq (omega arith) t.next
            ∙ ap (λ k. drop k (numbered 1 (h ++ (v ∷ []))))
                (omega (arith, length-append h (v ∷ [])));
      })

  push_locked-seq : (r : Ring T) (v : T) → (push_locked r v).1 ≡ r.next_seq
  unfolding push_locked
  push_locked-seq r v = ground arith

  -- While sequence numbers fit 64 bits, a push onto a ring that tracks a log gives a ring that tracks
  -- the log with the value appended, and returns the value's place in that log, counted from 1.
  pub push_locked-Tracks :
      {cap : ℕ} {h : List T} {r : Ring T} (v : T)
      → Tracks cap h r
      → length h + 2 < 2 ^ 64
      → Tracks cap (h ++ (v ∷ [])) (push_locked r v).0 × ((push_locked r v).1 ≡ length h + 1)
  push_locked-Tracks {h = h} {r = r} v t b = elim (Bool-cases (ltb r.size r.cap)) [
    | inl room ↦ (push-Tracks_room v t b (ltb→lt r.size r.cap room), push_locked-seq r v ∙ t.next)
    | inr full ↦ (push-Tracks_full v t b (ltb→le r.size r.cap full), push_locked-seq r v ∙ t.next)
  ]

  push_all-Tracks :
      {cap : ℕ} (vs : List T) {h : List T} {r : Ring T}
      → Tracks cap h r
      → length h + length vs + 1 < 2 ^ 64
      → Tracks cap (h ++ vs) (push_all r vs)
  unfolding push_all
  push_all-Tracks {cap} [] {h} {r} t b = subst (λ l. Tracks cap l r) (sym (append-nil h)) t
  push_all-Tracks {cap} (v ∷ vs) {h} {r} t b =
      subst (λ l. Tracks cap l (push_all (push_locked r v).0 vs)) (append_assoc h (v ∷ []) vs)
        (push_all-Tracks vs (push_locked-Tracks v t (omega arith)).0
          (omega (arith, length-append h (v ∷ []))))

  -- While sequence numbers fit 64 bits, a new ring after any pushes tracks them: it holds the newest
  -- entries, as many as its capacity (at least one), in order, each with its own number.
  pub new_ring-push_all :
      (n : ℤ) (vs : List T)
      → length vs + 1 < 2 ^ 64
      → Tracks (capacity_of n) vs (push_all (new_ring blank n) vs)
  new_ring-push_all n vs b = push_all-Tracks vs (new_ring-Tracks n) (omega arith)
