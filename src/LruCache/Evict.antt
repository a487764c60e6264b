-- ===== src/LruCache/Evict.antt =====
-- The eviction loop of `Put`: its fuel is enough, and it drops the least recent entries until the
-- rest fits, and no more.
use mathlib.Core.Path.{subst₂}
use go_kd.Prelude.{
  ℕ, zero, suc, ◌≤◌, ◌<◌, ◌≡◌, refl, sym, ap, ◌∙◌, inl, inr, true, false, none, some, List, [], ◌∷◌,
  arith, length, take, Option-cases, Bool-cases,
}
use go_kd.LruCache.{LruEntry, LruCache, back, drop_back, should_evict, evict_oldest, evict_loop}
use go_kd.LruCache.Synced.{total, IsSynced, evict_oldest-IsSynced}

module _ {K : Type 0} where
  -- The limits of the cache, as a test of a list of entries.
  abbrev pub Fits : ℕ → ℕ → List (LruEntry K) → Type 0
  Fits max max_bytes l = (length l ≤ max) × (0 < max_bytes → total l ≤ max_bytes)

  -- `kept` is the longest beginning of `l` that fits.
  pub record Longest (max max_bytes : ℕ) (l kept : List (LruEntry K)) : Type 0 where
    pub size : ℕ
    pub within : size ≤ length l
    pub prefix : kept ≡ take size l
    pub fits : Fits max max_bytes kept
    pub longest : size < length l → ¬ Fits max max_bytes (take (suc size) l)

  drop_back-take :
      (n : ℕ) (l : List (LruEntry K)) → suc n ≤ length l → drop_back (take (suc n) l) ≡ take n l
  unfolding drop_back
  drop_back-take n [] h = absurd (omega arith)
  drop_back-take zero (e ∷ l) h = refl
  drop_back-take (suc n) (e ∷ []) h = absurd (omega arith)
  drop_back-take (suc n) (e ∷ f ∷ l) h = ap (◌∷◌ e) (drop_back-take n (f ∷ l) (omega arith))

  back-cons : (e : LruEntry K) (l : List (LruEntry K)) → (x : LruEntry K) × (back (e ∷ l) ≡ some x)
  unfolding back
  back-cons e [] = (e, refl)
  back-cons e (f ∷ l) = back-cons f l

  back-none : (l : List (LruEntry K)) → back l ≡ none → l ≡ []
  back-none [] h = refl
  back-none (e ∷ l) h = let (x, found) = back-cons e l in cc

module _ {K : Type 0} (dec : Discrete K) where
  stop-Fits :
      (c : LruCache K) → IsSynced dec c → should_evict c ≡ false → Fits c.max c.max_bytes c.order
  unfolding should_evict
  stop-Fits c s h = (ground (arith, s.sizes), λ b. ground (arith, s.sizes, s.total_is))

  go-not-Fits :
      (c : LruCache K) → IsSynced dec c → should_evict c ≡ true → ¬ Fits c.max c.max_bytes c.order
  unfolding should_evict
  go-not-Fits c s h f = ground (arith, s.sizes, s.total_is)

  evict_oldest-order : (c : LruCache K) → (evict_oldest dec c).order ≡ drop_back c.order
  unfolding evict_oldest
  evict_oldest-order c = elim (Option-cases (back c.order)) [
    | inl e ↦
        let nothing : c.order ≡ [] = back-none c.order e in
        rw (e, evict_oldest) (nothing ∙ drop_back-nil ∙ ap drop_back (sym nothing))
    | inr (x, e) ↦ rw (e, evict_oldest)
  ]
    where
      drop_back-nil : [] ≡ drop_back {K = K} []
      drop_back-nil = unfold drop_back in refl

  evict_oldest-limits :
      (c : LruCache K)
      → ((evict_oldest dec c).max ≡ c.max) × ((evict_oldest dec c).max_bytes ≡ c.max_bytes)
  unfolding evict_oldest
  evict_oldest-limits c = ground arith

  -- what the loop leaves of the entries `l`
  pub record Evicted (c : LruCache K) (l : List (LruEntry K)) (c' : LruCache K) : Type 0 where
    pub synced : IsSynced dec c'
    pub keeps : Longest c.max c.max_bytes l c'.order
    pub same_max : c'.max ≡ c.max
    pub same_max_bytes : c'.max_bytes ≡ c.max_bytes

  pub evict_loop-Evicted :
      (fuel n : ℕ) (c : LruCache K) (l : List (LruEntry K))
      → IsSynced dec c
      → c.order ≡ take n l
      → n ≤ length l
      → n < fuel
      → (n < length l → ¬ Fits c.max c.max_bytes (take (suc n) l))
      → Evicted c l (evict_loop dec fuel c)
  unfolding evict_loop
  evict_loop-Evicted zero n c l s p le lt more = absurd (omega arith)
  evict_loop-Evicted (suc fuel) zero c l s p le lt more = elim (Bool-cases (should_evict c)) [
    | inl go ↦ absurd (go-not-Fits c s go (rw p (omega arith, λ _. omega arith)))
    | inr stop ↦
        rw (stop, evict_loop)
          (record {
            synced = s;
            keeps = record {
              size = 0;
              within = omega arith;
              prefix = p;
              fits = stop-Fits c s stop;
              longest = more;
            };
            same_max = refl;
            same_max_bytes = refl;
          })
  ]
  evict_loop-Evicted (suc fuel) (suc n) c l s p le lt more = elim (Bool-cases (should_evict c)) [
    | inl go ↦
        let c' = evict_oldest dec c in
        let (same_max, same_max_bytes) = evict_oldest-limits c in
        let big : ¬ Fits c.max c.max_bytes (take (suc n) l) = λ f. go-not-Fits c s go (rw p f) in
        let rest =
          evict_loop-Evicted fuel n c' l (evict_oldest-IsSynced dec c s)
            (evict_oldest-order c ∙ ap drop_back p ∙ drop_back-take n l le) (omega arith)
            (omega arith)
            (λ _ f. big (subst₂ (λ a b. Fits a b (take (suc n) l)) same_max same_max_bytes f)) in
        rw (go, evict_loop)
          (record {
            synced = rest.synced;
            keeps =
                subst₂ (λ a b. Longest a b l (evict_loop dec fuel c').order) same_max same_max_bytes
                  rest.keeps;
            same_max = rest.same_max ∙ same_max;
            same_max_bytes = rest.same_max_bytes ∙ same_max_bytes;
          })
    | inr stop ↦
        rw (stop, evict_loop)
          (record {
            synced = s;
            keeps = record {
              size = suc n;
              within = le;
              prefix = p;
              fits = stop-Fits c s stop;
              longest = more;
            };
            same_max = refl;
            same_max_bytes = refl;
          })
  ]
