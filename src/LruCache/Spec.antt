-- ===== src/LruCache/Spec.antt =====
-- `Put` and `Get` by what they do to the list of entries.
use mathlib.Core.Path.{subst₂, subst₃}
use go_kd.Prelude.{
  ℕ, suc, ◌≡◌, refl, sym, ap, ◌∙◌, inl, inr, true, false, none, some, List, [], ◌∷◌, arith, length,
  Option-cases, take_of_length-le,
}
use go_kd.LruCache.{
  LruEntry, LruCache, new_lru_cache, has, find, remove, evict_loop, store, put, get,
}
use go_kd.LruCache.Synced.{IsSynced, has-count, find_absent, find_present, store-IsSynced}
use go_kd.LruCache.Evict.{Fits, Longest, evict_loop-Evicted}

module _ {K : Type 0} (dec : Discrete K) where
  -- A cache between calls: the map and the list agree, and the limits hold.
  pub record IsValid (c : LruCache K) : Type 0 where
    pub synced : IsSynced dec c
    pub fits : Fits c.max c.max_bytes c.order

  abbrev pub touched : LruCache K → K → List ℕ → List (LruEntry K)
  touched c key v = record { key = key; val = v } ∷ remove dec key c.order

  remove_absent : (k : K) (l : List (LruEntry K)) → find dec k l ≡ none → remove dec k l ≡ l
  unfolding find remove
  remove_absent k [] h = refl
  remove_absent k (e ∷ l) h = ground (arith, remove_absent k l)

  has-find_absent :
      (c : LruCache K) (key : K)
      → IsSynced dec c
      → find dec key c.order ≡ none
      → has dec key c.entries ≡ false
  has-find_absent c key s e =
      ground (arith, has-count dec key c.entries, s.same key, find_absent dec key c.order e)

  has-find_present :
      (c : LruCache K) (key : K) (v : List ℕ)
      → IsSynced dec c
      → find dec key c.order ≡ some v
      → has dec key c.entries ≡ true
  has-find_present c key v s e =
      ground (arith, has-count dec key c.entries, s.same key, find_present dec key c.order v e)

  record Stored (c c' : LruCache K) (l : List (LruEntry K)) : Type 0 where
    order_is : c'.order ≡ l
    same_max : c'.max ≡ c.max
    same_max_bytes : c'.max_bytes ≡ c.max_bytes

  store-Stored :
      (c : LruCache K) (key : K) (v : List ℕ)
      → IsSynced dec c
      → Stored c (store dec c key v) (touched c key v)
  unfolding store
  store-Stored c key v s = elim (Option-cases (find dec key c.order)) [
    | inl e ↦ rw (has-find_absent c key s e) (record {
      order_is = ap (◌∷◌ (record { key = key; val = v })) (sym (remove_absent key c.order e));
      same_max = refl;
      same_max_bytes = refl;
    })
    | inr (old, e) ↦
        rw (has-find_present c key old s e, e, store)
          (record { order_is = refl; same_max = refl; same_max_bytes = refl })
  ]

  -- `newLRUCache` makes a valid cache.
  pub new_lru_cache-IsValid : (m b : ℕ) → IsValid (new_lru_cache m b)
  unfolding new_lru_cache
  new_lru_cache-IsValid m b = record {
    synced = record { sizes = refl; total_is = refl; same = λ k. refl; once = λ k. omega arith };
    fits = (omega arith, λ _. omega arith);
  }

  -- what `Put` promises
  pub record Puts (c : LruCache K) (key : K) (v : List ℕ) (c' : LruCache K) : Type 0 where
    pub valid : IsValid c'
    pub keeps : Longest c.max c.max_bytes (touched c key v) c'.order
    pub same_max : c'.max ≡ c.max
    pub same_max_bytes : c'.max_bytes ≡ c.max_bytes

  -- From a cache whose map and list agree, `Put` leaves a valid cache with the same limits, whose list
  -- is the longest prefix that fits the limits of: the new entry, then the others in their order.
  pub put-Puts :
      (c : LruCache K) (key : K) (v : List ℕ) → IsSynced dec c → Puts c key v (put dec c key v)
  unfolding put
  put-Puts c key v s =
      let stored = store dec c key v in
      let at = store-Stored c key v s in
      let n = length stored.order in
      let c' = evict_loop dec (suc n) stored in
      let out =
        evict_loop-Evicted dec (suc n) n stored stored.order (store-IsSynced dec c key v s)
          (sym (take_of_length-le n stored.order (omega arith))) (omega arith) (omega arith)
          (λ lt. absurd (omega arith)) in
      record {
        valid = record {
          synced = out.synced;
          fits =
              subst₂ (λ a b. Fits a b c'.order) (sym out.same_max) (sym out.same_max_bytes)
                out.keeps.fits;
        };
        keeps =
            subst₃ (λ a b l. Longest a b l c'.order) at.same_max at.same_max_bytes at.order_is
              out.keeps;
        same_max = out.same_max ∙ at.same_max;
        same_max_bytes = out.same_max_bytes ∙ at.same_max_bytes;
      }

  -- If the cache's map and list agree, `Get` returns exactly what the list holds for the key; it moves
  -- a hit to the front of the list, and a miss leaves the list as it was.
  pub get_lem :
      (c : LruCache K) (key : K)
      → IsSynced dec c
      → ((get dec c key).1 ≡ find dec key c.order)
        × ((get dec c key).0.order
            ≡ elim (find dec key c.order) [ none ↦ c.order | some v ↦ touched c key v ])
  unfolding get
  get_lem c key s = elim (Option-cases (find dec key c.order)) [
    | inl e ↦ (ground (arith, has-find_absent c key s e), ground (arith, has-find_absent c key s e))
    | inr (v, e) ↦
        (ground (arith, has-find_present c key v s e), ground (arith, has-find_present c key v s e))
  ]
