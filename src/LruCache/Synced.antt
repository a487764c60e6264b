-- ===== src/LruCache/Synced.antt =====
-- The map and the list of the cache describe the same entries, and the byte count is right.
use mathlib.Core.Logic.{ite}
use go_kd.Prelude.{
  ℕ, ◌+◌, ◌≤◌, ◌<◌, ◌≡◌, refl, inl, inr, true, false, none, some, List, [], ◌∷◌, map, arith, length,
  ltb, Option-cases,
}
use go_kd.LruCache.{
  LruEntry, LruCache, back, drop_back, has, delete, find, remove, evict_oldest, store,
}

module _ {K : Type 0} where
  abbrev pub keys : List (LruEntry K) → List K
  keys = map (λ e. e.key)

  -- the bytes of all values
  abbrev pub total : List (LruEntry K) → ℕ
  total [] = 0
  total (e ∷ l) = length e.val + total l

module _ {K : Type 0} (dec : Discrete K) where
  abbrev pub one_if : K → K → ℕ
  one_if j k = ite (dec j k) 1 0

  abbrev pub count : K → List K → ℕ
  count k [] = 0
  count k (j ∷ l) = one_if j k + count k l

  pub record IsSynced (c : LruCache K) : Type 0 where
    pub sizes : length c.entries ≡ length c.order
    pub total_is : c.bytes ≡ total c.order
    pub same : (k : K) → count k c.entries ≡ count k (keys c.order)
    pub once : (k : K) → count k (keys c.order) ≤ 1

  pub has-count : (k : K) (l : List K) → has dec k l ≡ ltb 0 (count k l)
  unfolding has
  has-count k [] = refl
  has-count k (j ∷ l) = ground (arith, has-count k l)

  pub find_absent : (k : K) (l : List (LruEntry K)) → find dec k l ≡ none → count k (keys l) ≡ 0
  unfolding find
  find_absent k [] h = refl
  find_absent k (e ∷ l) h = ground (arith, find_absent k l)

  pub find_present :
      (k : K) (l : List (LruEntry K)) (v : List ℕ) → find dec k l ≡ some v → 0 < count k (keys l)
  unfolding find
  find_present k [] v h = ground arith
  find_present k (e ∷ l) v h = ground (arith, find_present k l v)

  -- what taking an element out does to the counts
  pub record Less (k : K) (v : List ℕ) (l l' : List (LruEntry K)) : Type 0 where
    pub fewer : length l' + 1 ≡ length l
    pub lighter : total l' + length v ≡ total l
    pub counts : (j : K) → count j (keys l') + one_if k j ≡ count j (keys l)

  pub remove-Less :
      (k : K) (l : List (LruEntry K)) (v : List ℕ)
      → find dec k l ≡ some v
      → Less k v l (remove dec k l)
  unfolding find remove
  remove-Less k [] v h = ground arith
  remove-Less k (e ∷ l) v h = elim (dec e.key k) [
    | yes p ↦ record { fewer = ground arith; lighter = ground arith; counts = λ j. ground arith }
    | no p ↦
        let less = remove-Less k l v (ground arith) in
        record {
          fewer = ground (arith, less.fewer);
          lighter = ground (arith, less.lighter);
          counts = λ j. ground (arith, less.counts j);
        }
  ]

  drop_back-Less :
      (l : List (LruEntry K)) (e : LruEntry K) → back l ≡ some e → Less e.key e.val l (drop_back l)
  unfolding back drop_back
  drop_back-Less [] e h = record {
    fewer = ground arith;
    lighter = ground arith;
    counts = λ j. ground arith;
  }
  drop_back-Less (f ∷ []) e h = record {
    fewer = ground arith;
    lighter = ground arith;
    counts = λ j. ground arith;
  }
  drop_back-Less (f ∷ g ∷ l) e h =
      let less = drop_back-Less (g ∷ l) e h in
      record {
        fewer = ground (arith, less.fewer);
        lighter = ground (arith, less.lighter);
        counts = λ j. ground (arith, less.counts j);
      }

  count-delete :
      (k j : K) (l : List K) → 0 < count k l → count j (delete dec k l) + one_if k j ≡ count j l
  unfolding delete
  count-delete k j [] h = absurd (omega arith)
  count-delete k j (i ∷ l) h = ground (arith, count-delete k j l)

  length-delete : (k : K) (l : List K) → 0 < count k l → length (delete dec k l) + 1 ≡ length l
  unfolding delete
  length-delete k [] h = absurd (omega arith)
  length-delete k (i ∷ l) h = ground (arith, length-delete k l)

  one_if_self : (k : K) → one_if k k ≡ 1
  one_if_self k = ground arith

  -- Evicting keeps the map and the list in step.
  pub evict_oldest-IsSynced : (c : LruCache K) → IsSynced c → IsSynced (evict_oldest dec c)
  unfolding evict_oldest
  evict_oldest-IsSynced c v = elim (Option-cases (back c.order)) [
    | inl e ↦ rw (e, evict_oldest) v
    | inr (x, e) ↦
        let less = drop_back-Less c.order x e in
        let mine : 0 < count x.key c.entries =
          omega (arith, v.same x.key, less.counts x.key, one_if_self x.key) in
        rw (e, evict_oldest)
          (record {
            sizes = omega (arith, less.fewer, length-delete x.key c.entries mine);
            total_is = omega (arith, less.lighter);
            same = λ k. omega (arith, less.counts k, count-delete x.key k c.entries mine, v.same k);
            once = λ k. omega (arith, less.counts k, v.once k);
          })
  ]

  -- Storing an entry keeps the map and the list in step.
  pub store-IsSynced :
      (c : LruCache K) (key : K) (v : List ℕ) → IsSynced c → IsSynced (store dec c key v)
  unfolding store
  store-IsSynced c key v s = elim (Option-cases (find dec key c.order)) [
    | inl e ↦
        let absent : count key (keys c.order) ≡ 0 = find_absent key c.order e in
        let unseen : has dec key c.entries ≡ false =
          ground (arith, has-count key c.entries, s.same key) in
        rw unseen (record {
          sizes = omega (arith, s.sizes);
          total_is = omega (arith, s.total_is);
          same = λ k. omega (arith, s.same k);
          once = λ k. ground (arith, s.once k);
        })
    | inr (old, e) ↦
        let less = remove-Less key c.order old e in
        let seen : has dec key c.entries ≡ true =
          ground (arith, has-count key c.entries, s.same key, find_present key c.order old e) in
        rw (seen, e, store)
          (record {
            sizes = omega (arith, s.sizes, less.fewer);
            total_is = omega (arith, s.total_is, less.lighter);
            same = λ k. omega (arith, s.same k, less.counts k);
            once = λ k. omega (arith, s.once k, less.counts k);
          })
  ]
