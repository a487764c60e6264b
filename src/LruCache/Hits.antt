-- ===== src/LruCache/Hits.antt =====
-- What a `Get` returns after a `Put`, for values that fit and for values that do not.
use mathlib.Core.Logic.{if_pos}
use go_kd.Prelude.{
  ℕ, zero, suc, ◌+◌, ◌≤◌, ◌<◌, ◌≡◌, refl, ap, ◌∙◌, ◌⊎◌, inl, inr, none, some, List, [], ◌∷◌, arith,
  length, take, Option-cases, Bool-cases,
}
use go_kd.LruCache.{LruEntry, LruCache, has, find, remove, put, get}
use go_kd.LruCache.Synced.{total, IsSynced, remove-Less}
use go_kd.LruCache.Evict.{Fits}
use go_kd.LruCache.Spec.{IsValid, put-Puts, touched, get_lem}

module _ {K : Type 0} (dec : Discrete K) where
  -- `Get` of a valid cache leaves a valid cache.
  pub get-IsValid : (c : LruCache K) (key : K) → IsValid dec c → IsValid dec (get dec c key).0
  unfolding get has
  get-IsValid c key valid = elim (Option-cases (find dec key c.order)) [
    | inl e ↦ grind (arith, valid)
    | inr (v, e) ↦ elim (Bool-cases (has dec key c.entries)) [
      | inl seen ↦
          let less = remove-Less dec key c.order v e in
          let s = valid.synced in
          rw (seen, e, get)
            (record {
              synced = record {
                sizes = omega (arith, s.sizes, less.fewer);
                total_is = omega (arith, s.total_is, less.lighter);
                same = λ k. omega (arith, s.same k, less.counts k);
                once = λ k. omega (arith, s.once k, less.counts k);
              };
              fits = omega (arith, less.fewer, less.lighter, valid.fits);
            })
      | inr unseen ↦ rw (unseen, get) valid
    ]
  ]

  starts :
      {m b : ℕ} (e : LruEntry K) (l kept : List (LruEntry K)) (n : ℕ)
      → kept ≡ take n (e ∷ l)
      → (n < length (e ∷ l) → ¬ Fits m b (take (suc n) (e ∷ l)))
      → Fits m b (e ∷ [])
      → (rest : List (LruEntry K)) × (kept ≡ e ∷ rest)
  starts e l kept zero p longest f = absurd (longest (omega arith) f)
  starts e l kept (suc n) p longest f = (take n l, p)

  is_empty :
      {m b : ℕ} (e : LruEntry K) (l kept : List (LruEntry K)) (n : ℕ)
      → kept ≡ take n (e ∷ l)
      → Fits m b kept
      → 0 < b
      → b < length e.val
      → kept ≡ []
  is_empty e l kept zero p f limited big = p
  is_empty e l kept (suc n) p f limited big =
      let weight : total kept ≡ length e.val + total (take n l) = ap total p in
      absurd (omega (arith, f.1 limited))

  -- If the cache's map and list agree and it may hold an entry, a value no longer than its byte limit
  -- (0 stands for none) is what a `Get` right after the `Put` of it returns.
  pub get-put_self :
      (c : LruCache K) (key : K) (v : List ℕ)
      → IsSynced dec c
      → 0 < c.max
      → (c.max_bytes ≡ 0) ⊎ (length v ≤ c.max_bytes)
      → (get dec (put dec c key v) key).1 ≡ some v
  unfolding find
  get-put_self c key v s room small =
      let p = put-Puts dec c key v s in
      let entry : LruEntry K = record { key = key; val = v } in
      let (rest, at) =
        starts entry (remove dec key c.order) (put dec c key v).order p.keeps.size p.keeps.prefix
          p.keeps.longest (omega arith, λ limited. omega arith) in
      (get_lem dec (put dec c key v) key p.valid.synced).0
      ∙ ap (find dec key) at
      ∙ if_pos (dec key key) refl _ _

  -- A value above the byte limit is evicted at once, and everything else with it.
  pub get-put_oversize :
      (c : LruCache K) (key : K) (v : List ℕ)
      → IsSynced dec c
      → 0 < c.max_bytes
      → c.max_bytes < length v
      → ((put dec c key v).order ≡ []) × ((q : K) → (get dec (put dec c key v) q).1 ≡ none)
  unfolding find
  get-put_oversize c key v s limited big =
      let p = put-Puts dec c key v s in
      let entry : LruEntry K = record { key = key; val = v } in
      let gone : (put dec c key v).order ≡ [] =
        is_empty entry (remove dec key c.order) (put dec c key v).order p.keeps.size p.keeps.prefix
          p.keeps.fits limited big in
      (gone, λ q. (get_lem dec (put dec c key v) q p.valid.synced).0 ∙ ap (find dec q) gone)

  -- `Get` changes nothing that a later `Get` of the key can read.
  pub find-get_self :
      (c : LruCache K) (key : K) (v : List ℕ)
      → IsSynced dec c
      → find dec key c.order ≡ some v
      → find dec key (get dec c key).0.order ≡ some v
  unfolding find
  find-get_self c key v s e =
      ap (find dec key) ((get_lem dec c key s).1 ∙ moved) ∙ if_pos (dec key key) refl _ _
    where
      moved :
          elim (find dec key c.order) [ none ↦ c.order | some w ↦ touched dec c key w ]
          ≡ touched dec c key v
      moved = ground arith
