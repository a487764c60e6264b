-- ===== src/LruCache.antt =====
-- cmd/gokd-mcp/ring.go, type `lruCache`: the map `entries` from keys to list elements beside the
-- list `order`, most recent first. A list element is identified by the key that it holds, so the
-- map is the list of its keys. Keys are compared and never looked into. A value is its bytes.
pub mod Synced
pub mod Evict
pub mod Spec
pub mod Hits
use mathlib.Core.Logic.{ite}
use go_kd.Prelude.{
  ℕ, zero, suc, ◌+◌, ◌-◌, Bool, true, false, Option, none, some, List, [], ◌∷◌, ltb, length,
  if◌then◌else◌, ◌&&◌,
}

pub record LruEntry (K : Type 0) : Type 0 where
  pub key : K
  pub val : List ℕ

pub record LruCache (K : Type 0) : Type 0 where
  pub max : ℕ
  pub max_bytes : ℕ
  pub bytes : ℕ
  pub order : List (LruEntry K)
  pub entries : List K

unfoldable pub new_lru_cache : {K : Type 0} → ℕ → ℕ → LruCache K
new_lru_cache max_entries max_bytes = record {
  max = max_entries;
  max_bytes = max_bytes;
  bytes = 0;
  order = [];
  entries = [];
}

module _ {K : Type 0} where
  -- `order.Back()`
  unfoldable pub back : List (LruEntry K) → Option (LruEntry K)
  back [] = none
  back (e ∷ []) = some e
  back (e ∷ f ∷ l) = back (f ∷ l)

  -- `order.Remove(el)` for the element at the back
  unfoldable pub drop_back : List (LruEntry K) → List (LruEntry K)
  drop_back [] = []
  drop_back (e ∷ []) = []
  drop_back (e ∷ f ∷ l) = e ∷ drop_back (f ∷ l)

  unfoldable pub should_evict : LruCache K → Bool
  should_evict c =
      if ltb c.max (length c.entries)
      then true
      else if ltb 0 c.max_bytes && ltb c.max_bytes c.bytes
      then true
      else false

module _ {K : Type 0} (dec : Discrete K) where
  -- `_, ok := c.entries[key]`
  unfoldable pub has : K → List K → Bool
  has k [] = false
  has k (j ∷ l) = ite (dec j k) true (has k l)

  -- `delete(c.entries, key)`
  unfoldable pub delete : K → List K → List K
  delete k [] = []
  delete k (j ∷ l) = ite (dec j k) l (j ∷ delete k l)

  -- the value of the list element of a key
  unfoldable pub find : K → List (LruEntry K) → Option (List ℕ)
  find k [] = none
  find k (e ∷ l) = ite (dec e.key k) (some e.val) (find k l)

  -- the list with the element of a key taken out
  unfoldable pub remove : K → List (LruEntry K) → List (LruEntry K)
  remove k [] = []
  remove k (e ∷ l) = ite (dec e.key k) l (e ∷ remove k l)

  unfoldable pub evict_oldest : LruCache K → LruCache K
  evict_oldest c = elim (back c.order) [
    | none ↦ c
    | some e ↦ record c {
      order = drop_back c.order;
      entries = delete e.key c.entries;
      bytes = c.bytes - length e.val;
    }
  ]

  -- `for c.shouldEvict() { c.evictOldest() }`, on fuel
  unfoldable pub evict_loop : ℕ → LruCache K → LruCache K
  evict_loop zero c = c
  evict_loop (suc fuel) c = elim (should_evict c) [
    | true ↦ evict_loop fuel (evict_oldest c)
    | false ↦ c
  ]

  -- `Put` up to its loop. `old.val = v` and `MoveToFront(el)` are one step on the list, and do
  -- nothing for an element that is not in it.
  unfoldable pub store : LruCache K → K → List ℕ → LruCache K
  store c key v =
      if has key c.entries
      then elim (find key c.order) [
        | none ↦ c
        | some old ↦ record c {
          order = record { key = key; val = v } ∷ remove key c.order;
          bytes = c.bytes - length old + length v;
        }
      ]
      else record c {
        order = record { key = key; val = v } ∷ c.order;
        entries = key ∷ c.entries;
        bytes = c.bytes + length v;
      }

  unfoldable pub put : LruCache K → K → List ℕ → LruCache K
  put c key v = let stored = store c key v in evict_loop (suc (length stored.order)) stored

  -- `(nil, false)` is `none`.
  unfoldable pub get : LruCache K → K → LruCache K × Option (List ℕ)
  get c key =
      if has key c.entries
      then elim (find key c.order) [
        | none ↦ (c, none)
        | some v ↦ (record c { order = record { key = key; val = v } ∷ remove key c.order }, some v)
      ]
      else (c, none)
