-- ===== src/Tests/Buffers.antt =====
-- The ring of three pushes into two slots, and a cache of two entries.
use go_kd.Prelude.{ℕ, ◌≡◌, some, List, [], ◌∷◌, arith}
use go_kd.Prelude.Int.{pos}
use go_kd.Ring.{Ring, new_ring, push_locked, since}
use go_kd.Ring.Refine.{Tracks, push_all, push_locked-Tracks, new_ring-push_all}
use go_kd.Ring.Reads.{since_lem}
use go_kd.LruCache.{
  LruCache, new_lru_cache, put, get, store, find, remove, has, back, drop_back, delete,
  should_evict, evict_oldest, evict_loop,
}
use go_kd.LruCache.Spec.{IsValid, new_lru_cache-IsValid, Puts, put-Puts, get_lem}
use native.Mathlib.Decide.{ℕ_discrete}

abbrev pushed : List ℕ
pushed = 5 ∷ 6 ∷ 7 ∷ []

abbrev two_slots : Ring ℕ
two_slots = push_all (new_ring 0 (pos 2)) pushed

abbrev two_slots-Tracks : Tracks 0 2 pushed two_slots
two_slots-Tracks = new_ring-push_all 0 (pos 2) pushed (omega arith)

push_locked-Tracks_example :
    Tracks 0 2 (5 ∷ 6 ∷ 7 ∷ 8 ∷ []) (push_locked two_slots 8).0 × ((push_locked two_slots 8).1 ≡ 4)
push_locked-Tracks_example = push_locked-Tracks 0 8 two_slots-Tracks (omega arith)

since_lem_example : since 0 two_slots 0 ≡ (6 ∷ 7 ∷ [], 1)
since_lem_example = since_lem 0 0 two_slots-Tracks (omega arith)

abbrev cache : LruCache ℕ
cache = put ℕ_discrete (new_lru_cache 2 0) 1 (10 ∷ [])

abbrev cache-IsValid : IsValid ℕ_discrete cache
cache-IsValid =
    let made = new_lru_cache-IsValid ℕ_discrete 2 0 in
    let p = put-Puts ℕ_discrete (new_lru_cache 2 0) 1 (10 ∷ []) made.synced in p.valid

put-Puts_example : Puts ℕ_discrete cache 2 (20 ∷ []) (put ℕ_discrete cache 2 (20 ∷ []))
put-Puts_example = put-Puts ℕ_discrete cache 2 (20 ∷ []) cache-IsValid.synced

get_lem_example :
    ((get ℕ_discrete cache 1).1 ≡ some (10 ∷ []))
    × ((get ℕ_discrete cache 1).0.order ≡ record { key = 1; val = 10 ∷ [] } ∷ [])
unfolding put get store find remove has back drop_back delete should_evict evict_oldest evict_loop
    new_lru_cache ℕ_discrete
get_lem_example = get_lem ℕ_discrete cache 1 cache-IsValid.synced
