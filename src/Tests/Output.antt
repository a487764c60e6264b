-- ===== src/Tests/Output.antt =====
-- An output of 20,000 bytes read back through its token, and the same under a limit that it exceeds.
use go_kd.Prelude.{
  ℕ, ◌≡◌, refl, inr, some, none, List, [], ◌∷◌, ◌++◌, arith, length, replicate, length-replicate,
}
use go_kd.Prelude.Int.{pos}
use go_kd.Text.{Text, codes, encode_to_string, is_empty, trim_space, trim_left, trim_right}
use go_kd.Errors.{ok}
use go_kd.LruCache.{LruCache, put, new_lru_cache}
use go_kd.LruCache.Spec.{new_lru_cache-IsValid}
use go_kd.RawOutput.{
  pack_execute_raw_output, get_raw_continuation, expired_output, text_discrete,
  raw_overflow_entries, raw_overflow_max_bytes,
}
use go_kd.RawOutput.Paging.{read_pages}
use go_kd.RawOutput.RoundTrip.{pack-read_pages, pack-oversize}

abbrev cache : LruCache Text
cache = new_lru_cache raw_overflow_entries raw_overflow_max_bytes

abbrev random : List ℕ
random = 0x1f ∷ 0xa0 ∷ []

abbrev filler : ℕ
filler = 65

abbrev out : Text
out = replicate 20000 filler

abbrev filled : LruCache Text
filled = put text_discrete cache (codes "1fa0") (65 ∷ 66 ∷ 67 ∷ 68 ∷ 69 ∷ [])

abbrev small_cache : LruCache Text
small_cache = new_lru_cache 8 100

pack-read_pages_example :
    (pack_execute_raw_output (some cache) (some random) out).0.output
      ++ read_pages 1
          (pack_execute_raw_output (some cache) (some random) out).1
          (pack_execute_raw_output (some cache) (some random) out).0.continuation_token
          0
    ≡ out
unfolding new_lru_cache
pack-read_pages_example =
    let size : length out ≡ 20000 = length-replicate 20000 filler in
    pack-read_pages cache random out 0 (new_lru_cache-IsValid text_discrete _ _) (omega arith)
      (inr (omega arith)) (omega arith) (omega arith) (omega arith)

pack-oversize_example :
    ((pack_execute_raw_output (some small_cache) (some random) out).0.continuation_token
      ≡ encode_to_string random)
    × ((get_raw_continuation
          (pack_execute_raw_output (some small_cache) (some random) out).1
          none
          (record { token = codes "1fa0"; offset = pos 0; limit = pos 0 })).0
        ≡ ok expired_output)
unfolding new_lru_cache is_empty trim_space trim_left trim_right
pack-oversize_example =
    let size : length out ≡ 20000 = length-replicate 20000 filler in
    pack-oversize small_cache random out (codes "1fa0") (pos 0) (pos 0)
      (new_lru_cache-IsValid text_discrete _ _) (omega arith) (omega arith) refl
