-- ===== src/RawOutput/RoundTrip.antt =====
-- `execute_raw`'s first answer and the pages behind its token, put together again.
use go_kd.Prelude.Int.{ℤ}
use go_kd.Errors.{ok}
use go_kd.Prelude.{
  ℕ, suc, ◌+◌, ◌-◌, ◌*◌, ◌≤◌, ◌<◌, ◌≡◌, refl, sym, ap, ◌∙◌, ◌⊎◌, inl, inr, false, none, some, List,
  [], ◌∷◌, ◌++◌, arith, length, take, drop, length-drop, lt→leb, take-append-drop,
}
use go_kd.Text.{Text, is_empty, is_space, trim_space, trim_right, encode_to_string, hex_digit}
use go_kd.Text.Trim.{Free, trim_left-Free, trim_right-Free}
use go_kd.LruCache.{LruCache, put, get}
use go_kd.LruCache.Spec.{IsValid, put-Puts, get_lem}
use go_kd.LruCache.Hits.{get-put_self, get-put_oversize}
use go_kd.RawOutput.{
  pack_execute_raw_output, get_raw_continuation, raw_inline_cap_bytes, raw_continuation_max_bytes,
  expired_output, text_discrete, new_continuation_token,
}
use go_kd.RawOutput.Paging.{read_pages, read_pages-drop, Holds}

is_space-hex_digit : (d : ℕ) → is_space (hex_digit d) ≡ false
unfolding hex_digit
is_space-hex_digit d = ground arith

pub encode_to_string-Free : (bs : List ℕ) → Free is_space (encode_to_string bs)
unfolding encode_to_string
encode_to_string-Free [] = tt
encode_to_string-Free (b ∷ bs) =
    (is_space-hex_digit _, (is_space-hex_digit _, encode_to_string-Free bs))

-- A token is never blank.
token-present : (bs : List ℕ) → 0 < length bs → is_empty (trim_space (encode_to_string bs)) ≡ false
unfolding is_empty trim_space encode_to_string
token-present [] h = absurd (omega arith)
token-present (b ∷ bs) h =
    let free = encode_to_string-Free (b ∷ bs) in
    ap is_empty
      (ap (trim_right is_space) (trim_left-Free is_space _ free) ∙ trim_right-Free is_space _ free)

pub put-Holds :
    (cache : LruCache Text) (token bytes : Text)
    → IsValid text_discrete cache
    → 0 < cache.max
    → (cache.max_bytes ≡ 0) ⊎ (length bytes ≤ cache.max_bytes)
    → Holds (put text_discrete cache token bytes) token bytes
put-Holds cache token bytes v room small =
    let p = put-Puts text_discrete cache token bytes v.synced in
    (
      p.valid,
      sym (get_lem text_discrete (put text_discrete cache token bytes) token p.valid.synced).0
          ∙ get-put_self text_discrete cache token bytes v.synced room small,
    )

-- An output above the inline cap comes back whole, if the cache is valid and may hold an entry, the
-- rest of the output is within its byte limit (0 stands for none), and random bytes are there: the
-- first answer, followed by enough pages of 16 KiB read under its token, is the output itself.
pub pack-read_pages :
    (cache : LruCache Text) (random : List ℕ) (out : Text) (fuel : ℕ)
    → IsValid text_discrete cache
    → 0 < cache.max
    → (cache.max_bytes ≡ 0) ⊎ (length out ≤ raw_inline_cap_bytes + cache.max_bytes)
    → 0 < length random
    → raw_inline_cap_bytes < length out
    → length out ≤ raw_inline_cap_bytes + suc fuel * raw_continuation_max_bytes
    → (pack_execute_raw_output (some cache) (some random) out).0.output
        ++ read_pages
            (suc fuel)
            (pack_execute_raw_output (some cache) (some random) out).1
            (pack_execute_raw_output (some cache) (some random) out).0.continuation_token
            0
      ≡ out
unfolding pack_execute_raw_output new_continuation_token
pack-read_pages cache random out fuel v room small named big enough =
    rw (lt→leb (length out) raw_inline_cap_bytes big) (
      ap (take raw_inline_cap_bytes out ++◌) (
        read_pages-drop fuel (put text_discrete cache token rest) token rest 0
          (put-Holds cache token rest v room fits) (token-present random named) (omega arith)
          (omega (arith, size)))
      ∙ take-append-drop raw_inline_cap_bytes out)
  where
    token : Text
    token = encode_to_string random

    rest : Text
    rest = drop raw_inline_cap_bytes out

    size : length rest ≡ length out - raw_inline_cap_bytes
    size = length-drop raw_inline_cap_bytes out

    fits : (cache.max_bytes ≡ 0) ⊎ (length rest ≤ cache.max_bytes)
    fits = elim small [ inl e ↦ inl e | inr le ↦ inr (omega (arith, size)) ]

-- A rest above the byte limit of a valid cache is lost, and every other output kept there with it:
-- the answer still names a token, but under every token that is not blank a client is then told
-- that the output expired.
pub pack-oversize :
    (cache : LruCache Text) (random : List ℕ) (out q : Text) (offset limit : ℤ)
    → IsValid text_discrete cache
    → 0 < cache.max_bytes
    → raw_inline_cap_bytes + cache.max_bytes < length out
    → is_empty (trim_space q) ≡ false
    → ((pack_execute_raw_output (some cache) (some random) out).0.continuation_token
        ≡ encode_to_string random)
      × ((get_raw_continuation
            (pack_execute_raw_output (some cache) (some random) out).1
            none
            (record { token = q; offset = offset; limit = limit })).0
          ≡ ok expired_output)
unfolding pack_execute_raw_output new_continuation_token get_raw_continuation
pack-oversize cache random out q offset limit v limited big present =
    let size = length-drop raw_inline_cap_bytes out in
    let gone : (get text_discrete
          (put text_discrete cache (encode_to_string random) (drop raw_inline_cap_bytes out)) q).1
        ≡ none =
      (get-put_oversize text_discrete cache (encode_to_string random)
          (drop raw_inline_cap_bytes out) v.synced limited (omega (arith, size))).1
        q in
    rw (lt→leb (length out) raw_inline_cap_bytes (omega arith), present, gone, get_raw_continuation)
      (refl, refl)
