-- ===== src/RawOutput/Paging.antt =====
-- A client that reads the pages of an oversized output gets the whole output back.
use go_kd.Prelude.{
  ℕ, zero, suc, ◌+◌, ◌-◌, ◌*◌, ◌≤◌, ◌<◌, ◌≡◌, sym, ap, ◌∙◌, inl, inr, true, false, none, some, [],
  ◌++◌, arith, ltb, length, take, drop, length-drop, take-append-drop, take_of_length-le, drop-drop,
  lt→ltb, le→ltb, ltb→lt, ltb→le, if◌then◌else◌, Bool-cases,
}
use go_kd.Prelude.Int.{pos}
use go_kd.Text.{Text, is_empty, trim_space}
use go_kd.Errors.{Result, ok, err}
use go_kd.LruCache.{LruCache, find, get}
use go_kd.LruCache.Spec.{IsValid, get_lem}
use go_kd.LruCache.Hits.{get-IsValid, find-get_self}
use go_kd.RawOutput.{
  Overflow, GetRawContinuationOutput, page_of, get_raw_continuation, raw_continuation_max_bytes,
  text_discrete,
}

-- A client asks for the next page at the offset that it was told, until no more is announced.
unfoldable pub read_pages : ℕ → Overflow → Text → ℕ → Text
read_pages zero overflow token offset = []
read_pages (suc fuel) overflow token offset =
    let (result, overflow') =
      get_raw_continuation overflow none
        (record { token = token; offset = pos offset; limit = pos 0 }) in
    elim result [
      | err e ↦ []
      | ok page ↦
          let rest = read_pages fuel overflow' token page.next_offset in
          if page.truncated then page.output ++ rest else page.output
    ]

-- what `read_pages` makes of an answer
abbrev and_then : ℕ → Text → Result GetRawContinuationOutput × Overflow → Text
and_then fuel token answer = elim answer.0 [
  | err e ↦ []
  | ok page ↦
      let rest = read_pages fuel answer.1 token page.next_offset in
      if page.truncated then page.output ++ rest else page.output
]

-- One page: what it holds, and whether more is announced.
page_of-more :
    (cap : ℕ) (bytes : Text) (offset : ℕ)
    → offset + cap < length bytes
    → page_of cap bytes (pos offset) (pos 0) ≡ record {
      output = take cap (drop offset bytes);
      next_offset = offset + cap;
      truncated = true;
      expired = false;
    }
unfolding page_of
page_of-more cap bytes offset h =
    let exact : offset + cap - offset ≡ cap = omega arith in
    rw (
      le→ltb (length bytes) offset (omega arith),
      le→ltb (length bytes) (offset + cap) (omega arith),
      lt→ltb (offset + cap) (length bytes) h,
      exact,
    )

page_of-last :
    (cap : ℕ) (bytes : Text) (offset : ℕ)
    → offset ≤ length bytes
    → length bytes ≤ offset + cap
    → page_of cap bytes (pos offset) (pos 0)
      ≡ record { output = drop offset bytes; next_offset = 0; truncated = false; expired = false }
unfolding page_of
page_of-last cap bytes offset h h' = elim (Bool-cases (ltb (length bytes) (offset + cap))) [
  | inl e ↦ rw (
    le→ltb (length bytes) offset h,
    e,
    le→ltb (length bytes) (length bytes) (omega arith),
    take_of_length-le (length bytes - offset) (drop offset bytes)
        (omega (arith, length-drop offset bytes)),
  )
  | inr e ↦
      let exact : offset + cap - offset ≡ cap = omega arith in
      rw (
        le→ltb (length bytes) offset h,
        e,
        le→ltb (offset + cap) (length bytes) h',
        exact,
        take_of_length-le cap (drop offset bytes) (omega (arith, length-drop offset bytes)),
      )
]

-- `Get` keeps the cache valid and the value in it.
abbrev pub Holds : LruCache Text → Text → Text → Type 0
Holds cache token bytes =
    IsValid text_discrete cache × (find text_discrete token cache.order ≡ some bytes)

get-Holds :
    (cache : LruCache Text) (token bytes : Text)
    → Holds cache token bytes
    → ((get text_discrete cache token).1 ≡ some bytes)
      × Holds (get text_discrete cache token).0 token bytes
get-Holds cache token bytes (v, e) = (
  (get_lem text_discrete cache token v.synced).0 ∙ e,
  (
    get-IsValid text_discrete cache token v,
    find-get_self text_discrete cache token bytes v.synced e,
  ),
)

-- A request for a page of bytes that the cache holds.
get_raw_continuation-page :
    (cache : LruCache Text) (token bytes : Text) (offset : ℕ)
    → Holds cache token bytes
    → is_empty (trim_space token) ≡ false
    → get_raw_continuation
        (some cache)
        none
        (record { token = token; offset = pos offset; limit = pos 0 })
      ≡ (
        ok (page_of raw_continuation_max_bytes bytes (pos offset) (pos 0)),
        some (get text_discrete cache token).0,
      )
unfolding get_raw_continuation
get_raw_continuation-page cache token bytes offset h nonempty =
    let (found, later) = get-Holds cache token bytes h in rw (nonempty, found, get_raw_continuation)

module _ (cache : LruCache Text) (token bytes : Text) (holds : Holds cache token bytes)
    (nonempty : is_empty (trim_space token) ≡ false) where
  answered :
      (offset : ℕ) (page : GetRawContinuationOutput)
      → page_of raw_continuation_max_bytes bytes (pos offset) (pos 0) ≡ page
      → get_raw_continuation
          (some cache)
          none
          (record { token = token; offset = pos offset; limit = pos 0 })
        ≡ (ok page, some (get text_discrete cache token).0)
  answered offset page e =
      get_raw_continuation-page cache token bytes offset holds nonempty
      ∙ ap (λ page. (ok page, some (get text_discrete cache token).0)) e

  read_pages-more :
      (fuel offset : ℕ)
      → offset + raw_continuation_max_bytes < length bytes
      → read_pages (suc fuel) (some cache) token offset
        ≡ take raw_continuation_max_bytes (drop offset bytes)
          ++ read_pages fuel
              (some (get text_discrete cache token).0)
              token
              (offset + raw_continuation_max_bytes)
  unfolding read_pages
  read_pages-more fuel offset h =
      ap (and_then fuel token)
        (answered offset _ (page_of-more raw_continuation_max_bytes bytes offset h))

  read_pages-last :
      (fuel offset : ℕ)
      → offset ≤ length bytes
      → length bytes ≤ offset + raw_continuation_max_bytes
      → read_pages (suc fuel) (some cache) token offset ≡ drop offset bytes
  unfolding read_pages
  read_pages-last fuel offset h h' =
      ap (and_then fuel token)
        (answered offset _ (page_of-last raw_continuation_max_bytes bytes offset h h'))

-- If a valid cache holds bytes under a token that is not blank, reading on from an offset within
-- them, for enough pages of 16 KiB to reach their end, gives the bytes behind the offset.
pub read_pages-drop :
    (fuel : ℕ) (cache : LruCache Text) (token bytes : Text) (offset : ℕ)
    → Holds cache token bytes
    → is_empty (trim_space token) ≡ false
    → offset ≤ length bytes
    → length bytes ≤ offset + suc fuel * raw_continuation_max_bytes
    → read_pages (suc fuel) (some cache) token offset ≡ drop offset bytes
read_pages-drop zero cache token bytes offset h nonempty le enough =
    read_pages-last cache token bytes h nonempty 0 offset le (omega (arith, enough))
read_pages-drop (suc fuel) cache token bytes offset h nonempty le enough =
    elim (Bool-cases (ltb (offset + raw_continuation_max_bytes) (length bytes))) [
      | inl more ↦
          read_pages-more cache token bytes h nonempty (suc fuel) offset (ltb→lt _ _ more)
          ∙ ap (take raw_continuation_max_bytes (drop offset bytes) ++◌) (
              read_pages-drop fuel (get text_discrete cache token).0 token bytes
                (offset + raw_continuation_max_bytes) (get-Holds cache token bytes h).1 nonempty
                (omega (arith, ltb→lt (offset + raw_continuation_max_bytes) (length bytes) more))
                (omega (arith, enough))
              ∙ sym (drop-drop raw_continuation_max_bytes offset bytes))
          ∙ take-append-drop raw_continuation_max_bytes (drop offset bytes)
      | inr last ↦
          read_pages-last cache token bytes h nonempty (suc fuel) offset le (ltb→le _ _ last)
    ]
