-- ===== src/RawOutput.antt =====
-- cmd/gokd-mcp/tools.go: `execute_raw` and `get_raw_output_continuation`. Output beyond the inline
-- cap is kept in `srv.rawOverflow` and read page by page under a random token.
pub mod Paging
pub mod RoundTrip
use go_kd.Prelude.{
  ℕ, ◌+◌, ◌-◌, ◌*◌, Bool, true, false, ◌&&◌, ◌||◌, Option, none, some, List, [], ◌∷◌, ◌++◌, ltb,
  leb, length, take, drop, if◌then◌else◌,
}
use go_kd.Prelude.Int.{ℤ, nonpositive, above, to_ℕ}
use go_kd.Text.{Text, codes, is_empty, trim_space, encode_to_string}
use go_kd.Errors.{GoError, other, Result, ok, err}
use go_kd.LruCache.{LruCache, put, get}
use go_kd.Readonly.{deny_raw_command, first_token}
use mathlib.Core.List.{List-discrete}
use native.Mathlib.Decide.{ℕ_discrete}

abbrev pub raw_overflow_entries : ℕ
raw_overflow_entries = 8

abbrev pub raw_overflow_max_bytes : ℕ
raw_overflow_max_bytes = 8 * 64 * 1024

abbrev pub raw_inline_cap_bytes : ℕ
raw_inline_cap_bytes = 16 * 1024

abbrev pub raw_continuation_max_bytes : ℕ
raw_continuation_max_bytes = 16 * 1024

unfoldable pub text_discrete : Discrete Text
text_discrete = List-discrete ℕ_discrete

-- `srv.rawOverflow`, which may be nil
abbrev pub Overflow : Type 0
Overflow = Option (LruCache Text)

-- An absent continuation token is the empty text.
pub record ExecuteRawOutput : Type 0 where
  pub output : Text
  pub bytes : ℕ
  pub truncated : Bool
  pub continuation_token : Text

-- `random` is what `rand.Read` puts into the sixteen bytes, or its failure.
unfoldable pub new_continuation_token : Option (List ℕ) → Option Text
new_continuation_token none = none
new_continuation_token (some b) = some (encode_to_string b)

unfoldable pub pack_execute_raw_output :
    Overflow → Option (List ℕ) → Text → ExecuteRawOutput × Overflow
unfolding new_continuation_token
pack_execute_raw_output overflow random out =
    if leb (length out) raw_inline_cap_bytes
    then (
      record { output = out; bytes = length out; truncated = false; continuation_token = [] },
      overflow,
    )
    else let resp : ExecuteRawOutput = record {
      output = take raw_inline_cap_bytes out;
      bytes = length out;
      truncated = true;
      continuation_token = [];
    } in
      elim overflow [
        | none ↦ (resp, none)
        | some cache ↦ elim (new_continuation_token random) [
          | none ↦ (resp, some cache)
          | some token ↦ (
            record resp { continuation_token = token },
            some (put text_discrete cache token (drop raw_inline_cap_bytes out)),
          )
        ]
      ]

-- `command %q rejected by readonly denylist`, for a token that `%q` has nothing to escape in
unfoldable pub rejected : Text → GoError
rejected command =
    other (codes "command \"" ++ first_token command ++ codes "\" rejected by readonly denylist")

-- `readonly` is the server's flag, `cancelled` is `checkContext(ctx)`, and `execute` the engine.
unfoldable pub execute_raw :
    Bool
    → Overflow
    → Option GoError
    → (Text → Result Text)
    → Option (List ℕ)
    → Text
    → Result ExecuteRawOutput × Overflow
execute_raw readonly overflow (some e) execute random command = (err e, overflow)
execute_raw readonly overflow none execute random command =
    if readonly && deny_raw_command command
    then (err (rejected command), overflow)
    else elim (execute command) [
      | err e ↦ (err e, overflow)
      | ok out ↦
          let (resp, overflow') = pack_execute_raw_output overflow random out in
          (ok resp, overflow')
    ]

pub record GetRawContinuationInput : Type 0 where
  pub token : Text
  pub offset : ℤ
  pub limit : ℤ

pub record GetRawContinuationOutput : Type 0 where
  pub output : Text
  pub next_offset : ℕ
  pub truncated : Bool
  pub expired : Bool

abbrev pub expired_output : GetRawContinuationOutput
expired_output = record { output = []; next_offset = 0; truncated = false; expired = true }

-- The page of `data` that the input asks for, of at most `cap` bytes.
unfoldable pub page_of : ℕ → Text → ℤ → ℤ → GetRawContinuationOutput
page_of cap bytes in_offset in_limit =
    let offset = if above in_offset (length bytes) then length bytes else to_ℕ in_offset in
    let limit = if nonpositive in_limit || above in_limit cap then cap else to_ℕ in_limit in
    let end = if ltb (length bytes) (offset + limit) then length bytes else offset + limit in
    let chunk = take (end - offset) (drop offset bytes) in
    if ltb end (length bytes)
    then record { output = chunk; next_offset = end; truncated = true; expired = false }
    else record { output = chunk; next_offset = 0; truncated = false; expired = false }

unfoldable pub get_raw_continuation :
    Overflow → Option GoError → GetRawContinuationInput → Result GetRawContinuationOutput × Overflow
get_raw_continuation overflow (some e) input = (err e, overflow)
get_raw_continuation overflow none input =
    if is_empty (trim_space input.token)
    then (err (other (codes "token is required")), overflow)
    else elim overflow [
      | none ↦ (ok expired_output, none)
      | some cache ↦
          let (cache', found) = get text_discrete cache input.token in
          elim found [
            | none ↦ (ok expired_output, some cache')
            | some bytes ↦ (
              ok (page_of raw_continuation_max_bytes bytes input.offset input.limit),
              some cache',
            )
          ]
    ]
