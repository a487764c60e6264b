-- ===== src/Memory.antt =====
-- cmd/gokd-mcp/tools.go: `read_memory`, `read_physical`, `write_memory`; cmd/gokd-mcp/format.go:
-- `parseHexBytes`. The engine's call is an argument, and so is what `parseHexUint64` makes of the
-- address. Error texts are the constant part of the source's.
pub mod Hexadecimal
use go_kd.Prelude.{
  ℕ, ◌+◌, ◌%◌, Bool, true, false, ◌&&◌, ◌||◌, Option, none, some, List, [], ◌∷◌, ◌++◌, ltb, ◌==◌,
  length, drop, if◌then◌else◌,
}
use go_kd.Text.{Text, codes, is_empty, trim_space, has_prefix, encode_to_string, decode_string}
use go_kd.Errors.{GoError, other, Result, ok, err}

abbrev pub max_read_memory_bytes : ℕ
max_read_memory_bytes = 4096

pub record HexOutput : Type 0 where
  pub hex : Text
  pub returned_length : ℕ
  pub truncated : Bool

-- the length that is asked of the engine
unfoldable pub capped : ℕ → ℕ
capped requested = if ltb max_read_memory_bytes requested then max_read_memory_bytes else requested

-- `readMemory` and `readPhysical`, which differ in the engine's call alone.
unfoldable pub read_memory :
    Option GoError → Result ℕ → ℕ → (ℕ → ℕ → Result (List ℕ)) → Result HexOutput
read_memory (some e) address requested engine = err e
read_memory none (err e) requested engine = err e
read_memory none (ok address) requested engine = elim (engine address (capped requested)) [
  | err e ↦ err e
  | ok bytes ↦ ok (record {
    hex = encode_to_string bytes;
    returned_length = length bytes;
    truncated = ltb max_read_memory_bytes requested;
  })
]

pub record WriteMemoryOutput : Type 0 where
  pub done : Bool
  pub bytes_written : ℕ

-- `mem` is the target's memory, which the engine's call changes unless it fails.
unfoldable pub write_memory :
    {M : Type 0}
    → Option GoError
    → Result ℕ
    → Text
    → (ℕ → List ℕ → M → Result M)
    → M
    → Result WriteMemoryOutput × M
write_memory (some e) address text engine mem = (err e, mem)
write_memory none (err e) text engine mem = (err e, mem)
write_memory none (ok address) text engine mem = elim (decode_string (trim_space text)) [
  | none ↦ (err (other (codes "invalid hex")), mem)
  | some bytes ↦ elim (engine address bytes mem) [
    | err e ↦ (err e, mem)
    | ok mem' ↦ (ok (record { done = true; bytes_written = length bytes }), mem')
  ]
]

-- the characters that `parseHexBytes` passes over
abbrev pub is_skipped : ℕ → Bool
is_skipped c = c == b' ' || c == 9 || c == 10 || c == 13

unfoldable pub strip : Text → Text
strip [] = []
strip (c ∷ s) = let rest = strip s in if is_skipped c then rest else c ∷ rest

unfoldable pub strip_prefix : Text → Text
strip_prefix s = if has_prefix s (codes "0x") || has_prefix s (codes "0X") then drop 2 s else s

unfoldable pub parse_hex_bytes : Text → Result (List ℕ)
parse_hex_bytes text =
    if is_empty (trim_space text)
    then err (other (codes "is required"))
    else let s = strip_prefix (strip (trim_space text)) in
      if is_empty s
      then err (other (codes "is required"))
      else if length s % 2 == 0
      then elim (decode_string s) [
        | none ↦ err (other (codes "invalid byte"))
        | some bytes ↦ ok bytes
      ]
      else err (other (codes "must contain an even number of hex digits"))
