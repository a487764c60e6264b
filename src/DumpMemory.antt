-- ===== src/DumpMemory.antt =====
-- cmd/gokd-mcp/workflows.go: `dump_memory`, which shows memory in rows of sixteen bytes. The engine's
-- `ReadMemory` and `ReadPhysical` are arguments. Addresses wrap at 2^64.
pub mod Rows
use mathlib.Core.List.{reverse}
use go_kd.Prelude.{
  ℕ, zero, suc, ◌+◌, ◌^◌, ◌%◌, Bool, true, false, ◌&&◌, ◌||◌, Option, none, some, List, [], ◌∷◌,
  ◌++◌, ltb, leb, ◌==◌, length, take, drop, if◌then◌else◌,
}
use go_kd.Prelude.Int.{ℤ, pos, negsuc, nonpositive, above, to_ℕ}
use go_kd.Text.{Text, codes, encode_to_string}
use go_kd.Errors.{GoError, other, Result, ok, err}
use go_kd.Events.{hex64}
use go_kd.Memory.{max_read_memory_bytes}

abbrev pub bytes_per_row : ℕ
bytes_per_row = 16

-- The loop over the groups of a row, of which `fuel` bounds the number. A blank stands between two.
unfoldable pub hex_groups : ℕ → Bool → ℕ → List ℕ → Text
hex_groups zero started width row = []
hex_groups (suc fuel) started width [] = []
hex_groups (suc fuel) started width (b ∷ row) =
    let shown = encode_to_string (reverse (take width (b ∷ row))) in
    let rest = hex_groups fuel true width (drop width (b ∷ row)) in
    if started then b' ' ∷ shown ++ rest else shown ++ rest

-- Each group takes a byte at least, so a row has no more groups than bytes.
unfoldable pub format_hex_row : List ℕ → ℕ → Text
format_hex_row row width = hex_groups (length row) false width row

unfoldable pub format_ascii_row : List ℕ → Text
format_ascii_row [] = []
format_ascii_row (b ∷ row) = (if leb 0x20 b && ltb b 0x7f then b else b'.') ∷ format_ascii_row row

pub record DumpRow : Type 0 where
  pub address : Text
  pub hex_bytes : Text
  pub ascii : Text

-- The loop over the rows, from the address `addr + i`, of which `fuel` bounds the number.
unfoldable pub dump_rows : ℕ → ℕ → ℕ → List ℕ → List DumpRow
dump_rows zero width address bytes = []
dump_rows (suc fuel) width address [] = []
dump_rows (suc fuel) width address (b ∷ bytes) =
    let row = take bytes_per_row (b ∷ bytes) in
    record {
      address = hex64 (address % 2 ^ 64);
      hex_bytes = format_hex_row row width;
      ascii = format_ascii_row row;
    }
    ∷ dump_rows fuel width (address + bytes_per_row) (drop bytes_per_row (b ∷ bytes))

pub record DumpMemoryOutput : Type 0 where
  pub rows : List DumpRow
  pub bytes : ℕ
  pub truncated : Bool

-- The width that the input asks for, `none` for one that is not allowed.
unfoldable pub dump_width : ℤ → Option ℕ
dump_width (negsuc n) = none
dump_width (pos w) =
    if w == 0 then some 1 else if w == 1 || w == 2 || w == 4 || w == 8 then some w else none

-- `address` is what `parseHexUint64` makes of the input.
unfoldable pub dump_memory :
    (ℕ → ℕ → Result (List ℕ))
    → (ℕ → ℕ → Result (List ℕ))
    → Option GoError
    → Result ℕ
    → ℤ
    → Bool
    → ℤ
    → Result DumpMemoryOutput
dump_memory read_virtual read_physical (some e) address len physical width = err e
dump_memory read_virtual read_physical none (err e) len physical width = err e
dump_memory read_virtual read_physical none (ok address) len physical width =
    if nonpositive len
    then err (other (codes "length must be > 0"))
    else let over = above len max_read_memory_bytes in
      let size = if over then max_read_memory_bytes else to_ℕ len in
      elim (dump_width width) [
        | none ↦ err (other (codes "width must be 1, 2, 4, or 8"))
        | some w ↦ elim ((if physical then read_physical else read_virtual) address size) [
          | err e ↦ err e
          | ok bytes ↦ ok (record {
            rows = dump_rows (length bytes) w address bytes;
            bytes = length bytes;
            truncated = over;
          })
        ]
      ]
