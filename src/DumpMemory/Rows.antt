-- ===== src/DumpMemory/Rows.antt =====
-- The rows of a dump read back.
use go_kd.Prelude.{
  ℕ, zero, suc, ◌+◌, ◌-◌, ◌/◌, ◌%◌, ◌^◌, min, ◌≤◌, ◌<◌, ltb, lt→leb, ◌≡◌, refl, ap, ◌∙◌, Bool, true,
  false, Option, none, some, List, [], ◌∷◌, ◌++◌, map, arith, length, take, drop, length-drop,
  take-append-drop, if◌then◌else◌,
}
use go_kd.Text.{Text, encode_to_string, decode_string}
use go_kd.Text.Hex.{IsBytes, decode-encode}
use go_kd.Errors.{Result, ok}
use go_kd.Prelude.Int.{ℤ, pos}
use go_kd.Events.{hex64}
use go_kd.Memory.{max_read_memory_bytes, strip}
use go_kd.Memory.Hexadecimal.{hex_digit-kept}
use go_kd.DumpMemory.{
  hex_groups, format_hex_row, DumpMemoryOutput, dump_memory, dump_width, DumpRow, dump_rows,
  bytes_per_row,
}

-- Without its blanks, a row of groups of one byte is the digits of its bytes.
hex_groups-one :
    (fuel : ℕ) (started : Bool) (row : List ℕ)
    → length row ≤ fuel
    → strip (hex_groups fuel started 1 row) ≡ encode_to_string row
unfolding hex_groups encode_to_string strip
hex_groups-one zero started [] h = refl
hex_groups-one zero started (b ∷ row) h = absurd (omega arith)
hex_groups-one (suc fuel) started [] h = refl
hex_groups-one (suc fuel) true (b ∷ row) h =
    rw
      (hex_digit-kept (b / 16), hex_digit-kept (b % 16), hex_groups-one fuel true row (omega arith))
hex_groups-one (suc fuel) false (b ∷ row) h =
    rw
      (hex_digit-kept (b / 16), hex_digit-kept (b % 16), hex_groups-one fuel true row (omega arith))

-- the bytes that the rows show, in order
unfoldable pub read_rows : List DumpRow → Option (List ℕ)
read_rows [] = some []
read_rows (r ∷ rows) = elim (decode_string (strip r.hex_bytes)) [
  | none ↦ none
  | some row ↦ elim (read_rows rows) [ none ↦ none | some bytes ↦ some (row ++ bytes) ]
]

IsBytes-take : (k : ℕ) (bytes : List ℕ) → IsBytes bytes → IsBytes (take k bytes)
IsBytes-take zero bytes h = tt
IsBytes-take (suc k) [] h = tt
IsBytes-take (suc k) (b ∷ bytes) h = (h.0, IsBytes-take k bytes h.1)

IsBytes-drop : (k : ℕ) (bytes : List ℕ) → IsBytes bytes → IsBytes (drop k bytes)
IsBytes-drop zero bytes h = h
IsBytes-drop (suc k) [] h = tt
IsBytes-drop (suc k) (b ∷ bytes) h = IsBytes-drop k bytes h.1

format_hex_row-one : (row : List ℕ) → strip (format_hex_row row 1) ≡ encode_to_string row
unfolding format_hex_row
format_hex_row-one row = hex_groups-one (length row) false row (omega arith)

row-decoded : (row : List ℕ) → IsBytes row → decode_string (strip (format_hex_row row 1)) ≡ some row
row-decoded row h = ap decode_string (format_hex_row-one row) ∙ decode-encode row h

read_rows-from :
    (fuel address : ℕ) (bytes : List ℕ)
    → IsBytes bytes
    → length bytes ≤ fuel
    → read_rows (dump_rows fuel 1 address bytes) ≡ some bytes
unfolding read_rows dump_rows
read_rows-from zero address [] h le = refl
read_rows-from zero address (b ∷ bytes) h le = absurd (omega arith)
read_rows-from (suc fuel) address [] h le = refl
read_rows-from (suc fuel) address (b ∷ bytes) h le =
    let size : length (drop bytes_per_row (b ∷ bytes)) ≤ fuel =
      omega (arith, length-drop bytes_per_row (b ∷ bytes)) in
    let here =
      row-decoded (take bytes_per_row (b ∷ bytes)) (IsBytes-take bytes_per_row (b ∷ bytes) h) in
    let later =
      read_rows-from fuel (address + bytes_per_row) (drop bytes_per_row (b ∷ bytes))
        (IsBytes-drop bytes_per_row (b ∷ bytes) h) size in
    rw (here, later, read_rows) (ap some (take-append-drop bytes_per_row (b ∷ bytes)))

-- the addresses of `n` rows
abbrev pub row_addresses : ℕ → ℕ → List Text
row_addresses zero address = []
row_addresses (suc n) address = hex64 (address % 2 ^ 64) ∷ row_addresses n (address + bytes_per_row)

address-dump_rows :
    (fuel width address : ℕ) (bytes : List ℕ)
    → length bytes ≤ fuel
    → map (λ r. r.address) (dump_rows fuel width address bytes)
      ≡ row_addresses ((length bytes + 15) / 16) address
unfolding dump_rows
address-dump_rows zero width address [] le = refl
address-dump_rows zero width address (b ∷ bytes) le = absurd (omega arith)
address-dump_rows (suc fuel) width address [] le = refl
address-dump_rows (suc fuel) width address (b ∷ bytes) le =
    let rest = drop bytes_per_row (b ∷ bytes) in
    let size : length rest ≡ length (b ∷ bytes) - 16 = length-drop bytes_per_row (b ∷ bytes) in
    let count : suc ((length rest + 15) / 16) ≡ (length (b ∷ bytes) + 15) / 16 = omega arith in
    ap (hex64 (address % 2 ^ 64) ∷◌)
      (address-dump_rows fuel width (address + bytes_per_row) rest (omega arith))
    ∙ ap (λ n. row_addresses n address) count

-- the memory that a dump reads
abbrev pub memory_of :
    (read_virtual read_physical : ℕ → ℕ → Result (List ℕ)) → Bool → ℕ → ℕ → Result (List ℕ)
memory_of read_virtual read_physical true = read_physical
memory_of read_virtual read_physical false = read_virtual

-- What a dump of virtual or of physical memory shows, as the input asks, with groups of one byte, which
-- an absent width stands for too, and for a length above 0: the rows read back are the bytes that the
-- engine has there in this memory, of which it is asked for at most 4096; there is a row for each
-- sixteen bytes or part of them, with its own address, and the answer says if more were wanted.
pub dump_memory-read_rows :
    (read_virtual read_physical : ℕ → ℕ → Result (List ℕ)) (physical : Bool) (width : ℤ)
    (address len : ℕ) (bytes : List ℕ)
    → dump_width width ≡ some 1
    → 0 < len
    → memory_of read_virtual read_physical physical address (min len max_read_memory_bytes)
      ≡ ok bytes
    → IsBytes bytes
    → (out : DumpMemoryOutput) × (dump_memory read_virtual read_physical none
          (ok address)
          (pos len)
          physical
          width
        ≡ ok out)
      × (read_rows out.rows ≡ some bytes)
      × (map (λ r. r.address) out.rows ≡ row_addresses ((length bytes + 15) / 16) address)
      × (out.truncated ≡ ltb max_read_memory_bytes len)
unfolding dump_memory
dump_memory-read_rows read_virtual read_physical physical width address len bytes one positive e
      small =
    let size : (if ltb max_read_memory_bytes len then max_read_memory_bytes else len)
        ≡ min len max_read_memory_bytes =
      ground arith in
    let asked : (if physical then read_physical else read_virtual) address
          (if ltb max_read_memory_bytes len then max_read_memory_bytes else len)
        ≡ ok bytes =
      ap ((if physical then read_physical else read_virtual) address) size
      ∙ chosen read_virtual read_physical physical address (min len max_read_memory_bytes)
      ∙ e in
    rw (lt→leb len 0 positive, one, asked, dump_memory)
      (
        _,
        refl,
        read_rows-from (length bytes) address bytes small (omega arith),
        address-dump_rows (length bytes) 1 address bytes (omega arith),
        refl,
      )
  where
    chosen :
        (read_virtual read_physical : ℕ → ℕ → Result (List ℕ)) (physical : Bool) (address n : ℕ)
        → (if physical then read_physical else read_virtual) address n
          ≡ memory_of read_virtual read_physical physical address n
    chosen read_virtual read_physical true address n = refl
    chosen read_virtual read_physical false address n = refl
