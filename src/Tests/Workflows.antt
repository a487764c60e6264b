-- ===== src/Tests/Workflows.antt =====
-- Addresses, struct inspection, strings and memory dumps at concrete inputs.
use go_kd.Prelude.{ℕ, ◌≡◌, refl, true, false, none, some, List, [], ◌∷◌, map, arith}
use go_kd.Prelude.Int.{pos}
use go_kd.Text.{Text, codes, hex_fixed, hex_digit}
use go_kd.Errors.{session_closed, Result, ok, err}
use go_kd.Numbers.{parse_hex_uint64}
use go_kd.Numbers.Printed.{parse_hex_uint64-hex64}
use go_kd.Inspect.{Field, InspectFields, inspect_struct, walk_inspect_fields}
use go_kd.Inspect.Budget.{
  IsBounded, count_fields, inspect_struct-IsBounded, walk_inspect_fields-cut,
}
use go_kd.ReadString.{detect_string_encoding, decode_ansi, decode_utf16le, utf16le}
use go_kd.ReadString.Decoding.{decode-string, detect_string_encoding-short}
use go_kd.DumpMemory.{DumpMemoryOutput, dump_memory, dump_width}
use go_kd.DumpMemory.Rows.{read_rows, row_addresses, dump_memory-read_rows}

parse_hex_uint64-hex64_example : parse_hex_uint64 (codes "0x0000000000401000") ≡ ok 0x401000
unfolding hex_fixed hex_digit
parse_hex_uint64-hex64_example = parse_hex_uint64-hex64 0x401000 (omega arith)

-- a type that holds itself
abbrev node : Text → Text → Result (List Field)
node module_name type_name =
    ok (record { name = codes "next"; offset = 0; size = 8; type_name = codes "_NODE" } ∷ [])

inspect_struct-IsBounded_example :
    IsBounded (inspect_struct node (λ m t. ok 8) none (ok 4096) (codes "nt!_NODE") (pos 9))
inspect_struct-IsBounded_example =
    inspect_struct-IsBounded node (λ m t. ok 8) none (ok 4096) (codes "nt!_NODE") (pos 9)

abbrev pair : Text → Text → Result (List Field)
pair module_name type_name = ok (
    record { name = codes "a"; offset = 0; size = 4; type_name = codes "int" }
    ∷ record { name = codes "b"; offset = 4; size = 4; type_name = codes "int" }
    ∷ [])

walk_inspect_fields-cut_example :
    (fields : InspectFields) × (walk_inspect_fields pair 0 (codes "nt") (codes "_PAIR") 1
      ≡ (ok (fields, false), 0))
    × (count_fields fields ≡ 1)
walk_inspect_fields-cut_example =
    walk_inspect_fields-cut pair (codes "nt") (codes "_PAIR") _ 1 refl (omega arith) (omega arith)

decode-string_example :
    (decode_ansi (104 ∷ 105 ∷ 0 ∷ 7 ∷ [])
      ≡ record { value = 104 ∷ 105 ∷ []; consumed = 3; truncated = false })
    × (decode_utf16le (λ units. units) (104 ∷ 0 ∷ 0 ∷ 0 ∷ 7 ∷ [])
        ≡ record { value = 104 ∷ []; consumed = 4; truncated = false })
decode-string_example =
    decode-string (λ units. units) (104 ∷ 105 ∷ []) (104 ∷ []) (7 ∷ []) (refl, (refl, tt))
      (refl, tt)

detect_string_encoding-short_example :
    detect_string_encoding (104 ∷ 105 ∷ 0 ∷ 0xcc ∷ 0xcc ∷ 0xcc ∷ []) ≡ utf16le
detect_string_encoding-short_example =
    detect_string_encoding-short (104 ∷ 105 ∷ []) (0xcc ∷ 0xcc ∷ 0xcc ∷ []) (omega arith)

abbrev two : List ℕ
two = 0x90 ∷ 0xc3 ∷ []

dump_memory-read_rows_example :
    (out : DumpMemoryOutput) × (dump_memory
        (λ a n. err session_closed)
        (λ a n. ok two)
        none
        (ok 4096)
        (pos 2)
        true
        (pos 0)
      ≡ ok out)
    × (read_rows out.rows ≡ some two)
    × (map (λ r. r.address) out.rows ≡ row_addresses 1 4096)
    × (out.truncated ≡ false)
unfolding dump_width
dump_memory-read_rows_example =
    dump_memory-read_rows (λ a n. err session_closed) (λ a n. ok two) true (pos 0) 4096 2 two refl
      (omega arith) refl (omega arith, (omega arith, tt))
