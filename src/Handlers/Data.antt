-- ===== src/Handlers/Data.antt =====
-- cmd/gokd-mcp/tools.go: the tools that read the target: modules, stack, memory, code, symbols, types,
-- and the last exception and bug check. `matches` is `filepath.Match`.
use go_kd.Prelude.{
  ℕ, ◌++◌, Bool, true, false, Option, none, some, List, [], map, ltb, length, take, ◌==◌,
  if◌then◌else◌,
}
use go_kd.Prelude.Int.{ℤ, pos, negsuc}
use go_kd.Text.{Text, codes, trim_space, decode_string, format_x}
use go_kd.Errors.{GoError, hresult, other, Result, ok, err}
use go_kd.Events.{hex64}
use go_kd.Listing.{ModulesOutput, StackOutput}
use go_kd.Listing
use go_kd.Memory.{HexOutput, WriteMemoryOutput, capped, parse_hex_bytes}
use go_kd.Memory
use go_kd.Inspect.{Field}
use go_kd.Numbers.{parse_hex_uint64}
use go_kd.Session.{Context, Program, bind, ◌>>=◌, finish, refuse, check_context, done}
use go_kd.Session.Calls.{Instruction, BugCheck}
use go_kd.Session.Calls
use go_kd.Handlers.{InstructionInfo, format_instruction}

unfoldable pub get_modules :
    (Text → Text → Option Bool) → Context → Text → ℤ → ℤ → Program (Result ModulesOutput)
get_modules matches ctx name_glob offset limit = check_context ctx >>= λ u.
    bind Calls.modules
      (λ answer. done (Listing.get_modules none answer matches name_glob offset limit))

unfoldable pub get_stack : Context → ℤ → Program (Result StackOutput)
get_stack ctx max_frames = check_context ctx >>= λ u.
    bind Calls.stack (λ answer. done (Listing.get_stack none answer max_frames))

-- `readMemory` and `readPhysical`, by the session's method
abbrev pub reading :
    (ℕ → ℕ → Program (Result (List ℕ))) → Context → Text → ℕ → Program (Result HexOutput)
reading reads ctx address_hex requested = check_context ctx >>= λ u.
    done (parse_hex_uint64 address_hex) >>= λ address.
    bind (reads address (capped requested))
      (λ answer. done (Memory.read_memory none (ok address) requested (λ a n. answer)))

unfoldable pub read_memory : Context → Text → ℕ → Program (Result HexOutput)
read_memory = reading Calls.read_virtual

unfoldable pub read_physical : Context → Text → ℕ → Program (Result HexOutput)
read_physical = reading Calls.read_physical

-- `hex.DecodeString` with its error wrapped
abbrev pub decoded : Text → Result (List ℕ)
decoded text = elim (decode_string (trim_space text)) [
  | none ↦ err (other (codes "invalid hex"))
  | some bytes ↦ ok bytes
]

unfoldable pub write_memory : Context → Text → Text → Program (Result WriteMemoryOutput)
write_memory ctx address_hex text = check_context ctx >>= λ u.
    done (parse_hex_uint64 address_hex) >>= λ address. done (decoded text) >>= λ bytes.
    Calls.write_virtual address bytes >>= λ v.
    finish (record { done = true; bytes_written = length bytes })

abbrev pub max_disassemble_count : ℕ
max_disassemble_count = 1024

pub record DisassembleOutput : Type 0 where
  pub instructions : List InstructionInfo
  pub returned : ℕ
  pub truncated : Bool

-- the count that is asked for, 8 for none
unfoldable pub requested_count : ℤ → Result ℕ
requested_count (pos n) = ok (if n == 0 then 8 else n)
requested_count (negsuc n) = err (other (codes "count must be >= 0"))

unfoldable pub disassemble : Context → Text → ℤ → Program (Result DisassembleOutput)
disassemble ctx address_hex count = check_context ctx >>= λ u.
    done (parse_hex_uint64 address_hex) >>= λ address. done (requested_count count) >>= λ requested.
    Calls.disassemble_range address
      (if ltb max_disassemble_count requested then max_disassemble_count else requested)
    >>= λ ins.
        let out = map format_instruction ins in
        finish (record {
          instructions = out;
          returned = length out;
          truncated = ltb max_disassemble_count requested;
        })

unfoldable pub name_to_addr : Context → Text → Program (Result Text)
name_to_addr ctx name =
    check_context ctx >>= λ u. Calls.name_to_addr name >>= λ address. finish (hex64 address)

unfoldable pub addr_to_name : Context → Text → Program (Result (Text × ℕ))
addr_to_name ctx address_hex = check_context ctx >>= λ u.
    done (parse_hex_uint64 address_hex) >>= λ address. Calls.addr_to_name address

abbrev pub max_type_fields : ℕ
max_type_fields = 256

pub record FieldsOutput : Type 0 where
  pub fields : List Field
  pub returned : ℕ
  pub truncated : Bool

unfoldable pub get_type_fields : Context → Text → Text → Program (Result FieldsOutput)
get_type_fields ctx module_name type_name = check_context ctx >>= λ u.
    Calls.type_fields module_name type_name >>= λ fields.
    let truncated = ltb max_type_fields (length fields) in
    let out = if truncated then take max_type_fields fields else fields in
    finish (record { fields = out; returned = length out; truncated = truncated })

unfoldable pub get_type_size : Context → Text → Text → Program (Result ℕ)
get_type_size ctx module_name type_name =
    check_context ctx >>= λ u. Calls.type_size module_name type_name

-- `errors.Is(err, gokd.ErrNotFound)`
unfoldable pub is_not_found : GoError → Bool
is_not_found (hresult code) = code == 0x80000002
is_not_found e = false

-- What a handler answers with for a result that was not found, `none`.
unfoldable pub not_found_as : {A B : Type 0} → B → (A → B) → Result A → Result B
not_found_as absent shape (ok a) = ok (shape a)
not_found_as absent shape (err e) = if is_not_found e then ok absent else err e

pub record SearchMemoryOutput : Type 0 where
  pub found : Bool
  pub match_hex : Text

-- a length of 0 is refused
abbrev pub positive : ℕ → Text → Program (Result Unit)
positive n message = if n == 0 then refuse message else finish tt

unfoldable pub search_memory : Context → Text → ℕ → Text → ℕ → Program (Result SearchMemoryOutput)
search_memory ctx start_hex size pattern_hex granularity = check_context ctx >>= λ u.
    done (parse_hex_uint64 start_hex) >>= λ start.
    positive size (codes "length must be > 0") >>= λ v.
    done (parse_hex_bytes pattern_hex) >>= λ pat.
    bind (Calls.search_memory start size pat (if granularity == 0 then 1 else granularity)) (λ r.
      done (
        not_found_as (record { found = false; match_hex = [] })
          (λ address. record { found = true; match_hex = hex64 address }) r))

unfoldable pub virtual_to_physical : Context → Text → Program (Result Text)
virtual_to_physical ctx va_hex = check_context ctx >>= λ u. done (parse_hex_uint64 va_hex) >>= λ va.
    Calls.virtual_to_physical va >>= λ pa. finish (hex64 pa)

pub record QueryRegionOutput : Type 0 where
  pub base_address_hex : Text
  pub allocation_base_hex : Text
  pub allocation_protect_hex : Text
  pub region_size : ℕ
  pub state_hex : Text
  pub protect_hex : Text
  pub type_hex : Text

unfoldable pub query_region : Context → Text → Program (Result QueryRegionOutput)
query_region ctx va_hex = check_context ctx >>= λ u. done (parse_hex_uint64 va_hex) >>= λ va.
    Calls.query_region va >>= λ r. finish (record {
      base_address_hex = hex64 r.base_address;
      allocation_base_hex = hex64 r.allocation_base;
      allocation_protect_hex = codes "0x" ++ format_x r.allocation_protect;
      region_size = r.region_size;
      state_hex = codes "0x" ++ format_x r.state;
      protect_hex = codes "0x" ++ format_x r.protect;
      type_hex = codes "0x" ++ format_x r.kind;
    })
