-- ===== src/TypeWalk.antt =====
-- dumptype.go: the recursive walk over a typed object, as a program over the session's methods. Every
-- walk is by recursion on the depth that is left; `visited` maps an address to the depth at which it was
-- walked, and its latest entry counts. `unicode` is `utf16.Decode` with the conversion to a string.
pub mod Walk
pub mod Depth
pub mod Height
pub mod Shown
use go_kd.Prelude.{
  ℕ, zero, suc, ◌+◌, ◌-◌, ◌*◌, ◌%◌, ◌^◌, Bool, true, false, not, ◌&&◌, ◌||◌, Option, none, some,
  List, [], ◌∷◌, ◌++◌, map, ltb, leb, ◌==◌, length, take, drop, if◌then◌else◌,
}
use go_kd.Prelude.Int.{ℤ, pos, negsuc}
use go_kd.Text.{
  Text, codes, is_empty, text_eq, trim_space, trim_prefix, trim_last, has_suffix, hex_fixed,
  is_case,
}
use go_kd.Errors.{GoError, other, Result, ok, err}
use go_kd.Inspect.{Field}
use go_kd.Session.{Context, Program, bind, context_err, done, call}
use go_kd.Session.Calls

-- what a special decoder makes of a value
pub data Decoded : Type 0 where
  no_decoding : Decoded
  decoded_text : Text → Decoded
  list_entry : (flink blink : ℕ) → Decoded
  decoded_int : ℤ → Decoded

-- `TypeValue` and the slices of them; `raw` is `[]` where the code has nil
mutual
  pub data TypeValue : Type 0 where
    value :
        (name type_name : Text) (address size : ℕ) (raw : List ℕ)
        → Option GoError
        → Decoded
        → TypeValues
        → TypeValue

  pub data TypeValues : Type 0 where
    nil : TypeValues
    cons : TypeValue → TypeValues → TypeValues

-- `binary.LittleEndian`
unfoldable pub little_endian : List ℕ → ℕ
little_endian [] = 0
little_endian (b ∷ bs) = b + 256 * little_endian bs

-- the bytes `raw[from : from + n]`
abbrev pub slice : ℕ → ℕ → List ℕ → List ℕ
slice from n raw = take n (drop from raw)

abbrev pub upper_code : ℕ → ℕ
upper_code c = if leb b'a' c && leb c b'z' then c - 32 else c

unfoldable pub is_pointer_type : Text → Bool
is_pointer_type name =
    let n = trim_space name in
    if is_empty n
    then false
    else has_suffix n (codes "*") || text_eq n (codes "Ptr32") || text_eq n (codes "Ptr64")

unfoldable pub units_of : List ℕ → List ℕ
units_of [] = []
units_of (lo ∷ []) = []
units_of (lo ∷ hi ∷ bytes) = (lo + 256 * hi) ∷ units_of bytes

abbrev pub from_memory : (List ℕ → Text) → Result (List ℕ) → Decoded
from_memory unicode (err e) = no_decoding
from_memory unicode (ok bytes) = decoded_text (unicode (units_of bytes))

unfoldable pub decode_unicode_string : (List ℕ → Text) → List ℕ → Program Decoded
decode_unicode_string unicode raw =
    let size = little_endian (slice 0 2 raw) in
    let buffer = little_endian (slice 8 8 raw) in
    if ltb (length raw) 16
    then done no_decoding
    else if size == 0 || buffer == 0
    then done (decoded_text [])
    else bind (Calls.read_virtual buffer size) (λ r. done (from_memory unicode r))

-- two digits for each byte
unfoldable pub hex_bytes : List ℕ → Text
hex_bytes [] = []
hex_bytes (b ∷ bs) = hex_fixed 2 b ++ hex_bytes bs

unfoldable pub decode_guid : List ℕ → Decoded
decode_guid raw =
    if ltb (length raw) 16
    then no_decoding
    else decoded_text (
        hex_fixed 8 (little_endian (slice 0 4 raw))
        ++ codes "-"
        ++ hex_fixed 4 (little_endian (slice 4 2 raw))
        ++ codes "-"
        ++ hex_fixed 4 (little_endian (slice 6 2 raw))
        ++ codes "-"
        ++ hex_bytes (slice 8 2 raw)
        ++ codes "-"
        ++ hex_bytes (slice 10 6 raw))

-- `int64` of a `uint64`
unfoldable pub to_signed : ℕ → ℤ
to_signed v = if ltb v (2 ^ 63) then pos v else negsuc (2 ^ 64 - v - 1)

unfoldable pub decode_known_type : (List ℕ → Text) → Text → List ℕ → Program Decoded
decode_known_type unicode type_name raw =
    let bare = map upper_code (trim_prefix (trim_space type_name) (codes "_")) in
    if text_eq bare (codes "UNICODE_STRING")
    then decode_unicode_string unicode raw
    else if text_eq bare (codes "LIST_ENTRY")
    then done (
        if ltb (length raw) 16
        then no_decoding
        else list_entry (little_endian (slice 0 8 raw)) (little_endian (slice 8 8 raw)))
    else if text_eq bare (codes "GUID")
    then done (decode_guid raw)
    else if is_case bare (codes "LARGE_INTEGER" ∷ codes "ULARGE_INTEGER" ∷ [])
    then done (
        if ltb (length raw) 8
        then no_decoding
        else decoded_int (to_signed (little_endian (slice 0 8 raw))))
    else done no_decoding

abbrev pub Visited : Type 0
Visited = List (ℕ × ℕ)

unfoldable pub depth_at : ℕ → Visited → Option ℕ
depth_at address [] = none
depth_at address ((a, d) ∷ visited) = if a == address then some d else depth_at address visited

-- `seen && prev > depth`
unfoldable pub is_cycle : ℕ → ℕ → Visited → Bool
is_cycle ptr depth visited = elim (depth_at ptr visited) [
  | none ↦ false
  | some prev ↦ ltb depth prev
]

-- how a field is walked with the depth that is left below it
abbrev pub Walker : Type 0
Walker = Field → ℕ → Visited → Program (TypeValue × Visited)

-- the children so far, the map, and the error of a context that ended the loop
pub record Walked : Type 0 where
  pub children : TypeValues
  pub visited : Visited
  pub ended_by : Option GoError

abbrev pub first_child : TypeValue → Walked → Walked
first_child v w = record {
  children = cons v w.children;
  visited = w.visited;
  ended_by = w.ended_by;
}

-- a round of the loop, which a context that has ended keeps from starting
unfoldable pub walk_next : Program Walked → Visited → Option GoError → Program Walked
walk_next round visited none = round
walk_next round visited (some e) =
    done (record { children = nil; visited = visited; ended_by = some e })

-- The loop over fields, which looks at the context before each.
unfoldable pub walk_all : Walker → Context → List Field → ℕ → Visited → Program Walked
walk_all walk ctx [] container visited =
    done (record { children = nil; visited = visited; ended_by = none })
walk_all walk ctx (f ∷ fs) container visited =
    let round = bind (walk f container visited) (λ answer.
      bind (walk_all walk ctx fs container answer.1) (λ rest. done (first_child answer.0 rest))) in
    call (context_err ctx) (walk_next round visited)
