-- ===== src/ReadString.antt =====
-- cmd/gokd-mcp/workflows.go: `read_string`. `utf16.Decode` of the package `unicode/utf16` is the argument
-- `utf16_decode`, from code units to text.
pub mod Decoding
use go_kd.Prelude.{
  ℕ, zero, suc, ◌+◌, ◌*◌, ◌/◌, Bool, true, false, ◌&&◌, ◌||◌, Option, none, some, List, [], ◌∷◌,
  ◌++◌, ltb, leb, ◌==◌, length, if◌then◌else◌,
}
use go_kd.Prelude.Int.{ℤ, nonpositive, to_ℕ}
use go_kd.Text.{Text, codes, is_empty, text_eq, to_lower, trim_space}
use go_kd.Errors.{GoError, other, Result, ok, err}

abbrev pub default_read_string_bytes : ℕ
default_read_string_bytes = 256

abbrev pub max_read_string_bytes : ℕ
max_read_string_bytes = 4096

abbrev pub is_printable : ℕ → Bool
is_printable b = leb 0x20 b && ltb b 0x7f

-- the loop over the pairs of the first `probe` bytes: the zeros behind, and the printable in front
unfoldable pub count_pairs : ℕ → List ℕ → ℕ × ℕ
count_pairs (suc (suc probe)) (a ∷ b ∷ bytes) =
    let (zeros, printable) = count_pairs probe bytes in
    ((if b == 0 then zeros + 1 else zeros), (if is_printable a then printable + 1 else printable))
count_pairs _ _ = (0, 0)

-- the printable bytes up to the first zero
unfoldable pub count_printable : List ℕ → ℕ
count_printable [] = 0
count_printable (b ∷ bytes) =
    let rest = count_printable bytes in
    if b == 0 then 0 else if is_printable b then rest + 1 else rest

-- The test of the first 16 bytes for pairs of a character and a zero.
unfoldable pub looks_wide : List ℕ → Bool
looks_wide bytes =
    let probe = if ltb 16 (length bytes) then 16 else length bytes in
    let pairs = probe / 2 in
    let (zeros, printable) = count_pairs probe bytes in
    leb 4 (length bytes) && leb 2 pairs && leb pairs zeros && leb (pairs / 2) printable

abbrev pub utf16le : Text
utf16le = codes "utf16le"

abbrev pub ansi : Text
ansi = codes "ansi"

unfoldable pub detect_string_encoding : List ℕ → Text
detect_string_encoding bytes =
    if looks_wide bytes
    then utf16le
    else if leb (length bytes * 4) (count_printable bytes * 5)
    then ansi
    else utf16le

-- What both decoders return: the text, the bytes it took, and whether no end was found.
pub record Decoded : Type 0 where
  pub value : Text
  pub consumed : ℕ
  pub truncated : Bool

-- the loop over the bytes, with the number of those before
unfoldable pub ansi_from : ℕ → List ℕ → Decoded
ansi_from i [] = record { value = []; consumed = i; truncated = true }
ansi_from i (b ∷ bytes) =
    let rest = ansi_from (i + 1) bytes in
    if b == 0
    then record { value = []; consumed = i + 1; truncated = false }
    else record rest { value = b ∷ rest.value }

unfoldable pub decode_ansi : List ℕ → Decoded
decode_ansi bytes = ansi_from 0 bytes

-- the loop over the pairs, with the code units so far and the bytes they took
unfoldable pub utf16_from : (List ℕ → Text) → List ℕ → ℕ → List ℕ → Decoded
utf16_from utf16_decode units consumed (a ∷ b ∷ bytes) =
    let c = a + 256 * b in
    let rest = utf16_from utf16_decode (units ++ (c ∷ [])) (consumed + 2) bytes in
    if c == 0
    then record { value = utf16_decode units; consumed = consumed + 2; truncated = false }
    else rest
utf16_from utf16_decode units consumed _ = record {
  value = utf16_decode units;
  consumed = consumed;
  truncated = true;
}

unfoldable pub decode_utf16le : (List ℕ → Text) → List ℕ → Decoded
decode_utf16le utf16_decode bytes = utf16_from utf16_decode [] 0 bytes

pub record ReadStringOutput : Type 0 where
  pub encoding : Text
  pub value : Text
  pub bytes : ℕ
  pub truncated : Bool
  pub auto : Bool

abbrev pub string_output : Text → Bool → Decoded → ReadStringOutput
string_output encoding auto d = record {
  encoding = encoding;
  value = d.value;
  bytes = d.consumed;
  truncated = d.truncated;
  auto = auto;
}

-- the `switch` on the encoding
unfoldable pub decode_as : (List ℕ → Text) → Bool → Text → List ℕ → Result ReadStringOutput
decode_as utf16_decode auto encoding bytes =
    if text_eq encoding utf16le
    then ok (string_output encoding auto (decode_utf16le utf16_decode bytes))
    else if text_eq encoding ansi
    then ok (string_output encoding auto (decode_ansi bytes))
    else err (other (codes "unsupported encoding"))

unfoldable pub string_budget : ℤ → ℕ
string_budget max_bytes =
    let given = if nonpositive max_bytes then default_read_string_bytes else to_ℕ max_bytes in
    if ltb max_read_string_bytes given then max_read_string_bytes else given

-- `address` is what `parseHexUint64` makes of the input, `engine` is `ReadMemory`.
unfoldable pub read_string :
    (List ℕ → Text)
    → (ℕ → ℕ → Result (List ℕ))
    → Option GoError
    → Result ℕ
    → Text
    → ℤ
    → Result ReadStringOutput
read_string utf16_decode engine (some e) address encoding max_bytes = err e
read_string utf16_decode engine none (err e) encoding max_bytes = err e
read_string utf16_decode engine none (ok address) encoding max_bytes =
    let enc = to_lower (trim_space encoding) in
    elim (engine address (string_budget max_bytes)) [
      | err e ↦ err e
      | ok bytes ↦
          if is_empty enc || text_eq enc (codes "auto")
          then decode_as utf16_decode true (detect_string_encoding bytes) bytes
          else decode_as utf16_decode false enc bytes
    ]
