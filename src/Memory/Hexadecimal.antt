-- ===== src/Memory/Hexadecimal.antt =====
-- Bytes that go out as hexadecimal text come back in as the same bytes.
use go_kd.Prelude.{
  true, ℕ, ◌/◌, ◌%◌, ◌<◌, min, ◌≡◌, refl, ap, ◌∙◌, false, none, List, [], ◌∷◌, arith, ltb, ◌==◌,
  length,
}
use go_kd.Text.{is_empty, is_space, trim_space, trim_right, has_prefix, hex_digit, encode_to_string}
use go_kd.Text.Hex.{IsBytes, decode-encode, length-encode_to_string}
use go_kd.Text.Trim.{trim_left-Free, trim_right-Free}
use go_kd.Errors.{Result, ok}
use go_kd.RawOutput.RoundTrip.{encode_to_string-Free}
use go_kd.Memory.{
  HexOutput, capped, read_memory, write_memory, is_skipped, strip, strip_prefix, parse_hex_bytes,
  max_read_memory_bytes,
}

trim_space-encode : (bs : List ℕ) → trim_space (encode_to_string bs) ≡ encode_to_string bs
unfolding trim_space
trim_space-encode bs =
    let free = encode_to_string-Free bs in
    ap (trim_right is_space) (trim_left-Free is_space _ free) ∙ trim_right-Free is_space _ free

capped-min : (requested : ℕ) → capped requested ≡ min requested max_read_memory_bytes
unfolding capped
capped-min requested = ground arith

abbrev read_answer : ℕ → List ℕ → HexOutput
read_answer requested bytes = record {
  hex = encode_to_string bytes;
  returned_length = length bytes;
  truncated = ltb max_read_memory_bytes requested;
}

read_memory-answer :
    (address requested : ℕ) (bytes : List ℕ) (reads : ℕ → ℕ → Result (List ℕ))
    → reads address (min requested max_read_memory_bytes) ≡ ok bytes
    → read_memory none (ok address) requested reads ≡ ok (read_answer requested bytes)
unfolding read_memory
read_memory-answer address requested bytes reads e =
    let asked : reads address (capped requested) ≡ ok bytes =
      ap (reads address) (capped-min requested) ∙ e in
    rw (asked, read_memory)

write_memory-encode :
    {M : Type 0} (to : ℕ) (bytes : List ℕ) (writes : ℕ → List ℕ → M → Result M) (mem mem' : M)
    → IsBytes bytes
    → writes to bytes mem ≡ ok mem'
    → write_memory none (ok to) (encode_to_string bytes) writes mem
      ≡ (ok (record { done = true; bytes_written = length bytes }), mem')
unfolding write_memory
write_memory-encode to bytes writes mem mem' small w =
    rw (trim_space-encode bytes, decode-encode bytes small, w, write_memory)

-- What `read_memory` answers for bytes that the engine has, `write_memory` writes as the same bytes,
-- to any address at which the engine takes them: the target's memory is then what the engine makes
-- of that write. The engine is asked for at most 4096 bytes, and the answer says whether more were
-- wanted.
pub write_memory-read_memory :
    {M : Type 0} (address to requested : ℕ) (bytes : List ℕ) (reads : ℕ → ℕ → Result (List ℕ))
    (writes : ℕ → List ℕ → M → Result M) (mem mem' : M)
    → IsBytes bytes
    → reads address (min requested max_read_memory_bytes) ≡ ok bytes
    → writes to bytes mem ≡ ok mem'
    → (out : HexOutput) × (read_memory none (ok address) requested reads ≡ ok out)
      × (out.returned_length ≡ length bytes)
      × (out.truncated ≡ ltb max_read_memory_bytes requested)
      × (write_memory none (ok to) out.hex writes mem
          ≡ (ok (record { done = true; bytes_written = length bytes }), mem'))
write_memory-read_memory address to requested bytes reads writes mem mem' small e w = (
  read_answer requested bytes,
  read_memory-answer address requested bytes reads e,
  refl,
  refl,
  write_memory-encode to bytes writes mem mem' small w,
)

pub hex_digit-kept : (d : ℕ) → is_skipped (hex_digit d) ≡ false
unfolding hex_digit
hex_digit-kept d = ground arith

hex_digit-plain :
    (d : ℕ) → d < 16 → ((hex_digit d == b'x') ≡ false) × ((hex_digit d == b'X') ≡ false)
unfolding hex_digit
hex_digit-plain d h = (ground arith, ground arith)

pub strip-encode : (bs : List ℕ) → strip (encode_to_string bs) ≡ encode_to_string bs
unfolding strip encode_to_string
strip-encode [] = refl
strip-encode (b ∷ bs) =
    rw (hex_digit-kept (b / 16), hex_digit-kept (b % 16), strip-encode bs, strip)

strip_prefix-encode :
    (bs : List ℕ) → IsBytes bs → strip_prefix (encode_to_string bs) ≡ encode_to_string bs
unfolding strip_prefix has_prefix encode_to_string
strip_prefix-encode [] h = refl
strip_prefix-encode (b ∷ bs) h = ground (arith, hex_digit-plain (b % 16))

encode-present : (bs : List ℕ) → 0 < length bs → is_empty (encode_to_string bs) ≡ false
unfolding is_empty encode_to_string
encode-present [] n = absurd (omega arith)
encode-present (b ∷ bs) n = refl

-- `parse_hex_bytes` reads the digits of any bytes back as these bytes, if there are any.
pub parse_hex_bytes-encode :
    (bs : List ℕ) → IsBytes bs → 0 < length bs → parse_hex_bytes (encode_to_string bs) ≡ ok bs
unfolding parse_hex_bytes
parse_hex_bytes-encode bs h some_bytes =
    let even : length (encode_to_string bs) % 2 ≡ 0 = omega (arith, length-encode_to_string bs) in
    rw (
      trim_space-encode bs,
      strip-encode bs,
      strip_prefix-encode bs h,
      encode-present bs some_bytes,
      even,
      decode-encode bs h,
      parse_hex_bytes,
    )
