-- ===== src/ReadString/Decoding.antt =====
-- What the decoders make of a string with its end, and what the detection makes of a short one.
use go_kd.Prelude.{
  ℕ, ◌+◌, ◌*◌, ◌/◌, ◌%◌, ◌≤◌, ◌<◌, ◌≡◌, ◌∙◌, Bool, true, false, List, [], ◌∷◌, ◌++◌, arith, ◌==◌,
  length, append_assoc, append-nil,
}
use go_kd.Text.{Text}
use go_kd.Text.Trim.{Free}
use go_kd.ReadString.{
  count_printable, detect_string_encoding, ansi_from, decode_ansi, utf16_from, decode_utf16le,
  utf16le,
}

-- no byte of the text is zero
abbrev pub is_zero : ℕ → Bool
is_zero b = b == 0

ansi_from-string :
    (i : ℕ) (s rest : List ℕ)
    → Free is_zero s
    → ansi_from i (s ++ (0 ∷ rest))
      ≡ record { value = s; consumed = i + length s + 1; truncated = false }
unfolding ansi_from
ansi_from-string i [] rest h = ground arith
ansi_from-string i (b ∷ s) rest h = ground (arith, ansi_from-string (i + 1) s rest)

ansi_from-open :
    (i : ℕ) (s : List ℕ)
    → Free is_zero s
    → ansi_from i s ≡ record { value = s; consumed = i + length s; truncated = true }
unfolding ansi_from
ansi_from-open i [] h = ground arith
ansi_from-open i (b ∷ s) h = ground (arith, ansi_from-open (i + 1) s)

-- the bytes of code units, low byte first
abbrev pub little_endian : List ℕ → List ℕ
little_endian [] = []
little_endian (u ∷ us) = u % 256 ∷ u / 256 ∷ little_endian us

utf16_from-string :
    (utf16_decode : List ℕ → Text) (before : List ℕ) (n : ℕ) (units rest : List ℕ)
    → Free is_zero units
    → utf16_from utf16_decode before n (little_endian units ++ (0 ∷ 0 ∷ rest)) ≡ record {
      value = utf16_decode (before ++ units);
      consumed = n + 2 * length units + 2;
      truncated = false;
    }
unfolding utf16_from
utf16_from-string utf16_decode before n [] rest h = ground (arith, append-nil before)
utf16_from-string utf16_decode before n (u ∷ us) rest h =
    let same : u % 256 + 256 * (u / 256) ≡ u = omega arith in
    rw (same, h.0)
      (utf16_from-string utf16_decode (before ++ (u ∷ [])) (n + 2) us rest h.1
        ∙ ground (arith, append_assoc before (u ∷ []) us))

count_printable-string : (s rest : List ℕ) → count_printable (s ++ (0 ∷ rest)) ≤ length s
unfolding count_printable
count_printable-string [] rest = ground arith
count_printable-string (b ∷ s) rest = ground (arith, count_printable-string s rest)

-- Bytes that begin with a string and its end are decoded to that string, whatever follows: in `ansi`
-- for bytes without a zero, and in `utf16le` for code units without a zero, which `utf16.Decode` then
-- turns into text. The bytes taken are those of the string and its end, and nothing is cut short.
pub decode-string :
    (utf16_decode : List ℕ → Text) (s units rest : List ℕ)
    → Free is_zero s
    → Free is_zero units
    → (decode_ansi (s ++ (0 ∷ rest))
        ≡ record { value = s; consumed = length s + 1; truncated = false })
      × (decode_utf16le utf16_decode (little_endian units ++ (0 ∷ 0 ∷ rest)) ≡ record {
        value = utf16_decode units;
        consumed = 2 * length units + 2;
        truncated = false;
      })
unfolding decode_ansi decode_utf16le
decode-string utf16_decode s units rest h h' = (
  ansi_from-string 0 s rest h ∙ ground arith,
  utf16_from-string utf16_decode [] 0 units rest h' ∙ ground arith,
)

-- Bytes that begin with a short ANSI string and its end are taken for UTF-16: if the string is shorter
-- than four fifths of all bytes that were read, the detection answers `utf16le`, whatever they are.
pub detect_string_encoding-short :
    (s rest : List ℕ)
    → 5 * length s < 4 * length (s ++ (0 ∷ rest))
    → detect_string_encoding (s ++ (0 ∷ rest)) ≡ utf16le
unfolding detect_string_encoding
detect_string_encoding-short s rest h = ground (arith, count_printable-string s rest)
