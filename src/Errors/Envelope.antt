-- ===== src/Errors/Envelope.antt =====
-- What a client can rely on in an error envelope.
use go_kd.Prelude.{
  ◌≡◌, refl, inl, inr, String, some, [], ◌++◌, arith, ◌==◌, Bool-cases, Option-cases,
}
use go_kd.Text.{Text, codes, upper_hex}
use go_kd.Errors.{
  GoError, session_closed, hresult, other, McpError, classify, wrap_err, hresult_map, lookup_code,
  lookup_op, op_hints, message_of,
}

-- The HRESULT that an error stands for: its code in eight digits, or nothing.
pub shown_code : GoError → Text
shown_code session_closed = []
shown_code (other t) = []
shown_code (hresult c) = codes "0x" ++ upper_hex 8 c

classify-shown_code : (e : GoError) → (classify e).1 ≡ shown_code e
unfolding classify shown_code upper_hex
classify-shown_code session_closed = refl
classify-shown_code (other t) = refl
classify-shown_code (hresult c) = elim (Bool-cases (c == 1)) [
  | inl e ↦ let is : c ≡ 1 = ground arith in rw is refl
  | inr n ↦ elim (Bool-cases (c == 0x80000002)) [
    | inl e ↦ let is : c ≡ 0x80000002 = ground arith in rw is refl
    | inr n' ↦ elim (Option-cases (lookup_code c hresult_map)) [
      | inl e ↦ rw (n, n', e, classify)
      | inr (m, e) ↦ rw (n, n', e, classify)
    ]
  ]
]

-- Every error has an envelope: its message begins with the tool's name, its HRESULT is the code of
-- the error whichever case of the switch it went through, and its follow-up tools are the tool's.
pub wrap_err_lem :
    (op : String) (op_text : Text) (show : GoError → Text) (e : GoError)
    → (m : McpError) × (wrap_err op op_text show (some e) ≡ some m)
      × (m.message ≡ op_text ++ codes ": " ++ show e)
      × (m.hresult_text ≡ shown_code e)
      × (m.next_tools ≡ lookup_op op op_hints)
unfolding wrap_err message_of
wrap_err_lem op op_text show e = (
  record {
    code = (classify e).0;
    message = message_of op_text (show e);
    hresult_text = (classify e).1;
    hint = (classify e).2;
    next_tools = lookup_op op op_hints;
  },
  refl,
  refl,
  classify-shown_code e,
  refl,
)
