-- ===== src/Auth/Handshake.antt =====
-- Who gets in: a proxy that presents the server's token, and no other.
use go_kd.Prelude.{
  ◌≡◌, refl, ap, ◌∙◌, Bool, true, false, ◌&&◌, none, some, List, [], ◌∷◌, ◌++◌, arith, length, drop,
  if◌then◌else◌,
}
use go_kd.Text.{Text, codes, is_empty, text_eq, is_newline, trim_right, has_prefix}
use go_kd.Text.Trim.{Free, trim_right-Free, trim_right-snoc}
use go_kd.Errors.{Result, ok, err}
use go_kd.Auth.{
  Conn, split_line, read_string, auth_prefix, Answer, accept, check_line, authenticate_conn,
  ForwardChunk, auth_verdict, read_auth_resp, auth_line, authenticate_remote_stream,
}

-- A prefix and what follows it, compared one after the other or at once.
prefix-text_eq :
    (s p t : Text) → (has_prefix s p && text_eq (drop (length p) s) t) ≡ text_eq s (p ++ t)
unfolding has_prefix text_eq
prefix-text_eq s [] t = refl
prefix-text_eq [] (d ∷ p) t = refl
prefix-text_eq (c ∷ s) (d ∷ p) t = ground (arith, prefix-text_eq s p t)

split_line-Free :
    (s r : Text) → Free is_newline s → split_line (s ++ (10 ∷ r)) ≡ some (s ++ (10 ∷ []), r)
unfolding split_line
split_line-Free [] r h = refl
split_line-Free (c ∷ s) r h = ground (arith, split_line-Free s r h.1)

-- whether a connection came through
abbrev pub passed : Answer → Bool
passed a = elim a.error [ none ↦ true | some e ↦ false ]

-- a connection whose calls succeed
abbrev pub open_conn : List Text → Conn
open_conn reads = record {
  reads = reads;
  sets_deadline = true;
  writes = true;
  clears_deadline = true;
}

check_line_lem :
    (reads : List Text) (token line buffered : Text)
    → (passed (check_line token (open_conn reads) line buffered)
        ≡ (text_eq line (auth_prefix ++ token) && is_empty buffered))
      × ((check_line token (open_conn reads) line buffered).written
          ≡ (if text_eq line (auth_prefix ++ token) then codes "OK\n" else codes "DENIED\n"))
unfolding check_line accept
check_line_lem reads token line buffered =
    rw⁻¹ (prefix-text_eq line auth_prefix token) (ground arith, ground arith)

-- On a connection whose calls succeed and whose reads hold a first line, for a token that is not
-- empty: the server lets the client in exactly if the line, without its end, is `AUTH ` and the token,
-- and nothing came behind the line in the same read; and it writes OK exactly if the line is that.
pub authenticate_conn_lem :
    (reads : List Text) (token line buffered : Text)
    → is_empty token ≡ false
    → read_string [] reads ≡ some (line, buffered)
    → (passed (authenticate_conn (open_conn reads) token)
        ≡ (text_eq (trim_right is_newline line) (auth_prefix ++ token) && is_empty buffered))
      × ((authenticate_conn (open_conn reads) token).written ≡ (
          if text_eq (trim_right is_newline line) (auth_prefix ++ token)
          then codes "OK\n"
          else codes "DENIED\n"))
unfolding authenticate_conn
authenticate_conn_lem reads token line buffered present e =
    rw (present, e, authenticate_conn)
      (check_line_lem reads token (trim_right is_newline line) buffered)

abbrev pub succeeds : Result (Unit {0}) → Bool
succeeds (ok u) = true
succeeds (err e) = false

-- the server's answer as the proxy receives it
abbrev pub answer_chunks : Answer → List ForwardChunk
answer_chunks a = record { chunk_data = a.written; close = false } ∷ []

text_eq-append : (p s t : Text) → text_eq (p ++ s) (p ++ t) ≡ text_eq s t
unfolding text_eq
text_eq-append [] s t = refl
text_eq-append (c ∷ p) s t = ground (arith, text_eq-append p s t)

Free-auth_line : (token : Text) → Free is_newline token → Free is_newline (auth_prefix ++ token)
Free-auth_line token h = (refl, (refl, (refl, (refl, (refl, h)))))

read_auth_line :
    (token : Text)
    → Free is_newline token
    → read_string [] (auth_line token ∷ []) ≡ some (auth_line token, [])
unfolding read_string
read_auth_line token h =
    let line = auth_prefix ++ token in
    rw (split_line-Free line [] (Free-auth_line token h), read_string)

and_true : (b : Bool) → (b && true) ≡ b
and_true b = ground arith

-- The proxy's verdict on an answer that is one of the two.
told :
    (mine : Text) (a : Answer) (b : Bool)
    → is_empty mine ≡ false
    → a.written ≡ (if b then codes "OK\n" else codes "DENIED\n")
    → succeeds (authenticate_remote_stream true (answer_chunks a) mine) ≡ b
unfolding authenticate_remote_stream read_auth_resp auth_verdict split_line trim_right text_eq
    is_empty
told mine a true present e = rw (present, e)
told mine a false present e = rw (present, e)

-- A proxy and a server whose calls succeed, each with a token that is not empty, the proxy's without
-- line ends: if the server reads the proxy's line and the proxy reads the server's answer, the
-- server lets the proxy in exactly if the tokens are equal, and the proxy is told so.
pub handshake :
    (mine theirs : Text)
    → is_empty mine ≡ false
    → is_empty theirs ≡ false
    → Free is_newline mine
    → (passed (authenticate_conn (open_conn (auth_line mine ∷ [])) theirs) ≡ text_eq mine theirs)
      × (succeeds (
            authenticate_remote_stream true
              (answer_chunks (authenticate_conn (open_conn (auth_line mine ∷ [])) theirs))
              mine)
          ≡ text_eq mine theirs)
unfolding is_empty text_eq
handshake mine theirs some_mine some_theirs h =
    let (through, written) =
      authenticate_conn_lem (auth_line mine ∷ []) theirs (auth_line mine) [] some_theirs
        (read_auth_line mine h) in
    let trimmed : trim_right is_newline (auth_line mine) ≡ auth_prefix ++ mine =
      trim_right-snoc is_newline (auth_prefix ++ mine) 10 refl
      ∙ trim_right-Free is_newline (auth_prefix ++ mine) (Free-auth_line mine h) in
    let same : text_eq (trim_right is_newline (auth_line mine)) (auth_prefix ++ theirs)
        ≡ text_eq mine theirs =
      ap (λ l. text_eq l (auth_prefix ++ theirs)) trimmed
      ∙ text_eq-append auth_prefix mine theirs in
    (
      through ∙ ap (λ b. b && true) same ∙ and_true (text_eq mine theirs),
      told mine (authenticate_conn (open_conn (auth_line mine ∷ [])) theirs) (text_eq mine theirs)
          some_mine (written ∙ ap (λ b. if b then codes "OK\n" else codes "DENIED\n") same),
    )
