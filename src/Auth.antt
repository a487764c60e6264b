-- ===== src/Auth.antt =====
-- The token handshake of a listening server and its proxy: cmd/gokd-mcp/main.go, `authenticateConn`, and
-- cmd/gokd-mcp/proxy.go, `authenticateRemoteStream` and `readAuthResp`.
pub mod Handshake
use go_kd.Prelude.{
  ℕ, Bool, true, false, ◌&&◌, ◌||◌, not, Option, none, some, List, [], ◌∷◌, ◌++◌, ◌==◌, length,
  drop, if◌then◌else◌,
}
use go_kd.Text.{Text, codes, is_empty, text_eq, is_newline, trim_right, has_prefix}
use go_kd.Errors.{GoError, other, Result, ok, err}

-- A connection: what its reads return, one after the other, and whether its other calls succeed.
pub record Conn : Type 0 where
  pub reads : List Text
  pub sets_deadline : Bool
  pub writes : Bool
  pub clears_deadline : Bool

-- The text up to the first line feed, with it, and what is behind it.
unfoldable pub split_line : Text → Option (Text × Text)
split_line [] = none
split_line (c ∷ s) =
    if c == 10
    then some (c ∷ [], s)
    else elim (split_line s) [ none ↦ none | some (l, r) ↦ some (c ∷ l, r) ]

-- `br.ReadString('\n')` after the text `before`: the line, and what the reader still holds.
unfoldable pub read_string : Text → List Text → Option (Text × Text)
read_string before [] = none
read_string before (chunk ∷ chunks) = elim (split_line chunk) [
  | none ↦ read_string (before ++ chunk) chunks
  | some (l, r) ↦ some (before ++ l, r)
]

abbrev pub auth_prefix : Text
auth_prefix = codes "AUTH "

-- What the server writes, and its error.
pub record Answer : Type 0 where
  pub written : Text
  pub error : Option GoError

abbrev pub denied : Text → Answer
denied why = record { written = codes "DENIED\n"; error = some (other why) }

-- the end of `authenticateConn`, once the token was accepted
unfoldable pub accept : Conn → Text → Answer
accept conn buffered =
    if not conn.writes
    then record { written = []; error = some (other (codes "write OK")) }
    else if not conn.clears_deadline
    then record { written = codes "OK\n"; error = some (other (codes "clear deadline")) }
    else if is_empty buffered
    then record { written = codes "OK\n"; error = none }
    else record {
      written = codes "OK\n";
      error = some (other (codes "unexpected bytes after AUTH line"));
    }

-- the checks on the line, without its end
unfoldable pub check_line : Text → Conn → Text → Text → Answer
check_line token conn line buffered =
    if not (has_prefix line auth_prefix)
    then denied (codes "missing AUTH prefix")
    else if text_eq (drop (length auth_prefix) line) token
    then accept conn buffered
    else denied (codes "token mismatch")

unfoldable pub authenticate_conn : Conn → Text → Answer
authenticate_conn conn token =
    if is_empty token
    then record { written = []; error = none }
    else if not conn.sets_deadline
    then record { written = []; error = some (other (codes "set deadline")) }
    else elim (read_string [] conn.reads) [
      | none ↦ denied (codes "read auth line")
      | some (line, buffered) ↦ check_line token conn (trim_right is_newline line) buffered
    ]

-- `pb.ForwardChunk`
pub record ForwardChunk : Type 0 where
  pub chunk_data : Text
  pub close : Bool

unfoldable pub auth_verdict : Text → Result (Unit {0})
auth_verdict line =
    if text_eq line (codes "OK")
    then ok tt
    else if text_eq line (codes "DENIED")
    then err (other (codes "remote gokd-mcp denied AUTH"))
    else err (other (codes "unexpected AUTH response"))

-- the loop, with what it has read so far; a stream that ends fails the next `Recv`
unfoldable pub read_auth_resp : Text → List ForwardChunk → Result (Unit {0})
read_auth_resp buf [] = err (other (codes "recv auth resp"))
read_auth_resp buf (msg ∷ msgs) =
    let rest = read_auth_resp (buf ++ msg.chunk_data) msgs in
    if msg.close
    then err (other (codes "remote closed before AUTH response"))
    else elim (split_line (buf ++ msg.chunk_data)) [
      | none ↦ rest
      | some (l, r) ↦ auth_verdict (trim_right is_newline l)
    ]

-- what `authenticateRemoteStream` sends
abbrev pub auth_line : Text → Text
auth_line token = auth_prefix ++ token ++ codes "\n"

-- `sent` is whether `stream.Send` succeeds.
unfoldable pub authenticate_remote_stream : Bool → List ForwardChunk → Text → Result (Unit {0})
authenticate_remote_stream sent msgs token =
    if is_empty token
    then ok tt
    else if not sent
    then err (other (codes "send AUTH"))
    else read_auth_resp [] msgs
