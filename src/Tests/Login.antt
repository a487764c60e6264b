-- ===== src/Tests/Login.antt =====
-- A proxy with the wrong token, and a client that sends more behind its line.
use go_kd.Prelude.{◌≡◌, refl, true, false, [], ◌∷◌}
use go_kd.Text.{codes, is_empty, text_eq, trim_right}
use go_kd.Auth.{authenticate_conn, auth_line, authenticate_remote_stream, read_string, split_line}
use go_kd.Auth.Handshake.{
  passed, open_conn, authenticate_conn_lem, answer_chunks, succeeds, handshake,
}

handshake_example :
    (passed (authenticate_conn (open_conn (auth_line (codes "abc") ∷ [])) (codes "abd")) ≡ false)
    × (succeeds (
          authenticate_remote_stream true
            (answer_chunks
              (authenticate_conn (open_conn (auth_line (codes "abc") ∷ [])) (codes "abd")))
            (codes "abc"))
        ≡ false)
unfolding is_empty text_eq
handshake_example = handshake (codes "abc") (codes "abd") refl refl (refl, (refl, (refl, tt)))

authenticate_conn_lem_example :
    (passed (authenticate_conn (open_conn (codes "AUTH abc\n{" ∷ [])) (codes "abc")) ≡ false)
    × ((authenticate_conn (open_conn (codes "AUTH abc\n{" ∷ [])) (codes "abc")).written
        ≡ codes "OK\n")
unfolding is_empty text_eq trim_right read_string split_line
authenticate_conn_lem_example =
    authenticate_conn_lem (codes "AUTH abc\n{" ∷ []) (codes "abc") (codes "AUTH abc\n") (codes "{")
      refl refl
