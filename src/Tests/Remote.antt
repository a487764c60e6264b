-- ===== src/Tests/Remote.antt =====
-- A listener of an earlier session that the next one lists.
use go_kd.Prelude.{◌≡◌, [], ◌∷◌, arith}
use go_kd.Text.{codes, encode_to_string, hex_digit}
use go_kd.Errors.{ok}
use go_kd.Listener.{cancel_stale_listeners, listener_command}
use go_kd.Listener.Stale.{cancel_stale_listeners-none}

cancel_stale_listeners-none_example :
    cancel_stale_listeners
      (ok (record { job_id = codes "job-1"; command = listener_command (codes "ab07") } ∷ []))
    ≡ []
unfolding encode_to_string hex_digit
cancel_stale_listeners-none_example =
    cancel_stale_listeners-none (record { job_id = codes "job-1"; random = 0xab ∷ 0x07 ∷ [] } ∷ [])
      ((omega arith, (omega arith, tt)), tt)
