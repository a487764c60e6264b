-- ===== src/Listener/Stale.antt =====
-- A listener that was left running is not found by its marker.
use go_kd.Prelude.{◌<◌, ◌/◌, ◌%◌, ℕ, ◌≡◌, refl, false, List, [], ◌∷◌, map, arith, ◌==◌}
use go_kd.Text.Hex.{IsBytes}
use go_kd.Text.{hex_digit, encode_to_string, Text, contains, has_prefix}
use go_kd.Errors.{ok}
use go_kd.Listener.{Job, cancel_stale_listeners, listener_job_marker, listener_command}

-- no `g`, with which the marker begins
abbrev pub NoG : Text → Type 0
NoG [] = Unit
NoG (c ∷ s) = ((c == b'g') ≡ false) × NoG s

contains-NoG : (s : Text) → NoG s → contains s listener_job_marker ≡ false
unfolding contains has_prefix
contains-NoG [] h = refl
contains-NoG (c ∷ s) h = ground (arith, contains-NoG s h.1)

-- The command of a listener with such a token, as every hexadecimal one is, does not hold the marker.
listener_command-unmarked :
    (token : Text) → NoG token → contains (listener_command token) listener_job_marker ≡ false
unfolding listener_command contains has_prefix
listener_command-unmarked token h = contains-NoG token h

hex_digit-no_g : (d : ℕ) → d < 16 → (hex_digit d == b'g') ≡ false
unfolding hex_digit
hex_digit-no_g d h = ground arith

encode_to_string-NoG : (bytes : List ℕ) → IsBytes bytes → NoG (encode_to_string bytes)
unfolding encode_to_string
encode_to_string-NoG [] h = tt
encode_to_string-NoG (b ∷ bytes) h = (
  hex_digit-no_g (b / 16) (omega arith),
  (hex_digit-no_g (b % 16) (omega arith), encode_to_string-NoG bytes h.1),
)

-- A job that was started with the token of some random bytes (`newAuthToken`).
pub record Started : Type 0 where
  pub job_id : Text
  pub random : List ℕ

abbrev pub AllBytes : List Started → Type 0
AllBytes [] = Unit
AllBytes (j ∷ jobs) = IsBytes j.random × AllBytes jobs

abbrev pub job_of : Started → Job
job_of j = record { job_id = j.job_id; command = listener_command (encode_to_string j.random) }

-- However many listeners of earlier sessions are running, none of them is cancelled: the command that each
-- was started with does not hold the marker.
pub cancel_stale_listeners-none :
    (jobs : List Started) → AllBytes jobs → cancel_stale_listeners (ok (map job_of jobs)) ≡ []
unfolding cancel_stale_listeners
cancel_stale_listeners-none [] h = refl
cancel_stale_listeners-none (j ∷ jobs) h = rw (
  listener_command-unmarked (encode_to_string j.random) (encode_to_string-NoG j.random h.0),
  cancel_stale_listeners-none jobs h.1,
)
