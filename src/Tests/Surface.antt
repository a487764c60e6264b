-- ===== src/Tests/Surface.antt =====
-- The tools of a readonly server, a refused raw command, and an error's envelope.
use go_kd.Prelude.{ℕ, arith, ◌≡◌, true, false, some, [], ◌∷◌}
use go_kd.Text.{Text, codes, trim_left, text_eq, encode_to_string, decode_string}
use go_kd.Text.Hex.{decode-encode}
use go_kd.Errors.{GoError, McpError, wrap_err, lookup_op, op_hints, err_timeout}
use go_kd.Errors.Envelope.{wrap_err_lem, shown_code}
use go_kd.Readonly.{
  decoded, fold, runes, deny_raw_command, is_listed, mutating_tools, raw_command_deny, is_word,
}
use go_kd.Readonly.Words.{
  deny_raw_command_lem, is_one_of, names_of, words_of, some_among, denied_words,
}
use go_kd.Registry.{register_tools, offers, tools_before_raw, tools_after_raw, lablink_tools}
use go_kd.Registry.Offers.{offers-register_tools}

offers-register_tools_example : offers "write_memory" (register_tools true true true) ≡ false
unfolding is_listed tools_before_raw tools_after_raw lablink_tools mutating_tools
offers-register_tools_example = offers-register_tools true true true "write_memory"

-- `.ſhell ver`, behind a blank
abbrev shell_command : Text
shell_command = b' ' ∷ b'.' ∷ 0xc5 ∷ 0xbf ∷ codes "hell ver"

deny_raw_command_lem_example : deny_raw_command shell_command ≡ true
unfolding some_among is_one_of names_of words_of denied_words raw_command_deny fold text_eq is_word
    trim_left runes decoded
deny_raw_command_lem_example = deny_raw_command_lem shell_command

allowed : deny_raw_command (codes "bl") ≡ false
unfolding some_among is_one_of names_of words_of denied_words raw_command_deny fold text_eq is_word
    trim_left runes decoded
allowed = deny_raw_command_lem (codes "bl")

abbrev shown : GoError → Text
shown e = codes "timed out"

wrap_err_lem_example :
    (m : McpError) × (wrap_err "step_in" (codes "step_in") shown (some err_timeout) ≡ some m)
    × (m.message ≡ codes "step_in: timed out")
    × (m.hresult_text ≡ shown_code err_timeout)
    × (m.next_tools ≡ lookup_op "step_in" op_hints)
wrap_err_lem_example = wrap_err_lem "step_in" (codes "step_in") shown err_timeout

decode-encode_example : decode_string (encode_to_string (31 ∷ 160 ∷ [])) ≡ some (31 ∷ 160 ∷ [])
decode-encode_example = decode-encode (31 ∷ 160 ∷ []) (omega arith, (omega arith, tt))

abbrev three : ℕ
three = 3
