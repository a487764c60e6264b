-- ===== src/Tests/CommandLine.antt =====
-- The command line: an address that was printed, and a string of commands that quits.
use go_kd.Prelude.{◌≡◌, refl, none, some, List, [], ◌∷◌, arith}
use go_kd.Text.{
  Text, codes, hex_fixed, hex_digit, is_empty, trim_space, trim_left, trim_right, to_lower,
  has_prefix, is_case, text_eq,
}
use go_kd.Errors.{ok}
use go_kd.Session.{request_context, done, run}
use go_kd.Repl.{parse_addr, fields_from}
use go_kd.Repl.Lines.{run_line, run_parts, run_words}
use go_kd.Repl.Addresses.{parse_addr-hex_fixed}
use go_kd.Repl.Sequence.{none_left, passed, run_parts-stops}
use go_kd.Tests.Engine.{bindings}

parse_addr-hex_fixed_example : parse_addr (codes "0000000000401000") ≡ done (ok 0x401000)
unfolding hex_fixed hex_digit
parse_addr-hex_fixed_example = parse_addr-hex_fixed 0x401000 (omega arith) (λ e. omega arith)

-- `st 9` is not run behind `q`
abbrev quit_first : List Text
quit_first = codes " " ∷ codes "q" ∷ codes "st 9" ∷ []

blank_line : run bindings (run_line request_context (codes " ")) 7 ≡ (some (ok tt), 7)
unfolding run_line is_empty trim_space trim_left trim_right run
blank_line = refl

quit_line : run bindings (run_line request_context (codes "q")) 7 ≡ (none, 7)
unfolding run_line run_words is_empty trim_space trim_left trim_right to_lower has_prefix is_case
    text_eq fields_from run
quit_line = refl

run_parts-stops_example : run bindings (run_parts request_context quit_first) 7 ≡ (ok tt, 7)
run_parts-stops_example =
    run_parts-stops bindings request_context (codes " " ∷ []) (codes "st 9" ∷ []) (codes "q") none 7
      7 7 (passed blank_line none_left) quit_line (λ e. ground arith)
