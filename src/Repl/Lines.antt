-- ===== src/Repl/Lines.antt =====
-- cmd/gokd/repl.go: which command a line runs, and how a string of commands is run. A line that quits ends
-- with `none` in place of a result (`errQuit`).
use go_kd.Prelude.{Bool, false, Option, none, some, List, [], ◌∷◌, drop, if◌then◌else◌}
use go_kd.Text.{Text, codes, is_empty, text_eq, trim_space, to_lower, has_prefix, is_case}
use go_kd.Errors.{Result, ok, err}
use go_kd.Session.{Context, Program, bind, finish, refuse, inner_execute, done}
use go_kd.Session.Calls.{direct}
use go_kd.Session.Stops
use go_kd.Repl.{fields, split_from}
use go_kd.Repl.Commands.{
  Handler, printed, cmd_attach, cmd_detach, cmd_bp, cmd_bl, cmd_bc, cmd_bd, cmd_be, run_exec,
  cmd_break_in, cmd_stack, cmd_regs, dump_words, cmd_dt, cmd_lm, cmd_u, cmd_threads, cmd_set_thread,
  cmd_sym, cmd_n2a, cmd_a2n,
}

-- `commands`, but for the commands that quit and the help
unfoldable pub command_table : Context → List (Text × Handler)
command_table ctx =
    (codes "attach", cmd_attach)
    ∷ (codes "detach", cmd_detach)
    ∷ (codes "bp", cmd_bp)
    ∷ (codes "bl", cmd_bl)
    ∷ (codes "bc", cmd_bc)
    ∷ (codes "bd", cmd_bd)
    ∷ (codes "be", cmd_be)
    ∷ (codes "g", run_exec Stops.go ctx)
    ∷ (codes "t", run_exec Stops.step_in ctx)
    ∷ (codes "p", run_exec Stops.step_over ctx)
    ∷ (codes "gu", run_exec Stops.step_out ctx)
    ∷ (codes "bi", cmd_break_in)
    ∷ (codes "k", cmd_stack)
    ∷ (codes "r", cmd_regs)
    ∷ (codes "dq", dump_words 8 16)
    ∷ (codes "dd", dump_words 4 16)
    ∷ (codes "db", dump_words 1 128)
    ∷ (codes "dt", cmd_dt)
    ∷ (codes "lm", cmd_lm)
    ∷ (codes "u", cmd_u)
    ∷ (codes "th", cmd_threads)
    ∷ (codes "st", cmd_set_thread)
    ∷ (codes "sym", cmd_sym)
    ∷ (codes "n2a", cmd_n2a)
    ∷ (codes "a2n", cmd_a2n)
    ∷ []

abbrev pub quit_names : List Text
quit_names = codes "q" ∷ codes "quit" ∷ codes "exit" ∷ []

abbrev pub help_names : List Text
help_names = codes "help" ∷ codes "?" ∷ codes "h" ∷ []

unfoldable pub find_command : Text → List (Text × Handler) → Option Handler
find_command name [] = none
find_command name ((n, f) ∷ table) = if text_eq n name then some f else find_command name table

unfoldable pub is_quit_word : List Text → Bool
is_quit_word [] = false
is_quit_word (w ∷ words) = is_case (to_lower w) quit_names

-- `isQuitCommand`
abbrev pub is_quit_command : Text → Bool
is_quit_command line = is_quit_word (fields line)

-- `cmdHelp`, which only prints, but refuses a name that is no command
unfoldable pub cmd_help : List (Text × Handler) → Handler
cmd_help table [] = finish tt
cmd_help table (w ∷ words) =
    let name = to_lower w in
    if is_case name quit_names
    then finish tt
    else if is_case name help_names
    then finish tt
    else elim (find_command name table) [
      | none ↦ refuse (codes "unknown command")
      | some f ↦ finish tt
    ]

-- An unknown command is only reported.
abbrev pub run_found : Option Handler → List Text → Program (Result Unit)
run_found none words = finish tt
run_found (some f) words = f words

abbrev pub went : Program (Result Unit) → Program (Option (Result Unit))
went m = bind m (λ r. done (some r))

unfoldable pub run_words : Context → List Text → Program (Option (Result Unit))
run_words ctx [] = done (some (ok tt))
run_words ctx (w ∷ words) =
    let name = to_lower w in
    if is_case name quit_names
    then done none
    else if is_case name help_names
    then went (cmd_help (command_table ctx) words)
    else went (run_found (find_command name (command_table ctx)) words)

unfoldable pub run_line : Context → Text → Program (Option (Result Unit))
run_line ctx given =
    let line = trim_space given in
    if is_empty line
    then done (some (ok tt))
    else if has_prefix line (codes "!")
    then went (printed (direct (inner_execute (trim_space (drop 1 line)))))
    else run_words ctx (fields line)

-- the loop's step: an error ends it, and so does `errQuit`, which is no error
unfoldable pub run_next : Program (Result Unit) → Option (Result (Unit {0})) → Program (Result Unit)
run_next rest none = finish tt
run_next rest (some (err e)) = done (err e)
run_next rest (some (ok u)) = rest

unfoldable pub run_parts : Context → List Text → Program (Result Unit)
run_parts ctx [] = finish tt
run_parts ctx (part ∷ parts) = bind (run_line ctx part) (run_next (run_parts ctx parts))

unfoldable pub run_command_string : Context → Text → Program (Result Unit)
run_command_string ctx text = run_parts ctx (split_from b';' [] text)
