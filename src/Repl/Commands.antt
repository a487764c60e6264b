-- ===== src/Repl/Commands.antt =====
-- cmd/gokd/commands.go: the commands, as programs over the session's methods. What they print is left out.
-- A command has the words behind its name; the context of an execution is the argument `ctx`.
use go_kd.Prelude.{
  ℕ, ◌*◌, ◌%◌, ◌^◌, true, false, Option, none, some, List, [], ◌∷◌, ◌==◌, if◌then◌else◌,
}
use go_kd.Text.{Text, codes, is_empty, cut_at}
use go_kd.Errors.{Result, err, other}
use go_kd.Numbers.{parse_uint_below, parse_in_base}
use go_kd.Workflows.Faults.{join}
use go_kd.Session.{Context, Program, bind, ◌>>=◌, finish, refuse, done}
use go_kd.Session.Calls
use go_kd.Session.Points
use go_kd.Session.Stops.{StopEvent}
use go_kd.Session.Stops
use go_kd.Repl.{looks_hex, parse_addr, parse_count}

-- what a command does with its words
abbrev pub Handler : Type 0
Handler = List Text → Program (Result Unit)

-- the end of a command that only prints its answer
abbrev pub printed : {A : Type 0} → Program (Result A) → Program (Result Unit)
printed m = m >>= λ a. finish tt

abbrev pub usage : {A : Type 0} → Program (Result A)
usage = refuse (codes "usage")

-- a command without words, and one with a single one
abbrev pub no_words : Program (Result Unit) → Handler
no_words m [] = m
no_words m (w ∷ ws) = usage

abbrev pub one_word : (Text → Program (Result Unit)) → Handler
one_word f [] = usage
one_word f (w ∷ []) = f w
one_word f (w ∷ v ∷ ws) = usage

unfoldable pub cmd_attach : Handler
cmd_attach =
    one_word (λ w. done (parse_uint_below (2 ^ 32) w) >>= λ pid. Calls.attach_process pid 0)

unfoldable pub cmd_detach : Handler
cmd_detach = no_words Calls.detach

-- a breakpoint at a symbol, whose address is only printed
unfoldable pub symbol_point : Text → Program (Result Unit)
symbol_point w = Points.add_breakpoint_sym w >>= λ bp.
    if bp.address == 0 then bind (Calls.name_to_addr w) (λ r. finish tt) else finish tt

unfoldable pub cmd_bp : Handler
cmd_bp = one_word (λ w.
    if looks_hex w
    then printed (parse_addr w >>= λ address. Points.add_breakpoint address)
    else symbol_point w)

unfoldable pub cmd_bl : Handler
cmd_bl = no_words (printed Points.breakpoints)

unfoldable pub breakpoint_id : List Text → Result ℕ
breakpoint_id [] = err (other (codes "usage"))
breakpoint_id (w ∷ []) = parse_in_base (2 ^ 32) 10 w
breakpoint_id (w ∷ v ∷ ws) = err (other (codes "usage"))

unfoldable pub cmd_bc : Handler
cmd_bc words = done (breakpoint_id words) >>= λ id. Points.remove_breakpoint id

unfoldable pub cmd_bd : Handler
cmd_bd words = done (breakpoint_id words) >>= λ id. Points.enable_breakpoint id false

unfoldable pub cmd_be : Handler
cmd_be words = done (breakpoint_id words) >>= λ id. Points.enable_breakpoint id true

unfoldable pub run_exec : (Context → Program (Result StopEvent)) → Context → Handler
run_exec fn ctx = no_words (printed (fn ctx))

unfoldable pub cmd_break_in : Handler
cmd_break_in = no_words Stops.break_in

unfoldable pub cmd_stack : Handler
cmd_stack = no_words (printed Calls.stack)

unfoldable pub cmd_regs : Handler
cmd_regs words = printed Calls.registers

-- an address and perhaps a count; a third word is refused before the address is read
abbrev pub address_and_count : ℕ → (ℕ → ℕ → Program (Result Unit)) → Handler
address_and_count default_count f [] = usage
address_and_count default_count f (w ∷ []) = parse_addr w >>= λ address. f address default_count
address_and_count default_count f (w ∷ v ∷ []) =
    parse_addr w >>= λ address. done (parse_count v) >>= λ count. f address count
address_and_count default_count f (w ∷ v ∷ u ∷ ws) = usage

-- `dq`, `dd` and `db`; the product wraps
unfoldable pub dump_words : ℕ → ℕ → Handler
dump_words width default_count =
    address_and_count default_count
      (λ address count. printed (Calls.read_virtual address ((count * width) % 2 ^ 64)))

unfoldable pub type_word : Option (Text × Text) → Program (Result Unit)
type_word none = usage
type_word (some (m, t)) =
    if is_empty m then usage else if is_empty t then usage else printed (Calls.type_fields m t)

unfoldable pub cmd_dt : Handler
cmd_dt = one_word (λ w. type_word (cut_at b'!' w))

unfoldable pub cmd_lm : Handler
cmd_lm = no_words (printed Calls.modules)

-- The count is meant to fit an `int`: at 2^63 and above the code panics.
unfoldable pub cmd_u : Handler
cmd_u = address_and_count 8 (λ address count. printed (Calls.disassemble_range address count))

unfoldable pub cmd_threads : Handler
cmd_threads = no_words (printed Calls.threads)

unfoldable pub cmd_set_thread : Handler
cmd_set_thread words = done (breakpoint_id words) >>= λ tid. Calls.set_thread tid

unfoldable pub cmd_sym : Handler
cmd_sym [] = printed Calls.symbol_path
cmd_sym (w ∷ ws) = Calls.set_symbol_path (join (codes " ") (w ∷ ws))

unfoldable pub cmd_n2a : Handler
cmd_n2a = one_word (λ w. printed (Calls.name_to_addr w))

unfoldable pub cmd_a2n : Handler
cmd_a2n = one_word (λ w. printed (parse_addr w >>= λ address. Calls.addr_to_name address))
