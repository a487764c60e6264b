-- ===== src/Handlers/Queries.antt =====
-- A readonly server's requests only read: each of its tools' handlers but three makes no call that
-- changes the target.
use go_kd.Prelude.{
  ℕ, ◌≡◌, refl, Bool, true, false, ◌==◌, List, [], ◌∷◌, arith, String, if◌then◌else◌, zero, suc,
}
use go_kd.Text.{Text, is_empty, trim_space}
use go_kd.Errors.{Result, ok, err, session_closed}
use go_kd.Readonly.{is_listed, mutating_tools}
use go_kd.Registry.{register_tools, offers}
use go_kd.Registry.Offers.{offers-register_tools}
use go_kd.Session.{
  Context, Command, AnswerOf, Program, bind, ◌>>=◌, run, check_context, inner_get_modules, done,
}
use go_kd.Session.OnlyCalls.{
  is_query, OnlyCalls, OnlyCalls-bind, OnlyCalls-then, OnlyCalls-done, OnlyCalls-check_context,
  run-OnlyCalls,
}
use go_kd.Session.Calls
use go_kd.Session.Points as SessionPoints
use go_kd.Breakpoints.{Breakpoint}
use go_kd.Handlers.{required}
use go_kd.Handlers.Target
use go_kd.Handlers.Data
use go_kd.Handlers.Faults
use go_kd.Handlers.Points
use go_kd.Handlers.Settings
use go_kd.Handlers.Requests.{
  Request, tool_of, Host, handle, on_attach_process, on_create_process, on_open_dump,
  on_attach_kernel, on_detach, on_connect_remote, on_disconnect_remote, on_get_modules,
  on_get_threads, on_set_thread, on_get_registers, on_set_register, on_get_stack, on_read_memory,
  on_write_memory, on_read_physical, on_disassemble, on_name_to_addr, on_addr_to_name,
  on_get_type_fields, on_get_type_size, on_add_breakpoint, on_remove_breakpoint,
  on_enable_breakpoint, on_list_breakpoints, on_go_execution, on_step_in, on_step_over, on_step_out,
  on_break_in, on_get_symbol_path, on_set_symbol_path, on_reload_symbols, on_sym_fix, on_evaluate,
  on_get_radix, on_set_radix, on_get_expression_syntax, on_set_expression_syntax, on_addr_to_line,
  on_line_to_addr, on_add_breakpoint_source_line, on_search_memory, on_virtual_to_physical,
  on_query_region, on_write_dump, on_add_data_breakpoint, on_configure_breakpoint,
  on_breakpoint_command, on_last_exception, on_bug_check,
}

impossible : {A : Type 0} → true ≡ false → A
impossible h = ground arith

-- a program of queries
abbrev pub Reads : {A : Type 0} → Program A → Type 0
Reads = OnlyCalls is_query

pub checked :
    {A : Type 0} (ctx : Context) (k : Unit → Program (Result A))
    → ((u : Unit) → Reads (k u))
    → Reads (check_context ctx >>= k)
unfolding is_query
checked ctx k h = OnlyCalls-then is_query _ k (OnlyCalls-check_context is_query ctx refl) h

-- what was worked out of the request
given :
    {A B : Type 0} (r : Result A) (k : A → Program (Result B))
    → ((a : A) → Reads (k a))
    → Reads (done r >>= k)
given r k h = OnlyCalls-then is_query (done r) k (OnlyCalls-done is_query r) h

-- one query and the answer made of it
pub asked :
    {A B : Type 0} (m : Program (Result A)) (out : A → Result B)
    → Reads m
    → Reads (m >>= (λ a. done (out a)))
asked m out h = OnlyCalls-then is_query m _ h (λ a. OnlyCalls-done is_query (out a))

pub asked_both :
    {A B : Type 0} (m : Program A) (out : A → B) → Reads m → Reads (bind m (λ a. done (out a)))
asked_both m out h = OnlyCalls-bind is_query m _ h (λ a. OnlyCalls-done is_query (out a))

pub Reads-if :
    {A : Type 0} (b : Bool) (m n : Program A) → Reads m → Reads n → Reads (if b then m else n)
Reads-if true m n h g = h
Reads-if false m n h g = g

Reads-modules_open :
    (closed : Bool)
    → Reads (if closed then done (err session_closed) else Calls.direct inner_get_modules)
unfolding OnlyCalls is_query
Reads-modules_open true = tt
Reads-modules_open false = (refl, λ r. tt)

pub Reads-modules : Reads Calls.modules
unfolding Calls.modules OnlyCalls is_query
Reads-modules = (refl, Reads-modules_open)

Reads-disassembled :
    (count cur : ℕ)
    → ((next : ℕ) → Reads (Calls.disassemble_range next count))
    → (r : Result (Text × ℕ))
    → Reads (Calls.disassembled cur (λ next. Calls.disassemble_range next count) r)
unfolding OnlyCalls Calls.disassembled
Reads-disassembled count cur h (err e) = tt
Reads-disassembled count cur h (ok (text, next)) = asked _ _ (h next)

pub Reads-disassemble_range : (count cur : ℕ) → Reads (Calls.disassemble_range cur count)
unfolding Calls.disassemble_range OnlyCalls is_query
Reads-disassemble_range zero cur = tt
Reads-disassemble_range (suc count) cur =
    (refl, Reads-disassembled count cur (Reads-disassemble_range count))

Reads-with_commands : (bps : List Breakpoint) → Reads (SessionPoints.with_commands bps)
unfolding SessionPoints.with_commands OnlyCalls is_query
Reads-with_commands [] = tt
Reads-with_commands (b ∷ bps) = (refl, λ r. asked_both _ _ (Reads-with_commands bps))

pub Reads-breakpoints : Reads SessionPoints.breakpoints
unfolding SessionPoints.breakpoints is_query OnlyCalls
Reads-breakpoints =
    OnlyCalls-then is_query _ _ (refl, λ r. tt) (λ bps. asked_both _ _ (Reads-with_commands bps))

Reads-required : (text message : Text) → Reads (required text message)
unfolding required OnlyCalls
Reads-required text message = Reads-if (is_empty (trim_space text)) _ _ tt tt

Reads-positive : (n : ℕ) (message : Text) → Reads (Data.positive n message)
unfolding OnlyCalls
Reads-positive n message = Reads-if (n == 0) _ _ tt tt

Reads-line_to_addr : (file : Text) (line : ℕ) → Reads (Calls.line_to_addr file line)
unfolding Calls.line_to_addr OnlyCalls is_query
Reads-line_to_addr file line = Reads-if (is_empty file) _ _ tt (refl, λ r. tt)

pub Reads-bug_check : Reads Calls.bug_check
unfolding Calls.bug_check is_query OnlyCalls
Reads-bug_check = OnlyCalls-then is_query _ _ (refl, λ r. tt) (λ bc. tt)

-- The request whose expression may assign, and which a readonly server offers all the same.
abbrev pub may_assign : Request → Bool
may_assign (on_evaluate expr desired timeout) = true
may_assign _ = false

pub handle-Reads :
    (host : Host) (ctx : Context) (q : Request)
    → is_listed (tool_of q) mutating_tools ≡ false
    → may_assign q ≡ false
    → Reads (handle host ctx q)
unfolding handle tool_of is_listed mutating_tools is_query OnlyCalls Data.get_modules
    Target.get_threads Calls.threads Target.get_registers Calls.registers Data.get_stack Calls.stack
    Data.read_memory Calls.read_virtual Data.read_physical Calls.read_physical Data.disassemble
    Data.name_to_addr Calls.name_to_addr Data.addr_to_name Calls.addr_to_name Data.get_type_fields
    Calls.type_fields Data.get_type_size Calls.type_size Points.list_breakpoints
    Settings.get_symbol_path Calls.symbol_path Settings.get_radix Calls.radix
    Settings.get_expression_syntax Calls.expression_syntax Settings.addr_to_line Calls.addr_to_line
    Settings.line_to_addr Data.search_memory Calls.search_memory Data.virtual_to_physical
    Calls.virtual_to_physical Data.query_region Calls.query_region Faults.last_exception
    Calls.last_exception Faults.bug_check
handle-Reads host ctx (on_attach_process pid) h e = impossible h
handle-Reads host ctx (on_create_process command_line initial_break) h e = impossible h
handle-Reads host ctx (on_open_dump path) h e = impossible h
handle-Reads host ctx (on_attach_kernel connection timeout passive) h e = impossible h
handle-Reads host ctx on_detach h e = impossible h
handle-Reads host ctx (on_connect_remote connection) h e = impossible h
handle-Reads host ctx on_disconnect_remote h e = impossible h
handle-Reads host ctx (on_get_modules name_glob offset limit) h e =
    checked ctx _ (λ u. asked_both _ _ Reads-modules)
handle-Reads host ctx on_get_threads h e = checked ctx _ (λ u. asked _ _ (refl, λ r. tt))
handle-Reads host ctx (on_set_thread system_id) h e = impossible h
handle-Reads host ctx (on_get_registers names) h e = checked ctx _ (λ u. asked _ _ (refl, λ r. tt))
handle-Reads host ctx (on_set_register name value_hex) h e = impossible h
handle-Reads host ctx (on_get_stack max_frames) h e =
    checked ctx _ (λ u. asked_both _ _ (refl, λ r. tt))
handle-Reads host ctx (on_read_memory address_hex requested) h e =
    checked ctx _ (λ u. given _ _ (λ a. asked_both _ _ (refl, λ r. tt)))
handle-Reads host ctx (on_write_memory address_hex bytes_hex) h e = impossible h
handle-Reads host ctx (on_read_physical address_hex requested) h e =
    checked ctx _ (λ u. given _ _ (λ a. asked_both _ _ (refl, λ r. tt)))
handle-Reads host ctx (on_disassemble address_hex count) h e =
    checked ctx _ (λ u. given _ _ (λ a. given _ _ (λ n. asked _ _ (Reads-disassemble_range _ a))))
handle-Reads host ctx (on_name_to_addr name) h e = checked ctx _ (λ u. asked _ _ (refl, λ r. tt))
handle-Reads host ctx (on_addr_to_name address_hex) h e =
    checked ctx _ (λ u. given _ _ (λ a. (refl, λ r. tt)))
handle-Reads host ctx (on_get_type_fields module_name type_name) h e =
    checked ctx _ (λ u. asked _ _ (refl, λ r. tt))
handle-Reads host ctx (on_get_type_size module_name type_name) h e =
    checked ctx _ (λ u. (refl, λ r. tt))
handle-Reads host ctx (on_add_breakpoint address_hex symbol) h e = impossible h
handle-Reads host ctx (on_remove_breakpoint id) h e = impossible h
handle-Reads host ctx (on_enable_breakpoint id enabled) h e = impossible h
handle-Reads host ctx on_list_breakpoints h e = checked ctx _ (λ u. asked _ _ Reads-breakpoints)
handle-Reads host ctx (on_go_execution timeout) h e = impossible h
handle-Reads host ctx (on_step_in timeout) h e = impossible h
handle-Reads host ctx (on_step_over timeout) h e = impossible h
handle-Reads host ctx (on_step_out timeout) h e = impossible h
handle-Reads host ctx on_break_in h e = impossible h
handle-Reads host ctx on_get_symbol_path h e = checked ctx _ (λ u. (refl, λ r. tt))
handle-Reads host ctx (on_set_symbol_path path) h e = impossible h
handle-Reads host ctx (on_reload_symbols spec timeout) h e = impossible h
handle-Reads host ctx (on_sym_fix cache) h e = impossible h
handle-Reads host ctx (on_evaluate expr desired timeout) h e = impossible e
handle-Reads host ctx on_get_radix h e = checked ctx _ (λ u. (refl, λ r. tt))
handle-Reads host ctx (on_set_radix radix) h e = impossible h
handle-Reads host ctx on_get_expression_syntax h e = checked ctx _ (λ u. asked _ _ (refl, λ r. tt))
handle-Reads host ctx (on_set_expression_syntax syntax) h e = impossible h
handle-Reads host ctx (on_addr_to_line address_hex) h e =
    checked ctx _ (λ u. given _ _ (λ a. (refl, λ r. tt)))
handle-Reads host ctx (on_line_to_addr file line) h e = checked ctx _ (λ u.
    OnlyCalls-then is_query _ _ (Reads-required _ _) (λ v.
      OnlyCalls-then is_query _ _ (Reads-positive _ _)
        (λ w. asked _ _ (Reads-line_to_addr file line))))
handle-Reads host ctx (on_add_breakpoint_source_line file line) h e = impossible h
handle-Reads host ctx (on_search_memory start_hex size pattern_hex granularity) h e =
    checked ctx _ (λ u. given _ _ (λ a.
      OnlyCalls-then is_query _ _ (Reads-positive _ _)
        (λ v. given _ _ (λ b. asked_both _ _ (refl, λ r. tt)))))
handle-Reads host ctx (on_virtual_to_physical va_hex) h e =
    checked ctx _ (λ u. given _ _ (λ a. asked _ _ (refl, λ r. tt)))
handle-Reads host ctx (on_query_region va_hex) h e =
    checked ctx _ (λ u. given _ _ (λ a. asked _ _ (refl, λ r. tt)))
handle-Reads host ctx (on_write_dump path kind_name flags comment timeout) h e = impossible h
handle-Reads host ctx (on_add_data_breakpoint address_hex size access) h e = impossible h
handle-Reads host ctx (on_configure_breakpoint id pass_count match_thread_id command) h e =
    impossible h
handle-Reads host ctx (on_breakpoint_command id) h e = impossible h
handle-Reads host ctx on_last_exception h e = checked ctx _ (λ u. asked_both _ _ (refl, λ r. tt))
handle-Reads host ctx on_bug_check h e = checked ctx _ (λ u. asked_both _ _ Reads-bug_check)

-- A tool that a readonly server offers is not a mutating one.
offered-typed :
    (lablink : Bool) (name : String)
    → offers name (register_tools true false lablink) ≡ true
    → is_listed name mutating_tools ≡ false
offered-typed lablink name h = ground (arith, offers-register_tools true false lablink name)

-- A request to a tool that a readonly server without raw commands offers, but for `evaluate`, leaves the
-- state of the target as it is, whatever the request's arguments and context are, if the calls of the
-- bindings that only read leave it. The tools of the polling handlers and the composite ones are not
-- among these requests.
pub readonly_request-kept :
    {M : Type 0} (host : Host) (ctx : Context) (q : Request) (lablink : Bool)
    (engine : (c : Command) → M → AnswerOf c × M)
    → offers (tool_of q) (register_tools true false lablink) ≡ true
    → may_assign q ≡ false
    → ((c : Command) (m : M) → is_query c ≡ true → (engine c m).1 ≡ m)
    → (m : M) → (run engine (handle host ctx q) m).1 ≡ m
readonly_request-kept host ctx q lablink engine offered plain keeps m =
    run-OnlyCalls is_query engine keeps (handle host ctx q)
      (handle-Reads host ctx q (offered-typed lablink (tool_of q) offered) plain) m
