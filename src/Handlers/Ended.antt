-- ===== src/Handlers/Ended.antt =====
-- A request whose context has ended is refused before anything is asked of the bindings.
use go_kd.Prelude.{◌≡◌, Bool, true, false, some, arith}
use go_kd.Errors.{GoError, Result, err}
use go_kd.Session.{
  Context, Command, AnswerOf, Program, bind, ◌>>=◌, run, ended, check_context, context_err,
}
use go_kd.Handlers.Target
use go_kd.Handlers.Data
use go_kd.Handlers.Faults
use go_kd.Handlers.Points
use go_kd.Handlers.Settings
use go_kd.Handlers.Requests.{
  Request, Host, handle, on_attach_process, on_create_process, on_open_dump, on_attach_kernel,
  on_detach, on_connect_remote, on_disconnect_remote, on_get_modules, on_get_threads, on_set_thread,
  on_get_registers, on_set_register, on_get_stack, on_read_memory, on_write_memory,
  on_read_physical, on_disassemble, on_name_to_addr, on_addr_to_name, on_get_type_fields,
  on_get_type_size, on_add_breakpoint, on_remove_breakpoint, on_enable_breakpoint,
  on_list_breakpoints, on_go_execution, on_step_in, on_step_over, on_step_out, on_break_in,
  on_get_symbol_path, on_set_symbol_path, on_reload_symbols, on_sym_fix, on_evaluate, on_get_radix,
  on_set_radix, on_get_expression_syntax, on_set_expression_syntax, on_addr_to_line,
  on_line_to_addr, on_add_breakpoint_source_line, on_search_memory, on_virtual_to_physical,
  on_query_region, on_write_dump, on_add_data_breakpoint, on_configure_breakpoint,
  on_breakpoint_command, on_last_exception, on_bug_check,
}

-- The requests that hand the context on, and do not look at it themselves.
unfoldable pub hands_on : Request → Bool
hands_on (on_attach_kernel connection timeout passive) = true
hands_on (on_go_execution timeout) = true
hands_on (on_step_in timeout) = true
hands_on (on_step_over timeout) = true
hands_on (on_step_out timeout) = true
hands_on (on_reload_symbols spec timeout) = true
hands_on (on_evaluate expr desired timeout) = true
hands_on (on_write_dump path kind_name flags comment timeout) = true
hands_on _ = false

impossible : {A : Type 0} → true ≡ false → A
impossible h = ground arith

run-ended :
    {A M : Type 0} (engine : (c : Command) → M → AnswerOf c × M) (ctx : Context)
    (k : Unit → Program (Result A)) (e : GoError) (m : M)
    → engine (context_err ctx) m ≡ (some e, m)
    → run engine (check_context ctx >>= k) m ≡ (err e, m)
unfolding run check_context ◌>>=◌ bind ended
run-ended engine ctx k e m h = rw (h, run)

-- Every request but the eight that hand their context on is refused with the context's error when the
-- context has ended, and the state is as it was: nothing else is asked.
pub handle-ended :
    {M : Type 0} (host : Host) (ctx : Context) (q : Request) (e : GoError)
    (engine : (c : Command) → M → AnswerOf c × M) (m : M)
    → hands_on q ≡ false
    → engine (context_err ctx) m ≡ (some e, m)
    → run engine (handle host ctx q) m ≡ (err e, m)
unfolding handle hands_on Target.attach_process Target.create_process Target.open_dump Target.detach
    Target.connect_remote Target.disconnect_remote Data.get_modules Target.get_threads
    Target.set_thread Target.get_registers Target.set_register Data.get_stack Data.read_memory
    Data.write_memory Data.read_physical Data.disassemble Data.name_to_addr Data.addr_to_name
    Data.get_type_fields Data.get_type_size Points.add_breakpoint Points.remove_breakpoint
    Points.enable_breakpoint Points.list_breakpoints Target.break_in Settings.get_symbol_path
    Settings.set_symbol_path Settings.sym_fix Settings.get_radix Settings.set_radix
    Settings.get_expression_syntax Settings.set_expression_syntax Settings.addr_to_line
    Settings.line_to_addr Points.add_breakpoint_source_line Data.search_memory
    Data.virtual_to_physical Data.query_region Points.add_data_breakpoint
    Points.configure_breakpoint Points.breakpoint_command Faults.last_exception Faults.bug_check
handle-ended host ctx (on_attach_process pid) e engine m h stop = run-ended engine ctx _ e m stop
handle-ended host ctx (on_create_process command_line initial_break) e engine m h stop =
    run-ended engine ctx _ e m stop
handle-ended host ctx (on_open_dump path) e engine m h stop = run-ended engine ctx _ e m stop
handle-ended host ctx (on_attach_kernel connection timeout passive) e engine m h stop = impossible h
handle-ended host ctx on_detach e engine m h stop = run-ended engine ctx _ e m stop
handle-ended host ctx (on_connect_remote connection) e engine m h stop =
    run-ended engine ctx _ e m stop
handle-ended host ctx on_disconnect_remote e engine m h stop = run-ended engine ctx _ e m stop
handle-ended host ctx (on_get_modules name_glob offset limit) e engine m h stop =
    run-ended engine ctx _ e m stop
handle-ended host ctx on_get_threads e engine m h stop = run-ended engine ctx _ e m stop
handle-ended host ctx (on_set_thread system_id) e engine m h stop = run-ended engine ctx _ e m stop
handle-ended host ctx (on_get_registers names) e engine m h stop = run-ended engine ctx _ e m stop
handle-ended host ctx (on_set_register name value_hex) e engine m h stop =
    run-ended engine ctx _ e m stop
handle-ended host ctx (on_get_stack max_frames) e engine m h stop = run-ended engine ctx _ e m stop
handle-ended host ctx (on_read_memory address_hex requested) e engine m h stop =
    run-ended engine ctx _ e m stop
handle-ended host ctx (on_write_memory address_hex bytes_hex) e engine m h stop =
    run-ended engine ctx _ e m stop
handle-ended host ctx (on_read_physical address_hex requested) e engine m h stop =
    run-ended engine ctx _ e m stop
handle-ended host ctx (on_disassemble address_hex count) e engine m h stop =
    run-ended engine ctx _ e m stop
handle-ended host ctx (on_name_to_addr name) e engine m h stop = run-ended engine ctx _ e m stop
handle-ended host ctx (on_addr_to_name address_hex) e engine m h stop =
    run-ended engine ctx _ e m stop
handle-ended host ctx (on_get_type_fields module_name type_name) e engine m h stop =
    run-ended engine ctx _ e m stop
handle-ended host ctx (on_get_type_size module_name type_name) e engine m h stop =
    run-ended engine ctx _ e m stop
handle-ended host ctx (on_add_breakpoint address_hex symbol) e engine m h stop =
    run-ended engine ctx _ e m stop
handle-ended host ctx (on_remove_breakpoint id) e engine m h stop = run-ended engine ctx _ e m stop
handle-ended host ctx (on_enable_breakpoint id enabled) e engine m h stop =
    run-ended engine ctx _ e m stop
handle-ended host ctx on_list_breakpoints e engine m h stop = run-ended engine ctx _ e m stop
handle-ended host ctx (on_go_execution timeout) e engine m h stop = impossible h
handle-ended host ctx (on_step_in timeout) e engine m h stop = impossible h
handle-ended host ctx (on_step_over timeout) e engine m h stop = impossible h
handle-ended host ctx (on_step_out timeout) e engine m h stop = impossible h
handle-ended host ctx on_break_in e engine m h stop = run-ended engine ctx _ e m stop
handle-ended host ctx on_get_symbol_path e engine m h stop = run-ended engine ctx _ e m stop
handle-ended host ctx (on_set_symbol_path path) e engine m h stop = run-ended engine ctx _ e m stop
handle-ended host ctx (on_reload_symbols spec timeout) e engine m h stop = impossible h
handle-ended host ctx (on_sym_fix cache) e engine m h stop = run-ended engine ctx _ e m stop
handle-ended host ctx (on_evaluate expr desired timeout) e engine m h stop = impossible h
handle-ended host ctx on_get_radix e engine m h stop = run-ended engine ctx _ e m stop
handle-ended host ctx (on_set_radix radix) e engine m h stop = run-ended engine ctx _ e m stop
handle-ended host ctx on_get_expression_syntax e engine m h stop = run-ended engine ctx _ e m stop
handle-ended host ctx (on_set_expression_syntax syntax) e engine m h stop =
    run-ended engine ctx _ e m stop
handle-ended host ctx (on_addr_to_line address_hex) e engine m h stop =
    run-ended engine ctx _ e m stop
handle-ended host ctx (on_line_to_addr file line) e engine m h stop =
    run-ended engine ctx _ e m stop
handle-ended host ctx (on_add_breakpoint_source_line file line) e engine m h stop =
    run-ended engine ctx _ e m stop
handle-ended host ctx (on_search_memory start_hex size pattern_hex granularity) e engine m h stop =
    run-ended engine ctx _ e m stop
handle-ended host ctx (on_virtual_to_physical va_hex) e engine m h stop =
    run-ended engine ctx _ e m stop
handle-ended host ctx (on_query_region va_hex) e engine m h stop = run-ended engine ctx _ e m stop
handle-ended host ctx (on_write_dump path kind_name flags comment timeout) e engine m h stop =
    impossible h
handle-ended host ctx (on_add_data_breakpoint address_hex size access) e engine m h stop =
    run-ended engine ctx _ e m stop
handle-ended host ctx (on_configure_breakpoint id pass_count match_thread_id command) e engine m h
      stop =
    run-ended engine ctx _ e m stop
handle-ended host ctx (on_breakpoint_command id) e engine m h stop = run-ended engine ctx _ e m stop
handle-ended host ctx on_last_exception e engine m h stop = run-ended engine ctx _ e m stop
handle-ended host ctx on_bug_check e engine m h stop = run-ended engine ctx _ e m stop
