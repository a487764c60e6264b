-- ===== src/Handlers/Requests.antt =====
-- cmd/gokd-mcp/tools.go: the requests that `registerTools` sends to the handlers: each tool's input, its
-- name, its answer and its handler. The polling tools, `get_session_state`, `execute_raw` and its
-- continuation, and the composite tools are not among them.
use go_kd.Prelude.{ℕ, Bool, Option, List, String}
use go_kd.Prelude.Int.{ℤ}
use go_kd.Text.{Text}
use go_kd.Errors.{Result}
use go_kd.Breakpoints.{BreakpointInfo}
use go_kd.Listing.{ModulesOutput, StackOutput}
use go_kd.Memory.{HexOutput, WriteMemoryOutput}
use go_kd.Session.{Context, SourceLine, Program}
use go_kd.Handlers.{OkOutput, ThreadInfo, StopInfo}
use go_kd.Handlers.Target.{RegisterMap}
use go_kd.Handlers.Data.{DisassembleOutput, FieldsOutput, SearchMemoryOutput, QueryRegionOutput}
use go_kd.Handlers.Faults.{LastExceptionOutput, BugCheckOutput}
use go_kd.Handlers.Points.{AddBreakpointOutput}
use go_kd.Handlers.Settings.{EvaluateOutput}
use go_kd.Handlers.Target
use go_kd.Handlers.Data
use go_kd.Handlers.Faults
use go_kd.Handlers.Points
use go_kd.Handlers.Settings

pub data Request : Type 0 where
  on_attach_process : (pid : ℕ) → Request
  on_create_process : (command_line : Text) (initial_break : Bool) → Request
  on_open_dump : (path : Text) → Request
  on_attach_kernel : (connection : Text) (timeout : ℤ) (passive : Bool) → Request
  on_detach : Request
  on_connect_remote : (connection : Text) → Request
  on_disconnect_remote : Request
  on_get_modules : (name_glob : Text) (offset limit : ℤ) → Request
  on_get_threads : Request
  on_set_thread : (system_id : ℕ) → Request
  on_get_registers : (names : List Text) → Request
  on_set_register : (name value_hex : Text) → Request
  on_get_stack : (max_frames : ℤ) → Request
  on_read_memory : (address_hex : Text) (requested : ℕ) → Request
  on_write_memory : (address_hex bytes_hex : Text) → Request
  on_read_physical : (address_hex : Text) (requested : ℕ) → Request
  on_disassemble : (address_hex : Text) (count : ℤ) → Request
  on_name_to_addr : (name : Text) → Request
  on_addr_to_name : (address_hex : Text) → Request
  on_get_type_fields : (module_name type_name : Text) → Request
  on_get_type_size : (module_name type_name : Text) → Request
  on_add_breakpoint : (address_hex symbol : Text) → Request
  on_remove_breakpoint : (id : ℕ) → Request
  on_enable_breakpoint : (id : ℕ) (enabled : Bool) → Request
  on_list_breakpoints : Request
  on_go_execution : (timeout : ℤ) → Request
  on_step_in : (timeout : ℤ) → Request
  on_step_over : (timeout : ℤ) → Request
  on_step_out : (timeout : ℤ) → Request
  on_break_in : Request
  on_get_symbol_path : Request
  on_set_symbol_path : (path : Text) → Request
  on_reload_symbols : (spec : Text) (timeout : ℤ) → Request
  on_sym_fix : (cache : Text) → Request
  on_evaluate : (expr desired : Text) (timeout : ℤ) → Request
  on_get_radix : Request
  on_set_radix : (radix : ℕ) → Request
  on_get_expression_syntax : Request
  on_set_expression_syntax : (syntax : Text) → Request
  on_addr_to_line : (address_hex : Text) → Request
  on_line_to_addr : (file : Text) (line : ℕ) → Request
  on_add_breakpoint_source_line : (file : Text) (line : ℕ) → Request
  on_search_memory : (start_hex : Text) (size : ℕ) (pattern_hex : Text) (granularity : ℕ) → Request
  on_virtual_to_physical : (va_hex : Text) → Request
  on_query_region : (va_hex : Text) → Request
  on_write_dump : (path kind_name : Text) (flags : ℕ) (comment : Text) (timeout : ℤ) → Request
  on_add_data_breakpoint : (address_hex : Text) (size : ℕ) (access : List Text) → Request
  on_configure_breakpoint :
      (id pass_count : ℕ) (match_thread_id : Option ℕ) (command : Option Text) → Request
  on_breakpoint_command : (id : ℕ) → Request
  on_last_exception : Request
  on_bug_check : Request

-- the names that the handlers are registered under
unfoldable pub tool_of : Request → String
tool_of (on_attach_process pid) = "attach_process"
tool_of (on_create_process command_line initial_break) = "create_process"
tool_of (on_open_dump path) = "open_dump"
tool_of (on_attach_kernel connection timeout passive) = "attach_kernel"
tool_of on_detach = "detach"
tool_of (on_connect_remote connection) = "connect_remote"
tool_of on_disconnect_remote = "disconnect_remote"
tool_of (on_get_modules name_glob offset limit) = "get_modules"
tool_of on_get_threads = "get_threads"
tool_of (on_set_thread system_id) = "set_thread"
tool_of (on_get_registers names) = "get_registers"
tool_of (on_set_register name value_hex) = "set_register"
tool_of (on_get_stack max_frames) = "get_stack"
tool_of (on_read_memory address_hex requested) = "read_memory"
tool_of (on_write_memory address_hex bytes_hex) = "write_memory"
tool_of (on_read_physical address_hex requested) = "read_physical"
tool_of (on_disassemble address_hex count) = "disassemble"
tool_of (on_name_to_addr name) = "name_to_addr"
tool_of (on_addr_to_name address_hex) = "addr_to_name"
tool_of (on_get_type_fields module_name type_name) = "get_type_fields"
tool_of (on_get_type_size module_name type_name) = "get_type_size"
tool_of (on_add_breakpoint address_hex symbol) = "add_breakpoint"
tool_of (on_remove_breakpoint id) = "remove_breakpoint"
tool_of (on_enable_breakpoint id enabled) = "enable_breakpoint"
tool_of on_list_breakpoints = "list_breakpoints"
tool_of (on_go_execution timeout) = "go_execution"
tool_of (on_step_in timeout) = "step_in"
tool_of (on_step_over timeout) = "step_over"
tool_of (on_step_out timeout) = "step_out"
tool_of on_break_in = "break_in"
tool_of on_get_symbol_path = "get_symbol_path"
tool_of (on_set_symbol_path path) = "set_symbol_path"
tool_of (on_reload_symbols spec timeout) = "reload_symbols"
tool_of (on_sym_fix cache) = "sym_fix"
tool_of (on_evaluate expr desired timeout) = "evaluate"
tool_of on_get_radix = "get_radix"
tool_of (on_set_radix radix) = "set_radix"
tool_of on_get_expression_syntax = "get_expression_syntax"
tool_of (on_set_expression_syntax syntax) = "set_expression_syntax"
tool_of (on_addr_to_line address_hex) = "addr_to_line"
tool_of (on_line_to_addr file line) = "line_to_addr"
tool_of (on_add_breakpoint_source_line file line) = "add_breakpoint_source_line"
tool_of (on_search_memory start_hex size pattern_hex granularity) = "search_memory"
tool_of (on_virtual_to_physical va_hex) = "virtual_to_physical"
tool_of (on_query_region va_hex) = "query_region"
tool_of (on_write_dump path kind_name flags comment timeout) = "write_dump"
tool_of (on_add_data_breakpoint address_hex size access) = "add_data_breakpoint"
tool_of (on_configure_breakpoint id pass_count match_thread_id command) = "configure_breakpoint"
tool_of (on_breakpoint_command id) = "breakpoint_command"
tool_of on_last_exception = "last_exception"
tool_of on_bug_check = "bug_check"

abbrev pub OutputOf : Request → Type 0
OutputOf (on_attach_process pid) = OkOutput
OutputOf (on_create_process command_line initial_break) = OkOutput
OutputOf (on_open_dump path) = OkOutput
OutputOf (on_attach_kernel connection timeout passive) = OkOutput
OutputOf on_detach = OkOutput
OutputOf (on_connect_remote connection) = OkOutput
OutputOf on_disconnect_remote = OkOutput
OutputOf (on_get_modules name_glob offset limit) = ModulesOutput
OutputOf on_get_threads = List ThreadInfo
OutputOf (on_set_thread system_id) = OkOutput
OutputOf (on_get_registers names) = RegisterMap
OutputOf (on_set_register name value_hex) = OkOutput
OutputOf (on_get_stack max_frames) = StackOutput
OutputOf (on_read_memory address_hex requested) = HexOutput
OutputOf (on_write_memory address_hex bytes_hex) = WriteMemoryOutput
OutputOf (on_read_physical address_hex requested) = HexOutput
OutputOf (on_disassemble address_hex count) = DisassembleOutput
OutputOf (on_name_to_addr name) = Text
OutputOf (on_addr_to_name address_hex) = Text × ℕ
OutputOf (on_get_type_fields module_name type_name) = FieldsOutput
OutputOf (on_get_type_size module_name type_name) = ℕ
OutputOf (on_add_breakpoint address_hex symbol) = AddBreakpointOutput
OutputOf (on_remove_breakpoint id) = OkOutput
OutputOf (on_enable_breakpoint id enabled) = OkOutput
OutputOf on_list_breakpoints = List BreakpointInfo
OutputOf (on_go_execution timeout) = StopInfo
OutputOf (on_step_in timeout) = StopInfo
OutputOf (on_step_over timeout) = StopInfo
OutputOf (on_step_out timeout) = StopInfo
OutputOf on_break_in = OkOutput
OutputOf on_get_symbol_path = Text
OutputOf (on_set_symbol_path path) = OkOutput
OutputOf (on_reload_symbols spec timeout) = OkOutput
OutputOf (on_sym_fix cache) = OkOutput
OutputOf (on_evaluate expr desired timeout) = EvaluateOutput
OutputOf on_get_radix = ℕ
OutputOf (on_set_radix radix) = OkOutput
OutputOf on_get_expression_syntax = Text
OutputOf (on_set_expression_syntax syntax) = OkOutput
OutputOf (on_addr_to_line address_hex) = SourceLine
OutputOf (on_line_to_addr file line) = Text
OutputOf (on_add_breakpoint_source_line file line) = AddBreakpointOutput
OutputOf (on_search_memory start_hex size pattern_hex granularity) = SearchMemoryOutput
OutputOf (on_virtual_to_physical va_hex) = Text
OutputOf (on_query_region va_hex) = QueryRegionOutput
OutputOf (on_write_dump path kind_name flags comment timeout) = OkOutput
OutputOf (on_add_data_breakpoint address_hex size access) = AddBreakpointOutput
OutputOf (on_configure_breakpoint id pass_count match_thread_id command) = OkOutput
OutputOf (on_breakpoint_command id) = Text
OutputOf on_last_exception = LastExceptionOutput
OutputOf on_bug_check = BugCheckOutput

-- what the host gives: `filepath.Match`, `filepath.IsAbs`, and the default path of the symbol cache
pub record Host : Type 0 where
  pub matches : Text → Text → Option Bool
  pub is_abs : Text → Bool
  pub default_cache : Text

unfoldable pub handle : Host → Context → (q : Request) → Program (Result (OutputOf q))
handle host ctx (on_attach_process pid) = Target.attach_process ctx pid
handle host ctx (on_create_process command_line initial_break) =
    Target.create_process ctx command_line initial_break
handle host ctx (on_open_dump path) = Target.open_dump ctx path
handle host ctx (on_attach_kernel connection timeout passive) =
    Target.attach_kernel ctx connection timeout passive
handle host ctx on_detach = Target.detach ctx
handle host ctx (on_connect_remote connection) = Target.connect_remote ctx connection
handle host ctx on_disconnect_remote = Target.disconnect_remote ctx
handle host ctx (on_get_modules name_glob offset limit) =
    Data.get_modules host.matches ctx name_glob offset limit
handle host ctx on_get_threads = Target.get_threads ctx
handle host ctx (on_set_thread system_id) = Target.set_thread ctx system_id
handle host ctx (on_get_registers names) = Target.get_registers ctx names
handle host ctx (on_set_register name value_hex) = Target.set_register ctx name value_hex
handle host ctx (on_get_stack max_frames) = Data.get_stack ctx max_frames
handle host ctx (on_read_memory address_hex requested) = Data.read_memory ctx address_hex requested
handle host ctx (on_write_memory address_hex bytes_hex) =
    Data.write_memory ctx address_hex bytes_hex
handle host ctx (on_read_physical address_hex requested) =
    Data.read_physical ctx address_hex requested
handle host ctx (on_disassemble address_hex count) = Data.disassemble ctx address_hex count
handle host ctx (on_name_to_addr name) = Data.name_to_addr ctx name
handle host ctx (on_addr_to_name address_hex) = Data.addr_to_name ctx address_hex
handle host ctx (on_get_type_fields module_name type_name) =
    Data.get_type_fields ctx module_name type_name
handle host ctx (on_get_type_size module_name type_name) =
    Data.get_type_size ctx module_name type_name
handle host ctx (on_add_breakpoint address_hex symbol) =
    Points.add_breakpoint ctx address_hex symbol
handle host ctx (on_remove_breakpoint id) = Points.remove_breakpoint ctx id
handle host ctx (on_enable_breakpoint id enabled) = Points.enable_breakpoint ctx id enabled
handle host ctx on_list_breakpoints = Points.list_breakpoints ctx
handle host ctx (on_go_execution timeout) = Target.go_execution ctx timeout
handle host ctx (on_step_in timeout) = Target.step_in ctx timeout
handle host ctx (on_step_over timeout) = Target.step_over ctx timeout
handle host ctx (on_step_out timeout) = Target.step_out ctx timeout
handle host ctx on_break_in = Target.break_in ctx
handle host ctx on_get_symbol_path = Settings.get_symbol_path ctx
handle host ctx (on_set_symbol_path path) = Settings.set_symbol_path ctx path
handle host ctx (on_reload_symbols spec timeout) = Settings.reload_symbols ctx spec timeout
handle host ctx (on_sym_fix cache) = Settings.sym_fix host.default_cache ctx cache
handle host ctx (on_evaluate expr desired timeout) = Settings.evaluate ctx expr desired timeout
handle host ctx on_get_radix = Settings.get_radix ctx
handle host ctx (on_set_radix radix) = Settings.set_radix ctx radix
handle host ctx on_get_expression_syntax = Settings.get_expression_syntax ctx
handle host ctx (on_set_expression_syntax syntax) = Settings.set_expression_syntax ctx syntax
handle host ctx (on_addr_to_line address_hex) = Settings.addr_to_line ctx address_hex
handle host ctx (on_line_to_addr file line) = Settings.line_to_addr ctx file line
handle host ctx (on_add_breakpoint_source_line file line) =
    Points.add_breakpoint_source_line ctx file line
handle host ctx (on_search_memory start_hex size pattern_hex granularity) =
    Data.search_memory ctx start_hex size pattern_hex granularity
handle host ctx (on_virtual_to_physical va_hex) = Data.virtual_to_physical ctx va_hex
handle host ctx (on_query_region va_hex) = Data.query_region ctx va_hex
handle host ctx (on_write_dump path kind_name flags comment timeout) =
    Settings.write_dump host.is_abs ctx path kind_name flags comment timeout
handle host ctx (on_add_data_breakpoint address_hex size access) =
    Points.add_data_breakpoint ctx address_hex size access
handle host ctx (on_configure_breakpoint id pass_count match_thread_id command) =
    Points.configure_breakpoint ctx id pass_count match_thread_id command
handle host ctx (on_breakpoint_command id) = Points.breakpoint_command ctx id
handle host ctx on_last_exception = Faults.last_exception ctx
handle host ctx on_bug_check = Faults.bug_check ctx
