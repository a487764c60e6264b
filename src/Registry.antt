-- ===== src/Registry.antt =====
-- cmd/gokd-mcp/tools.go, `registerTools`: the tools that a server offers under its flags. A tool is
-- its name and risk annotations; descriptions, schemas and handlers are left out.
pub mod Offers
use go_kd.Prelude.{
  ◌≡◌, refl, ◌∙◌, ap, ap₂, Bool, true, false, not, ◌&&◌, ◌||◌, String, List, [], ◌∷◌, ◌++◌, arith,
  str_eq, if◌then◌else◌,
}
use go_kd.Readonly.{Tool, mutating_tools, is_listed, add_tool_maybe, annotations_for}

unfoldable pub tools_before_raw : List String
tools_before_raw =
    "attach_process" ∷ "create_process" ∷ "open_dump" ∷ "attach_kernel" ∷ "detach"
    ∷ "connect_remote" ∷ "disconnect_remote" ∷ "get_session_state" ∷ "get_recent_events"
    ∷ "get_recent_output" ∷ "get_modules" ∷ "get_threads" ∷ "set_thread" ∷ "get_registers"
    ∷ "set_register" ∷ "get_stack" ∷ "walk_stacks_all" ∷ "read_memory" ∷ "write_memory"
    ∷ "read_physical" ∷ "read_string" ∷ "dump_memory" ∷ "disassemble" ∷ "name_to_addr"
    ∷ "addr_to_name" ∷ "get_type_fields" ∷ "inspect_struct" ∷ "get_type_size" ∷ "add_breakpoint"
    ∷ "remove_breakpoint" ∷ "enable_breakpoint" ∷ "list_breakpoints" ∷ "go_execution" ∷ "step_in"
    ∷ "step_over" ∷ "step_out" ∷ "break_in" ∷ "get_symbol_path" ∷ "set_symbol_path" ∷ []

unfoldable pub tools_after_raw : List String
tools_after_raw =
    "get_raw_output_continuation" ∷ "reload_symbols" ∷ "sym_fix" ∷ "evaluate" ∷ "get_radix"
    ∷ "set_radix" ∷ "get_expression_syntax" ∷ "set_expression_syntax" ∷ "addr_to_line"
    ∷ "line_to_addr" ∷ "add_breakpoint_source_line" ∷ "search_memory" ∷ "virtual_to_physical"
    ∷ "query_region" ∷ "write_dump" ∷ "add_data_breakpoint" ∷ "configure_breakpoint"
    ∷ "breakpoint_command" ∷ "last_exception" ∷ "bug_check" ∷ "triage_crash" ∷ "summarise_target"
    ∷ "dump_type" ∷ []

unfoldable pub lablink_tools : List String
lablink_tools = "setup_kernel_debug" ∷ "pull_latest_minidump" ∷ []

-- the calls of `addToolMaybe`, in order
unfoldable pub add_all : Bool → List Tool → List String → List Tool
add_all readonly tools [] = tools
add_all readonly tools (n ∷ ns) = add_all readonly (add_tool_maybe readonly tools n) ns

-- `mcp.AddTool` with the annotations that `execute_raw` comes with
unfoldable pub add_execute_raw : Bool → Bool → List Tool → List Tool
add_execute_raw readonly unsafe_raw tools =
    if not readonly || unsafe_raw
    then record {
      name = "execute_raw";
      annotations = record { destructive_hint = true; read_only_hint = false };
    }
      ∷ tools
    else tools

unfoldable pub register_tools : Bool → Bool → Bool → List Tool
register_tools readonly unsafe_raw lablink_enabled =
    let first = add_all readonly [] tools_before_raw in
    let raw = add_execute_raw readonly unsafe_raw first in
    let rest = add_all readonly raw tools_after_raw in
    if lablink_enabled then add_all readonly rest lablink_tools else rest

-- whether the server offers a tool of a name
unfoldable pub offers : String → List Tool → Bool
offers name [] = false
offers name (t ∷ ts) = str_eq t.name name || offers name ts
