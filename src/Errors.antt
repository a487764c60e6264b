-- ===== src/Errors.antt =====
-- cmd/gokd-mcp/errors.go: the error envelope of a failed tool call, and the errors of the session
-- that it tells apart (gokd.go).
pub mod Envelope
use go_kd.Prelude.{
  ℕ, ◌+◌, ◌%◌, ◌^◌, String, Bool, Option, none, some, List, [], ◌∷◌, ◌++◌, ◌==◌, str_eq,
  if◌then◌else◌,
}
use go_kd.Text.{Text, codes, upper_hex}

-- An error value, by what `errors.Is` and `errors.As` see of it. `ErrTimeout` and `ErrNotFound` are
-- themselves values of `HRESULTError`, whose code is kept here as a `uint32`.
pub data GoError : Type 0 where
  session_closed : GoError
  hresult : ℕ → GoError
  other : Text → GoError

abbrev pub err_timeout : GoError
err_timeout = hresult 1

abbrev pub err_not_found : GoError
err_not_found = hresult 0x80000002

-- A result with Go's `error` beside it.
pub data Result {ℓ} (A : Type ℓ) : Type ℓ where
  ok : A → Result A
  err : GoError → Result A

infixl 5 ◌>>=◌
-- `if err != nil { return …, err }` before the rest of a function
abbrev pub ◌>>=◌ {ℓ κ} : {A : Type ℓ} {B : Type κ} → Result A → (A → Result B) → Result B
err e >>= rest = err e
ok v >>= rest = rest v

-- `MCPError`; an empty `HRESULT`, `Hint` or `NextTools` is `""` or `[]`.
pub record McpError : Type 0 where
  pub code : String
  pub message : Text
  pub hresult_text : Text
  pub hint : String
  pub next_tools : List String

pub record HresultInfo : Type 0 where
  pub info_code : String
  pub info_hint : String

unfoldable pub hresult_map : List (ℕ × HresultInfo)
hresult_map =
    (
      0x80004005,
      record {
        info_code = "TARGET_RUNNING";
        info_hint = "Call break_in first or wait for go_execution to return.";
      },
    )
    ∷ (
      0x80070006,
      record {
        info_code = "NO_TARGET";
        info_hint = "Call attach_process/create_process/open_dump/attach_kernel first.";
      },
    )
    ∷ (
      0x80070057,
      record {
        info_code = "INVALID_ARG";
        info_hint =
            "Check the argument; for symbols call name_to_addr first to verify the symbol resolves.";
      },
    )
    ∷ (
      0x80070002,
      record {
        info_code = "FILE_NOT_FOUND";
        info_hint = "File not found. Verify the path on the debugger host machine.";
      },
    )
    ∷ (
      0x800703E5,
      record {
        info_code = "CANCELLED";
        info_hint = "Operation cancelled by break_in or context cancellation.";
      },
    )
    ∷ (
      0x80004001,
      record {
        info_code = "NOT_IMPL";
        info_hint =
            "Operation not supported on the current target type (e.g. attach_kernel ops on a dump).";
      },
    )
    ∷ (
      0x8000FFFF,
      record {
        info_code = "NO_CURRENT_PROC";
        info_hint =
            "Engine has no current process; call go_execution once after attach to settle the state.";
      },
    )
    ∷ (
      0x80000002,
      record {
        info_code = "NOT_FOUND";
        info_hint = "No result. Check spelling; try wildcards or a module! prefix.";
      },
    )
    ∷ []

unfoldable pub op_hints : List (String × List String)
op_hints =
    ("attach_process", "get_session_state" ∷ "get_threads" ∷ "get_modules" ∷ [])
    ∷ ("create_process", "get_session_state" ∷ "go_execution" ∷ [])
    ∷ ("open_dump", "summarise_target" ∷ "last_exception" ∷ "get_stack" ∷ [])
    ∷ ("attach_kernel", "get_session_state" ∷ "go_execution" ∷ [])
    ∷ ("detach", "get_session_state" ∷ [])
    ∷ ("connect_remote", "attach_process" ∷ "attach_kernel" ∷ [])
    ∷ ("disconnect_remote", "get_session_state" ∷ [])
    ∷ ("go_execution", "break_in" ∷ "get_recent_events" ∷ [])
    ∷ ("step_in", "break_in" ∷ "get_stack" ∷ [])
    ∷ ("step_over", "break_in" ∷ "get_stack" ∷ [])
    ∷ ("step_out", "break_in" ∷ "get_stack" ∷ [])
    ∷ ("break_in", "get_session_state" ∷ [])
    ∷ ("read_memory", "query_region" ∷ "virtual_to_physical" ∷ [])
    ∷ ("read_physical", "query_region" ∷ "virtual_to_physical" ∷ [])
    ∷ ("write_memory", "query_region" ∷ [])
    ∷ ("read_string", "read_memory" ∷ "query_region" ∷ [])
    ∷ ("dump_memory", "read_memory" ∷ "query_region" ∷ [])
    ∷ ("name_to_addr", "reload_symbols" ∷ "sym_fix" ∷ [])
    ∷ ("addr_to_name", "reload_symbols" ∷ "get_modules" ∷ [])
    ∷ ("addr_to_line", "reload_symbols" ∷ "sym_fix" ∷ [])
    ∷ ("line_to_addr", "reload_symbols" ∷ "sym_fix" ∷ [])
    ∷ ("add_breakpoint", "name_to_addr" ∷ "sym_fix" ∷ [])
    ∷ ("add_breakpoint_source_line", "line_to_addr" ∷ "reload_symbols" ∷ [])
    ∷ ("add_data_breakpoint", "query_region" ∷ [])
    ∷ ("configure_breakpoint", "list_breakpoints" ∷ [])
    ∷ ("breakpoint_command", "list_breakpoints" ∷ [])
    ∷ ("enable_breakpoint", "list_breakpoints" ∷ [])
    ∷ ("remove_breakpoint", "list_breakpoints" ∷ [])
    ∷ ("list_breakpoints", "get_session_state" ∷ [])
    ∷ ("get_modules", "get_session_state" ∷ "reload_symbols" ∷ [])
    ∷ ("get_threads", "get_session_state" ∷ [])
    ∷ ("set_thread", "get_threads" ∷ [])
    ∷ ("get_registers", "set_thread" ∷ [])
    ∷ ("set_register", "get_registers" ∷ [])
    ∷ ("get_stack", "get_threads" ∷ "break_in" ∷ [])
    ∷ ("walk_stacks_all", "break_in" ∷ "get_threads" ∷ [])
    ∷ ("disassemble", "name_to_addr" ∷ "addr_to_name" ∷ [])
    ∷ ("evaluate", "set_expression_syntax" ∷ "reload_symbols" ∷ [])
    ∷ ("get_type_fields", "reload_symbols" ∷ "sym_fix" ∷ [])
    ∷ ("get_type_size", "reload_symbols" ∷ "sym_fix" ∷ [])
    ∷ ("dump_type", "get_type_fields" ∷ "reload_symbols" ∷ [])
    ∷ ("inspect_struct", "get_type_fields" ∷ "reload_symbols" ∷ [])
    ∷ ("reload_symbols", "sym_fix" ∷ "get_symbol_path" ∷ [])
    ∷ ("sym_fix", "reload_symbols" ∷ [])
    ∷ ("set_symbol_path", "reload_symbols" ∷ [])
    ∷ ("search_memory", "query_region" ∷ [])
    ∷ ("virtual_to_physical", "query_region" ∷ [])
    ∷ ("query_region", "get_modules" ∷ [])
    ∷ ("write_dump", "get_session_state" ∷ [])
    ∷ ("last_exception", "get_stack" ∷ "get_registers" ∷ [])
    ∷ ("bug_check", "triage_crash" ∷ "summarise_target" ∷ [])
    ∷ ("triage_crash", "last_exception" ∷ "get_stack" ∷ "get_registers" ∷ [])
    ∷ ("summarise_target", "get_session_state" ∷ "triage_crash" ∷ [])
    ∷ ("execute_raw", "get_raw_output_continuation" ∷ [])
    ∷ ("get_raw_output_continuation", "execute_raw" ∷ [])
    ∷ ("get_recent_events", "get_session_state" ∷ [])
    ∷ ("get_recent_output", "get_session_state" ∷ [])
    ∷ ("setup_kernel_debug", "attach_kernel" ∷ "get_session_state" ∷ [])
    ∷ ("pull_latest_minidump", "open_dump" ∷ "triage_crash" ∷ [])
    ∷ []

unfoldable pub lookup_code : ℕ → List (ℕ × HresultInfo) → Option HresultInfo
lookup_code c [] = none
lookup_code c ((k, v) ∷ m) = if k == c then some v else lookup_code c m

unfoldable pub lookup_op : String → List (String × List String) → List String
lookup_op op [] = []
lookup_op op ((k, v) ∷ m) = if str_eq k op then v else lookup_op op m

-- `fmt.Sprintf("%s: %v", op, err)`, over the text of the error
pub message_of : Text → Text → Text
message_of op text = op ++ codes ": " ++ text

-- The `switch` of `wrapErr`: code, HRESULT and hint. `ErrTimeout` and `ErrNotFound` come before the
-- table of codes.
unfoldable pub classify : GoError → String × Text × String
unfolding hresult_map lookup_code
classify session_closed =
    ("SESSION_CLOSED", [], "Reconnect the MCP client to start a fresh gokd session.")
classify (other text) = ("INTERNAL", [], "")
classify (hresult c) =
    if c == 1
    then (
      "TIMEOUT",
      codes "0x00000001",
      "The operation timed out. Increase timeout_seconds or call break_in.",
    )
    else if c == 0x80000002
    then (
      "NOT_FOUND",
      codes "0x80000002",
      "No result. Check the input value; try wildcards or module! prefix.",
    )
    else let shown = codes "0x" ++ upper_hex 8 c in
      elim (lookup_code c hresult_map) [
        | some m ↦ (m.info_code, shown, m.info_hint)
        | none ↦ ("HRESULT", shown, "")
      ]

-- `wrapErr`: no error has no envelope.
unfoldable pub wrap_err : String → Text → (GoError → Text) → Option GoError → Option McpError
unfolding classify message_of
wrap_err op op_text show none = none
wrap_err op op_text show (some e) =
    let (code, shown, hint) = classify e in
    some (record {
      code = code;
      message = message_of op_text (show e);
      hresult_text = shown;
      hint = hint;
      next_tools = lookup_op op op_hints;
    })
