-- ===== src/Tests/Engine.antt =====
-- Bindings with a target of two threads, for the theorems on the session's programs. The state is the
-- current thread's id.
use go_kd.Prelude.{ℕ, ◌+◌, ◌≡◌, Bool, true, false, none, List, [], ◌∷◌, ap}
use go_kd.Text.{codes}
use go_kd.Errors.{session_closed, Result, ok, err, err_not_found}
use go_kd.Events.{Thread}
use go_kd.Listing.{Frame}
use go_kd.Inspect.{Field}
use go_kd.Session.{
  Command, AnswerOf, context_err, is_closed, inner_attach_process, inner_create_process,
  inner_attach_kernel, inner_open_dump, inner_write_dump, inner_connect_remote,
  inner_disconnect_remote, inner_detach, inner_go, inner_step_in, inner_step_over, inner_step_out,
  inner_break_in, inner_read_virtual, inner_write_virtual, inner_read_physical, inner_get_registers,
  inner_set_register, inner_get_stack, inner_get_threads, inner_set_current_thread,
  inner_get_modules, inner_name_to_addr, inner_addr_to_name, inner_set_symbol_path,
  inner_get_symbol_path, inner_reload_symbols, inner_get_type_size, inner_get_type_fields,
  inner_add_breakpoint, inner_add_breakpoint_sym, inner_add_data_breakpoint,
  inner_configure_breakpoint, inner_breakpoint_command, inner_remove_breakpoint,
  inner_enable_breakpoint, inner_list_breakpoints, inner_disassemble, inner_evaluate, inner_radix,
  inner_set_radix, inner_expression_syntax, inner_set_expression_syntax, inner_addr_to_line,
  inner_line_to_addr, inner_search_memory, inner_virtual_to_physical, inner_query_region,
  inner_execute, inner_last_exception, inner_bug_check,
}
use go_kd.Session.OnlyCalls.{is_query}

abbrev pub thread_at : ℕ → Thread
thread_at id = record { system_id = id; handle = 1; data_offset = 2; start_offset = 3 }

abbrev pub two_threads : List Thread
two_threads = thread_at 7 ∷ thread_at 9 ∷ []

-- a stack of one frame, at the thread's id
abbrev pub frame_at : ℕ → Frame
frame_at id = record {
  instruction_offset = id;
  return_offset = 0;
  frame_offset = 0;
  stack_offset = 0;
  module_name = codes "nt";
  function = codes "KeBugCheckEx";
  displacement = 4;
  source_file = [];
  source_line = 0;
}

abbrev pub stack_at : ℕ → Result (List Frame)
stack_at id = ok (frame_at id ∷ [])

-- a list whose pointer field is of its own type
abbrev pub link : Field
link = record { name = codes "Flink"; offset = 0; size = 8; type_name = codes "_NODE *" }

abbrev pub answer : (c : Command) → ℕ → AnswerOf c
answer (context_err _) m = none
answer is_closed m = false
answer (inner_attach_process _ _) m = err session_closed
answer (inner_create_process _ _ _) m = err session_closed
answer (inner_attach_kernel _ _ _) m = err session_closed
answer (inner_open_dump _) m = err session_closed
answer (inner_write_dump _ _ _ _ _) m = err session_closed
answer (inner_connect_remote _) m = err session_closed
answer inner_disconnect_remote m = err session_closed
answer inner_detach m = err session_closed
answer (inner_go _) m = err session_closed
answer (inner_step_in _) m = err session_closed
answer (inner_step_over _) m = err session_closed
answer (inner_step_out _) m = err session_closed
answer inner_break_in m = err session_closed
answer (inner_read_virtual _ _) m = ok (1 ∷ 0 ∷ 0 ∷ 0 ∷ 0 ∷ 0 ∷ 0 ∷ 0 ∷ [])
answer (inner_write_virtual _ _) m = err session_closed
answer (inner_read_physical _ _) m = err session_closed
answer inner_get_registers m = ok []
answer (inner_set_register _ _) m = err session_closed
answer (inner_get_stack _) m = stack_at m
answer inner_get_threads m = ok two_threads
answer (inner_set_current_thread _) m = ok tt
answer inner_get_modules m = err session_closed
answer (inner_name_to_addr _) m = err session_closed
answer (inner_addr_to_name _) m = err session_closed
answer (inner_set_symbol_path _) m = err session_closed
answer inner_get_symbol_path m = err session_closed
answer (inner_reload_symbols _ _) m = err session_closed
answer (inner_get_type_size _ _) m = ok 8
answer (inner_get_type_fields _ _) m = ok (link ∷ [])
answer (inner_add_breakpoint _) m = err session_closed
answer (inner_add_breakpoint_sym _) m = err session_closed
answer (inner_add_data_breakpoint _ _ _) m = err session_closed
answer (inner_configure_breakpoint _ _ _ _) m = err session_closed
answer (inner_breakpoint_command _) m = err session_closed
answer (inner_remove_breakpoint _) m = err session_closed
answer (inner_enable_breakpoint _ _) m = err session_closed
answer inner_list_breakpoints m = err session_closed
answer (inner_disassemble _) m = ok (codes "nop", 0)
answer (inner_evaluate _ _ _) m = err session_closed
answer inner_radix m = err session_closed
answer (inner_set_radix _) m = err session_closed
answer inner_expression_syntax m = err session_closed
answer (inner_set_expression_syntax _) m = err session_closed
answer (inner_addr_to_line _) m = err session_closed
answer (inner_line_to_addr _ _) m = err session_closed
answer (inner_search_memory _ _ _ _) m = err session_closed
answer (inner_virtual_to_physical _) m = err session_closed
answer (inner_query_region _) m = err session_closed
answer (inner_execute _) m = err session_closed
answer inner_last_exception m = err err_not_found
answer inner_bug_check m = err session_closed

-- what the calls that are not queries do: they switch to another thread
abbrev pub moved : Command → ℕ → ℕ
moved (inner_set_current_thread id) m = id
moved c m = m + 1

abbrev pub after : Bool → Command → ℕ → ℕ
after true c m = m
after false c m = moved c m

abbrev pub bindings : (c : Command) → ℕ → AnswerOf c × ℕ
bindings c m = (answer c m, after (is_query c) c m)

pub bindings-kept : (c : Command) (m : ℕ) → is_query c ≡ true → (bindings c m).1 ≡ m
bindings-kept c m h = ap (λ b. after b c m) h
