-- ===== src/Session.antt =====
-- The boundary of the session library (gokd.go): what `dbgcgo.Session`, the bindings to the engine, is
-- called with and answers, and the values that pass (internal/dbgcgo/dbgeng.go). A program is a run of
-- such calls, each of whose answers decides on the rest; the bindings themselves are an argument. The
-- context of a request is asked for its error by a call too, since it may end at any time.
pub mod Calls
pub mod Stops
pub mod Points
pub mod Runs
pub mod Returns
pub mod OnlyCalls
use go_kd.Prelude.{ℕ, ◌==◌, if◌then◌else◌, Bool, Option, none, some, List}
use go_kd.Prelude.Int.{ℤ, pos, negsuc}
use go_kd.Text.{Text, codes}
use go_kd.Errors.{GoError, other, Result, ok, err}
use go_kd.Events.{Thread, Module}
use go_kd.Listing.{Frame}
use go_kd.Inspect.{Field}
use go_kd.Breakpoints.{Breakpoint}

-- a request's context, and one that ends after some seconds
pub data Context : Type 0 where
  request_context : Context
  with_timeout : Context → ℕ → Context

pub record Register : Type 0 where
  pub name : Text
  pub value : ℕ
  pub kind : ℕ
  pub valid : Bool

pub record EngineStop : Type 0 where
  pub reason : ℕ
  pub address : ℕ
  pub thread_system_id : ℕ
  pub exception_code : ℕ
  pub exception_first_chance : ℕ

-- `F64` is its bits.
pub record Value : Type 0 where
  pub kind : ℕ
  pub u64 : ℕ
  pub f64 : ℕ
  pub raw : List ℕ

pub record SourceLine : Type 0 where
  pub file : Text
  pub line : ℕ
  pub displacement : ℕ

pub record MemoryRegion : Type 0 where
  pub base_address : ℕ
  pub allocation_base : ℕ
  pub allocation_protect : ℕ
  pub region_size : ℕ
  pub state : ℕ
  pub protect : ℕ
  pub kind : ℕ

pub record LastException : Type 0 where
  pub code : ℕ
  pub flags : ℕ
  pub address : ℕ
  pub nested_record : ℕ
  pub parameter_count : ℕ
  pub parameters : List ℕ
  pub first_chance : Bool
  pub process_id : ℕ
  pub thread_id : ℕ
  pub description : Text

pub record EngineBugCheck : Type 0 where
  pub code : ℕ
  pub args : List ℕ

pub data Command : Type 0 where
  context_err : Context → Command
  is_closed : Command
  inner_attach_process : (pid flags : ℕ) → Command
  inner_create_process : (command_line : Text) (flags : ℕ) (initial_break : Bool) → Command
  inner_attach_kernel : Context → (connection : Text) (flags : ℕ) → Command
  inner_open_dump : (path : Text) → Command
  inner_write_dump : Context → (path : Text) (kind flags : ℕ) (comment : Text) → Command
  inner_connect_remote : (connection : Text) → Command
  inner_disconnect_remote : Command
  inner_detach : Command
  inner_go : Context → Command
  inner_step_in : Context → Command
  inner_step_over : Context → Command
  inner_step_out : Context → Command
  inner_break_in : Command
  inner_read_virtual : (address size : ℕ) → Command
  inner_write_virtual : (address : ℕ) → List ℕ → Command
  inner_read_physical : (address size : ℕ) → Command
  inner_get_registers : Command
  inner_set_register : (name : Text) (value : ℕ) → Command
  inner_get_stack : (max_frames : ℕ) → Command
  inner_get_threads : Command
  inner_set_current_thread : (system_id : ℕ) → Command
  inner_get_modules : Command
  inner_name_to_addr : (name : Text) → Command
  inner_addr_to_name : (address : ℕ) → Command
  inner_set_symbol_path : (path : Text) → Command
  inner_get_symbol_path : Command
  inner_reload_symbols : Context → (spec : Text) → Command
  inner_get_type_size : (module_name type_name : Text) → Command
  inner_get_type_fields : (module_name type_name : Text) → Command
  inner_add_breakpoint : (address : ℕ) → Command
  inner_add_breakpoint_sym : (symbol : Text) → Command
  inner_add_data_breakpoint : (address size access : ℕ) → Command
  inner_configure_breakpoint : (id pass_count match_thread_id : ℕ) → Option Text → Command
  inner_breakpoint_command : (id : ℕ) → Command
  inner_remove_breakpoint : (id : ℕ) → Command
  inner_enable_breakpoint : (id : ℕ) (enabled : Bool) → Command
  inner_list_breakpoints : Command
  inner_disassemble : (address : ℕ) → Command
  inner_evaluate : Context → (expr : Text) (desired : ℕ) → Command
  inner_radix : Command
  inner_set_radix : (radix : ℕ) → Command
  inner_expression_syntax : Command
  inner_set_expression_syntax : (name : Text) → Command
  inner_addr_to_line : (address : ℕ) → Command
  inner_line_to_addr : (file : Text) (line : ℕ) → Command
  inner_search_memory : (start size : ℕ) (pat : List ℕ) (granularity : ℕ) → Command
  inner_virtual_to_physical : (va : ℕ) → Command
  inner_query_region : (va : ℕ) → Command
  inner_execute : (command : Text) → Command
  inner_last_exception : Command
  inner_bug_check : Command

abbrev pub AnswerOf : Command → Type 0
AnswerOf (context_err ctx) = Option GoError
AnswerOf is_closed = Bool
AnswerOf (inner_go ctx) = Result EngineStop
AnswerOf (inner_step_in ctx) = Result EngineStop
AnswerOf (inner_step_over ctx) = Result EngineStop
AnswerOf (inner_step_out ctx) = Result EngineStop
AnswerOf (inner_read_virtual address size) = Result (List ℕ)
AnswerOf (inner_read_physical address size) = Result (List ℕ)
AnswerOf inner_get_registers = Result (List Register)
AnswerOf (inner_get_stack max_frames) = Result (List Frame)
AnswerOf inner_get_threads = Result (List Thread)
AnswerOf inner_get_modules = Result (List Module)
AnswerOf (inner_name_to_addr name) = Result ℕ
AnswerOf (inner_addr_to_name address) = Result (Text × ℕ)
AnswerOf inner_get_symbol_path = Result Text
AnswerOf (inner_get_type_size module_name type_name) = Result ℕ
AnswerOf (inner_get_type_fields module_name type_name) = Result (List Field)
AnswerOf (inner_add_breakpoint address) = Result ℕ
AnswerOf (inner_add_breakpoint_sym symbol) = Result ℕ
AnswerOf (inner_add_data_breakpoint address size access) = Result ℕ
AnswerOf (inner_breakpoint_command id) = Result Text
AnswerOf inner_list_breakpoints = Result (List Breakpoint)
AnswerOf (inner_disassemble address) = Result (Text × ℕ)
AnswerOf (inner_evaluate ctx expr desired) = Result (Value × ℕ)
AnswerOf inner_radix = Result ℕ
AnswerOf inner_expression_syntax = Result ℕ
AnswerOf (inner_addr_to_line address) = Result SourceLine
AnswerOf (inner_line_to_addr file line) = Result ℕ
AnswerOf (inner_search_memory start size pat granularity) = Result ℕ
AnswerOf (inner_virtual_to_physical va) = Result ℕ
AnswerOf (inner_query_region va) = Result MemoryRegion
AnswerOf (inner_execute command) = Result Text
AnswerOf inner_last_exception = Result LastException
AnswerOf inner_bug_check = Result EngineBugCheck
AnswerOf _ = Result Unit

pub data Program (A : Type 0) : Type 0 where
  done : A → Program A
  call : (c : Command) → (AnswerOf c → Program A) → Program A

unfoldable pub bind : {A B : Type 0} → Program A → (A → Program B) → Program B
bind (done a) rest = rest a
bind (call c k) rest = call c (λ r. bind (k r) rest)

infixl 5 ◌>>=◌
-- `if err != nil { return …, err }` before the rest of a function
unfoldable pub ◌>>=◌ :
    {A B : Type 0} → Program (Result A) → (A → Program (Result B)) → Program (Result B)
unfolding bind
m >>= rest = bind m (λ r. elim r [ err e ↦ done (err e) | ok a ↦ rest a ])

-- `return v, nil`
abbrev pub finish : {A : Type 0} → A → Program (Result A)
finish a = done (ok a)

abbrev pub refuse : {A : Type 0} → Text → Program (Result A)
refuse text = done (err (other text))

-- What a program returns and leaves behind, by bindings that answer every call and change a state `M`.
unfoldable pub run : {A M : Type 0} → ((c : Command) → M → AnswerOf c × M) → Program A → M → A × M
run engine (done a) m = (a, m)
run engine (call c k) m = let (r, after) = engine c m in run engine (k r) after

-- the error of a context that has ended
unfoldable pub ended : Option GoError → Program (Result Unit)
ended none = finish tt
ended (some e) = done (err e)

-- `checkContext`
unfoldable pub check_context : Context → Program (Result Unit)
check_context ctx = call (context_err ctx) ended

-- `contextWithSeconds`
unfoldable pub context_with_seconds : Context → ℤ → Result Context
context_with_seconds ctx (pos seconds) =
    if seconds == 0 then ok ctx else ok (with_timeout ctx seconds)
context_with_seconds ctx (negsuc n) = err (other (codes "timeout_seconds must be >= 0"))
