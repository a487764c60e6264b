-- ===== src/Session/Calls.antt =====
-- gokd.go: the methods of `session` but those of Session/Stops and Session/Points. Most pass their
-- arguments on; the slices that they copy field by field are passed on as they are.
use go_kd.Prelude.{
  ℕ, ◌+◌, ◌-◌, ◌%◌, ◌^◌, zero, suc, Bool, Option, none, some, List, [], ◌∷◌, ◌++◌, ◌==◌, not,
  if◌then◌else◌,
}
use go_kd.Text.{Text, codes, is_empty, text_eq, trim_space}
use go_kd.Errors.{session_closed, Result, ok, err}
use go_kd.Events.{Thread, Module}
use go_kd.Listing.{Frame}
use go_kd.Inspect.{Field}
use go_kd.BugChecks.{lookup_bug_check_name}
use go_kd.Session.{
  Context, Register, Value, SourceLine, MemoryRegion, LastException, Command, AnswerOf, Program,
  bind, ◌>>=◌, finish, refuse, context_err, is_closed, inner_attach_process, inner_create_process,
  inner_attach_kernel, inner_open_dump, inner_write_dump, inner_connect_remote,
  inner_disconnect_remote, inner_detach, inner_read_virtual, inner_write_virtual,
  inner_read_physical, inner_get_registers, inner_set_register, inner_get_stack, inner_get_threads,
  inner_set_current_thread, inner_get_modules, inner_name_to_addr, inner_addr_to_name,
  inner_set_symbol_path, inner_get_symbol_path, inner_reload_symbols, inner_get_type_size,
  inner_get_type_fields, inner_disassemble, inner_evaluate, inner_radix, inner_set_radix,
  inner_expression_syntax, inner_set_expression_syntax, inner_addr_to_line, inner_line_to_addr,
  inner_search_memory, inner_virtual_to_physical, inner_query_region, inner_last_exception,
  inner_bug_check, done, call,
}

-- a binding's call on its own
abbrev pub direct : (c : Command) → Program (AnswerOf c)
direct c = call c done

unfoldable pub attach_process : ℕ → ℕ → Program (Result Unit)
attach_process pid flags = direct (inner_attach_process pid flags)

unfoldable pub create_process : Text → ℕ → Bool → Program (Result Unit)
create_process command_line flags initial_break =
    direct (inner_create_process command_line flags initial_break)

-- `KernelOptions.flags`
unfoldable pub kernel_flags : Bool → ℕ
kernel_flags initial_break_in = if initial_break_in then 1 else 0

-- The wrapper of every call that may be cancelled: an error that comes when the context has ended
-- is the context's.
unfoldable pub run_with_cancel : {A : Type 0} → Context → Program (Result A) → Program (Result A)
run_with_cancel ctx fn = bind fn (λ r. elim r [
  | ok a ↦ finish a
  | err e ↦
      call (context_err ctx) (λ c. elim c [ none ↦ done (err e) | some ended ↦ done (err ended) ])
])

unfoldable pub attach_kernel : Context → Text → Bool → Program (Result Unit)
attach_kernel ctx connection initial_break_in =
    run_with_cancel ctx
      (direct (inner_attach_kernel ctx connection (kernel_flags initial_break_in)))

unfoldable pub open_dump : Text → Program (Result Unit)
open_dump path = direct (inner_open_dump path)

abbrev pub dump_small : ℕ
dump_small = 1024

abbrev pub dump_default : ℕ
dump_default = 1025

abbrev pub dump_full : ℕ
dump_full = 1026

-- `is_abs` is `filepath.IsAbs`.
unfoldable pub write_dump : (Text → Bool) → Context → Text → ℕ → ℕ → Text → Program (Result Unit)
write_dump is_abs ctx path given flags comment =
    if is_empty (trim_space path)
    then refuse (codes "gokd: path is required")
    else if not (is_abs path)
    then refuse (codes "gokd: WriteDump requires an absolute path")
    else let kind = if given == 0 then dump_default else given in
      run_with_cancel ctx (direct (inner_write_dump ctx path kind flags comment))

unfoldable pub connect_remote : Text → Program (Result Unit)
connect_remote connection = direct (inner_connect_remote connection)

unfoldable pub disconnect_remote : Program (Result Unit)
disconnect_remote = direct inner_disconnect_remote

unfoldable pub detach : Program (Result Unit)
detach = direct inner_detach

unfoldable pub read_virtual : ℕ → ℕ → Program (Result (List ℕ))
read_virtual address size = direct (inner_read_virtual address size)

unfoldable pub write_virtual : ℕ → List ℕ → Program (Result Unit)
write_virtual address bytes = direct (inner_write_virtual address bytes)

unfoldable pub read_physical : ℕ → ℕ → Program (Result (List ℕ))
read_physical address size = direct (inner_read_physical address size)

unfoldable pub registers : Program (Result (List Register))
registers = direct inner_get_registers

-- `RegisterSet.ByName`, which a later register of the same name overwrites
unfoldable pub by_name : List Register → Text → Option Register
by_name [] name = none
by_name (r ∷ rs) name = elim (by_name rs name) [
  | some later ↦ some later
  | none ↦ if text_eq r.name name then some r else none
]

unfoldable pub set_register : Text → ℕ → Program (Result Unit)
set_register name value = direct (inner_set_register name value)

unfoldable pub stack : Program (Result (List Frame))
stack = direct (inner_get_stack 256)

unfoldable pub threads : Program (Result (List Thread))
threads = direct inner_get_threads

unfoldable pub set_thread : ℕ → Program (Result Unit)
set_thread system_id = direct (inner_set_current_thread system_id)

unfoldable pub modules : Program (Result (List Module))
modules =
    call is_closed
      (λ closed. if closed then done (err session_closed) else direct inner_get_modules)

unfoldable pub name_to_addr : Text → Program (Result ℕ)
name_to_addr name = direct (inner_name_to_addr name)

unfoldable pub addr_to_name : ℕ → Program (Result (Text × ℕ))
addr_to_name address = direct (inner_addr_to_name address)

unfoldable pub set_symbol_path : Text → Program (Result Unit)
set_symbol_path path = direct (inner_set_symbol_path path)

unfoldable pub symbol_path : Program (Result Text)
symbol_path = direct inner_get_symbol_path

unfoldable pub reload_symbols : Context → Text → Program (Result Unit)
reload_symbols ctx spec = run_with_cancel ctx (direct (inner_reload_symbols ctx spec))

-- `default_cache` is the path under `os.UserCacheDir` or `os.TempDir`.
unfoldable pub sym_fix : Text → Text → Program (Result Unit)
sym_fix default_cache given =
    let cache = if is_empty given then default_cache else given in
    set_symbol_path (codes "srv*" ++ cache ++ codes "*https://msdl.microsoft.com/download/symbols")

unfoldable pub type_size : Text → Text → Program (Result ℕ)
type_size module_name type_name = direct (inner_get_type_size module_name type_name)

unfoldable pub type_fields : Text → Text → Program (Result (List Field))
type_fields module_name type_name = direct (inner_get_type_fields module_name type_name)

pub record Instruction : Type 0 where
  pub address : ℕ
  pub text : Text
  pub size : ℕ
  pub bytes : List ℕ

-- `uint32(next - cur)` on `uint64`
abbrev pub distance : ℕ → ℕ → ℕ
distance cur next = (next + 2 ^ 64 - cur) % 2 ^ 64 % 2 ^ 32

-- one round of the loop, which the first error ends
unfoldable pub disassembled :
    ℕ
    → (ℕ → Program (Result (List Instruction)))
    → Result (Text × ℕ)
    → Program (Result (List Instruction))
disassembled cur later (err e) = finish []
disassembled cur later (ok (text, next)) = later next >>= λ rest.
    finish (record { address = cur; text = text; size = distance cur next; bytes = [] } ∷ rest)

unfoldable pub disassemble_range : ℕ → ℕ → Program (Result (List Instruction))
disassemble_range cur zero = finish []
disassemble_range cur (suc count) =
    call (inner_disassemble cur) (disassembled cur (λ next. disassemble_range next count))

unfoldable pub evaluate : Context → Text → ℕ → Program (Result (Value × ℕ))
evaluate ctx expr desired = run_with_cancel ctx (direct (inner_evaluate ctx expr desired))

unfoldable pub radix : Program (Result ℕ)
radix = direct inner_radix

unfoldable pub set_radix : ℕ → Program (Result Unit)
set_radix r = direct (inner_set_radix r)

unfoldable pub expression_syntax : Program (Result ℕ)
expression_syntax = direct inner_expression_syntax

unfoldable pub set_expression_syntax : ℕ → Program (Result Unit)
set_expression_syntax syn =
    if syn == 0
    then direct (inner_set_expression_syntax (codes "MASM"))
    else if syn == 1
    then direct (inner_set_expression_syntax (codes "C++"))
    else refuse (codes "gokd: unknown ExpressionSyntax")

unfoldable pub addr_to_line : ℕ → Program (Result SourceLine)
addr_to_line address = direct (inner_addr_to_line address)

unfoldable pub line_to_addr : Text → ℕ → Program (Result ℕ)
line_to_addr file line =
    if is_empty file
    then refuse (codes "gokd: file is required")
    else direct (inner_line_to_addr file line)

unfoldable pub search_memory : ℕ → ℕ → List ℕ → ℕ → Program (Result ℕ)
search_memory start size pat granularity = direct (inner_search_memory start size pat granularity)

unfoldable pub virtual_to_physical : ℕ → Program (Result ℕ)
virtual_to_physical va = direct (inner_virtual_to_physical va)

unfoldable pub query_region : ℕ → Program (Result MemoryRegion)
query_region va = direct (inner_query_region va)

unfoldable pub last_exception : Program (Result LastException)
last_exception = direct inner_last_exception

pub record BugCheck : Type 0 where
  pub code : ℕ
  pub args : List ℕ
  pub name : Text
  pub description : Text

unfoldable pub bug_check : Program (Result BugCheck)
bug_check = direct inner_bug_check >>= λ bc.
    let (name, desc) = lookup_bug_check_name bc.code in
    finish (record { code = bc.code; args = bc.args; name = name; description = desc })
