-- ===== src/Session/OnlyCalls.antt =====
-- Programs all of whose calls pass a test, whatever the bindings answer, and what running one leaves.
use go_kd.Prelude.{◌≡◌, refl, ◌∙◌, Bool, true, false, Option, none, some}
use go_kd.Errors.{GoError, Result, ok, err}
use go_kd.Session.{
  Context, Command, AnswerOf, Program, bind, ended, ◌>>=◌, run, check_context, context_err,
  inner_attach_process, inner_create_process, inner_attach_kernel, inner_open_dump,
  inner_write_dump, inner_connect_remote, inner_disconnect_remote, inner_detach, inner_go,
  inner_step_in, inner_step_over, inner_step_out, inner_break_in, inner_write_virtual,
  inner_set_register, inner_set_current_thread, inner_set_symbol_path, inner_reload_symbols,
  inner_add_breakpoint, inner_add_breakpoint_sym, inner_add_data_breakpoint,
  inner_configure_breakpoint, inner_remove_breakpoint, inner_enable_breakpoint, inner_evaluate,
  inner_execute, inner_set_radix, inner_set_expression_syntax, done, call,
}
use go_kd.Session.Calls.{direct}

-- The calls that read. `Evaluate` is not one of them, since an expression may assign.
unfoldable pub is_query : Command → Bool
is_query (inner_attach_process pid flags) = false
is_query (inner_create_process command_line flags initial_break) = false
is_query (inner_attach_kernel ctx connection flags) = false
is_query (inner_open_dump path) = false
is_query (inner_write_dump ctx path kind flags comment) = false
is_query (inner_connect_remote connection) = false
is_query inner_disconnect_remote = false
is_query inner_detach = false
is_query (inner_go ctx) = false
is_query (inner_step_in ctx) = false
is_query (inner_step_over ctx) = false
is_query (inner_step_out ctx) = false
is_query inner_break_in = false
is_query (inner_write_virtual address bytes) = false
is_query (inner_set_register name value) = false
is_query (inner_set_current_thread system_id) = false
is_query (inner_set_symbol_path path) = false
is_query (inner_reload_symbols ctx spec) = false
is_query (inner_add_breakpoint address) = false
is_query (inner_add_breakpoint_sym symbol) = false
is_query (inner_add_data_breakpoint address size access) = false
is_query (inner_configure_breakpoint id pass_count match_thread_id command) = false
is_query (inner_remove_breakpoint id) = false
is_query (inner_enable_breakpoint id enabled) = false
is_query (inner_evaluate ctx expr desired) = false
is_query (inner_set_radix radix) = false
is_query (inner_set_expression_syntax name) = false
is_query (inner_execute command) = false
is_query _ = true

-- Every call on every path passes the test.
unfoldable pub OnlyCalls : {A : Type 0} → (Command → Bool) → Program A → Type 0
OnlyCalls p (done a) = Unit
OnlyCalls p (call c k) = (p c ≡ true) × ((r : AnswerOf c) → OnlyCalls p (k r))

pub OnlyCalls-bind :
    {A B : Type 0} (p : Command → Bool) (m : Program A) (k : A → Program B)
    → OnlyCalls p m
    → ((a : A) → OnlyCalls p (k a))
    → OnlyCalls p (bind m k)
unfolding OnlyCalls bind
OnlyCalls-bind p (done a) k h g = g a
OnlyCalls-bind p (call c f) k h g = (h.0, λ r. OnlyCalls-bind p (f r) k (h.1 r) g)

OnlyCalls-after :
    {A B : Type 0} (p : Command → Bool) (k : A → Program (Result B))
    → ((a : A) → OnlyCalls p (k a))
    → (r : Result A)
    → OnlyCalls p (elim r as (λ _. Program (Result B)) [ err e ↦ done (err e) | ok a ↦ k a ])
unfolding OnlyCalls
OnlyCalls-after p k g (ok a) = g a
OnlyCalls-after p k g (err e) = tt

pub OnlyCalls-then :
    {A B : Type 0} (p : Command → Bool) (m : Program (Result A)) (k : A → Program (Result B))
    → OnlyCalls p m
    → ((a : A) → OnlyCalls p (k a))
    → OnlyCalls p (m >>= k)
unfolding ◌>>=◌
OnlyCalls-then p m k h g = OnlyCalls-bind p m _ h (OnlyCalls-after p k g)

pub OnlyCalls-direct : (p : Command → Bool) (c : Command) → p c ≡ true → OnlyCalls p (direct c)
unfolding OnlyCalls
OnlyCalls-direct p c h = (h, λ r. tt)

pub OnlyCalls-done : {A : Type 0} (p : Command → Bool) (a : A) → OnlyCalls p (done a)
unfolding OnlyCalls
OnlyCalls-done p a = tt

OnlyCalls-ended : (p : Command → Bool) (r : Option GoError) → OnlyCalls p (ended r)
unfolding OnlyCalls ended
OnlyCalls-ended p none = tt
OnlyCalls-ended p (some e) = tt

pub OnlyCalls-check_context :
    (p : Command → Bool) (ctx : Context)
    → p (context_err ctx) ≡ true
    → OnlyCalls p (check_context ctx)
unfolding OnlyCalls check_context
OnlyCalls-check_context p ctx h = (h, OnlyCalls-ended p)

-- A state that the calls which pass the test keep is kept by the program.
pub run-OnlyCalls :
    {A M : Type 0} (p : Command → Bool) (engine : (c : Command) → M → AnswerOf c × M)
    → ((c : Command) (m : M) → p c ≡ true → (engine c m).1 ≡ m)
    → (prog : Program A) → OnlyCalls p prog
    → (m : M) → (run engine prog m).1 ≡ m
unfolding OnlyCalls run
run-OnlyCalls p engine keeps (done a) h m = refl
run-OnlyCalls p engine keeps (call c k) h m =
    run-OnlyCalls p engine keeps (k (engine c m).0) (h.1 (engine c m).0) (engine c m).1
    ∙ keeps c m h.0
