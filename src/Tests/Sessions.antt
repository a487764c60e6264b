-- ===== src/Tests/Sessions.antt =====
-- Requests, stack walks, triage and a type walk against the bindings of Engine.
use go_kd.Prelude.{ℕ, ◌≡◌, refl, true, false, none, some, [], ◌∷◌, arith}
use go_kd.Prelude.Int.{pos}
use go_kd.Text.{codes}
use go_kd.Errors.{ok, err, err_timeout}
use go_kd.Events.{Srv}
use go_kd.Readonly.{mutating_tools, is_listed, add_tool_maybe, annotations_for}
use go_kd.Registry.{
  add_all, add_execute_raw, register_tools, offers, tools_before_raw, tools_after_raw,
}
use go_kd.Session.{Command, AnswerOf, run, request_context, context_err}
use go_kd.Session.OnlyCalls.{is_query}
use go_kd.Handlers.Requests.{Request, tool_of, Host, handle, on_set_thread, on_disassemble}
use go_kd.Handlers.Queries.{readonly_request-kept}
use go_kd.Handlers.Ended.{hands_on, handle-ended}
use go_kd.Workflows.{walk_listed}
use go_kd.Workflows.Stacks.{walk_listed-own_stacks, walk_listed-current, own_entry}
use go_kd.Workflows.Faults.{triage_crash}
use go_kd.Workflows.Summary.{summarise_target}
use go_kd.Workflows.Triage.{Triaged, triage_crash-Triaged}
use go_kd.Workflows.Reading.{orientation-kept}
use go_kd.TypeWalk.Walk.{dump_type, depth_of}
use go_kd.TypeWalk.Depth.{Within}
use go_kd.TypeWalk.Height.{dump_type-IsBounded}
use go_kd.Tests.Engine.{thread_at, two_threads, stack_at, bindings, bindings-kept}

abbrev host : Host
host = record { matches = λ glob name. none; is_abs = λ path. false; default_cache = codes "cache" }

-- `disassemble` of two instructions, which is offered
abbrev two_instructions : Request
two_instructions = on_disassemble (codes "0x10") (pos 2)

two_instructions-offered : offers "disassemble" (register_tools true false false) ≡ true
unfolding register_tools offers add_all add_tool_maybe add_execute_raw annotations_for is_listed
    mutating_tools tools_before_raw tools_after_raw
two_instructions-offered = refl

readonly_request-kept_example :
    (run bindings (handle host request_context two_instructions) 7).1 ≡ 7
unfolding tool_of
readonly_request-kept_example =
    readonly_request-kept host request_context two_instructions false bindings
      two_instructions-offered refl bindings-kept 7

-- bindings under a context that has ended
abbrev ended_bindings : (c : Command) → ℕ → AnswerOf c × ℕ
ended_bindings (context_err ctx) m = (some err_timeout, m)
ended_bindings c m = bindings c m

handle-ended_example :
    run ended_bindings (handle host request_context (on_set_thread 9)) 7 ≡ (err err_timeout, 7)
unfolding hands_on
handle-ended_example =
    handle-ended host request_context (on_set_thread 9) err_timeout ended_bindings 7 refl refl

walk_listed-own_stacks_example :
    (run bindings (walk_listed 32 1 false two_threads) 9).0
    ≡ ok (record {
      items = own_entry stack_at (λ id. ok []) 32 false (thread_at 7) ∷ [];
      returned = 1;
      total_threads = 2;
      truncated = true;
    })
unfolding is_query
walk_listed-own_stacks_example =
    walk_listed-own_stacks bindings (λ m. m) (λ id m. id) stack_at (λ id. ok []) (λ id m. refl)
      (λ id m. refl) (λ n m. refl) (λ m. refl) 32 1 false two_threads 9

walk_listed-current_example : (run bindings (walk_listed 32 64 false two_threads) 9).1 ≡ 7
unfolding is_query
walk_listed-current_example =
    walk_listed-current bindings (λ m. m) (λ id m. id) stack_at (λ id. ok []) (λ id m. refl)
      (λ id m. refl) (λ n m. refl) (λ m. refl) 32 64 false (thread_at 7) (thread_at 9 ∷ []) 9
      (omega arith) (λ e. omega arith)

triage_crash-Triaged_example :
    Triaged bindings none 7 (run bindings (triage_crash request_context (pos 4)) 7).0
unfolding is_query
triage_crash-Triaged_example = triage_crash-Triaged bindings request_context (pos 4) 7

abbrev idle : Srv
idle = record { event_ring = none; output_ring = none; status = none }

orientation-kept_example :
    ((run bindings (triage_crash request_context (pos 4)) 7).1 ≡ 7)
    × ((run bindings (summarise_target request_context idle) 7).1 ≡ 7)
orientation-kept_example = orientation-kept request_context (pos 4) idle bindings bindings-kept 7

-- The walk follows a pointer to its own type three levels down.
dump_type-IsBounded_example :
    Within 4
      (run bindings
        (dump_type (λ units. []) request_context (codes "nt") (codes "_NODE") 4096 (pos 2) true)
        7).0
unfolding depth_of
dump_type-IsBounded_example =
    dump_type-IsBounded (λ units. []) request_context (codes "nt") (codes "_NODE") 4096 (pos 2) true
      bindings 7
