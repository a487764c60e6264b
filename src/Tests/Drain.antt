-- ===== src/Tests/Drain.antt =====
-- A server with rings of two slots, its drainer, and a client that polls.
use mathlib.Core.List.Perm
use go_kd.Prelude.{
  ℕ, ◌≤◌, ◌<◌, ◌≡◌, refl, ◌⊎◌, true, false, none, some, List, [], ◌∷◌, ◌++◌, map, drop, arith,
}
use go_kd.Prelude.Int.{pos}
use go_kd.Text.{Text, codes, is_empty, text_eq}
use go_kd.Errors.{ok, err, hresult, lookup_op, op_hints}
use go_kd.Ring.{Ring, new_ring}
use go_kd.Ring.Refine.{new_ring-Tracks, push_all, new_ring-push_all}
use go_kd.Events.{
  process_exited_event, RingEvent, RingOutput, blank_event, blank_output, SessionStatus, Srv,
  template_of, push_event, push_output, status_of, set_status,
}
use go_kd.Events.Logged.{Logs, push_event-Logs}
use go_kd.Events.Batch.{
  Drainer, Step, on_event, on_output, on_timer, on_send, no_batch, queue_output, append_output,
  take_batch, taken_at, send_batch, run, step, maybe_state_changed,
}
use go_kd.Events.Batch.Delivery.{IsDelivered, accepted, batches_of, run-IsDelivered}
use go_kd.Events.Batch.Waiting.{IsBatch, run-IsBatch, no_batch-IsBatch}
use go_kd.Events.Batch.Notices.{IsTold, run-IsTold, step-current, kinds_of, last_or}
use go_kd.Polling.{RecentOutput, get_recent_events, get_recent_output}
use go_kd.Polling.Pages.{IsPage}
use go_kd.Polling.Clients.{
  get_recent_events-IsPage, get_recent_output-IsPage, poll_all, poll_all-drop,
}
use go_kd.SessionState.{
  View, GetSessionStateOutput, get_session_state, recommend_next, probe_status,
}
use go_kd.SessionState.Report.{all_offered, op_hints-offered, get_session_state-Logs}

abbrev events : Ring RingEvent
events = new_ring blank_event (pos 2)

abbrev lines : Ring RingOutput
lines = new_ring blank_output (pos 2)

abbrev srv : Srv
srv = record {
  event_ring = some events;
  output_ring = some lines;
  status = some (record { target_kind = []; target_name = []; last_kind = [] });
}

abbrev events-Logs : Logs blank_event (λ e. e.seq) 2 [] events
events-Logs = record { tracks = new_ring-Tracks blank_event (pos 2); counts = tt }

abbrev lines-Logs : Logs blank_output (λ e. e.seq) 2 [] lines
lines-Logs = record { tracks = new_ring-Tracks blank_output (pos 2); counts = tt }

push_event-Logs_example :
    (r' : Ring RingEvent) × ((push_event srv (process_exited_event 1)).0.event_ring ≡ some r')
    × Logs blank_event (λ e. e.seq) 2 ((push_event srv (process_exited_event 1)).1 ∷ []) r'
    × ((push_event srv (process_exited_event 1)).1
        ≡ record (template_of (process_exited_event 1)) { seq = 1 })
    × ((push_event srv (process_exited_event 1)).0.output_ring ≡ some lines)
push_event-Logs_example =
    push_event-Logs srv (process_exited_event 1) refl events-Logs (omega arith)

-- rings that three items were pushed to, of which they keep two
abbrev three_events : List RingEvent
three_events =
    record (template_of (process_exited_event 1)) { seq = 1 }
    ∷ record (template_of (process_exited_event 2)) { seq = 2 }
    ∷ record (template_of (process_exited_event 3)) { seq = 3 }
    ∷ []

abbrev three_lines : List RingOutput
three_lines =
    record { seq = 1; text = codes "a" }
    ∷ record { seq = 2; text = codes "b" }
    ∷ record { seq = 3; text = codes "c" }
    ∷ []

abbrev full_events : Ring RingEvent
full_events = push_all events three_events

abbrev full_lines : Ring RingOutput
full_lines = push_all lines three_lines

full_events-Logs : Logs blank_event (λ e. e.seq) 2 three_events full_events
full_events-Logs = record {
  tracks = new_ring-push_all blank_event (pos 2) three_events (omega arith);
  counts = (refl, (refl, (refl, tt)));
}

full_lines-Logs : Logs blank_output (λ e. e.seq) 2 three_lines full_lines
full_lines-Logs = record {
  tracks = new_ring-push_all blank_output (pos 2) three_lines (omega arith);
  counts = (refl, (refl, (refl, tt)));
}

abbrev full_srv : Srv
full_srv = record srv { event_ring = some full_events; output_ring = some full_lines }

get_recent_events-IsPage_example :
    (k : ℕ) × (out : RecentOutput RingEvent) × (get_recent_events none full_srv 0 (pos 1) ≡ ok out)
    × (0 < k)
    × (k ≤ 32)
    × IsPage blank_event (λ e. e.seq) 2 k 0 three_events out
get_recent_events-IsPage_example =
    get_recent_events-IsPage full_srv 0 (pos 1) refl full_events-Logs (omega arith)

get_recent_output-IsPage_example :
    (k : ℕ) × (out : RecentOutput RingOutput) × (get_recent_output none full_srv 2 (pos 5) ≡ ok out)
    × (0 < k)
    × (k ≤ 256)
    × IsPage blank_output (λ e. e.seq) 2 k 2 three_lines out
get_recent_output-IsPage_example =
    get_recent_output-IsPage full_srv 2 (pos 5) refl full_lines-Logs (omega arith)

poll_all-drop_example : poll_all blank_output (λ e. e.seq) 3 1 full_lines 0 ≡ drop 1 three_lines
poll_all-drop_example =
    poll_all-drop blank_output (λ e. e.seq) 2 1 0 full_lines-Logs (omega arith) (omega arith)
      (omega arith) (omega arith)

abbrev drainer : Drainer
drainer = record { srv = srv; out_batch = no_batch; prev_last = []; in_flight = []; sent = [] }

abbrev steps : List Step
steps =
    on_output (codes "ok")
    ∷ on_timer
    ∷ on_event (process_exited_event 1)
    ∷ on_output (codes "bye")
    ∷ on_timer
    ∷ on_send 1
    ∷ on_send 0
    ∷ []

run-IsDelivered_example : IsDelivered (accepted drainer steps) (run drainer steps)
run-IsDelivered_example =
    run-IsDelivered [] drainer steps
      (record { taken = []; all_taken = Perm.refl []; in_order = refl })

abbrev texts : List (List RingOutput) → List Text
texts [] = []
texts (es ∷ ls) = map (λ e. e.text) es ++ texts ls

-- Two flushes that overlap: the second batch is sent first.
swapped : texts (batches_of (run drainer steps).sent) ≡ codes "bye" ∷ codes "ok" ∷ []
unfolding run step push_output push_event queue_output append_output take_batch taken_at send_batch
    maybe_state_changed status_of set_status is_empty text_eq
swapped = refl

run-IsBatch_example : IsBatch (run drainer steps).out_batch
run-IsBatch_example = run-IsBatch drainer steps no_batch-IsBatch

run-IsTold_example : IsTold (run drainer steps)
run-IsTold_example = run-IsTold drainer steps (record { change = tt; known = refl })

abbrev exited : SessionStatus
exited = record { target_kind = []; target_name = []; last_kind = codes "exited" }

step-current_example :
    last_or [] (kinds_of (step drainer (on_event (process_exited_event 1))).sent) ≡ codes "exited"
unfolding step push_event status_of set_status is_empty maybe_state_changed text_eq
step-current_example =
    step-current drainer (process_exited_event 1) exited (record { change = tt; known = refl }) refl
      refl

op_hints-offered_example : all_offered false true (lookup_op "open_dump" op_hints) ≡ true
op_hints-offered_example = op_hints-offered false true "open_dump"

abbrev view : View
view = record {
  threads = err (hresult 0x80004005);
  modules = ok 0;
  breakpoints = ok 0;
  radix = ok 16;
  syntax = ok 0;
  symbol_path = ok [];
}

get_session_state-Logs_example :
    (out : GetSessionStateOutput) × (get_session_state none srv view ≡ ok out)
    × (out.pending_events ≡ 0)
    × (out.pending_output ≡ 0)
    × (out.last_event ≡ none)
    × (out.recommended_next_tools ≡ recommend_next out.status none)
    × ((out.status ≡ "exited") ⊎ (out.status ≡ (probe_status (err (hresult 0x80004005))).status))
get_session_state-Logs_example =
    get_session_state-Logs srv view refl refl events-Logs.tracks lines-Logs.tracks
