-- ===== src/SessionState.antt =====
-- cmd/gokd-mcp/session_state.go: `get_session_state`. The engine's answers are the argument `view`: a
-- count in place of each slice, or the error. Times are left out.
pub mod Report
use go_kd.Prelude.{
  ℕ, String, Bool, true, false, ◌&&◌, ◌||◌, Option, none, some, List, [], ◌∷◌, ◌++◌, ◌==◌, str_eq,
  if◌then◌else◌,
}
use go_kd.Text.{Text, codes, text_eq, format_d}
use go_kd.Errors.{GoError, session_closed, hresult, other, Result, ok, err}
use go_kd.Ring.{len, last}
use go_kd.Events.{RingEvent, RingOutput, blank_event, blank_output, SessionStatus, Srv}

abbrev pub hr_target_running : ℕ
hr_target_running = 0x80004005

abbrev pub hr_no_target : ℕ
hr_no_target = 0x80070006

abbrev pub hr_no_current_proc : ℕ
hr_no_current_proc = 0x8000FFFF

-- what the session answers to the calls of the handler
pub record View : Type 0 where
  pub threads : Result ℕ
  pub modules : Result ℕ
  pub breakpoints : Result ℕ
  pub radix : Result ℕ
  pub syntax : Result ℕ
  pub symbol_path : Result Text

pub record Probe : Type 0 where
  pub status : String
  pub threads : ℕ
  pub attached : Bool

unfoldable pub probe_status : Result ℕ → Probe
probe_status (ok n) = record { status = "broken_in"; threads = n; attached = true }
probe_status (err session_closed) = record { status = "no_target"; threads = 0; attached = false }
probe_status (err (hresult code)) =
    if code == hr_no_target || code == hr_no_current_proc
    then record { status = "no_target"; threads = 0; attached = false }
    else if code == hr_target_running
    then record { status = "running"; threads = 0; attached = true }
    else record { status = "unknown"; threads = 0; attached = false }
probe_status (err (other text)) = record { status = "unknown"; threads = 0; attached = false }

unfoldable pub expression_syntax_string : ℕ → Text
expression_syntax_string syn =
    if syn == 0
    then codes "masm"
    else if syn == 1
    then codes "cpp"
    else codes "unknown(" ++ format_d syn ++ codes ")"

pub record GetSessionStateOutput : Type 0 where
  pub attached : Bool
  pub target_kind : Text
  pub target_name : Text
  pub status : String
  pub radix : ℕ
  pub expression_syntax : Text
  pub symbol_path : Text
  pub threads : ℕ
  pub modules : ℕ
  pub breakpoints : ℕ
  pub last_event : Option RingEvent
  pub pending_events : ℕ
  pub pending_output : ℕ
  pub recommended_next_tools : List String
  pub caveats : List String

abbrev pub usual_next : List String
usual_next = "get_stack" ∷ "get_registers" ∷ "get_modules" ∷ "disassemble" ∷ []

-- the case `broken_in` of `recommendNext`
unfoldable pub broken_in_next : Option RingEvent → List String
broken_in_next none = usual_next
broken_in_next (some e) =
    if text_eq e.kind (codes "exception")
    then "last_exception" ∷ "get_stack" ∷ "get_registers" ∷ "triage_crash" ∷ []
    else usual_next

unfoldable pub recommend_next : String → Option RingEvent → List String
recommend_next status last_event =
    if str_eq status "no_target"
    then "attach_process" ∷ "create_process" ∷ "open_dump" ∷ "attach_kernel" ∷ []
    else if str_eq status "running"
    then "break_in" ∷ "get_recent_events" ∷ "get_recent_output" ∷ []
    else if str_eq status "exited"
    then "detach" ∷ "open_dump" ∷ []
    else if str_eq status "broken_in"
    then broken_in_next last_event
    else []

unfoldable pub session_state_caveats : Bool → String → List String
session_state_caveats attached status =
    if attached && str_eq status "unknown"
    then "status probe returned an unexpected HRESULT; consider break_in" ∷ []
    else []

-- the value of a call that is only kept if it succeeds and the target is attached
abbrev pub kept {ℓ} : {A : Type ℓ} → Bool → A → Result A → A
kept attached d (ok a) = if attached then a else d
kept attached d (err e) = d

-- the status, with a seen exit of the target over the probe
abbrev pub over_probe : Option SessionStatus → String → String
over_probe none status = status
over_probe (some st) status = if text_eq st.last_kind (codes "exited") then "exited" else status

unfoldable pub get_session_state : Option GoError → Srv → View → Result GetSessionStateOutput
get_session_state (some e) s view = err e
get_session_state none s view =
    let probe = probe_status view.threads in
    let status = over_probe s.status probe.status in
    let last_event : Option RingEvent = elim s.event_ring [
      | none ↦ none
      | some r ↦ last blank_event r
    ] in
    ok (record {
      attached = probe.attached;
      target_kind = elim s.status [ none ↦ [] | some st ↦ st.target_kind ];
      target_name = elim s.status [ none ↦ [] | some st ↦ st.target_name ];
      status = status;
      radix = kept probe.attached 0 view.radix;
      expression_syntax =
          kept probe.attached []
            (elim view.syntax [ ok n ↦ ok (expression_syntax_string n) | err e ↦ err e ]);
      symbol_path = kept probe.attached [] view.symbol_path;
      threads = probe.threads;
      modules = kept probe.attached 0 view.modules;
      breakpoints = kept probe.attached 0 view.breakpoints;
      last_event = last_event;
      pending_events = elim s.event_ring [ none ↦ 0 | some r ↦ len r ];
      pending_output = elim s.output_ring [ none ↦ 0 | some r ↦ len r ];
      recommended_next_tools = recommend_next status last_event;
      caveats = session_state_caveats probe.attached status;
    })
