-- ===== src/SessionState/Report.antt =====
-- The report against the rings' logs, and the tools that it recommends against those on offer.
use go_kd.Prelude.{
  ℕ, ◌≡◌, refl, ◌⊎◌, inl, inr, String, Bool, true, false, ◌&&◌, ◌||◌, Option, none, some, List, [],
  ◌∷◌, arith, min, length, get_last?, str_eq, Bool-cases,
}
use go_kd.Text.{codes, text_eq}
use go_kd.Errors.{ok, lookup_op, op_hints}
use go_kd.Ring.{Ring}
use go_kd.Ring.Refine.{Tracks}
use go_kd.Ring.Reads.{len_lem, last_lem}
use go_kd.Events.{RingEvent, RingOutput, SessionStatus, blank_event, blank_output, Srv}
use go_kd.SessionState.{
  View, probe_status, GetSessionStateOutput, recommend_next, broken_in_next, over_probe,
  get_session_state,
}
use go_kd.Readonly.{is_listed}
use go_kd.Registry.{register_tools, offers, tools_before_raw, tools_after_raw}
use go_kd.Registry.Offers.{offers-register_tools}

unfoldable pub all_offered : Bool → Bool → List String → Bool
all_offered unsafe_raw lablink [] = true
all_offered unsafe_raw lablink (t ∷ ts) =
    offers t (register_tools false unsafe_raw lablink) && all_offered unsafe_raw lablink ts

abbrev all_typed : List String → Bool
all_typed [] = true
all_typed (t ∷ ts) =
    (is_listed t tools_before_raw || is_listed t tools_after_raw || str_eq "execute_raw" t)
    && all_typed ts

all_typed-offered :
    (unsafe_raw lablink : Bool) (ts : List String)
    → all_typed ts ≡ true
    → all_offered unsafe_raw lablink ts ≡ true
unfolding all_offered
all_typed-offered unsafe_raw lablink [] h = refl
all_typed-offered unsafe_raw lablink (t ∷ ts) h = ground (
  arith,
  offers-register_tools false unsafe_raw lablink t,
  all_typed-offered unsafe_raw lablink ts,
)

recommend_next-typed :
    (status : String) (last_event : Option RingEvent)
    → all_typed (recommend_next status last_event) ≡ true
unfolding recommend_next broken_in_next is_listed tools_before_raw tools_after_raw
recommend_next-typed status none = ground arith
recommend_next-typed status (some e) = ground arith

-- A server that is not readonly offers every tool that `get_session_state` recommends, under every
-- status and whatever the last event was.
pub recommend_next-offered :
    (unsafe_raw lablink : Bool) (status : String) (last_event : Option RingEvent)
    → all_offered unsafe_raw lablink (recommend_next status last_event) ≡ true
recommend_next-offered unsafe_raw lablink status last_event =
    all_typed-offered unsafe_raw lablink (recommend_next status last_event)
      (recommend_next-typed status last_event)

all_hints_typed : List (String × List String) → Bool
all_hints_typed [] = true
all_hints_typed ((op, ts) ∷ m) = all_typed ts && all_hints_typed m

lookup_op-typed :
    (op : String) (m : List (String × List String))
    → all_hints_typed m ≡ true
    → all_typed (lookup_op op m) ≡ true
unfolding lookup_op all_hints_typed
lookup_op-typed op [] h = refl
lookup_op-typed op ((k, ts) ∷ m) h = ground (arith, lookup_op-typed op m)

op_hints-typed : all_hints_typed op_hints ≡ true
unfolding op_hints all_hints_typed is_listed tools_before_raw tools_after_raw
op_hints-typed = refl

-- A server that is not readonly offers every tool that an error envelope names as a follow-up,
-- whatever tool failed.
pub op_hints-offered :
    (unsafe_raw lablink : Bool) (op : String)
    → all_offered unsafe_raw lablink (lookup_op op op_hints) ≡ true
op_hints-offered unsafe_raw lablink op =
    all_typed-offered unsafe_raw lablink (lookup_op op op_hints)
      (lookup_op-typed op op_hints op_hints-typed)

over_probe-cases :
    (st : Option SessionStatus) (status : String)
    → (over_probe st status ≡ "exited") ⊎ (over_probe st status ≡ status)
over_probe-cases none status = inr refl
over_probe-cases (some st) status = elim (Bool-cases (text_eq st.last_kind (codes "exited"))) [
  | inl e ↦ inl (rw e)
  | inr e ↦ inr (rw e)
]

-- On a server whose rings track logs, the report counts what the rings hold, shows the last event of
-- the log, and recommends tools by its own status and that event. A status other than `exited` is the
-- one that the probe of the engine found.
pub get_session_state-Logs :
    (s : Srv) (view : View) {cap cap' : ℕ} {h : List RingEvent} {h' : List RingOutput}
    {r : Ring RingEvent} {r' : Ring RingOutput}
    → s.event_ring ≡ some r
    → s.output_ring ≡ some r'
    → Tracks blank_event cap h r
    → Tracks blank_output cap' h' r'
    → (out : GetSessionStateOutput) × (get_session_state none s view ≡ ok out)
      × (out.pending_events ≡ min (length h) cap)
      × (out.pending_output ≡ min (length h') cap')
      × (out.last_event ≡ get_last? h)
      × (out.recommended_next_tools ≡ recommend_next out.status (get_last? h))
      × ((out.status ≡ "exited") ⊎ (out.status ≡ (probe_status view.threads).status))
unfolding get_session_state
get_session_state-Logs s view {h = h} at at' t t' =
    let newest = last_lem blank_event t in
    rw (at, at', newest)
      (
        _,
        refl,
        len_lem blank_event t,
        len_lem blank_output t',
        refl,
        refl,
        over_probe-cases s.status (probe_status view.threads).status,
      )
