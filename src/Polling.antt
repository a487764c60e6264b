-- ===== src/Polling.antt =====
-- cmd/gokd-mcp/session_state.go: `get_recent_events` and `get_recent_output`, by which a client polls
-- the rings. An absent list of items is the empty list.
pub mod Pages
pub mod Clients
use go_kd.Prelude.{
  ℕ, Bool, true, false, ◌||◌, Option, none, some, List, [], ltb, length, take, get_last?,
  if◌then◌else◌,
}
use go_kd.Prelude.Int.{ℤ, nonpositive, above, to_ℕ}
use go_kd.Errors.{GoError, Result, ok, err}
use go_kd.Ring.{Ring, since}
use go_kd.Events.{RingEvent, RingOutput, blank_event, blank_output, Srv}

abbrev pub default_recent_events_limit : ℕ
default_recent_events_limit = 32

abbrev pub max_recent_events_limit : ℕ
max_recent_events_limit = 32

abbrev pub default_recent_output_limit : ℕ
default_recent_output_limit = 64

abbrev pub max_recent_output_limit : ℕ
max_recent_output_limit = 256

pub record RecentOutput (T : Type 0) : Type 0 where
  pub items : List T
  pub next_token : ℕ
  pub dropped : ℕ
  pub truncated : Bool

-- the sequence number of the last item, or the token that came in
abbrev pub next_after : {T : Type 0} → (T → ℕ) → ℕ → List T → ℕ
next_after seq token items = elim (get_last? items) [ none ↦ token | some e ↦ seq e ]

-- What both handlers do once the limit is known.
unfoldable pub recent : {T : Type 0} → T → (T → ℕ) → ℕ → Ring T → ℕ → RecentOutput T
recent blank seq limit ring token =
    let (items, dropped) = since blank ring token in
    let kept = if ltb limit (length items) then take limit items else items in
    record {
      items = kept;
      next_token = next_after seq token kept;
      dropped = dropped;
      truncated = ltb limit (length items);
    }

unfoldable pub events_limit : ℤ → ℕ
events_limit limit =
    if nonpositive limit || above limit max_recent_events_limit
    then default_recent_events_limit
    else to_ℕ limit

unfoldable pub output_limit : ℤ → ℕ
output_limit limit =
    let given = if nonpositive limit then default_recent_output_limit else to_ℕ limit in
    if ltb max_recent_output_limit given then max_recent_output_limit else given

-- the answer without a ring
abbrev pub nothing_recent : {T : Type 0} → ℕ → RecentOutput T
nothing_recent token = record { items = []; next_token = token; dropped = 0; truncated = false }

-- The first argument is `checkContext(ctx)`.
unfoldable pub get_recent_events : Option GoError → Srv → ℕ → ℤ → Result (RecentOutput RingEvent)
get_recent_events (some e) s token limit = err e
get_recent_events none s token limit = elim s.event_ring [
  | none ↦ ok (nothing_recent token)
  | some ring ↦ ok (recent blank_event (λ e. e.seq) (events_limit limit) ring token)
]

unfoldable pub get_recent_output : Option GoError → Srv → ℕ → ℤ → Result (RecentOutput RingOutput)
get_recent_output (some e) s token limit = err e
get_recent_output none s token limit = elim s.output_ring [
  | none ↦ ok (nothing_recent token)
  | some ring ↦ ok (recent blank_output (λ e. e.seq) (output_limit limit) ring token)
]
