-- ===== src/Events/Batch.antt =====
-- cmd/gokd-mcp/events.go: the drainer's batch of output (`queueOutput`, `flushOutput`) and its notices of a
-- changed state (`maybeStateChanged`). What `broadcast` sends is collected in the order of sending;
-- whom it reaches and the servers' registry are left out. Each part that holds the batch's lock is one
-- step. `flushOutput` lets the lock go before it sends its batch, so that is a further step: till then
-- the batch is in flight, and flushes that overlap may send theirs in any order.
pub mod Delivery
pub mod Waiting
pub mod Notices
use go_kd.Prelude.{
  ℕ, zero, suc, ◌+◌, Bool, true, false, ◌||◌, Option, none, some, List, [], ◌∷◌, ◌++◌, leb, length,
  if◌then◌else◌,
}
use go_kd.Text.{Text, is_empty, text_eq}
use go_kd.Events.{Event, RingEvent, RingOutput, SessionStatus, Srv, push_event, push_output}

abbrev pub output_cap : ℕ
output_cap = 4096

-- `timer` is whether `timer` is not nil.
pub record OutputBatcher : Type 0 where
  pub buf : List RingOutput
  pub bytes : ℕ
  pub timer : Bool
  pub pending : Bool

-- `stateChangedEntry`, without its time
pub record StateChanged : Type 0 where
  pub kind : Text
  pub target_kind : Text
  pub target_name : Text

pub data Notice : Type 0 where
  event : RingEvent → Notice
  output : List RingOutput → Notice
  state_changed : StateChanged → Notice

-- the drainer with its server and what it has sent so far
pub record Drainer : Type 0 where
  pub srv : Srv
  pub out_batch : OutputBatcher
  pub prev_last : Text
  pub in_flight : List (List RingOutput)
  pub sent : List Notice

abbrev pub broadcast : Drainer → Notice → Drainer
broadcast d n = record d { sent = d.sent ++ (n ∷ []) }

abbrev pub no_batch : OutputBatcher
no_batch = record { buf = []; bytes = 0; timer = false; pending = false }

unfoldable pub new_drainer : Srv → Drainer
new_drainer s = record { srv = s; out_batch = no_batch; prev_last = []; in_flight = []; sent = [] }

-- the part of `flushOutput` that holds the lock
unfoldable pub take_batch : Drainer → Drainer
take_batch d = elim d.out_batch.buf [
  | [] ↦ record d { out_batch = record d.out_batch { pending = false } }
  | e ∷ es ↦ record d { out_batch = no_batch; in_flight = d.in_flight ++ ((e ∷ es) ∷ []) }
]

-- the item at a place of a list, and the others
unfoldable pub taken_at {ℓ} : {A : Type ℓ} → ℕ → List A → Option (A × List A)
taken_at k [] = none
taken_at zero (x ∷ xs) = some (x, xs)
taken_at (suc k) (x ∷ xs) = elim (taken_at k xs) [
  | none ↦ none
  | some (y, rest) ↦ some (y, x ∷ rest)
]

-- The rest of the `flushOutput` that took the batch at place `k` of those in flight.
unfoldable pub send_batch : ℕ → Drainer → Drainer
send_batch k d = elim (taken_at k d.in_flight) [
  | none ↦ d
  | some (batch, rest) ↦ broadcast (record d { in_flight = rest }) (output batch)
]

-- the part of `queueOutput` that holds the lock; the answer is `overflow`
unfoldable pub append_output : OutputBatcher → RingOutput → OutputBatcher × Bool
append_output b entry =
    let bytes = b.bytes + length entry.text in
    (
      record {
        buf = b.buf ++ (entry ∷ []);
        bytes = bytes;
        timer = if b.pending then b.timer else true;
        pending = true;
      },
      leb output_cap bytes,
    )

-- up to the broadcast of an overflowing batch
unfoldable pub queue_output : Drainer → RingOutput → Drainer
queue_output d entry =
    let (batch, overflow) = append_output d.out_batch entry in
    let queued = record d { out_batch = batch } in if overflow then take_batch queued else queued

unfoldable pub maybe_state_changed : Drainer → Drainer
maybe_state_changed d = elim d.srv.status [
  | none ↦ d
  | some st ↦
      if is_empty st.last_kind || text_eq st.last_kind d.prev_last
      then d
      else broadcast (record d { prev_last = st.last_kind })
          (state_changed (record {
            kind = st.last_kind;
            target_kind = st.target_kind;
            target_name = st.target_name;
          }))
]

-- What `run` does for an event and for a line of output. The flush timer may fire between any two, also
-- late, after its batch was sent. If it fires between the two locked parts of `queueOutput`, it sends
-- the batch that the flush behind it would have sent, and that one finds nothing. A flush sends what
-- it took at any later time. The goroutine of the output takes no line while its own flush sends; a
-- run may have one taken then, so it allows more than the code.
pub data Step : Type 0 where
  on_event : Event → Step
  on_output : Text → Step
  on_timer : Step
  on_send : ℕ → Step

unfoldable pub step : Drainer → Step → Drainer
step d (on_event ev) =
    let (s, entry) = push_event d.srv ev in
    maybe_state_changed (broadcast (record d { srv = s }) (event entry))
step d (on_output line) =
    let (s, entry) = push_output d.srv line in queue_output (record d { srv = s }) entry
step d on_timer = take_batch d
step d (on_send k) = send_batch k d

unfoldable pub run : Drainer → List Step → Drainer
run d [] = d
run d (s ∷ ss) = run (step d s) ss
