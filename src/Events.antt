-- ===== src/Events.antt =====
-- cmd/gokd-mcp/events.go: what the drainer stores of the session's events and output, with the event
-- types of gokd.go. A time stamp is left out of an entry, and `Payload`, which nothing fills. A nil
-- ring or status is `none`; a nil thread or module pointer in an event is `none`.
pub mod Logged
pub mod Batch
use go_kd.Prelude.{
  ℕ, ◌+◌, Bool, true, false, Option, none, some, List, [], ◌∷◌, ◌++◌, if◌then◌else◌,
}
use go_kd.Text.{Text, codes, is_empty, hex_fixed, format_d, format_x}
use go_kd.Ring.{Ring, push_with}

pub record Thread : Type 0 where
  pub system_id : ℕ
  pub handle : ℕ
  pub data_offset : ℕ
  pub start_offset : ℕ

pub record Module : Type 0 where
  pub module_name : Text
  pub image_name : Text
  pub base : ℕ
  pub module_size : ℕ
  pub timestamp : ℕ
  pub checksum : ℕ
  pub symbol_type : ℕ

pub data Event : Type 0 where
  breakpoint_event : (id address : ℕ) → Option Thread → Event
  exception_event : (code address : ℕ) (first_chance : Bool) → Option Thread → Event
  thread_created_event : Option Thread → Event
  thread_exited_event : (system_id exit_code : ℕ) → Event
  process_created_event : (image_name : Text) (base_offset module_size : ℕ) → Event
  process_exited_event : (exit_code : ℕ) → Event
  module_loaded_event : Option Module → Event
  module_unloaded_event : (image_base_name : Text) (base_offset : ℕ) → Event
  session_status_event : (status : ℕ) → Event

-- `hex64`
abbrev pub hex64 : ℕ → Text
hex64 v = codes "0x" ++ hex_fixed 16 v

pub record RingEvent : Type 0 where
  pub seq : ℕ
  pub kind : Text
  pub description : Text
  pub address_hex : Text
  pub thread_id : ℕ

pub record RingOutput : Type 0 where
  pub seq : ℕ
  pub text : Text

abbrev pub blank_event : RingEvent
blank_event = record { seq = 0; kind = []; description = []; address_hex = []; thread_id = 0 }

abbrev pub blank_output : RingOutput
blank_output = record { seq = 0; text = [] }

pub record SessionStatus : Type 0 where
  pub target_kind : Text
  pub target_name : Text
  pub last_kind : Text

-- an argument that is not empty replaces the field
abbrev pub unless_empty : Text → Text → Text
unless_empty new old = if is_empty new then old else new

unfoldable pub set_status : SessionStatus → Text → Text → Text → SessionStatus
set_status s kind name last = record {
  target_kind = unless_empty kind s.target_kind;
  target_name = unless_empty name s.target_name;
  last_kind = unless_empty last s.last_kind;
}

-- the part of `srv` that the drainer writes
pub record Srv : Type 0 where
  pub event_ring : Option (Ring RingEvent)
  pub output_ring : Option (Ring RingOutput)
  pub status : Option SessionStatus

-- the thread of an event, 0 for none
abbrev pub thread_of : Option Thread → ℕ
thread_of none = 0
thread_of (some t) = t.system_id

-- The `switch` of `pushEvent`: the entry, but for its number.
unfoldable pub template_of : Event → RingEvent
template_of (breakpoint_event id address thread) = record {
  seq = 0;
  kind = codes "breakpoint";
  description = codes "breakpoint " ++ format_d id ++ codes " at " ++ hex64 address;
  address_hex = hex64 address;
  thread_id = thread_of thread;
}
template_of (exception_event code address first_chance thread) = record {
  seq = 0;
  kind = codes "exception";
  description =
      codes "exception 0x"
      ++ hex_fixed 8 code
      ++ codes " at "
      ++ hex64 address
      ++ (if first_chance then codes " first-chance" else codes " second-chance");
  address_hex = hex64 address;
  thread_id = thread_of thread;
}
template_of (process_created_event image base size) = record {
  seq = 0;
  kind = codes "process_created";
  description = codes "process created " ++ image;
  address_hex = hex64 base;
  thread_id = 0;
}
template_of (process_exited_event exit_code) = record {
  seq = 0;
  kind = codes "process_exited";
  description = codes "process exited code=" ++ format_d exit_code;
  address_hex = [];
  thread_id = 0;
}
template_of (module_loaded_event none) = record blank_event { kind = codes "module_loaded" }
template_of (module_loaded_event (some m)) = record {
  seq = 0;
  kind = codes "module_loaded";
  description =
      codes "module loaded "
      ++ m.module_name
      ++ codes " base="
      ++ hex64 m.base
      ++ codes " size=0x"
      ++ format_x m.module_size;
  address_hex = hex64 m.base;
  thread_id = 0;
}
template_of (module_unloaded_event image base) = record {
  seq = 0;
  kind = codes "module_unloaded";
  description = codes "module unloaded " ++ image ++ codes " base=" ++ hex64 base;
  address_hex = hex64 base;
  thread_id = 0;
}
template_of (thread_created_event none) = record blank_event { kind = codes "thread_created" }
template_of (thread_created_event (some t)) = record {
  seq = 0;
  kind = codes "thread_created";
  description =
      codes "thread created sysid="
      ++ format_d t.system_id
      ++ codes " start="
      ++ hex64 t.start_offset;
  address_hex = [];
  thread_id = t.system_id;
}
template_of (thread_exited_event system_id exit_code) = record {
  seq = 0;
  kind = codes "thread_exited";
  description =
      codes "thread exited sysid=" ++ format_d system_id ++ codes " code=" ++ format_d exit_code;
  address_hex = [];
  thread_id = system_id;
}
template_of (session_status_event status) = record {
  seq = 0;
  kind = codes "gokd.SessionStatusEvent";
  description = codes "gokd.SessionStatusEvent";
  address_hex = [];
  thread_id = 0;
}

-- The `switch` of `pushEvent`: its calls of `status.set`.
unfoldable pub status_of : Event → SessionStatus → SessionStatus
unfolding set_status
status_of (breakpoint_event id address thread) s = set_status s [] [] (codes "broken_in")
status_of (exception_event code address first thread) s = set_status s [] [] (codes "broken_in")
status_of (process_created_event image base size) s = set_status s [] image (codes "attached")
status_of (process_exited_event exit_code) s = set_status s [] [] (codes "exited")
status_of _ s = s

unfoldable pub push_event : Srv → Event → Srv × RingEvent
push_event s ev = elim s.event_ring [
  | none ↦ (s, blank_event)
  | some ring ↦
      let template = template_of ev in
      let status : Option SessionStatus = elim s.status [
        | none ↦ none
        | some st ↦ some (status_of ev st)
      ] in
      let (ring', seq) = push_with ring (λ n. record template { seq = n }) in
      (record s { event_ring = some ring'; status = status }, record template { seq = seq })
]

unfoldable pub push_output : Srv → Text → Srv × RingOutput
push_output s line = elim s.output_ring [
  | none ↦ (s, blank_output)
  | some ring ↦
      let (ring', seq) = push_with ring (λ n. record { seq = n; text = line }) in
      (record s { output_ring = some ring' }, record { seq = seq; text = line })
]
