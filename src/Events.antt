-- ===== src/Events.antt =====
-- src/domain/event: events, their log, and the router that hands them out.
pub mod Log
pub mod Router
use agent_collab.Common.{
  ℕ, ◌+◌, ◌*◌, String, Bool, not, if◌then◌else◌, ltb, ◌==◌, str_eq, ◌||◌, ℤ, pos,
}

pub data EventStatus : Type 0 where
  active completed archived : EventStatus

abbrev pub file_change : String
file_change = "file_change"

abbrev pub lock_acquired : String
lock_acquired = "lock_acquired"

abbrev pub lock_released : String
lock_released = "lock_released"

abbrev pub lock_conflict : String
lock_conflict = "lock_conflict"

-- An instant is a number of nanoseconds, with 0 for Go's zero time. The payload and the embedding are
-- only carried, and left out.
pub record Event : Type 0 where
  pub id : String
  pub kind : String
  pub timestamp : ℕ
  pub source_id : String
  pub source_name : String
  pub file_path : String
  pub line_start : ℤ
  pub line_end : ℤ
  pub status : EventStatus
  pub expires_at : ℕ
  pub superseded_by : String

abbrev pub default_event_ttl : ℕ
default_event_ttl = 24 * 3600 * 1_000_000_000

-- The identifier is `generateEventID`'s.
unfoldable pub new_event : String → String → String → (id : String) → (now : ℕ) → Event
new_event kind source_id source_name id now = record {
  id = id;
  kind = kind;
  timestamp = now;
  source_id = source_id;
  source_name = source_name;
  file_path = "";
  line_start = pos 0;
  line_end = pos 0;
  status = active;
  expires_at = now + default_event_ttl;
  superseded_by = "";
}

unfoldable pub is_expired : Event → ℕ → Bool
is_expired e now = if e.expires_at == 0 then Bool.false else ltb e.expires_at now

abbrev pub is_archived : Event → Bool
is_archived e = elim (e.status) [
  | archived ↦ Bool.true
  | active ↦ Bool.false
  | completed ↦ Bool.false
]

unfoldable pub mark_completed : Event → Event
mark_completed e = record e { status = completed }

unfoldable pub is_superseded : Event → Bool
is_superseded e = not (str_eq e.superseded_by "")
