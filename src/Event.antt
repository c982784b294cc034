-- ===== src/Event.antt =====
-- ezgrpc2_event.h, and `struct ezgrpc2_session_uuid` with ezgrpc2_session_uuid.c.
use ezgrpc.Prelude.{ℕ, Bool, ◌&&◌, List, Option, ◌==◌}
use ezgrpc.Wire.{Message}

-- The sixteen bytes of the `uuid_t` are one number.
pub record SessionUuid : Type 0 where
  pub uuid : ℕ
  pub index : ℕ

unfoldable pub session_uuid_is_equal : SessionUuid → SessionUuid → Bool
session_uuid_is_equal a b = (a.index == b.index) && (a.uuid == b.uuid)

unfoldable pub session_uuid_copy : SessionUuid → SessionUuid
session_uuid_copy u = u

-- The type of an event with the member of the union that goes with it.
pub data EventKind : Type 0 where
  connect : EventKind
  disconnect : EventKind
  message : (messages : List Message) (stream_id : ℕ) (end_stream : Bool) → EventKind
  cancel : (stream_id : ℕ) → EventKind
  dataloss : (stream_id : ℕ) → EventKind

-- `userdata` is `none` where the code leaves it unassigned.
pub record Event : Type 0 where
  pub session_uuid : SessionUuid
  pub kind : EventKind
  pub userdata : Option ℕ
