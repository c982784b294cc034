-- ===== src/Service.antt =====
-- What a program asks of a server while it handles events: to read them, and to answer with the uuid
-- of a session. The programs of examples/ are written over it.
pub mod Reads
pub mod Keeps
pub mod Fills
pub mod Sample
use ezgrpc.Prelude.{ℕ, ◌+◌, ◌≤◌, ◌≡◌, ◌≢◌, ◌⊎◌, Option, none, some, List, [], ◌∷◌, ◌++◌, map, take}
use ezgrpc.Wire.{Message}
use ezgrpc.Event.{SessionUuid, Event}
use ezgrpc.Events.{Block}

-- `ezgrpc2_server_session_stream_send`, `ezgrpc2_server_session_stream_end` and
-- `ezgrpc2_events_read`, by the state of the server. `none` is undefined behaviour or a failed
-- assertion.
pub record Service (S : Type 0) : Type 0 where
  pub stream_send : SessionUuid → ℕ → List Message → S → Option (ℕ × S)
  pub stream_end : SessionUuid → ℕ → ℕ → S → Option (ℕ × S)
  pub read : S → Option (Block × ℕ) × S

pub record Returns {S : Type 0} (Good : S → List Event → Type 0) (xs : List Event)
    (o : Option (ℕ × S)) : Type 0 where
  pub res : ℕ
  pub after : S
  pub is : o ≡ some (res, after)
  pub small : res ≤ 3
  pub good : Good after xs

-- An array with at least one event, the first of those that are held.
pub record Hands {S : Type 0} (Good : S → List Event → Type 0) (xs : List Event)
    (o : Option (Block × ℕ) × S) : Type 0 where
  pub block : Block
  pub size : ℕ
  pub first : List Event
  pub rest : List Event
  pub given : o.0 ≡ some (block, size)
  pub entries : take size block ≡ map some first
  pub split : xs ≡ first ++ rest
  pub more : first ≢ []
  pub good : Good o.1 rest

pub record Empties {S : Type 0} (Good : S → List Event → Type 0) (xs : List Event)
    (o : Option (Block × ℕ) × S) : Type 0 where
  pub given : o.0 ≡ none
  pub nothing : xs ≡ []
  pub good : Good o.1 []

-- The laws: in a state that is well formed and holds the events `xs`, a call on a session that the
-- table has room for returns, and leaves the events; to read gives the first of them, or NULL when
-- there are none.
pub record IsService (S : Type 0) (service : Service S) : Type 1 where
  pub Good : S → List Event → Type 0
  pub Known : SessionUuid → Type 0
  pub sends :
      (u : SessionUuid) (id : ℕ) (ms : List Message) (s : S) (xs : List Event)
      → Known u
      → Good s xs
      → Returns Good xs (service.stream_send u id ms s)
  pub finishes :
      (u : SessionUuid) (id status : ℕ) (s : S) (xs : List Event)
      → Known u
      → Good s xs
      → Returns Good xs (service.stream_end u id status s)
  pub reads :
      (s : S) (xs : List Event)
      → Good s xs
      → Hands Good xs (service.read s) ⊎ Empties Good xs (service.read s)
