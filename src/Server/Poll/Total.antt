-- ===== src/Server/Poll/Total.antt =====
-- A call of `ezgrpc2_server_poll`.
use ezgrpc.Prelude.{ℕ, ◌≡◌, ◌⊎◌, Option, none, some, List}
use ezgrpc.Event.{Event}
use ezgrpc.Events.Contents.{Holds}
use ezgrpc.Server.{Server, Accept}
use ezgrpc.Server.Table.{IsTable}
use ezgrpc.Server.Add.{Succeeds}

pub record IsServer (server : Server) : Type 0 where
  pub table : IsTable 2 server.clients
  pub held : (xs : List Event) × Holds server.events xs

pub record Leaves (o : Option Server) : Type 0 where
  pub after : Server
  pub is : o ≡ some after
  pub server : IsServer after

-- A listener that is not ready, or whose `accept` fails, or a connection for which all succeeds.
abbrev pub Accepted : Option Accept → Type 0
Accepted none = Unit {0}
Accepted (some accept) = (accept.confd ≡ none) ⊎ ((confd : ℕ) × Succeeds accept confd)
