-- ===== src/Service/Fills.antt =====
-- The calls of a user on the server fill the interface.
use ezgrpc.Prelude.{
  ℕ, zero, suc, ◌+◌, ◌-◌, ◌<◌, ◌≤◌, ◌≡◌, ◌⊎◌, inl, inr, refl, sym, ◌∙◌, subst, Bool, Option, none,
  some, List, [], ◌∷◌, get_elem?, length, arith,
}
use ezgrpc.Wire.{Message}
use ezgrpc.Event.{SessionUuid, Event}
use ezgrpc.Events.{events_read}
use ezgrpc.Events.Contents.{Holds}
use ezgrpc.Server.{Slot, Server, Nghttp2}
use ezgrpc.Server.Table.{IsTable}
use ezgrpc.Server.Serve.{Works}
use ezgrpc.Server.Poll.Total.{IsServer}
use ezgrpc.Api.{Submit, Reply, replied, stream_send, stream_end}
use ezgrpc.Api.Total.{Knows, Replies, stream_send-Replies, stream_end-Replies}
use ezgrpc.Service.{Service, IsService, Returns, Hands, Empties}
use ezgrpc.Service.Reads.{events_read_lem}
use ezgrpc.Service.Keeps.{
  AllTrack, AllTrack-elem, Steady, Keeps, Kept, stream_send-Kept, stream_end-Kept,
}

abbrev outcome : Reply → Option (ℕ × Server)
outcome (replied res server rest) = some (res, server)
outcome Reply.fault = none

unfoldable pub server_service : ℕ → Nghttp2 → Submit → Service Server
server_service fuel ng submit = record {
  stream_send = λ u id ms server. outcome (stream_send fuel ng submit u id ms server);
  stream_end = λ u id status server. outcome (stream_end ng submit u id status server);
  read =
      λ server. let (read, es) = events_read server.events in (read, record server { events = es });
}

elem_below : (ss : List Slot) (i : ℕ) → i < length ss → (s : Slot) × (get_elem? ss i ≡ some s)
elem_below [] i h = absurd (omega arith)
elem_below (s ∷ ss) zero h = (s, refl)
elem_below (s ∷ ss) (suc i) h = elem_below ss i (omega arith)

module _ (ng : Nghttp2) (fuel : ℕ) (submit : Submit) (n : ℕ) where
  -- A well formed server of `n` sessions that holds the events `xs`, with streams that nghttp2
  -- knows.
  pub record IsHeld (server : Server) (xs : List Event) : Type 0 where
    pub table : IsTable 2 server.clients
    pub holds : Holds server.events xs
    pub size : length server.clients ≡ n
    pub tracks : AllTrack submit server.clients

  -- The uuid has the index of a session.
  abbrev pub InTable : SessionUuid → Type 0
  InTable u = (2 ≤ u.index) × (u.index < 2 + n)

  module _ (works : Works ng fuel) (steady : Steady submit ng) where
    module _ (u : SessionUuid) (server : Server) (xs : List Event) (known : InTable u)
        (is : IsHeld server xs) where
      returns :
          {empties : Bool} {ms : List Message} (o : Reply)
          → Replies empties ms server o
          → Kept submit server o
          → Returns IsHeld xs (outcome o)
      returns o r k = rw r.is (good (subst (Kept submit server) r.is k))
        where
          good : Keeps submit server r.after → Returns IsHeld xs (some (r.res, r.after))
          good keeps = record {
            res = r.res;
            after = r.after;
            is = refl;
            small = ground (arith, r.outcome);
            good = record {
              table = r.keeps.table;
              holds = subst (λ es. Holds es xs) (sym keeps.events) is.holds;
              size = keeps.size ∙ is.size;
              tracks = keeps.tracks;
            };
          }

      is_server : IsServer server
      is_server = record { table = is.table; held = (xs, is.holds) }

      entry : (slot : Slot) × (get_elem? server.clients (u.index - 2) ≡ some slot)
      entry = elem_below server.clients (u.index - 2) (omega (arith, known, is.size))

      knows : Knows submit entry.0
      knows = record {
        stream = AllTrack-elem submit server.clients (u.index - 2) entry.0 is.tracks entry.1;
      }

      pub sends :
          (id : ℕ) (ms : List Message)
          → Returns IsHeld xs (outcome (stream_send fuel ng submit u id ms server))
      sends id ms =
          returns (stream_send fuel ng submit u id ms server)
            (stream_send-Replies server is_server u (u.index - 2) entry.0 (omega (arith, known))
              entry.1 ng fuel works submit knows id ms)
            (stream_send-Kept submit ng steady server is.tracks u fuel id ms)

      pub finishes :
          (id status : ℕ) → Returns IsHeld xs (outcome (stream_end ng submit u id status server))
      finishes id status =
          returns (stream_end ng submit u id status server)
            (stream_end-Replies server is_server u (u.index - 2) entry.0 (omega (arith, known))
              entry.1 ng fuel works submit knows id status)
            (stream_end-Kept submit ng steady server is.tracks u id status)

    pub reads :
        (server : Server) (xs : List Event)
        → IsHeld server xs
        → let (read, es) = events_read server.events in
          Hands IsHeld xs (read, record server { events = es })
          ⊎ Empties IsHeld xs (read, record server { events = es })
    reads server xs is =
        elim (events_read_lem server.events.bevents server.events.windex xs is.holds) [
          | inl h ↦ inl (record {
            block = h.block;
            size = h.size;
            first = h.first;
            rest = h.rest;
            given = h.given;
            entries = h.entries;
            split = h.split;
            more = h.more;
            good = record { table = is.table; holds = h.good; size = is.size; tracks = is.tracks };
          })
          | inr e ↦ inr (record {
            given = e.given;
            nothing = e.nothing;
            good = record { table = is.table; holds = e.good; size = is.size; tracks = is.tracks };
          })
        ]

    -- The server is a service, for the sessions of its table, where nghttp2 works.
    unfoldable pub server_laws : IsService Server (server_service fuel ng submit)
    unfolding server_service
    server_laws = record {
      Good = IsHeld;
      Known = InTable;
      sends = λ u id ms server xs known is. sends u server xs known is id ms;
      finishes = λ u id status server xs known is. finishes u server xs known is id status;
      reads = reads;
    }
