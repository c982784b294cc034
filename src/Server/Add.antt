-- ===== src/Server/Add.antt =====
-- A new connection.
use ezgrpc.Prelude.{
  ℕ, zero, suc, ◌+◌, ◌-◌, ◌<◌, ◌≡◌, refl, sym, ap, ◌∙◌, inl, inr, subst, Bool, true, false, Option,
  none, some, List, [], ◌∷◌, ◌++◌, set, get_elem?, arith, length, get_elem?-set_self, ltb, ◌==◌,
  ◌&&◌, ◌≢◌, Option-cases,
}
use ezgrpc.Event.{SessionUuid, Event, EventKind, session_uuid_is_equal}
use ezgrpc.Events.{Events}
use ezgrpc.Events.Contents.{Holds, events_write-Holds}
use ezgrpc.Server.{
  Slot, Server, Accept, created, get_unused_pollfd_ndx, session_create, session_enter, session_add,
  write_plain, session_find, present,
}
use ezgrpc.Server.Table.{IsTable, IsTable-set, get_unused_pollfd_ndx-Unused}

-- A connection for which everything succeeds.
pub record Succeeds (accept : Accept) (confd : ℕ) : Type 0 where
  pub confd_is : accept.confd ≡ some confd
  pub callbacks : accept.callbacks_new ≡ 0
  pub server : accept.server_new_fails ≡ false
  pub settings : accept.submit_settings_fails ≡ false
  pub nonblock : accept.makenonblock ≡ 0
  pub setsockopt : accept.setsockopt_fails ≡ false
  pub family : accept.known_family ≡ true

abbrev pub connect_event : SessionUuid → Event
connect_event uuid = record { session_uuid = uuid; kind = EventKind.connect; userdata = none }

pub record Written (kind : EventKind) (uuid : SessionUuid) (xs : List Event) (o : Option Events)
    : Type 0 where
  pub after : Events
  pub is : o ≡ some after
  pub holds : Holds after (xs ++ record { session_uuid = uuid; kind = kind; userdata = none } ∷ [])

pub write_plain-Written :
    (kind : EventKind) (uuid : SessionUuid) (es : Events) (xs : List Event)
    → Holds es xs
    → Written kind uuid xs (write_plain true kind uuid es)
unfolding write_plain
write_plain-Written kind uuid es xs h =
    let event : Event = record { session_uuid = uuid; kind = kind; userdata = none } in
    let (after, e, h') = events_write-Holds es xs event h in
    rw (e, write_plain) (record { after = after; is = refl; holds = h' })

session_create-created :
    (accept : Accept) (confd : ℕ) (slot : Slot)
    → Succeeds accept confd
    → session_create accept confd slot
      ≡ created (record slot {
        ngsession = accept.ngsession;
        sockfd = confd;
        lstreams = [];
        session_uuid = record { uuid = accept.uuid; index = slot.session_uuid.index };
      })
unfolding session_create
session_create-created accept confd slot s = ground (arith, s)

pub record Enters (accept : Accept) (confd ndx : ℕ) (xs : List Event) (o : Option (Server × ℕ))
    : Type 0 where
  pub after : Server
  pub slot : Slot
  pub is : o ≡ some (after, 0)
  pub fd : slot.fd ≡ some confd
  pub found : session_find (record { uuid = accept.uuid; index = ndx }) after ≡ present ndx slot
  pub table : IsTable 2 after.clients
  pub holds :
      Holds after.events (xs ++ connect_event (record { uuid = accept.uuid; index = ndx }) ∷ [])

get_elem-length :
    {A : Type 0} (xs : List A) (i : ℕ) (x : A) → get_elem? xs i ≡ some x → i < length xs
get_elem-length [] i x e = cc
get_elem-length (y ∷ xs) zero x e = omega arith
get_elem-length (y ∷ xs) (suc i) x e = omega (arith, get_elem-length xs i x e)

module _ (server : Server) (accept : Accept) (confd j : ℕ) (slot : Slot) (xs : List Event)
    (table : IsTable 2 server.clients) (is : get_elem? server.clients j ≡ some slot)
    (h : Holds server.events xs) where
  abbrev entered : Slot
  entered = record slot {
    ngsession = accept.ngsession;
    sockfd = confd;
    lstreams = [];
    session_uuid = record { uuid = accept.uuid; index = 2 + j };
    fd = some confd;
  }

  found_again :
      (es : Events)
      → session_find
          (record { uuid = accept.uuid; index = 2 + j })
          (record server { clients = set server.clients j entered; events = es })
        ≡ present (2 + j) entered
  unfolding session_find session_uuid_is_equal
  found_again es =
      let client : ltb (2 + j) 2 ≡ false = ground arith in
      let at : get_elem? (set server.clients j entered) (2 + j - 2) ≡ some entered =
        ap (get_elem? (set server.clients j entered)) (omega arith)
        ∙ get_elem?-set_self server.clients j entered (get_elem-length server.clients j slot is) in
      let same : ((2 + j == 2 + j) && (accept.uuid == accept.uuid)) ≡ true = ground arith in
      rw (client, at, same) refl

  session_enter-Enters : Enters accept confd (2 + j) xs (
      session_enter true
        (2 + j)
        confd
        (record slot {
          ngsession = accept.ngsession;
          sockfd = confd;
          lstreams = [];
          session_uuid = record { uuid = accept.uuid; index = slot.session_uuid.index };
        })
        server)
  unfolding session_enter
  session_enter-Enters =
      let w =
        write_plain-Written EventKind.connect (record { uuid = accept.uuid; index = 2 + j })
          server.events xs h in
      let place : 2 + j - 2 ≡ j = omega arith in
      rw (w.is, session_enter)
        (rw place (record {
          after = record server { clients = set server.clients j entered; events = w.after };
          slot = entered;
          is = refl;
          fd = refl;
          found = found_again w.after;
          table =
              IsTable-set 2 j server.clients entered table
                (inr (record { fd = confd; fd_is = refl; sockfd_is = refl; index_is = refl }));
          holds = w.holds;
        }))

-- With a free entry in the table, a connection for which every call succeeds gets that entry: the
-- table stays well formed, the event CONNECT is written behind the others, and the uuid that it
-- carries is one that `session_find` finds, with the descriptor of the connection.
pub session_add-Enters :
    (server : Server) (accept : Accept) (confd ndx : ℕ) (xs : List Event)
    → IsTable 2 server.clients
    → Holds server.events xs
    → Succeeds accept confd
    → get_unused_pollfd_ndx 2 server.clients ≡ some ndx
    → Enters accept confd ndx xs (session_add true accept server)
unfolding session_add
session_add-Enters server accept confd ndx xs table h s e =
    let u = get_unused_pollfd_ndx-Unused 2 server.clients ndx e in
    let at : get_elem? server.clients (ndx - 2) ≡ some u.slot =
      ap (get_elem? server.clients) (omega (arith, u.place)) ∙ u.is in
    let same : session_add true accept server
        ≡ session_enter true ndx confd (chosen u.slot) server =
      rw (s.confd_is, session_add)
        (rw (e, session_add)
          (rw (at, session_add) (rw (session_create-created accept confd u.slot s) refl))) in
    subst (Enters accept confd ndx xs) (sym same) (
      subst (λ n. Enters accept confd n xs (session_enter true n confd (chosen u.slot) server))
        (sym u.place) (session_enter-Enters server accept confd u.j u.slot xs table u.is h))
  where
    chosen : Slot → Slot
    chosen slot = record slot {
      ngsession = accept.ngsession;
      sockfd = confd;
      lstreams = [];
      session_uuid = record { uuid = accept.uuid; index = slot.session_uuid.index };
    }

all_used :
    (i : ℕ) (ss : List Slot)
    → ((j : ℕ) (s : Slot) → get_elem? ss j ≡ some s → s.fd ≢ none)
    → get_unused_pollfd_ndx i ss ≡ none
unfolding get_unused_pollfd_ndx
all_used i [] used = refl
all_used i (s ∷ ss) used = elim (Option-cases s.fd) [
  | inl f ↦ absurd (used 0 s refl f)
  | inr (c, f) ↦ rw (f, get_unused_pollfd_ndx) (all_used (i + 1) ss (λ j r g. used (suc j) r g))
]

-- With no free entry a connection is closed, 1 is returned and nothing else changes, whatever nghttp2
-- and the socket functions would have answered.
pub session_add_full :
    (malloc_ok : Bool) (server : Server) (accept : Accept) (confd : ℕ)
    → ((j : ℕ) (s : Slot) → get_elem? server.clients j ≡ some s → s.fd ≢ none)
    → accept.confd ≡ some confd
    → session_add malloc_ok accept server
      ≡ some (record server { closed = server.closed ++ confd ∷ [] }, 1)
unfolding session_add
session_add_full malloc_ok server accept confd used e =
    rw (e, session_add) (rw (all_used 2 server.clients used, session_add) refl)
