-- ===== src/Chat/Room/Presence.antt =====
-- What the notifications of a room say about who is connected.
use realtime_chat_platform.Prelude.{
  ℕ, ◌≤◌, ◌≡◌, refl, sym, ap, ◌∙◌, subst, ◌≢◌, inl, inr, String, String_discrete, ℤ, ℤ_discrete,
  Bool, true, false, Option, none, some, List, [], ◌∷◌, ite, length, if◌then◌else◌, Bool-cases,
  arith,
}
use realtime_chat_platform.Chat.Domain.{
  Message, PresenceStatus, online, offline, PresenceReport, Client, SendChannel, send_capacity,
  message_type_chat, message_type_join, message_type_leave, message_type_typing,
}
use realtime_chat_platform.Chat.Room.{
  Room, update, new_room, has, remove, notify, broadcast_event, Incoming, Event, register,
  unregister, broadcast, on_register, on_unregister, archive, on_broadcast, step,
}
use realtime_chat_platform.Chat.Room.Fanout.{AllOpen, stay_of, evicted_of}
use realtime_chat_platform.Chat.Room.Broadcast.{
  Inv, evictions, Broadcasted, frame_of, broadcast_event-Broadcasted,
}
use realtime_chat_platform.Chat.Room.Safety.{
  IsAdmissible, Belongs, joined, joined-Inv, left, left-Inv, on_unregister_lem, row_of,
  on_broadcast_typing, on_broadcast_empty, on_broadcast_chat, step-Inv,
}

-- The newest status that was reported of a user.
abbrev pub last_status : ℤ → List PresenceReport → Option PresenceStatus
last_status u [] = none
last_status u (e ∷ log) = ite (ℤ_discrete u e.user_id) (some e.status) (last_status u log)

abbrev pub connected : ℤ → List Client → Bool
connected u [] = false
connected u (c ∷ cs) = ite (ℤ_discrete u c.user_id) true (connected u cs)

-- No ghosts: whoever was last reported online is connected.
abbrev pub NoGhostAt : ℤ → Room → Type 0
NoGhostAt u r = last_status u r.presence ≡ some online → connected u r.clients ≡ true

last_status-evictions :
    (u : ℤ) (room : String) (cs : List Client) (log : List PresenceReport)
    → last_status u (evictions room cs log)
      ≡ (if connected u cs then some offline else last_status u log)
last_status-evictions u room [] log = refl
last_status-evictions u room (c ∷ cs) log = ground (
  arith,
  last_status-evictions u room cs
      (record { user_id = c.user_id; room = room; status = offline } ∷ log),
)

connected-stay_of :
    (u : ℤ) (channels : ℕ → SendChannel) (cs : List Client)
    → connected u cs ≡ true
    → connected u (evicted_of channels cs) ≡ false
    → connected u (stay_of channels cs) ≡ true
connected-stay_of u channels [] h e = h
connected-stay_of u channels (c ∷ cs) h e = ground (arith, connected-stay_of u channels cs)

-- An eviction is reported, so a broadcast makes no ghost.
Broadcasted-NoGhostAt :
    (u : ℤ) (r : Room) (m : Message) (r' : Room)
    → Broadcasted r m r'
    → NoGhostAt u r
    → NoGhostAt u r'
Broadcasted-NoGhostAt u r m r' b old h =
    let out = evicted_of r.channels r.clients in
    let said : last_status u (evictions r.name out r.presence) ≡ some online =
      ap (last_status u) (sym b.presence) ∙ h in
    let stayed : connected u (stay_of r.channels r.clients) ≡ true = ground (
      arith,
      last_status-evictions u r.name out r.presence,
      connected-stay_of u r.channels r.clients,
    ) in
    ap (connected u) b.clients ∙ stayed

broadcast_event-NoGhostAt :
    (u : ℤ) (r : Room) (type : String) (user_id : ℤ) (content : String) (now : ℕ) (r' : Room)
    → Inv r
    → NoGhostAt u r
    → broadcast_event r type user_id content now ≡ some r'
    → NoGhostAt u r'
broadcast_event-NoGhostAt u r type user_id content now r' v old e =
    let (r₁, done, spec, inv) = broadcast_event-Broadcasted r type user_id content now v in
    let same : r₁ ≡ r' = cc in
    subst (NoGhostAt u) same
      (Broadcasted-NoGhostAt u r (frame_of r type user_id content now) r₁ spec old)

joined-NoGhostAt :
    (u : ℤ) (r : Room) (c : Client) (now : ℕ)
    → IsAdmissible r (register c now)
    → NoGhostAt u r
    → NoGhostAt u (joined r c)
unfolding notify
joined-NoGhostAt u r c now h old = rw h.0 (ground arith)

connected-remove :
    (u : ℤ) (c : Client) (cs : List Client)
    → Belongs c cs
    → u ≢ c.user_id
    → connected u cs ≡ true
    → connected u (remove c.id cs) ≡ true
unfolding remove
connected-remove u c [] b ne h = h
connected-remove u c (x ∷ xs) b ne h = ground (arith, connected-remove u c xs b.1 ne, b.0)

notify_offline-NoGhostAt : (u : ℤ) (r : Room) → NoGhostAt u (notify r u offline)
unfolding notify
notify_offline-NoGhostAt u r h = absurd (ground arith)

notify_other-NoGhostAt :
    (u w : ℤ) (r : Room) → u ≢ w → NoGhostAt u r → NoGhostAt u (notify r w offline)
unfolding notify
notify_other-NoGhostAt u w r ne old = ground arith

unregister-NoGhostAt :
    (u : ℤ) (r : Room) (c : Client) (now : ℕ) (r' : Room)
    → Inv r
    → IsAdmissible r (unregister c now)
    → NoGhostAt u r
    → on_unregister r c now ≡ some r'
    → NoGhostAt u r'
unfolding on_unregister
unregister-NoGhostAt u r c now r' v b old e = elim (Bool-cases (has c.id r.clients)) [
  | inr absent ↦ subst (NoGhostAt u) {x = r} {y = r'} (ground arith) old
  | inl here ↦
      let (r₁, done, spec, inv) =
        broadcast_event-Broadcasted (left r c) message_type_leave c.user_id "" now
          (left-Inv r c v) in
      let same : notify r₁ c.user_id offline ≡ r' =
        ground (arith, on_unregister_lem r c now v here) in
      subst (NoGhostAt u) same (elim (ℤ_discrete u c.user_id) [
        | yes self ↦ rw self (notify_offline-NoGhostAt c.user_id r₁)
        | no other ↦ notify_other-NoGhostAt u c.user_id r₁ other (
            Broadcasted-NoGhostAt u (left r c)
              (frame_of (left r c) message_type_leave c.user_id "" now) r₁ spec
              (λ h. connected-remove u c r.clients b other (old h)))
      ])
]

broadcast-NoGhostAt :
    (u : ℤ) (r : Room) (from : Client) (payload : Option Incoming) (now : ℕ) (r' : Room)
    → Inv r
    → NoGhostAt u r
    → on_broadcast r from payload now ≡ some r'
    → NoGhostAt u r'
unfolding on_broadcast
broadcast-NoGhostAt u r from none now r' v old e =
    subst (NoGhostAt u) {x = r} {y = r'} (ground arith) old
broadcast-NoGhostAt u r from (some m) now r' v old e =
    elim (String_discrete m.type message_type_typing) [
      | yes typing ↦
          broadcast_event-NoGhostAt u r message_type_typing from.user_id "" now r' v old
            (sym (on_broadcast_typing r from m now typing) ∙ e)
      | no other ↦ elim (String_discrete m.content "") [
        | yes empty ↦
            subst (NoGhostAt u) {x = r} {y = r'}
              (ground (arith, on_broadcast_empty r from m now other empty)) old
        | no content ↦
            let (r₁, done, spec, inv) =
              broadcast_event-Broadcasted r message_type_chat from.user_id m.content now v in
            let same : archive r₁ (row_of r from m now) ≡ r' =
              ground (arith, on_broadcast_chat r from m now other content) in
            subst (NoGhostAt u) same (
              unfold archive in
              Broadcasted-NoGhostAt u r (frame_of r message_type_chat from.user_id m.content now) r₁
                spec old)
      ]
    ]

-- Every event keeps it: whoever was last reported online is in the room, because an eviction and a
-- leave are reported after the join they end.
step-NoGhostAt :
    (u : ℤ) (r : Room) (e : Event) (r' : Room)
    → Inv r
    → IsAdmissible r e
    → NoGhostAt u r
    → step r e ≡ some r'
    → NoGhostAt u r'
unfolding step on_register
step-NoGhostAt u r (register c now) r' v h old e =
    broadcast_event-NoGhostAt u (joined r c) message_type_join c.user_id "" now r'
      (joined-Inv r c now v h) (joined-NoGhostAt u r c now h old) e
step-NoGhostAt u r (unregister c now) r' v h old e = unregister-NoGhostAt u r c now r' v h old e
step-NoGhostAt u r (broadcast from payload now) r' v h old e =
    broadcast-NoGhostAt u r from payload now r' v old e

-- The rooms that a new room can become; between two events the write pumps of the clients take
-- frames out of their channels.
pub data Reachable (name : String) (channels : ℕ → SendChannel) : Room → Type 0 where
  created : Reachable name channels (new_room name channels)
  stepped :
      {r : Room} (e : Event) {r' : Room}
      → Reachable name channels r
      → IsAdmissible r e
      → step r e ≡ some r'
      → Reachable name channels r'
  pumped :
      {r : Room} (k : ℕ) (m : Message) (rest : List Message)
      → Reachable name channels r
      → (r.channels k).queue ≡ m ∷ rest
      → Reachable name channels (record r {
        channels = update r.channels k (record { queue = rest; closed = (r.channels k).closed });
      })

-- In every room that is reachable from a new one whose channels have no more frames than fit, by
-- events that its callers can send and by frames that the clients take, the invariant holds and
-- there are no ghosts: whoever was last reported online is connected.
pub Reachable-NoGhostAt :
    {name : String} {channels : ℕ → SendChannel} {r : Room} (u : ℤ)
    → ((j : ℕ) → length (channels j).queue ≤ send_capacity)
    → Reachable name channels r
    → Inv r × NoGhostAt u r
unfolding new_room
Reachable-NoGhostAt u bounded created =
    (record { distinct = tt; opened = tt; bounded = bounded }, λ h. absurd (ground arith))
Reachable-NoGhostAt {r = r'} u bounded (stepped {r} e before ok_ done) =
    let (v, old) = Reachable-NoGhostAt u bounded before in
    let (r₁, done₁, inv) = step-Inv r e v ok_ in
    let same : r₁ ≡ r' = cc in (subst Inv same inv, step-NoGhostAt u r e r' v ok_ old done)
Reachable-NoGhostAt u bounded (pumped {r} k m rest before head) =
    let (v, old) = Reachable-NoGhostAt u bounded before in
    (
      record {
        distinct = v.distinct;
        opened = pump_opened r.channels k rest r.clients v.opened;
        bounded = λ j. ground (arith, v.bounded j, v.bounded k);
      },
      old,
    )
  where
    pump_opened :
        (channels : ℕ → SendChannel) (k : ℕ) (rest : List Message) (cs : List Client)
        → AllOpen channels cs
        → AllOpen (update channels k (record { queue = rest; closed = (channels k).closed })) cs
    pump_opened channels k rest [] o = tt
    pump_opened channels k rest (c ∷ cs) o = ground (arith, pump_opened channels k rest cs o.1)
