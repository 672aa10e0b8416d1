-- ===== src/Chat/Room/Safety.antt =====
-- The loop of a room never panics: it sends on no closed channel and closes none twice.
use realtime_chat_platform.Prelude.{
  ℕ, ◌≡◌, refl, ◌∙◌, ◌≢◌, inl, inr, String_discrete, ℤ, true, false, none, some, List, [], ◌∷◌,
  ℕ_discrete, if◌then◌else◌, Bool-cases, arith,
}
use realtime_chat_platform.Chat.Domain.{
  PresenceStatus, online, offline, Client, SendChannel, close, message_type_chat, message_type_join,
  message_type_leave, message_type_typing,
}
use realtime_chat_platform.Chat.Room.{
  ◌>>=◌, Archived, Room, update, has, remove, notify, broadcast_event, Incoming, Event, register,
  unregister, broadcast, on_register, on_unregister, archive, on_broadcast, step,
}
use realtime_chat_platform.Chat.Room.Fanout.{DistinctIds, AllOpen}
use realtime_chat_platform.Chat.Room.Broadcast.{Inv, broadcast_event-Broadcasted}

-- A pointer names one client.
abbrev pub Belongs : Client → List Client → Type 0
Belongs c [] = Unit
Belongs c (x ∷ xs) = (x.id ≡ c.id → x.user_id ≡ c.user_id) × Belongs c xs

-- What the callers guarantee: a client registers once, when it is new and its channel is open, and
-- unregisters as itself.
abbrev pub IsAdmissible : Room → Event → Type 0
IsAdmissible r (register c now) = (has c.id r.clients ≡ false) × ((r.channels c.id).closed ≡ false)
IsAdmissible r (unregister c now) = Belongs c r.clients
IsAdmissible r (broadcast from payload now) = Unit

-- The room after a client is put into the map, and after one is taken out and its channel closed.
abbrev pub joined : Room → Client → Room
joined r c =
    notify (record r { clients = if has c.id r.clients then r.clients else c ∷ r.clients })
      c.user_id online

abbrev pub shut : SendChannel → SendChannel
shut ch = record { queue = ch.queue; closed = true }

abbrev pub left : Room → Client → Room
left r c = record r {
  clients = remove c.id r.clients;
  channels = update r.channels c.id (shut (r.channels c.id));
}

pub joined-Inv :
    (r : Room) (c : Client) (now : ℕ) → Inv r → IsAdmissible r (register c now) → Inv (joined r c)
unfolding notify
joined-Inv r c now v h =
    rw h.0 (record { distinct = (h.0, v.distinct); opened = (h.1, v.opened); bounded = v.bounded })

open_of_has :
    (channels : ℕ → SendChannel) (j : ℕ) (cs : List Client)
    → AllOpen channels cs
    → has j cs ≡ true
    → (channels j).closed ≡ false
unfolding has
open_of_has channels j [] o h = cc
open_of_has channels j (c ∷ cs) o h = elim (ℕ_discrete j c.id) [
  | yes e ↦ rw e o.0
  | no ne ↦ open_of_has channels j cs o.1 (ground arith)
]

has-remove : (j k : ℕ) (cs : List Client) → has j cs ≡ false → has j (remove k cs) ≡ false
unfolding has remove
has-remove j k [] h = refl
has-remove j k (c ∷ cs) h = ground (arith, has-remove j k cs)

remove-DistinctIds : (k : ℕ) (cs : List Client) → DistinctIds cs → DistinctIds (remove k cs)
unfolding remove
remove-DistinctIds k [] d = tt
remove-DistinctIds k (c ∷ cs) d =
    ground (arith, remove-DistinctIds k cs d.1, has-remove c.id k cs d.0)

remove-AllOpen :
    (channels : ℕ → SendChannel) (k : ℕ) (ch : SendChannel) (cs : List Client)
    → AllOpen channels cs
    → AllOpen (update channels k ch) (remove k cs)
unfolding remove
remove-AllOpen channels k ch [] o = tt
remove-AllOpen channels k ch (c ∷ cs) o = ground (arith, remove-AllOpen channels k ch cs o.1)

pub left-Inv : (r : Room) (c : Client) → Inv r → Inv (left r c)
left-Inv r c v = record {
  distinct = remove-DistinctIds c.id r.clients v.distinct;
  opened = remove-AllOpen r.channels c.id (shut (r.channels c.id)) r.clients v.opened;
  bounded = λ j. ground (arith, v.bounded j, v.bounded c.id);
}

-- Leaving by a client in the map: the frame first, then the report.
pub on_unregister_lem :
    (r : Room) (c : Client) (now : ℕ)
    → Inv r
    → has c.id r.clients ≡ true
    → on_unregister r c now ≡ (
        broadcast_event (left r c) message_type_leave c.user_id "" now >>= λ r'.
        some (notify r' c.user_id offline))
unfolding on_unregister close
on_unregister_lem r c now v here =
    rw (here, open_of_has r.channels c.id r.clients v.opened here) refl

notify-Inv :
    (r : Room) (user_id : ℤ) (status : PresenceStatus) → Inv r → Inv (notify r user_id status)
unfolding notify
notify-Inv r user_id status v = record {
  distinct = v.distinct;
  opened = v.opened;
  bounded = v.bounded;
}

archive-Inv : (r : Room) (row : Archived) → Inv r → Inv (archive r row)
unfolding archive
archive-Inv r row v = record { distinct = v.distinct; opened = v.opened; bounded = v.bounded }

-- The branches of an incoming payload.
abbrev pub row_of : Room → Client → Incoming → ℕ → Archived
row_of r from m now = record {
  room = r.name;
  user_id = from.user_id;
  content = m.content;
  created_at = now;
}

module _ (r : Room) (from : Client) (m : Incoming) (now : ℕ) where
  pub on_broadcast_typing :
      m.type ≡ message_type_typing
      → on_broadcast r from (some m) now ≡ broadcast_event r message_type_typing from.user_id "" now
  unfolding on_broadcast
  on_broadcast_typing h = ground arith

  pub on_broadcast_empty :
      m.type ≢ message_type_typing → m.content ≡ "" → on_broadcast r from (some m) now ≡ some r
  unfolding on_broadcast
  on_broadcast_empty h e = ground arith

  pub on_broadcast_chat :
      m.type ≢ message_type_typing
      → m.content ≢ ""
      → on_broadcast r from (some m) now ≡ (
          broadcast_event r message_type_chat from.user_id m.content now >>= λ r'.
          some (archive r' (row_of r from m now)))
  unfolding on_broadcast
  on_broadcast_chat h e = ground arith

-- From a valid room every event that its callers can send is handled without a panic, and leaves a
-- valid room: distinct clients, all with open channels, and no more than 16 frames in any channel.
pub step-Inv :
    (r : Room) (e : Event) → Inv r → IsAdmissible r e → (r' : Room) × (step r e ≡ some r') × Inv r'
unfolding step on_register
step-Inv r (register c now) v h =
    let (r', done, spec, inv) =
      broadcast_event-Broadcasted (joined r c) message_type_join c.user_id "" now
        (joined-Inv r c now v h) in
    (r', done, inv)
step-Inv r (unregister c now) v h = elim (Bool-cases (has c.id r.clients)) [
  | inr absent ↦ (r, unfold on_unregister in rw absent refl, v)
  | inl here ↦
      let (r', done, spec, inv) =
        broadcast_event-Broadcasted (left r c) message_type_leave c.user_id "" now
          (left-Inv r c v) in
      (
        notify r' c.user_id offline,
        on_unregister_lem r c now v here ∙ rw done refl,
        notify-Inv r' c.user_id offline inv,
      )
]
step-Inv r (broadcast from none now) v h = (r, unfold on_broadcast in refl, v)
step-Inv r (broadcast from (some m) now) v h = elim (String_discrete m.type message_type_typing) [
  | yes typing ↦
      let (r', done, spec, inv) =
        broadcast_event-Broadcasted r message_type_typing from.user_id "" now v in
      (r', on_broadcast_typing r from m now typing ∙ done, inv)
  | no other ↦ elim (String_discrete m.content "") [
    | yes empty ↦ (r, on_broadcast_empty r from m now other empty, v)
    | no content ↦
        let (r', done, spec, inv) =
          broadcast_event-Broadcasted r message_type_chat from.user_id m.content now v in
        (
          archive r' (row_of r from m now),
          on_broadcast_chat r from m now other content ∙ rw done refl,
          archive-Inv r' (row_of r from m now) inv,
        )
  ]
]
