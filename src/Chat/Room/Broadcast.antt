-- ===== src/Chat/Room/Broadcast.antt =====
-- A broadcast in a valid room: who gets the frame, who is evicted, and that no send panics.
use realtime_chat_platform.Prelude.{
  ℕ, ◌≤◌, ◌≡◌, refl, ap, String, ℤ, true, false, some, List, [], ◌∷◌, length, length-append, All,
  if◌then◌else◌, arith,
}
use realtime_chat_platform.Chat.Domain.{
  Message, offline, PresenceReport, Client, SendChannel, send_capacity,
}
use realtime_chat_platform.Chat.Room.{Room, has, notify, notify_evicted, broadcast_event}
use realtime_chat_platform.Chat.Room.Fanout.{
  DistinctIds, AllOpen, served, stay_of, evicted_of, fan_out-FannedOut,
}

pub record Inv (r : Room) : Type 0 where
  pub distinct : DistinctIds r.clients
  pub opened : AllOpen r.channels r.clients
  pub bounded : (j : ℕ) → length (r.channels j).queue ≤ send_capacity

All-of-has {ℓ} :
    (P : ℕ → Type ℓ) (cs : List Client) → ((j : ℕ) → has j cs ≡ true → P j) → All (λ c. P c.id) cs
unfolding has
All-of-has P [] h = tt
All-of-has P (c ∷ cs) h = (h c.id (ground arith), All-of-has P cs (λ j here. h j (ground arith)))

has-stay_of :
    (channels : ℕ → SendChannel) (j : ℕ) (cs : List Client)
    → has j cs ≡ false
    → has j (stay_of channels cs) ≡ false
unfolding has
has-stay_of channels j [] h = refl
has-stay_of channels j (c ∷ cs) h = ground (arith, has-stay_of channels j cs)

stay_of-DistinctIds :
    (channels : ℕ → SendChannel) (cs : List Client)
    → DistinctIds cs
    → DistinctIds (stay_of channels cs)
unfolding has
stay_of-DistinctIds channels [] d = tt
stay_of-DistinctIds channels (c ∷ cs) d =
    ground (arith, stay_of-DistinctIds channels cs d.1, has-stay_of channels c.id cs d.0)

stay_of-AllOpen :
    (m : Message) (channels after : ℕ → SendChannel) (cs : List Client)
    → All (λ c. after c.id ≡ served m (channels c.id)) cs
    → AllOpen after (stay_of channels cs)
stay_of-AllOpen m channels after [] a = tt
stay_of-AllOpen m channels after (c ∷ cs) a =
    ground (arith, stay_of-AllOpen m channels after cs a.1)

length-served :
    (m : Message) (ch : SendChannel)
    → length ch.queue ≤ send_capacity
    → length (served m ch).queue ≤ send_capacity
length-served m ch h = ground (arith, length-append ch.queue (m ∷ []))

-- The log after the evicted clients are reported.
abbrev pub evictions : String → List Client → List PresenceReport → List PresenceReport
evictions room [] log = log
evictions room (c ∷ cs) log =
    evictions room cs (record { user_id = c.user_id; room = room; status = offline } ∷ log)

notify_evicted_lem :
    (cs : List Client) (r : Room)
    → notify_evicted cs r ≡ record r { presence = evictions r.name cs r.presence }
unfolding notify_evicted
notify_evicted_lem [] r = refl
notify_evicted_lem (c ∷ cs) r = notify_evicted_lem cs (notify r c.user_id offline)

-- A broadcast over a valid room.
pub record Broadcasted (r : Room) (frame : Message) (r' : Room) : Type 0 where
  pub name : r'.name ≡ r.name
  pub clients : r'.clients ≡ stay_of r.channels r.clients
  pub channel :
      (j : ℕ)
      → r'.channels j ≡ (if has j r.clients then served frame (r.channels j) else r.channels j)
  pub presence : r'.presence ≡ evictions r.name (evicted_of r.channels r.clients) r.presence
  pub archived : r'.archived ≡ r.archived

abbrev pub frame_of : Room → String → ℤ → String → ℕ → Message
frame_of r type user_id content now = record {
  type = type;
  room = r.name;
  user_id = user_id;
  content = content;
  timestamp = now;
}

-- In a valid room a broadcast never panics: every client with room in its channel gets the frame
-- and stays, every other is closed, dropped and reported offline, nothing is archived, no other
-- channel changes, and the room stays valid.
pub broadcast_event-Broadcasted :
    (r : Room) (type : String) (user_id : ℤ) (content : String) (now : ℕ)
    → Inv r
    → (r' : Room) × (broadcast_event r type user_id content now ≡ some r')
      × Broadcasted r (frame_of r type user_id content now) r'
      × Inv r'
unfolding broadcast_event
broadcast_event-Broadcasted r type user_id content now v =
    let m = frame_of r type user_id content now in
    let (f, done, spec) = fan_out-FannedOut m r.clients r.channels v.distinct v.opened in
    let cleared : Room = record r { clients = f.stay; channels = f.channels } in
    let log = evictions r.name f.evicted r.presence in
    let r' : Room = record cleared { presence = log } in
    (
      r',
      rw (done, notify_evicted_lem f.evicted cleared) refl,
      record {
        name = refl;
        clients = spec.stay;
        channel = spec.channel;
        presence = ap (λ cs. evictions r.name cs r.presence) spec.evicted;
        archived = refl;
      },
      record {
        distinct = rw spec.stay (stay_of-DistinctIds r.channels r.clients v.distinct);
        opened = rw spec.stay (
            stay_of-AllOpen m r.channels f.channels r.clients (
              All-of-has (λ j. f.channels j ≡ served m (r.channels j)) r.clients
                (λ j here. ground (arith, spec.channel j))));
        bounded = λ j.
            ground
              (arith, spec.channel j, length-served m (r.channels j) (v.bounded j), v.bounded j);
      },
    )
