-- ===== src/Chat/Room.antt =====
-- chat-service/internal/ws/room.go: the loop of a room, one event at a time. `none` is a panic. The
-- iteration order of the client map is the order of the list, which every theorem leaves open. The
-- calls of the presence notifier and of the archiver are kept newest first; times are arguments,
-- and an incoming payload comes as `json.Unmarshal` decodes it (`none` for malformed).
pub mod Fanout
pub mod Broadcast
pub mod Safety
pub mod Presence
pub mod Archive
use realtime_chat_platform.Prelude.{
  ℕ, String, String_discrete, ℤ, ℤ_discrete, Bool, true, false, Option, none, some, List, [], ◌∷◌,
  ◌++◌, ite, ℕ_discrete, length, if◌then◌else◌,
}
use realtime_chat_platform.Chat.Domain.{
  Message, PresenceStatus, online, offline, PresenceReport, Client, SendChannel, SendResult, sent,
  full, send_panic, try_send, close, message_type_chat, message_type_join, message_type_leave,
  message_type_typing,
}

infixl 5 ◌>>=◌
abbrev pub ◌>>=◌ : {A B : Type 0} → Option A → (A → Option B) → Option B
none >>= f = none
some a >>= f = f a

pub record Archived : Type 0 where
  pub room : String
  pub user_id : ℤ
  pub content : String
  pub created_at : ℕ

pub record Room : Type 0 where
  pub name : String
  pub clients : List Client
  -- the send channel of every client, in the room or not
  pub channels : ℕ → SendChannel
  pub presence : List PresenceReport
  pub archived : List Archived

abbrev pub update : (ℕ → SendChannel) → ℕ → SendChannel → ℕ → SendChannel
update channels k ch j = ite (ℕ_discrete j k) ch (channels j)

unfoldable pub new_room : String → (ℕ → SendChannel) → Room
new_room name channels = record {
  name = name;
  clients = [];
  channels = channels;
  presence = [];
  archived = [];
}

-- The client map: keyed by pointer.
unfoldable pub has : ℕ → List Client → Bool
has i [] = false
has i (c ∷ cs) = ite (ℕ_discrete i c.id) true (has i cs)

unfoldable pub remove : ℕ → List Client → List Client
remove i [] = []
remove i (c ∷ cs) = ite (ℕ_discrete i c.id) (remove i cs) (c ∷ remove i cs)

unfoldable pub notify : Room → ℤ → PresenceStatus → Room
notify r user_id status = record r {
  presence = record { user_id = user_id; room = r.name; status = status } ∷ r.presence;
}

-- The clients that stay, the channels afterwards, and the clients that are evicted.
pub record Fanned : Type 0 where
  pub stay : List Client
  pub channels : ℕ → SendChannel
  pub evicted : List Client

-- The loop of `broadcastEvent` under the mutex.
unfoldable pub fan_out : Message → List Client → (ℕ → SendChannel) → Option Fanned
fan_out m [] channels = some (record { stay = []; channels = channels; evicted = [] })
fan_out m (c ∷ cs) channels = elim (try_send (channels c.id) m) [
  | send_panic ↦ none
  | sent ch ↦ do
    rest ← fan_out m cs (update channels c.id ch)
    some (record rest { stay = c ∷ rest.stay })
  | full ↦ do
    ch ← close (channels c.id)
    rest ← fan_out m cs (update channels c.id ch)
    some (record rest { evicted = c ∷ rest.evicted })
]

-- Every evicted client is reported offline.
unfoldable pub notify_evicted : List Client → Room → Room
unfolding notify
notify_evicted [] r = r
notify_evicted (c ∷ cs) r = notify_evicted cs (notify r c.user_id offline)

-- `json.Marshal` of a frame, which has texts, an int64 and a time, fails only for a time whose year
-- has more than four digits, and then nothing is sent; times that a clock reads are taken to be
-- within range, so that branch has no step here. The time that the method returns is `now`, which
-- it stamps on the frame and its caller passes on.
unfoldable pub broadcast_event : Room → String → ℤ → String → ℕ → Option Room
broadcast_event r type user_id content now = do
  let frame : Message = record {
    type = type;
    room = r.name;
    user_id = user_id;
    content = content;
    timestamp = now;
  }
  f ← fan_out frame r.clients r.channels
  some (notify_evicted f.evicted (record r { clients = f.stay; channels = f.channels }))

-- What is read of a payload.
pub record Incoming : Type 0 where
  pub type : String
  pub content : String

pub data Event : Type 0 where
  register : Client → ℕ → Event
  unregister : Client → ℕ → Event
  broadcast : Client → Option Incoming → ℕ → Event

unfoldable pub on_register : Room → Client → ℕ → Option Room
on_register r c now =
    let joined = record r { clients = if has c.id r.clients then r.clients else c ∷ r.clients } in
    broadcast_event (notify joined c.user_id online) message_type_join c.user_id "" now

unfoldable pub on_unregister : Room → Client → ℕ → Option Room
on_unregister r c now =
    let leave : Option Room = (do
      ch ← close (r.channels c.id)
      let left : Room = record r {
        clients = remove c.id r.clients;
        channels = update r.channels c.id ch;
      }
      r' ← broadcast_event left message_type_leave c.user_id "" now
      some (notify r' c.user_id offline)) in
    if has c.id r.clients then leave else some r

unfoldable pub archive : Room → Archived → Room
archive r row = record r { archived = row ∷ r.archived }

unfoldable pub on_broadcast : Room → Client → Option Incoming → ℕ → Option Room
unfolding archive
on_broadcast r from none now = some r
on_broadcast r from (some m) now =
    let chat : Option Room = (do
      r' ← broadcast_event r message_type_chat from.user_id m.content now
      some (
          archive r' (record {
            room = r.name;
            user_id = from.user_id;
            content = m.content;
            created_at = now;
          }))) in
    let typing = broadcast_event r message_type_typing from.user_id "" now in
    ite (String_discrete m.type message_type_typing) typing
      (ite (String_discrete m.content "") (some r) chat)

unfoldable pub step : Room → Event → Option Room
step r (register c now) = on_register r c now
step r (unregister c now) = on_unregister r c now
step r (broadcast from payload now) = on_broadcast r from payload now

-- `UserIDs`: each user once, in the order of the map.
unfoldable pub seen_user : ℤ → List ℤ → Bool
seen_user u [] = false
seen_user u (v ∷ vs) = ite (ℤ_discrete u v) true (seen_user u vs)

unfoldable pub user_ids_from : List ℤ → List Client → List ℤ
unfolding seen_user
user_ids_from seen [] = []
user_ids_from seen (c ∷ cs) =
    let skip = user_ids_from seen cs in
    let keep = c.user_id ∷ user_ids_from (c.user_id ∷ seen) cs in
    if seen_user c.user_id seen then skip else keep

unfoldable pub user_ids : Room → List ℤ
unfolding user_ids_from
user_ids r = user_ids_from [] r.clients

unfoldable pub client_count : Room → ℕ
client_count r = length r.clients
