-- ===== src/Chat/Room/Archive.antt =====
-- What a room archives, and what its clients are sent.
use realtime_chat_platform.Prelude.{
  ℕ, ◌≡◌, refl, sym, ap, ◌∙◌, subst, ◌≢◌, inl, inr, String, String_discrete, ℤ, true, Option, none,
  some, List, [], ◌∷◌, ◌++◌, All, Bool-cases, arith,
}
use realtime_chat_platform.Chat.Domain.{
  Message, offline, Client, SendChannel, message_type_chat, message_type_join, message_type_leave,
  message_type_typing,
}
use realtime_chat_platform.Chat.Room.{
  Room, has, notify, broadcast_event, Incoming, Event, register, unregister, broadcast, on_register,
  on_unregister, archive, on_broadcast, step,
}
use realtime_chat_platform.Chat.Room.Fanout.{served, stay_of}
use realtime_chat_platform.Chat.Room.Broadcast.{
  Inv, Broadcasted, frame_of, broadcast_event-Broadcasted,
}
use realtime_chat_platform.Chat.Room.Safety.{
  IsAdmissible, joined, joined-Inv, left, left-Inv, on_unregister_lem, row_of, on_broadcast_typing,
  on_broadcast_empty, on_broadcast_chat,
}

-- The frame that a client's channel ends with.
abbrev pub last_frame : List Message → Option Message
last_frame [] = none
last_frame (m ∷ []) = some m
last_frame (m ∷ n ∷ l) = last_frame (n ∷ l)

last_frame-append : (l : List Message) (m : Message) → last_frame (l ++ (m ∷ [])) ≡ some m
last_frame-append [] m = refl
last_frame-append (x ∷ []) m = refl
last_frame-append (x ∷ y ∷ l) m = last_frame-append (y ∷ l) m

-- Every client that is still in the room got the frame.
abbrev pub GotFrame : Message → Room → Type 0
GotFrame m r = All (λ c. last_frame (r.channels c.id).queue ≡ some m) r.clients

stay_of-got :
    (m : Message) (channels after : ℕ → SendChannel) (cs : List Client)
    → All (λ c. after c.id ≡ served m (channels c.id)) cs
    → All (λ c. last_frame (after c.id).queue ≡ some m) (stay_of channels cs)
stay_of-got m channels after [] a = tt
stay_of-got m channels after (c ∷ cs) a =
    ground (arith, stay_of-got m channels after cs a.1, last_frame-append (channels c.id).queue m)

has-All :
    (P : ℕ → Type 0) (cs : List Client) → ((j : ℕ) → has j cs ≡ true → P j) → All (λ c. P c.id) cs
unfolding has
has-All P [] h = tt
has-All P (c ∷ cs) h = (h c.id (ground arith), has-All P cs (λ j here. h j (ground arith)))

Broadcasted-GotFrame : (r : Room) (m : Message) (r' : Room) → Broadcasted r m r' → GotFrame m r'
Broadcasted-GotFrame r m r' b =
    subst (All (λ c. last_frame (r'.channels c.id).queue ≡ some m)) (sym b.clients) (
      stay_of-got m r.channels r'.channels r.clients (
        has-All (λ j. r'.channels j ≡ served m (r.channels j)) r.clients
          (λ j here. ground (arith, b.channel j))))

-- In a valid room a decoded chat message with content is archived, once, under the room's name, the
-- sender's own id and the very time of the frame that every client still in the room was sent.
pub chat_archived :
    (r : Room) (from : Client) (m : Incoming) (now : ℕ)
    → Inv r
    → m.type ≢ message_type_typing
    → m.content ≢ ""
    → (r' : Room) × (step r (broadcast from (some m) now) ≡ some r')
      × (r'.archived ≡ row_of r from m now ∷ r.archived)
      × GotFrame (frame_of r message_type_chat from.user_id m.content now) r'
unfolding step archive
chat_archived r from m now v other content =
    let frame = frame_of r message_type_chat from.user_id m.content now in
    let (r₁, done, spec, inv) =
      broadcast_event-Broadcasted r message_type_chat from.user_id m.content now v in
    (
      archive r₁ (row_of r from m now),
      on_broadcast_chat r from m now other content ∙ rw done refl,
      ap (◌∷◌ (row_of r from m now)) spec.archived,
      Broadcasted-GotFrame r frame r₁ spec,
    )

abbrev pub IsChat : Event → Type 0
IsChat (register c now) = ⊥
IsChat (unregister c now) = ⊥
IsChat (broadcast from none now) = ⊥
IsChat (broadcast from (some m) now) = (m.type ≢ message_type_typing) × (m.content ≢ "")

broadcast_event_archived :
    (r : Room) (type : String) (user_id : ℤ) (content : String) (now : ℕ) (r' : Room)
    → Inv r
    → broadcast_event r type user_id content now ≡ some r'
    → r'.archived ≡ r.archived
broadcast_event_archived r type user_id content now r' v e =
    let (r₁, done, spec, inv) = broadcast_event-Broadcasted r type user_id content now v in
    let same : r₁ ≡ r' = cc in ap (λ (q : Room). q.archived) (sym same) ∙ spec.archived

-- In a valid room, of the events that its callers can send, nothing else is archived: not a join, a
-- leave, a typing notice, an empty or a malformed message.
pub only_chat_archived :
    (r : Room) (e : Event) (r' : Room)
    → Inv r
    → IsAdmissible r e
    → ¬ IsChat e
    → step r e ≡ some r'
    → r'.archived ≡ r.archived
unfolding step on_register notify
only_chat_archived r (register c now) r' v h quiet e =
    broadcast_event_archived (joined r c) message_type_join c.user_id "" now r'
      (joined-Inv r c now v h) e
only_chat_archived r (unregister c now) r' v h quiet e = elim (Bool-cases (has c.id r.clients)) [
  | inr absent ↦ unfold on_unregister in ground arith
  | inl here ↦
      let (r₁, done, spec, inv) =
        broadcast_event-Broadcasted (left r c) message_type_leave c.user_id "" now
          (left-Inv r c v) in
      let same : notify r₁ c.user_id offline ≡ r' =
        ground (arith, on_unregister_lem r c now v here) in
      ap (λ (q : Room). q.archived) (sym same) ∙ spec.archived
]
only_chat_archived r (broadcast from none now) r' v h quiet e = unfold on_broadcast in ground arith
only_chat_archived r (broadcast from (some m) now) r' v h quiet e =
    elim (String_discrete m.type message_type_typing) [
      | yes typing ↦
          broadcast_event_archived r message_type_typing from.user_id "" now r' v
            (sym (on_broadcast_typing r from m now typing) ∙ e)
      | no other ↦ elim (String_discrete m.content "") [
        | yes empty ↦ ground (arith, on_broadcast_empty r from m now other empty)
        | no content ↦ absurd (quiet (other, content))
      ]
    ]
