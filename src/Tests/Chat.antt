-- ===== src/Tests/Chat.antt =====
-- The rooms, the hub and the dispatcher at concrete inputs.
use realtime_chat_platform.Prelude.Maps
use realtime_chat_platform.Prelude.{
  ℕ, ◌≤◌, ◌≡◌, ◌≢◌, refl, String_discrete, pos, true, false, dec_lt, some, List, [], ◌∷◌, ◌++◌,
  length, ℕ_discrete, arith,
}
use realtime_chat_platform.Chat.Domain.{
  Message, online, Client, SendChannel, new_send_channel, send_capacity, message_type_chat,
  message_type_typing,
}
use realtime_chat_platform.Chat.Room.{
  Room, new_room, has, broadcast_event, Incoming, register, unregister, broadcast, step,
}
use realtime_chat_platform.Chat.Room.Fanout.{DistinctIds, AllOpen}
use realtime_chat_platform.Chat.Room.Broadcast.{
  Inv, Broadcasted, frame_of, broadcast_event-Broadcasted,
}
use realtime_chat_platform.Chat.Room.Safety.{IsAdmissible, row_of, step-Inv}
use realtime_chat_platform.Chat.Room.Presence.{
  NoGhostAt, Reachable, created, stepped, Reachable-NoGhostAt,
}
use realtime_chat_platform.Chat.Room.Archive.{GotFrame, IsChat, chat_archived}
use realtime_chat_platform.Chat.Hub.{Hub}
use realtime_chat_platform.Chat.Hub.Rooms.{IsWellFormed}
use mathlib.Core.List.{Perm}
use realtime_chat_platform.Queues.{new_channel, offer, work}
use realtime_chat_platform.Queues.Pool.{new_pool, offer_to, work_pool, received, finished, returned}
use realtime_chat_platform.Queues.Pool.Draining.{HasServed}
use realtime_chat_platform.Chat.Dispatcher
use realtime_chat_platform.Chat.Dispatcher.{
  Dispatcher, new_dispatcher, notify, archive, presence_worker, archive_worker, notify_worker,
  handle_presence, handle_archive, handle_notify, stop, close_wait, drained, run, notified,
  archived, presence_worked, archive_worked, notify_worked,
}
use realtime_chat_platform.Queues.Offers.{offered_to}
use realtime_chat_platform.Chat.Dispatcher.Offers.{reports, messages, only_if}
use realtime_chat_platform.Chat.Dispatcher.Delivery.{
  presence_due, row_due, message_due, close_drains,
}

abbrev alice : Client
alice = record { id = 0; user_id = pos 1 }

abbrev bob : Client
bob = record { id = 1; user_id = pos 2 }

abbrev channels : ℕ → SendChannel
channels id = new_send_channel

abbrev lobby : Room
lobby = record {
  name = "general";
  clients = alice ∷ bob ∷ [];
  channels = channels;
  presence = [];
  archived = [];
}

lobby-DistinctIds : DistinctIds (alice ∷ bob ∷ [])
unfolding has ℕ_discrete
lobby-DistinctIds = (refl, (refl, tt))

lobby-AllOpen : AllOpen channels (alice ∷ bob ∷ [])
unfolding new_send_channel
lobby-AllOpen = (refl, (refl, tt))

room_left : (j : ℕ) → length (channels j).queue ≤ send_capacity
unfolding new_send_channel
room_left j = omega arith

lobby-Inv : Inv lobby
lobby-Inv = record { distinct = lobby-DistinctIds; opened = lobby-AllOpen; bounded = room_left }

abbrev hello : Message
hello = record {
  type = "chat";
  room = "general";
  user_id = pos 1;
  content = "hello";
  timestamp = 9;
}

broadcast_event-Broadcasted_example :
    (r' : Room) × (broadcast_event lobby "chat" (pos 1) "hello" 9 ≡ some r')
    × Broadcasted lobby (frame_of lobby "chat" (pos 1) "hello" 9) r'
    × Inv r'
broadcast_event-Broadcasted_example =
    broadcast_event-Broadcasted lobby "chat" (pos 1) "hello" 9 lobby-Inv

alice_belongs : IsAdmissible lobby (unregister alice 9)
alice_belongs = (λ e. refl, (λ e. absurd (omega arith), tt))

step-Inv_example : (r' : Room) × (step lobby (unregister alice 9) ≡ some r') × Inv r'
step-Inv_example = step-Inv lobby (unregister alice 9) lobby-Inv alice_belongs

abbrev empty_room : Room
empty_room = new_room "general" channels

empty_room-Inv : Inv empty_room
unfolding new_room
empty_room-Inv = record { distinct = tt; opened = tt; bounded = room_left }

alice_may_join : IsAdmissible empty_room (register alice 5)
unfolding new_room has new_send_channel
alice_may_join = (refl, refl)

-- The room once the first client has joined.
abbrev joined : (r' : Room) × (step empty_room (register alice 5) ≡ some r') × Inv r'
joined = step-Inv empty_room (register alice 5) empty_room-Inv alice_may_join

joined-Reachable : Reachable "general" channels joined.0
joined-Reachable = stepped (register alice 5) created alice_may_join joined.1

Reachable-NoGhostAt_example : Inv joined.0 × NoGhostAt (pos 1) joined.0
Reachable-NoGhostAt_example = Reachable-NoGhostAt (pos 1) room_left joined-Reachable

abbrev said : Incoming
said = record { type = "chat"; content = "hello" }

not_typing : said.type ≢ message_type_typing
not_typing e = absurd cc

has_content : said.content ≢ ""
has_content e = absurd cc

chat_archived_example :
    (r' : Room) × (step lobby (broadcast alice (some said) 9) ≡ some r')
    × (r'.archived ≡ row_of lobby alice said 9 ∷ lobby.archived)
    × GotFrame (frame_of lobby message_type_chat (pos 1) "hello" 9) r'
chat_archived_example = chat_archived lobby alice said 9 lobby-Inv not_typing has_content

-- The room after a client left.
abbrev after_leave : (r' : Room) × (step lobby (unregister alice 9) ≡ some r') × Inv r'
after_leave = step-Inv lobby (unregister alice 9) lobby-Inv alice_belongs

leave-IsChat : ¬ IsChat (unregister alice 9)
leave-IsChat h = h

abbrev hub : Hub
hub = record { rooms = ("general", lobby) ∷ ("quiet", empty_room) ∷ []; stopped = [] }

hub-IsWellFormed : IsWellFormed hub
unfolding Maps.get String_discrete
hub-IsWellFormed = (refl, (refl, tt))

-- Before the stop, and after it with a late message that is still received and a late report that
-- nobody receives any more.
abbrev steps : List Dispatcher.Step
steps =
    notified "general" (pos 1) online
    ∷ archived "e1" "general" (pos 1) "hello" 9
    ∷ archive_worked received
    ∷ archived "e2" "general" (pos 1) "again" 10
    ∷ notify_worked received
    ∷ notify_worked received
    ∷ []

abbrev afterwards : List Dispatcher.Step
afterwards =
    notify_worked (finished 1)
    ∷ archived "e3" "general" (pos 2) "late" 11
    ∷ archive_worked (finished 0)
    ∷ archive_worked received
    ∷ archive_worked (finished 0)
    ∷ archive_worked received
    ∷ archive_worked (finished 0)
    ∷ archive_worked returned
    ∷ presence_worked received
    ∷ presence_worked (finished 0)
    ∷ presence_worked returned
    ∷ notify_worked (finished 0)
    ∷ notify_worked received
    ∷ notify_worked (finished 0)
    ∷ notify_worked returned
    ∷ notify_worked returned
    ∷ notify_worked returned
    ∷ notify_worked returned
    ∷ notified "general" (pos 2) online
    ∷ []

abbrev before_stop : Dispatcher
before_stop = run (new_dispatcher true) steps

abbrev after_stop : Dispatcher
after_stop = run (stop before_stop) afterwards

goes_on : before_stop.stopped ≡ false
unfolding run Dispatcher.step new_dispatcher notify archive presence_worker archive_worker
    notify_worker new_pool new_channel offer offer_to work work_pool
goes_on = refl

all_returned : close_wait after_stop ≡ drained
unfolding run Dispatcher.step new_dispatcher notify archive presence_worker archive_worker
    notify_worker new_pool new_channel offer offer_to work work_pool stop close_wait dec_lt
all_returned = refl

close_drains_example :
    HasServed presence_due before_stop.presence_q.channel.accepted
      (λ made due. made ≡ due)
      after_stop.presence_q
    × HasServed row_due before_stop.archive_q.channel.accepted
        (λ made due. made ≡ due)
        after_stop.archive_q
    × HasServed message_due before_stop.notify_q.channel.accepted
        (λ made due. Perm made due)
        after_stop.notify_q
    × Perm (offered_to after_stop.presence_q.channel) (reports steps ++ reports afterwards)
    × Perm (offered_to after_stop.archive_q.channel) (messages steps ++ messages afterwards)
    × Perm
        (offered_to after_stop.notify_q.channel)
        (only_if true (messages steps ++ messages afterwards))
close_drains_example = close_drains true steps afterwards goes_on all_returned
