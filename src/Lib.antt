-- ===== src/Lib.antt =====
-- The realtime chat platform: a gateway in front of chat, notification, presence and media
-- services. The gateway caches media at the edge, balances WebSocket handshakes over the chat
-- instances by consistent hashing of the room, turns one-shot tickets into tokens and forwards
-- identities to the services behind it. A chat instance keeps rooms whose loops fan frames out to
-- clients, and hands presence changes and messages to a dispatcher, which posts them on. The
-- notification service turns a message event into webhook calls for the subscribers who are
-- offline. The presence service keeps in Redis who is online in which room through which instance,
-- and the media service stores images under the SHA-256 of their bytes.
--
-- Prelude: shared names, Boolean tests, lists, maps as association lists, texts and their bytes,
--   decimal numbers as strconv prints and reads them (Decimal), insertion sort (Sorting), the
--   orders of bytes and integers (Orders), and int64 where its sign matters.
-- Queues: the buffered channels of both dispatchers, with what was accepted, taken out and dropped;
--   Pool has the workers of such a channel, with the events in their hands and the calls made.
-- Gateway (gateway/internal):
--   EdgeCache: edgecache/cache.go. `Inv` is the invariant, `contents` the abstract list, and History has
--     runs of calls.
--   EdgeHandler: edgecache/handler.go, one request on its own; Flights has concurrent misses.
--   LoadBalancer: loadbalancer, with Pool (pool.go, backend.go), Hash and ConsistentHash
--     (consistent_hash.go) and RoundRobin (round_robin.go).
--   Http, Proxy: what a request carries, and the three files of proxy on it.
--   Tickets: service/ticket_service.go, with Middleware for middleware/ws_ticket.go and Controller
--     for controller/ticket_controller.go.
--   Users: service/user_service.go, repository/user_repository.go and
--     controller/auth_controller.go.
-- Tokens: the three copies of middleware/jwt.go, in the gateway, the chat and the presence service,
--   over the JWT library as an interface with laws. Journey goes by way of a ticket.
-- Chat (chat-service/internal):
--   Domain: domain, and the send channel of ws/client.go.
--   Room: ws/room.go. A method that may panic returns an option; `step` is one round of `run`.
--   Hub: ws/hub.go.
--   Dispatcher: dispatch/dispatcher.go as steps in any order, also after `Close` has stopped the
--     workers; its handlers are the calls that they make.
--   Messages: repository/message_repository.go and service/message_service.go, with Endpoint for
--     controller/message_controller.go.
--   Handler: ws/handler.go and validation/room.go.
--   PresenceClient: service/presence_client.go, notification_client.go and the sweep of
--     presence_heartbeat.go.
-- Notification (notification-service/internal):
--   Domain, Validation: domain, service/validation.go and ssrf.go.
--   Store: the tables of webhooks and subscriptions, and service/webhook_service.go.
--   Fanout: service/fanout_service.go and the insert of repository/delivery_repository.go.
--   Deliverer: service/deliverer.go; `Fate` is what can become of a delivery.
--   Dispatcher: dispatch/dispatcher.go as steps in any order.
--   Http: middleware/gateway_auth.go, the controllers and service/subscription_service.go.
-- Presence (presence-service/internal):
--   Redis: the commands that the service uses, as an interface with laws, and an instance in memory.
--   Repository: repository/presence_repository.go, on members `<user_id>:<instance_id>`.
--   History: runs of the repository with the time between, against the last report of each user's
--     instance that came through.
--   Service: service/presence_service.go and controller/presence_controller.go.
-- Media (media-service/internal):
--   Store: storage/store.go over a directory, each call on a file with its failure; Objects,
--     Publishing and Uploads have what holds after uploads.
--   Controller: controller/media_controller.go and middleware/gateway_auth.go.
-- Config: the five config/config.go, `LoadConfig` of each in Services.
-- Tests: the theorems at concrete inputs.
--
-- State is passed on explicitly; a method under a mutex is one step. A pointer is a number. Times,
-- random bytes, and what the network answers are arguments. The databases are tables that compare
-- texts exactly, except for the email of a user, whose collation is an argument; where a database
-- may fail, the failure is an argument.
-- Loops over lists are recursions; `make_room` has the length of its list for fuel and takes one
-- element off per round, the loops of `Deliver` and `post` have as many rounds as the code allows,
-- the binary search the length of the ring, and decimal digits the number itself.
--
-- Not modelled: the timeout of the notification dispatcher's close, the network pumps of a client,
-- logging, request ids, the keys between services and the wiring of the servers, which are input and
-- output; two uploads or two commands of a transaction at once.
pub mod Prelude
pub mod Queues
pub mod Tokens
pub mod Gateway
pub mod Chat
pub mod Notification
pub mod Presence
pub mod Media
pub mod Config
mod Tests
