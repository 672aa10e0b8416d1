-- ===== src/Tests/Calls.antt =====
-- Handshakes at a chat instance, and calls at the notification service, at concrete inputs.
use Prim.Native.String.{◌++◌ as ◌⊕◌}
use realtime_chat_platform.Prelude.{
  ℕ, ◌≤◌, ◌≡◌, ◌↔◌, ◌⊎◌, refl, String_discrete, ℤ, ℤ_discrete, pos, true, false, none, some, List,
  [], ◌∷◌, ite, bytes, length, arith,
}
use realtime_chat_platform.Prelude.Lists.{All}
use realtime_chat_platform.Gateway.Http.{Request}
use realtime_chat_platform.Gateway.Proxy.{trusted_proxy}
use realtime_chat_platform.Chat.Domain.{new_send_channel}
use realtime_chat_platform.Chat.Hub.{new_hub}
use realtime_chat_platform.Chat.Handler.{Handshake, World, validate_room_name}
use realtime_chat_platform.Chat.Handler.Admission.{
  Admitted, TurnedAway, serve_lem, room_names_agree,
}
use realtime_chat_platform.Presence.Service as PresenceService
use realtime_chat_platform.Notification.Validation as NotificationValidation
use realtime_chat_platform.Notification.Domain.{Delivery, MessageEvent, pending}
use realtime_chat_platform.Notification.Dispatcher.{new_dispatcher}
use realtime_chat_platform.Notification.Http.{
  gateway_auth, deliveries_shown, list_deliveries_handler, user_id_from, limit_of, list_deliveries,
  deliveries_of, message_handler,
}
use realtime_chat_platform.Notification.Http.Identity.{gateway_auth-trusted_proxy}
use realtime_chat_platform.Notification.Http.Calls.{
  deliveries_own, Handled, message_handler-Handled,
}
use realtime_chat_platform.Config.{Env}
use realtime_chat_platform.Config.Services.{ChatConfig, instance_id_of, load_chat}
use realtime_chat_platform.Config.Startup.{CanStart, load_chat_iff}
use realtime_chat_platform.Tests.Services.{tokens}
use realtime_chat_platform.Tests.Accounts.{secret, token_text}

abbrev browser : Handshake
browser = record {
  room = "lobby";
  authorization = "Bearer " ⊕ token_text;
  origin = "https://chat.example.org";
}

abbrev calm : World
calm = record { upgrades = true; connection = 7; taken = true }

serve_lem_example :
    Admitted
      (λ (n : ℕ). new_send_channel)
      tokens
      secret
      ("https://chat.example.org" ∷ [])
      calm
      200
      browser
      new_hub
    ⊎ TurnedAway
        (λ (n : ℕ). new_send_channel)
        tokens
        secret
        ("https://chat.example.org" ∷ [])
        calm
        200
        browser
        new_hub
serve_lem_example =
    serve_lem (λ (n : ℕ). new_send_channel) tokens secret ("https://chat.example.org" ∷ []) calm 200
      browser new_hub

room_names_agree_example :
    ((validate_room_name "lobby" ≡ none) ↔ (PresenceService.validate_room "lobby" ≡ none))
    × ((validate_room_name "lobby" ≡ none) ↔ (NotificationValidation.validate_room "lobby" ≡ none))
room_names_agree_example = room_names_agree "lobby"

-- A request that claims to be someone else's.
abbrev claiming : Request
claiming = record {
  path = "/webhook";
  query = [];
  headers = ("X-User-Id", "7") ∷ ("X-Gateway-Key", "guess") ∷ [];
}

gateway_auth-trusted_proxy_example :
    (gateway_auth (bytes "key") (trusted_proxy "key" "r1" (some (pos 1)) claiming) ≡ some (pos 1))
    × (gateway_auth (bytes "key") (trusted_proxy "key" "r1" none claiming) ≡ none)
gateway_auth-trusted_proxy_example =
    gateway_auth-trusted_proxy "key" "r1" (pos 1) claiming (omega arith) refl

abbrev delivery_of : ℕ → ℤ → Delivery
delivery_of id user_id = record {
  id = id;
  event_id = "e1";
  user_id = user_id;
  room = "lobby";
  url = "https://hooks.example.org";
  status = pending;
  attempts = 0;
  last_status = none;
  last_error = none;
}

abbrev rows : List Delivery
rows = delivery_of 3 (pos 1) ∷ delivery_of 2 (pos 2) ∷ delivery_of 1 (pos 1) ∷ []

abbrev shown : List Delivery
shown = delivery_of 3 (pos 1) ∷ delivery_of 1 (pos 1) ∷ []

list_shown : list_deliveries_handler false (some (pos 1)) "" rows ≡ deliveries_shown shown
unfolding list_deliveries_handler limit_of list_deliveries deliveries_of String_discrete ℤ_discrete
    user_id_from
list_shown = refl

deliveries_own_example :
    (user_id : ℤ) × (some (pos 1) ≡ some user_id)
    × All (λ (d : Delivery). d.user_id ≡ user_id) shown
    × (length shown ≤ 100)
deliveries_own_example = deliveries_own false (some (pos 1)) "" rows shown list_shown

abbrev message : MessageEvent
message = record {
  event_id = "0123456789abcdef";
  room = "lobby";
  user_id = pos 1;
  content = "hello";
  created_at = 1;
}

message_handler-Handled_example :
    Handled message (new_dispatcher 4) (message_handler (some message) (new_dispatcher 4))
message_handler-Handled_example = message_handler-Handled message (new_dispatcher 4)

-- The environment of a second instance on one machine.
abbrev environment : Env
environment key = ite (String_discrete key "SERVER_PORT") (some "8011") (
    ite (String_discrete key "JWT_SECRET") (some "s1") (
      ite (String_discrete key "PRESENCE_API_KEY") (some "s2")
        (ite (String_discrete key "NOTIFICATION_API_KEY") (some "s3") none)))

load_chat_iff_example :
    ((c : ChatConfig) × (load_chat environment ≡ some c)
      × (c.instance_id ≡ instance_id_of environment))
    ↔ CanStart environment
load_chat_iff_example = load_chat_iff environment
