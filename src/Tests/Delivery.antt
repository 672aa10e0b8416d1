-- ===== src/Tests/Delivery.antt =====
-- Deliveries at concrete inputs.
use realtime_chat_platform.Prelude.{ℕ, zero, suc, ◌≡◌, pos, Bool, true, none, bytes}
use realtime_chat_platform.Notification.Domain.{Recipient, pending}
use realtime_chat_platform.Notification.Deliverer.{Reply, transport_error, answered, Row, deliver}
use realtime_chat_platform.Notification.Deliverer.Fate.{Fate, rows_of, deliver_follows}
use realtime_chat_platform.Notification.Deliverer.Settled.{SettledBy, deliver_settles}

abbrev recipient : Recipient
recipient = record {
  webhook = record { user_id = pos 2; url = "https://example.com/hook"; secret = "s" };
  delivery = record {
    id = 1;
    event_id = "e1";
    user_id = pos 2;
    room = "general";
    url = "https://example.com/hook";
    status = pending;
    attempts = 0;
    last_status = none;
    last_error = none;
  };
}

-- No connection, then a 503, then a 204.
abbrev reply : ℕ → Reply
reply zero = transport_error (bytes "refused")
reply (suc zero) = answered 503
reply (suc (suc k)) = answered 204

abbrev slept : ℕ → Bool
slept attempt = true

deliver_follows_example :
    (fate : Fate reply slept) × (deliver reply slept recipient none ≡ rows_of reply slept 1 fate)
deliver_follows_example = deliver_follows reply slept recipient

deliver_settles_example : (last : Row) × SettledBy (deliver reply slept recipient none) last
deliver_settles_example = deliver_settles reply slept recipient none
