-- ===== src/Notification/Domain.antt =====
-- notification-service/internal/domain/notification.go, and `Recipient` of
-- internal/service/fanout_service.go. The times of the rows are left out.
use realtime_chat_platform.Prelude.{ℕ, String, ℤ, Option, List}

pub record Webhook : Type 0 where
  pub user_id : ℤ
  pub url : String
  pub secret : String

pub data DeliveryStatus : Type 0 where
  pending delivered failed : DeliveryStatus

-- The row of one event for one recipient; the error text is in bytes.
pub record Delivery : Type 0 where
  pub id : ℕ
  pub event_id : String
  pub user_id : ℤ
  pub room : String
  pub url : String
  pub status : DeliveryStatus
  pub attempts : ℕ
  pub last_status : Option ℕ
  pub last_error : Option (List ℕ)

pub record MessageEvent : Type 0 where
  pub event_id : String
  pub room : String
  pub user_id : ℤ
  pub content : String
  pub created_at : ℕ

pub record Recipient : Type 0 where
  pub webhook : Webhook
  pub delivery : Delivery
