-- ===== src/Notification/Store.antt =====
-- The tables of notification-service: internal/repository/webhook_repository.go and
-- subscription_repository.go, with internal/service/webhook_service.go and `validateWebhookURL` of
-- validation.go on them. The database is taken to work; `url.ParseRequestURI`, `net.ParseIP` and
-- the random bytes are arguments.
pub mod Endpoints
use realtime_chat_platform.Prelude.{
  ℕ, ◌+◌, String, String_discrete, ℤ, ℤ_discrete, Bool, true, false, ◌&&◌, ◌||◌, Option, none, some,
  List, [], ◌∷◌, ◌++◌, ite, if◌then◌else◌, ltb, leb, ◌==◌, codes, bytes, length, drop, ◌-◌, ◌⊎◌,
  inl, inr,
}
use realtime_chat_platform.Gateway.Tickets.Hex.{encode_to_string}
use realtime_chat_platform.Notification.Domain.{Webhook}
use realtime_chat_platform.Notification.Validation.{Ip, forbidden_ip}
use realtime_chat_platform.Notification.Fanout.{contains}

-- One row per user: `ON DUPLICATE KEY UPDATE` writes the URL and the secret.
unfoldable pub upsert : Webhook → List Webhook → List Webhook
upsert webhook [] = webhook ∷ []
upsert webhook (w ∷ ws) =
    let rest = upsert webhook ws in
    ite (ℤ_discrete w.user_id webhook.user_id)
      (record w { url = webhook.url; secret = webhook.secret } ∷ ws) (w ∷ rest)

-- `none` is `ErrNotFound`.
unfoldable pub get_by_user_id : ℤ → List Webhook → Option Webhook
get_by_user_id user_id [] = none
get_by_user_id user_id (w ∷ ws) =
    let rest = get_by_user_id user_id ws in ite (ℤ_discrete w.user_id user_id) (some w) rest

unfoldable pub delete_by_user_id : ℤ → List Webhook → List Webhook
delete_by_user_id user_id [] = []
delete_by_user_id user_id (w ∷ ws) =
    let rest = delete_by_user_id user_id ws in ite (ℤ_discrete w.user_id user_id) rest (w ∷ rest)

-- `WHERE user_id IN (...)`
unfoldable pub select_users : List ℤ → List Webhook → List Webhook
unfolding contains
select_users user_ids [] = []
select_users user_ids (w ∷ ws) =
    let rest = select_users user_ids ws in if contains w.user_id user_ids then w ∷ rest else rest

unfoldable pub list_by_user_ids : List Webhook → List ℤ → List Webhook
unfolding select_users
list_by_user_ids webhooks user_ids =
    if length user_ids == 0 then [] else select_users user_ids webhooks

-- What is read of a URL.
pub record ParsedUrl : Type 0 where
  pub host : String
  pub hostname : String
  pub scheme : String
  pub has_user : Bool

pub data UrlError : Type 0 where
  url_required url_too_long url_not_absolute url_scheme url_credentials url_private : UrlError

-- `strings.ToLower`, on ASCII letters.
unfoldable pub to_lower : List ℕ → List ℕ
to_lower [] = []
to_lower (c ∷ cs) =
    let rest = to_lower cs in (if leb b'A' c && leb c b'Z' then c + 32 else c) ∷ rest

unfoldable pub same_codes : List ℕ → List ℕ → Bool
same_codes [] [] = true
same_codes [] (d ∷ ds) = false
same_codes (c ∷ cs) [] = false
same_codes (c ∷ cs) (d ∷ ds) = (c == d) && same_codes cs ds

unfoldable pub has_suffix : List ℕ → List ℕ → Bool
unfolding same_codes
has_suffix text suffix =
    leb (length suffix) (length text) && same_codes (drop (length text - length suffix) text) suffix

-- The check of the host's name; `none` is no error.
unfoldable pub check_host : Option Ip → String → Bool → Option UrlError
unfolding to_lower has_suffix
check_host (some ip) hostname allow_loopback =
    if forbidden_ip ip allow_loopback then some url_private else none
check_host none hostname allow_loopback =
    let lower = to_lower (codes hostname) in
    if same_codes lower (codes "localhost") || has_suffix lower (codes ".localhost")
    then if allow_loopback then none else some url_private
    else none

module _ (parse : String → Option ParsedUrl) (parse_ip : String → Option Ip) where
  unfoldable pub validate_webhook_url : String → Bool → Option UrlError
  unfolding check_host
  validate_webhook_url raw allow_loopback = ite (String_discrete raw "") (some url_required) (
      if ltb 2048 (length (bytes raw)) then some url_too_long else elim (parse raw) [
        | none ↦ some url_not_absolute
        | some url ↦ ite (String_discrete url.host "") (some url_not_absolute) (
            if same_codes (codes url.scheme) (codes "http")
              || same_codes (codes url.scheme) (codes "https")
            then if url.has_user
              then some url_credentials
              else check_host (parse_ip url.hostname) url.hostname allow_loopback
            else some url_scheme)
      ])

  pub data PutError : Type 0 where
    invalid : UrlError → PutError
    no_entropy not_found : PutError

  -- `WebhookService.Put`: the table, and the stored row with the secret.
  unfoldable pub put_webhook :
      Bool → Option (List ℕ) → ℤ → String → List Webhook → List Webhook × (Webhook ⊎ PutError)
  unfolding validate_webhook_url upsert get_by_user_id
  put_webhook allow_loopback random user_id raw webhooks =
      elim (validate_webhook_url raw allow_loopback) [
        | some e ↦ (webhooks, inr (invalid e))
        | none ↦ elim random [
          | none ↦ (webhooks, inr no_entropy)
          | some b ↦
              let stored =
                upsert (record { user_id = user_id; url = raw; secret = encode_to_string b })
                  webhooks in
              elim (get_by_user_id user_id stored) [
                | none ↦ (stored, inr not_found)
                | some w ↦ (stored, inl w)
              ]
        ]
      ]

pub record Subscription : Type 0 where
  pub user_id : ℤ
  pub room : String

-- `INSERT IGNORE`, on the key of user and room.
unfoldable pub subscribe : ℤ → String → List Subscription → List Subscription
subscribe user_id room [] = record { user_id = user_id; room = room } ∷ []
subscribe user_id room (s ∷ ss) =
    let rest = subscribe user_id room ss in
    ite (ℤ_discrete s.user_id user_id) (ite (String_discrete s.room room) (s ∷ ss) (s ∷ rest))
      (s ∷ rest)

unfoldable pub unsubscribe : ℤ → String → List Subscription → List Subscription
unsubscribe user_id room [] = []
unsubscribe user_id room (s ∷ ss) =
    let rest = unsubscribe user_id room ss in
    ite (ℤ_discrete s.user_id user_id) (ite (String_discrete s.room room) rest (s ∷ rest))
      (s ∷ rest)

unfoldable pub list_user_ids_by_room : String → List Subscription → List ℤ
list_user_ids_by_room room [] = []
list_user_ids_by_room room (s ∷ ss) =
    let rest = list_user_ids_by_room room ss in
    ite (String_discrete s.room room) (s.user_id ∷ rest) rest
