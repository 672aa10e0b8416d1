-- ===== src/Notification/Store/Endpoints.antt =====
-- What the tables promise to the services on them.
use realtime_chat_platform.Prelude.{
  ◌≡◌, subst, String, String_discrete, ℤ, ℤ_discrete, Bool, true, false, some, List, [], ◌∷◌, ite,
  All, arith,
}
use realtime_chat_platform.Notification.Domain.{Webhook}
use realtime_chat_platform.Notification.Fanout.{contains}
use realtime_chat_platform.Notification.Fanout.Recipients.{AnswersQuery}
use realtime_chat_platform.Notification.Store.{
  upsert, get_by_user_id, select_users, list_by_user_ids, Subscription, subscribe, unsubscribe,
  list_user_ids_by_room,
}

select_users-All :
    (ids : List ℤ) (ws : List Webhook)
    → All (λ w. contains w.user_id ids ≡ true) (select_users ids ws)
unfolding select_users
select_users-All ids [] = tt
select_users-All ids (w ∷ ws) = ground (arith, select_users-All ids ws)

list_by_user_ids-All :
    (table : List Webhook) (ids : List ℤ)
    → All (λ w. contains w.user_id ids ≡ true) (list_by_user_ids table ids)
unfolding list_by_user_ids
list_by_user_ids-All table ids = ground (arith, select_users-All ids table)

-- The table answers the queries of the fan-out as that relies on.
pub list_by_user_ids-AnswersQuery :
    (insert_fails : ℤ → Bool) (table : List Webhook)
    → AnswersQuery insert_fails (λ ids. some (list_by_user_ids table ids))
list_by_user_ids-AnswersQuery insert_fails table ids ws e =
    let same : list_by_user_ids table ids ≡ ws = ground arith in
    subst (All (λ w. contains w.user_id ids ≡ true)) same (list_by_user_ids-All table ids)

-- A user has one endpoint: after an upsert a read for the user gives the new URL and secret, and a
-- read for anyone else gives what it gave before.
get-upsert :
    (webhook : Webhook) (user_id : ℤ) (table : List Webhook)
    → get_by_user_id user_id (upsert webhook table)
      ≡ ite (ℤ_discrete webhook.user_id user_id) (some webhook) (get_by_user_id user_id table)
unfolding get_by_user_id upsert
get-upsert webhook user_id [] = ground arith
get-upsert webhook user_id (w ∷ ws) = ground (arith, get-upsert webhook user_id ws)

-- Whether a user is subscribed to a room.
unfoldable pub is_subscribed : ℤ → String → List Subscription → Bool
unfolding contains list_user_ids_by_room
is_subscribed user_id room table = contains user_id (list_user_ids_by_room room table)

-- After a subscription the user is among those of the room, after its end not, and nothing else
-- changes, for other users and for other rooms.
pub subscriptions_lem :
    (user_id other : ℤ) (room elsewhere : String) (table : List Subscription)
    → (is_subscribed other elsewhere (subscribe user_id room table)
        ≡ ite
            (ℤ_discrete other user_id)
            (ite (String_discrete elsewhere room) true (is_subscribed other elsewhere table))
            (is_subscribed other elsewhere table))
      × (is_subscribed other elsewhere (unsubscribe user_id room table)
          ≡ ite
              (ℤ_discrete other user_id)
              (ite (String_discrete elsewhere room) false (is_subscribed other elsewhere table))
              (is_subscribed other elsewhere table))
unfolding is_subscribed contains list_user_ids_by_room subscribe unsubscribe
subscriptions_lem user_id other room elsewhere [] = (ground arith, ground arith)
subscriptions_lem user_id other room elsewhere (s ∷ ss) =
    let (sub, unsub) = subscriptions_lem user_id other room elsewhere ss in
    (ground (arith, sub), ground (arith, unsub))
