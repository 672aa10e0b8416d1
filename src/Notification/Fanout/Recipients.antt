-- ===== src/Notification/Fanout/Recipients.antt =====
-- Who is notified, and that nobody is notified twice.
use realtime_chat_platform.Prelude.{
  ◌≡◌, inl, inr, sym, ap, ◌∙◌, subst, ℤ, Bool, true, false, Option-cases, Option, none, some, List,
  [], ◌∷◌, All, arith,
}
use realtime_chat_platform.Notification.Domain.{Webhook, MessageEvent, Recipient}
use realtime_chat_platform.Notification.Fanout.{
  Deliveries, contains, candidates_of, known_online, listing_webhooks, recipients,
}
use realtime_chat_platform.Notification.Fanout.Candidates.{IsCandidate, candidates_of_iff}
use realtime_chat_platform.Notification.Fanout.Rounds.{
  Grows-refl, add, AllNew, RecordedIn, Recorded, add-Recorded, add-AllNew, add_again,
}

All-map :
    {P Q : Webhook → Type 0} (ws : List Webhook) → ((w : Webhook) → P w → Q w) → All P ws → All Q ws
All-map [] f h = tt
All-map (w ∷ ws) f h = (f w h.0, All-map ws f h.1)

module _ (insert_fails : ℤ → Bool) (list_by_user_ids : List ℤ → Option (List Webhook)) where
  -- The database answers a query for the webhooks of some users with webhooks of those users.
  abbrev pub AnswersQuery : Type 0
  AnswersQuery =
      (ids : List ℤ) (ws : List Webhook)
      → list_by_user_ids ids ≡ some ws
      → All (λ w. contains w.user_id ids ≡ true) ws

  module _ (subscribers : List ℤ) (online : Option (List ℤ)) (event : MessageEvent)
      (table : Deliveries) where
    abbrev asked : List ℤ
    asked = candidates_of event.user_id (known_online online) subscribers

    recipients_lost :
        list_by_user_ids asked ≡ none
        → recipients insert_fails (some subscribers) online list_by_user_ids event table
          ≡ record { table = table; result = inr listing_webhooks }
    unfolding recipients
    recipients_lost lost = ground (arith, lost)

    recipients_found :
        (ws : List Webhook)
        → list_by_user_ids asked ≡ some ws
        → recipients insert_fails (some subscribers) online list_by_user_ids event table
          ≡ add insert_fails event ws [] table
    unfolding recipients
    recipients_found ws found = ground (arith, found)

  -- If the database answers a query with webhooks of the users asked for, then a fan-out that
  -- succeeds calls only users who fit: a user who subscribed to the room, did not send the message,
  -- is not known to be online, and had no delivery row for the event before. Without an answer from
  -- the presence service all subscribers but the sender count as offline.
  pub recipients_lem :
      AnswersQuery
      → (subscribers : List ℤ) (online : Option (List ℤ)) (event : MessageEvent)
        (table : Deliveries)
      → AllNew event
          (λ w. IsCandidate event.user_id (known_online online) subscribers w.user_id)
          table
          (recipients insert_fails (some subscribers) online list_by_user_ids event table).result
  recipients_lem answers subscribers online event table =
      let ids = candidates_of event.user_id (known_online online) subscribers in
      let Good : Webhook → Type 0 =
        λ w. IsCandidate event.user_id (known_online online) subscribers w.user_id in
      elim (Option-cases (list_by_user_ids ids)) [
        | inl lost ↦
            subst (λ f. AllNew event Good table f.result)
              (sym (recipients_lost subscribers online event table lost)) tt
        | inr (ws, found) ↦
            subst (λ f. AllNew event Good table f.result)
              (sym (recipients_found subscribers online event table ws found))
              (add-AllNew insert_fails event Good table ws [] table
                (All-map ws
                  (λ w.
                    (candidates_of_iff event.user_id (known_online online) w.user_id subscribers).0)
                  (answers ids ws found))
                (Grows-refl table.rows) tt)
      ]

module _ (list_by_user_ids : List ℤ → Option (List Webhook)) where
  -- Once a fan-out succeeded, the same event with the same subscribers, users online and webhooks
  -- finds no recipients and leaves the table alone, as long as the database works.
  pub recipients_replay :
      (insert_fails : ℤ → Bool) (subscribers : List ℤ) (online : Option (List ℤ))
      (event : MessageEvent) (table : Deliveries)
      → (rs : List Recipient)
      → (recipients insert_fails (some subscribers) online list_by_user_ids event table).result
        ≡ inl rs
      → (let after =
            (recipients insert_fails
              (some subscribers)
              online
              list_by_user_ids
              event
              table).table in
          recipients (λ _. false) (some subscribers) online list_by_user_ids event after
          ≡ record { table = after; result = inl [] })
  recipients_replay insert_fails subscribers online event table rs h =
      let f = recipients insert_fails (some subscribers) online list_by_user_ids event table in
      let lost_ = recipients_lost insert_fails list_by_user_ids subscribers online event table in
      let found_ = recipients_found insert_fails list_by_user_ids subscribers online event table in
      elim (Option-cases
        (list_by_user_ids (candidates_of event.user_id (known_online online) subscribers))) [
          | inl lost ↦ absurd (
              let e : inr listing_webhooks ≡ inl rs = sym (ap (λ f. f.result) (lost_ lost)) ∙ h in
              cc)
          | inr (ws, found) ↦
              let made = found_ ws found in
              let all = subst (RecordedIn event f.table ws) h (
                subst (Recorded insert_fails event ws) (sym made)
                  (add-Recorded insert_fails event ws [] table)) in
              recipients_found (λ _. false) list_by_user_ids subscribers online event f.table ws
                found
              ∙ add_again event ws [] f.table all
        ]
