-- ===== src/Notification/Fanout/Candidates.antt =====
-- Who is a candidate for a webhook.
use realtime_chat_platform.Prelude.{◌≡◌, ◌≢◌, ◌↔◌, ℤ, true, false, List, [], ◌∷◌, arith}
use realtime_chat_platform.Notification.Fanout.{contains, candidates_of}

-- A candidate subscribed, did not send the message, and is not online.
pub record IsCandidate (sender : ℤ) (online subscribers : List ℤ) (id : ℤ) : Type 0 where
  pub subscribed : contains id subscribers ≡ true
  pub not_sender : id ≢ sender
  pub not_online : contains id online ≡ false

module _ (sender : ℤ) (online : List ℤ) (id : ℤ) where
  candidates_of_sound :
      (ids : List ℤ)
      → contains id (candidates_of sender online ids) ≡ true
      → (contains id ids ≡ true) × ((id ≢ sender) × (contains id online ≡ false))
  unfolding candidates_of contains
  candidates_of_sound [] h = absurd (ground arith)
  candidates_of_sound (j ∷ ids) h = ground (arith, candidates_of_sound ids)

  candidates_of_complete :
      (ids : List ℤ)
      → contains id ids ≡ true
      → id ≢ sender
      → contains id online ≡ false
      → contains id (candidates_of sender online ids) ≡ true
  unfolding candidates_of contains
  candidates_of_complete [] h n o = absurd (ground arith)
  candidates_of_complete (j ∷ ids) h n o = ground (arith, candidates_of_complete ids)

  pub candidates_of_iff :
      (subscribers : List ℤ)
      → (contains id (candidates_of sender online subscribers) ≡ true)
        ↔ IsCandidate sender online subscribers id
  candidates_of_iff subscribers = (
    λ h.
        (let s = candidates_of_sound subscribers h in
          record { subscribed = s.0; not_sender = s.1.0; not_online = s.1.1 }),
    λ v. candidates_of_complete subscribers v.subscribed v.not_sender v.not_online,
  )
