-- ===== src/Notification/Deliverer.antt =====
-- notification-service/internal/service/deliverer.go: `Deliver` with its retries, and `record`.
-- What the encoder, each request and each backoff come to are arguments. Error texts are in bytes.
pub mod Fate
pub mod Settled
use realtime_chat_platform.Prelude.{
  ℕ, zero, suc, ◌<◌, String, Bool, true, false, ◌&&◌, Option, none, some, List, [], ◌∷◌, ◌++◌,
  if◌then◌else◌, ltb, leb, bytes, decimal, length, take,
}
use realtime_chat_platform.Notification.Domain.{
  DeliveryStatus, pending, delivered, failed, Recipient,
}

abbrev pub delivery_max_retries : ℕ
delivery_max_retries = 3

-- What `attempt` comes to.
pub data Reply : Type 0 where
  transport_error : List ℕ → Reply
  answered : ℕ → Reply

-- One call of `RecordAttempt`.
pub record Row : Type 0 where
  pub id : ℕ
  pub status : DeliveryStatus
  pub attempts : ℕ
  pub last_status : Option ℕ
  pub last_error : Option (List ℕ)

-- The error pointer of `record`: nil for an empty text, else at most 512 bytes of it.
unfoldable pub error_pointer : List ℕ → Option (List ℕ)
error_pointer [] = none
error_pointer (b ∷ bs) = some (if ltb 512 (length (b ∷ bs)) then take 512 (b ∷ bs) else b ∷ bs)

-- `record`: the row it writes.
unfoldable pub recorded : ℕ → DeliveryStatus → ℕ → Option ℕ → List ℕ → Row
unfolding error_pointer
recorded id status attempts last_status last_err = record {
  id = id;
  status = status;
  attempts = attempts;
  last_status = last_status;
  last_error = error_pointer last_err;
}

-- `fmt.Sprintf("receiver answered status=%d", status)`
unfoldable pub answered_text : ℕ → List ℕ
unfolding bytes decimal
answered_text status = bytes "receiver answered status=" ++ decimal status

-- The variables of `Deliver` around its loop, and the rows written so far.
pub record Progress : Type 0 where
  pub last_status : Option ℕ
  pub last_err : List ℕ
  pub attempts : ℕ
  pub rows : List Row

-- The loop returns from `Deliver` or is left for what follows it.
pub data Exit : Type 0 where
  returned : List Row → Exit
  left_loop : Progress → Exit

module _ (id : ℕ) where
  -- The body of the loop from `d.attempt` on; `rest` is the loop from the next attempt.
  unfoldable pub after_reply : Progress → (Progress → Exit) → Reply → Exit
  unfolding recorded answered_text
  after_reply p rest (transport_error e) = rest (record {
    last_status = none;
    last_err = e;
    attempts = p.attempts;
    rows = p.rows ++ (recorded id pending p.attempts none e ∷ []);
  })
  after_reply p rest (answered status) =
      let refused = record p { last_status = some status; last_err = answered_text status } in
      if leb 200 status && ltb status 300
      then returned (p.rows ++ (recorded id delivered p.attempts (some status) [] ∷ []))
      else if ltb status 500
      then left_loop refused
      else rest (record refused {
        rows = p.rows ++ (recorded id pending p.attempts (some status) (answered_text status) ∷ []);
      })

  -- What follows the loop.
  unfoldable pub settle : Exit → List Row
  unfolding recorded
  settle (returned rows) = rows
  settle (left_loop p) = p.rows ++ (recorded id failed p.attempts p.last_status p.last_err ∷ [])

module _ (reply : ℕ → Reply) (slept : ℕ → Bool) where
  -- `for attempt := 0; attempt <= deliveryMaxRetries; attempt++`; the fuel is the number of rounds
  -- left.
  unfoldable pub attempt_loop : ℕ → ℕ → ℕ → Progress → Exit
  unfolding after_reply bytes
  attempt_loop id zero attempt p = left_loop p
  attempt_loop id (suc fuel) attempt p =
      let tried = record p { attempts = suc p.attempts } in
      let rest = attempt_loop id fuel (suc attempt) in
      let round = after_reply id tried rest (reply attempt) in
      if ltb 0 attempt
      then if slept attempt
        then round
        else left_loop (record p { last_err = bytes "shutdown before retry" })
      else round

  -- `Deliver`: the rows it writes, in their order; `encoding_error` is that of `json.Marshal`.
  unfoldable pub deliver : Recipient → Option (List ℕ) → List Row
  unfolding attempt_loop settle recorded bytes
  deliver recipient (some e) =
      recorded recipient.delivery.id failed 0 none (bytes "encoding payload: " ++ e) ∷ []
  deliver recipient none = settle recipient.delivery.id (
      attempt_loop recipient.delivery.id (suc delivery_max_retries) 0
        (record { last_status = none; last_err = []; attempts = 0; rows = [] }))
