-- ===== src/Chat/PresenceClient.antt =====
-- chat-service/internal/service/presence_client.go (`post` and `SendEvent`), the same loop
-- in notification_client.go, and the sweep of presence_heartbeat.go. What each request and each
-- backoff come to are arguments.
pub mod Retries
use realtime_chat_platform.Prelude.{
  ℕ, zero, suc, String, ℤ, Bool, true, false, List, [], ◌∷◌, if◌then◌else◌, ltb, leb, ◌==◌, length,
}
use realtime_chat_platform.Chat.Domain.{PresenceEvent}
use realtime_chat_platform.Chat.Hub.{RoomSnapshot}

-- What `httpClient.Do` comes to.
pub data PostReply : Type 0 where
  no_response : PostReply
  responded : ℕ → PostReply

-- The errors of `post`, and its success.
pub data PostResult : Type 0 where
  posted : PostResult
  rejected server_error : ℕ → PostResult
  transport_failed interrupted invalid_url encoding_failed : PostResult
  nothing_sent : PostResult

abbrev pub presence_max_retries : ℕ
presence_max_retries = 3

abbrev pub notification_max_retries : ℕ
notification_max_retries = 3

abbrev pub heartbeat_max_retries : ℕ
heartbeat_max_retries = 0

module _ (valid_url : Bool) (reply : ℕ → PostReply) (slept : ℕ → Bool) where
  -- What becomes of one response; `rest` is the loop from the next attempt with its `lastErr`.
  unfoldable pub after_response : PostReply → (PostResult → PostResult) → PostResult
  after_response no_response rest = rest transport_failed
  after_response (responded status) rest =
      if ltb status 500
      then if leb 400 status then rejected status else posted
      else rest (server_error status)

  -- The loop of `post`; the fuel is the number of rounds left, and `last` is `lastErr`.
  unfoldable pub post_loop : ℕ → ℕ → PostResult → PostResult
  unfolding after_response
  post_loop zero attempt last = last
  post_loop (suc fuel) attempt last =
      let sent =
        if valid_url
        then after_response (reply attempt) (post_loop fuel (suc attempt))
        else invalid_url in
      if ltb 0 attempt then if slept attempt then sent else interrupted else sent

  -- `nothing_sent` stands for a nil `lastErr`, which no call reaches.
  unfoldable pub post : Bool → ℕ → PostResult
  unfolding post_loop
  post encodes max_retries =
      if encodes then post_loop (suc max_retries) 0 nothing_sent else encoding_failed

  -- `SendEvent`: what is posted, and how that ends.
  unfoldable pub send_event : String → PresenceEvent → Bool → PresenceEvent × PostResult
  unfolding post
  send_event instance_id event encodes =
      (record event { instance_id = instance_id }, post encodes presence_max_retries)

  -- `SendMessageEvent`, with the same loop.
  unfoldable pub send_message_event : Bool → PostResult
  unfolding post
  send_message_event encodes = post encodes notification_max_retries

-- `sweep`: the rooms that get a heartbeat.
unfoldable pub sweep : List RoomSnapshot → List RoomSnapshot
sweep [] = []
sweep (room ∷ rooms) =
    let rest = sweep rooms in if length room.user_ids == 0 then rest else room ∷ rest
