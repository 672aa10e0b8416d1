-- ===== src/Tests/Messages.antt =====
-- The archive's pages and the posts to the presence service at concrete inputs.
use mathlib.Core.List.{Perm}
use realtime_chat_platform.Prelude.{
  ℕ, zero, suc, ◌*◌, ◌^◌, ◌≤◌, ◌<◌, ◌≡◌, refl, String, String_discrete, pos, Bool, true, false,
  some, List, [], ◌∷◌, arith,
}
use realtime_chat_platform.Chat.Messages.{
  StoredMessage, Messages, of_room, count_by_room, per_page_of,
}
use realtime_chat_platform.Chat.Messages.Order.{IsNewestFirst}
use realtime_chat_platform.Chat.Messages.Pages.{pages, pages_cover}
use realtime_chat_platform.Chat.PresenceClient.{
  PostReply, no_response, responded, posted, interrupted, post,
}
use realtime_chat_platform.Chat.PresenceClient.Retries.{
  IsRetried, Tries, at_once, again, final, cut_off, post-verdict,
}

abbrev row : ℕ → String → ℕ → StoredMessage
row id room at = record {
  id = id;
  room_id = room;
  user_id = pos 1;
  content = "hello";
  created_at = at;
}

abbrev table : Messages
table = record {
  next_id = 5;
  rows = row 1 "general" 7 ∷ row 2 "quiet" 7 ∷ row 3 "general" 9 ∷ row 4 "general" 9 ∷ [];
}

two_pages_are_enough : count_by_room table "general" ≤ 2 * per_page_of (pos 2)
unfolding count_by_room per_page_of of_room String_discrete
two_pages_are_enough = omega arith

no_wrap : 2 * per_page_of (pos 2) < 2 ^ 63
unfolding per_page_of
no_wrap = omega arith

pages_cover_example :
    (all : List StoredMessage) × (pages table "general" (pos 2) 2 ≡ some all)
    × IsNewestFirst all
    × Perm all (of_room "general" table.rows)
pages_cover_example = pages_cover table "general" (pos 2) 2 two_pages_are_enough no_wrap

-- No response, then a 503, then a 204.
abbrev reply : ℕ → PostReply
reply zero = no_response
reply (suc zero) = responded 503
reply (suc (suc k)) = responded 204

abbrev slept : ℕ → Bool
slept attempt = true

third_try : Tries reply slept 2
third_try = again 1 (again 0 at_once tt refl) (omega arith) refl

third_is_final : ¬ IsRetried (reply 2)
third_is_final h = absurd (omega arith)

-- The wait before the second attempt is cut off.
abbrev wakes : ℕ → Bool
wakes attempt = false

post-verdict_example : post true reply wakes true 3 ≡ interrupted
post-verdict_example =
    post-verdict reply wakes 3 0 at_once (omega arith) (cut_off 0 tt (omega arith) refl)

third_verdict : post true reply slept true 3 ≡ posted
third_verdict = post-verdict reply slept 3 2 third_try (omega arith) (final 2 third_is_final)
