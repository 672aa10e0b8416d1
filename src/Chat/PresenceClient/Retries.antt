-- ===== src/Chat/PresenceClient/Retries.antt =====
-- When a post to the presence service succeeds.
use realtime_chat_platform.Prelude.{
  ℕ, zero, suc, ◌-◌, ◌≤◌, ◌<◌, ◌⊎◌, inl, inr, not-ltb, ◌≡◌, refl, ap, ◌∙◌, Bool, true, false,
  Bool-cases, if◌then◌else◌, ltb, lt→ltb, arith,
}
use realtime_chat_platform.Chat.PresenceClient.{
  PostReply, no_response, responded, PostResult, posted, rejected, server_error, transport_failed,
  interrupted, nothing_sent, after_response, post_loop, post,
}

-- No response or a 5xx: worth another try.
abbrev pub IsRetried : PostReply → Type 0
IsRetried no_response = Unit
IsRetried (responded status) = 500 ≤ status

-- What a reply says for good.
abbrev pub verdict : PostReply → PostResult
verdict no_response = transport_failed
verdict (responded status) =
    if ltb status 400
    then posted
    else if ltb status 500
    then rejected status
    else server_error status

IsRetried-cases : (r : PostReply) → IsRetried r ⊎ (¬ IsRetried r)
IsRetried-cases no_response = inl tt
IsRetried-cases (responded status) = elim (Bool-cases (ltb status 500)) [
  | inl below ↦ inr (λ h. absurd (ground arith))
  | inr above ↦ inl (not-ltb status 500 above)
]

module _ (reply : ℕ → PostReply) (slept : ℕ → Bool) where
  -- Attempt number `k` is made: those before it are retried, and the waits ended well.
  pub data Tries : ℕ → Type 0 where
    at_once : Tries 0
    again : (k : ℕ) → Tries k → IsRetried (reply k) → slept (suc k) ≡ true → Tries (suc k)

  after_retried :
      (r : PostReply) (rest : PostResult → PostResult)
      → IsRetried r
      → after_response true reply slept r rest ≡ rest (verdict r)
  unfolding after_response
  after_retried no_response rest h = refl
  after_retried (responded status) rest h = ground arith

  after_final :
      (r : PostReply) (rest : PostResult → PostResult)
      → (IsRetried r → ⊥)
      → after_response true reply slept r rest ≡ verdict r
  unfolding after_response
  after_final no_response rest h = absurd (h tt)
  after_final (responded status) rest h = ground arith

  abbrev loop : ℕ → ℕ → PostResult → PostResult
  loop fuel attempt last = post_loop true reply slept fuel attempt last

  -- One round at an attempt whose wait ended well.
  one_round :
      (fuel k : ℕ) (last : PostResult)
      → Tries k
      → loop (suc fuel) k last ≡ after_response true reply slept (reply k) (loop fuel (suc k))
  unfolding post_loop
  one_round fuel zero last at_once = refl
  one_round fuel (suc k) last (again _ t r waited) =
      let sent = after_response true reply slept (reply (suc k)) (loop fuel (suc (suc k))) in
      ap (λ b. if b then (if slept (suc k) then sent else interrupted) else sent)
        (lt→ltb 0 (suc k) (omega arith))
      ∙ ap (λ b. if b then sent else interrupted) waited

  -- The loop gets to each attempt that is made.
  loop_reaches :
      (max_retries k : ℕ) (first : PostResult)
      → Tries k
      → k ≤ max_retries
      → (last : PostResult) × (loop (suc max_retries) 0 first ≡ loop (suc (max_retries - k)) k last)
  loop_reaches m zero first at_once le =
      let whole : suc m ≡ suc (m - 0) = omega arith in (first, ap (λ f. loop f 0 first) whole)
  loop_reaches m (suc k) first (again _ t r waited) le =
      let (last, before) = loop_reaches m k first t (omega arith) in
      let fewer : m - k ≡ suc (m - suc k) = omega arith in
      (
        verdict (reply k),
        before
            ∙ one_round (m - k) k last t
            ∙ after_retried (reply k) (loop (m - k) (suc k)) r
            ∙ ap (λ f. loop f (suc k) (verdict (reply k))) fewer,
      )

  -- Why the loop ends at attempt `k`: its reply is final, or no retry is left, or the wait before
  -- the next attempt is cut off by the context.
  pub data Ends (max_retries : ℕ) : ℕ → Type 0 where
    final : (k : ℕ) → ¬ IsRetried (reply k) → Ends max_retries k
    exhausted : Ends max_retries max_retries
    cut_off :
        (k : ℕ) → IsRetried (reply k) → k < max_retries → slept (suc k) ≡ false → Ends max_retries k

  -- What a loop that ends at attempt `k` for this reason returns.
  abbrev pub outcome : (max_retries k : ℕ) → Ends max_retries k → PostResult
  outcome m _ (final k e) = verdict (reply k)
  outcome m _ exhausted = verdict (reply m)
  outcome m _ (cut_off k r less off) = interrupted

  -- The round after one whose wait is cut off.
  cut_round :
      (fuel k : ℕ) (last : PostResult)
      → slept (suc k) ≡ false
      → loop (suc fuel) (suc k) last ≡ interrupted
  unfolding post_loop
  cut_round fuel k last off =
      let sent = after_response true reply slept (reply (suc k)) (loop fuel (suc (suc k))) in
      ap (λ b. if b then (if slept (suc k) then sent else interrupted) else sent)
        (lt→ltb 0 (suc k) (omega arith))
      ∙ ap (λ b. if b then sent else interrupted) off

  -- A loop that has reached attempt `k`, of which it is the last.
  ends_with :
      (m k : ℕ) (e : Ends m k) (last : PostResult)
      → Tries k
      → loop (suc (m - k)) k last ≡ outcome m k e
  unfolding post_loop
  ends_with m _ (final k f) last t =
      one_round (m - k) k last t ∙ after_final (reply k) (loop (m - k) (suc k)) f
  ends_with m _ exhausted last t = one_round (m - m) m last t ∙ elim (IsRetried-cases (reply m)) [
    | inr f ↦ after_final (reply m) (loop (m - m) (suc m)) f
    | inl r ↦
        let over : m - m ≡ 0 = omega arith in
        after_retried (reply m) (loop (m - m) (suc m)) r
        ∙ ap (λ f. loop f (suc m) (verdict (reply m))) over
  ]
  ends_with m _ (cut_off k r less off) last t =
      let more : m - k ≡ suc (m - suc k) = omega arith in
      one_round (m - k) k last t
      ∙ after_retried (reply k) (loop (m - k) (suc k)) r
      ∙ ap (λ f. loop f (suc k) (verdict (reply k))) more
      ∙ cut_round (m - suc k) k (verdict (reply k)) off

  -- A post with a valid URL and a payload that encodes, which makes attempt `k` because every
  -- earlier one was a transport failure or a 5xx and the wait after it was not cut off: if the reply
  -- of `k` is neither, or no retry is left, the post ends with what that reply says; if a retry is
  -- due but the wait before it is cut off by the context, it ends as interrupted, whatever the
  -- reply said.
  pub post-verdict :
      (max_retries k : ℕ)
      → Tries k
      → k ≤ max_retries
      → (e : Ends max_retries k) → post true reply slept true max_retries ≡ outcome max_retries k e
  unfolding post
  post-verdict m k t le e =
      let (last, reached) = loop_reaches m k nothing_sent t le in reached ∙ ends_with m k e last t
