-- ===== src/Notification/Deliverer/Fate.antt =====
-- The possible ends of a delivery, and the rows that each of them leaves.
use realtime_chat_platform.Prelude.{
  tests, ℕ, zero, suc, ◌+◌, ◌≤◌, ◌<◌, ◌≡◌, ◌⊎◌, inl, inr, refl, sym, ap, ◌∙◌, subst, Bool, true,
  false, Bool-cases, Option, none, some, List, [], ◌∷◌, ◌++◌, if◌then◌else◌, ltb, lt→ltb, bytes,
  arith,
}
use realtime_chat_platform.Notification.Domain.{pending, delivered, failed, Recipient}
use realtime_chat_platform.Notification.Deliverer.{
  Reply, transport_error, answered, Row, recorded, answered_text, Progress, Exit, returned,
  left_loop, after_reply, attempt_loop, settle, deliver,
}

-- A 2xx answer; an answer that is worth no second try; an error that is.
abbrev pub Accepts : Reply → Type 0
Accepts (transport_error e) = ⊥
Accepts (answered status) = (200 ≤ status) × (status < 300)

abbrev pub Rejects : Reply → Type 0
Rejects (transport_error e) = ⊥
Rejects (answered status) = (status < 200) ⊎ ((300 ≤ status) × (status < 500))

abbrev pub Fails : Reply → Type 0
Fails (transport_error e) = Unit
Fails (answered status) = 500 ≤ status

abbrev pub status_of : Reply → Option ℕ
status_of (transport_error e) = none
status_of (answered status) = some status

unfoldable pub error_of : Reply → List ℕ
unfolding answered_text
error_of (transport_error e) = e
error_of (answered status) = answered_text status

Reply-cases : (r : Reply) → Accepts r ⊎ (Rejects r ⊎ Fails r)
Reply-cases (transport_error e) = inr (inr tt)
Reply-cases (answered status) = elim (Bool-cases (ltb status 200)) [
  | inl low ↦ inr (inl (inl (grind tests)))
  | inr high ↦ elim (Bool-cases (ltb status 300)) [
    | inl ok ↦ inl (grind tests, grind tests)
    | inr above ↦ elim (Bool-cases (ltb status 500)) [
      | inl below ↦ inr (inl (inr (grind tests, grind tests)))
      | inr server ↦ inr (inr (grind tests))
    ]
  ]
]

module _ (id : ℕ) (p : Progress) (rest : Progress → Exit) where
  after-Accepts :
      (r : Reply)
      → Accepts r
      → after_reply id p rest r
        ≡ returned (p.rows ++ (recorded id delivered p.attempts (status_of r) [] ∷ []))
  unfolding after_reply
  after-Accepts (transport_error e) h = absurd h
  after-Accepts (answered status) h = ground arith

  after-Rejects :
      (r : Reply)
      → Rejects r
      → after_reply id p rest r
        ≡ left_loop (record p { last_status = status_of r; last_err = error_of r })
  unfolding after_reply error_of
  after-Rejects (transport_error e) h = absurd h
  after-Rejects (answered status) h = ground arith

  after-Fails :
      (r : Reply)
      → Fails r
      → after_reply id p rest r
        ≡ rest (record {
          last_status = status_of r;
          last_err = error_of r;
          attempts = p.attempts;
          rows = p.rows ++ (recorded id pending p.attempts (status_of r) (error_of r) ∷ []);
        })
  unfolding after_reply error_of
  after-Fails (transport_error e) h = refl
  after-Fails (answered status) h = ground arith

module _ (reply : ℕ → Reply) (slept : ℕ → Bool) where
  -- The attempts up to number `k` are all made: those before it failed, and the waits ended well.
  pub data Reaches : ℕ → Type 0 where
    first : Reaches 0
    next : (k : ℕ) → Reaches k → Fails (reply k) → slept (suc k) ≡ true → Reaches (suc k)

  -- Accepted, rejected, or failed in attempt number `k`; the latter is the end on a shutdown or
  -- when no retry is left.
  pub data Fate : Type 0 where
    accepted : (k : ℕ) → k ≤ 3 → Reaches k → Accepts (reply k) → Fate
    rejected : (k : ℕ) → k ≤ 3 → Reaches k → Rejects (reply k) → Fate
    interrupted : (k : ℕ) → k < 3 → Reaches k → Fails (reply k) → slept (suc k) ≡ false → Fate
    exhausted : Reaches 3 → Fails (reply 3) → Fate

  module _ (id : ℕ) where
    -- The rows of the first `k` attempts, which all failed.
    unfoldable pub pending_rows : ℕ → List Row
    unfolding recorded error_of
    pending_rows zero = []
    pending_rows (suc k) =
        pending_rows k
        ++ (recorded id pending (suc k) (status_of (reply k)) (error_of (reply k)) ∷ [])

    -- How the first `k` attempts, which all failed, are told in the row that ends a delivery.
    unfoldable pub final_row : Fate → Row
    unfolding recorded error_of
    final_row (accepted k bound reached ok) = recorded id delivered (suc k) (status_of (reply k)) []
    final_row (rejected k bound reached no_) =
        recorded id failed (suc k) (status_of (reply k)) (error_of (reply k))
    final_row (interrupted k bound reached bad stopped) =
        recorded id failed (suc k) (status_of (reply k)) (bytes "shutdown before retry")
    final_row (exhausted reached bad) =
        recorded id failed 4 (status_of (reply 3)) (error_of (reply 3))

    abbrev pub failures : Fate → ℕ
    failures (accepted k bound reached ok) = k
    failures (rejected k bound reached no_) = k
    failures (interrupted k bound reached bad stopped) = suc k
    failures (exhausted reached bad) = 4

    abbrev pub rows_of : Fate → List Row
    rows_of fate = pending_rows (failures fate) ++ (final_row fate ∷ [])

    -- The variables of the loop before attempt number `k`.
    progress : ℕ → Progress
    progress zero = record { last_status = none; last_err = []; attempts = 0; rows = [] }
    progress (suc k) = record {
      last_status = status_of (reply k);
      last_err = error_of (reply k);
      attempts = suc k;
      rows = pending_rows (suc k);
    }

    -- What holds before attempt number `k`.
    Before : ℕ → Type 0
    Before zero = Unit
    Before (suc k) = Reaches k × Fails (reply k)

    Follows : Exit → Type 0
    Follows e = (fate : Fate) × (settle id e ≡ rows_of fate)

    round-Follows :
        (k : ℕ) (p : Progress)
        → k ≤ 3
        → Reaches k
        → p.attempts ≡ suc k
        → p.rows ≡ pending_rows k
        → (rest : Progress → Exit) → (Fails (reply k) → Follows (rest (progress (suc k))))
        → Follows (after_reply id p rest (reply k))
    unfolding Follows settle progress pending_rows final_row
    round-Follows k p bound reached count rows rest retry = elim (Reply-cases (reply k)) [
      | inl ok ↦ (
        accepted k bound reached ok,
        ap (settle id) (after-Accepts id p rest (reply k) ok)
            ∙ (λ i. rows i ++ (recorded id delivered (count i) (status_of (reply k)) [] ∷ [])),
      )
      | inr (inl no_) ↦ (
        rejected k bound reached no_,
        ap (settle id) (after-Rejects id p rest (reply k) no_) ∙ (λ i.
            rows i
            ++ (recorded id failed (count i) (status_of (reply k)) (error_of (reply k)) ∷ [])),
      )
      | inr (inr bad) ↦
          subst Follows
            (sym (
              after-Fails id p rest (reply k) bad ∙ (λ i. rest (record {
                last_status = status_of (reply k);
                last_err = error_of (reply k);
                attempts = count i;
                rows =
                    rows i
                    ++ (recorded id pending (count i) (status_of (reply k)) (error_of (reply k))
                        ∷ []);
              }))))
            (retry bad)
    ]

    exhausted-Follows :
        (k : ℕ) → k ≡ 3 → Reaches k → Fails (reply k) → Follows (left_loop (progress (suc k)))
    unfolding Follows settle progress pending_rows final_row
    exhausted-Follows k e reached bad =
        let at : (j : ℕ) → Type 0 =
          λ j. (Reaches j → Fails (reply j) → Follows (left_loop (progress (suc j)))) in
        subst at {x = 3} {y = k} (sym e) (λ r b. (exhausted r b, refl)) reached bad

    attempt_loop-Follows :
        (fuel k : ℕ)
        → k + fuel ≡ 4
        → Before k
        → Follows (attempt_loop reply slept id fuel k (progress k))
    unfolding attempt_loop Before progress Follows settle pending_rows final_row
    attempt_loop-Follows zero zero e b = absurd (omega arith)
    attempt_loop-Follows zero (suc k) e b = exhausted-Follows k (omega arith) b.0 b.1
    attempt_loop-Follows (suc fuel) zero e b =
        round-Follows 0 (record (progress 0) { attempts = 1 }) (omega arith) first refl refl
          (attempt_loop reply slept id fuel 1)
          (λ bad. attempt_loop-Follows fuel 1 (omega arith) (first, bad))
    attempt_loop-Follows (suc fuel) (suc k) e b =
        let tried = record (progress (suc k)) { attempts = suc (suc k) } in
        let round =
          after_reply id tried (attempt_loop reply slept id fuel (suc (suc k))) (reply (suc k)) in
        let stopped =
          left_loop (record (progress (suc k)) { last_err = bytes "shutdown before retry" }) in
        let late =
          ap (λ c. if c then (if slept (suc k) then round else stopped) else round)
            (lt→ltb 0 (suc k) (omega arith)) in
        elim (Bool-cases (slept (suc k))) [
          | inl waited ↦
              let reached = next k b.0 b.1 waited in
              subst Follows {x = round} (sym (late ∙ ap (λ c. if c then round else stopped) waited))
                (round-Follows (suc k) tried (omega arith) reached refl refl
                  (attempt_loop reply slept id fuel (suc (suc k)))
                  (λ bad. attempt_loop-Follows fuel (suc (suc k)) (omega arith) (reached, bad)))
          | inr cut ↦
              subst Follows {x = stopped} (sym (late ∙ ap (λ c. if c then round else stopped) cut))
                (interrupted k (omega arith) b.0 b.1 cut, refl)
        ]

  -- `Deliver`, once the payload is encoded, is accepted, rejected, interrupted or exhausted,
  -- after the attempts and waits that lead there, and writes exactly the rows that
  -- this fate leaves.
  pub deliver_follows :
      (recipient : Recipient)
      → (fate : Fate) × (deliver reply slept recipient none ≡ rows_of recipient.delivery.id fate)
  unfolding deliver Follows Before progress
  deliver_follows recipient = attempt_loop-Follows recipient.delivery.id 4 0 refl tt
