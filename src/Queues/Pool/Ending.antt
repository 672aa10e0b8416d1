-- ===== src/Queues/Pool/Ending.antt =====
-- After the stop the workers of a pool come to an end.
use realtime_chat_platform.Prelude.{
  ℕ, zero, suc, ◌+◌, ◌*◌, ◌<◌, ◌≤◌, ◌≡◌, ◌⊎◌, inl, inr, refl, ap, sym, subst, dec_lt, ◌-◌, true,
  List, [], ◌∷◌, length, length-append, arith,
}
use realtime_chat_platform.Queues.{Channel, take_from, work}
use realtime_chat_platform.Queues.Pool.{
  Pool, working, receive_at, finish_nth, finish_at, return_at, received, finished, returned,
  WorkerStep, work_pool,
}

module _ {A C : Type 0} (handle : A → C) where
  -- What the workers still have to do: receive, handle and return.
  abbrev pub work_left : Pool A C → ℕ
  work_left p = 3 * length p.channel.queue + 2 * length p.in_hand + p.idle

  -- Steps of the workers after the stop.
  unfoldable pub work_all : Pool A C → List WorkerStep → Pool A C
  work_all p [] = p
  work_all p (s ∷ steps) = work_all (work_pool handle true p s) steps

  work-length :
      (ch : Channel A) (event : A) (rest : List A)
      → ch.queue ≡ event ∷ rest
      → length (work ch).queue ≡ length rest
  unfolding work
  work-length ch event rest e = ap (λ q. length (take_from ch q).queue) e

  finish_less :
      (p : Pool A C) (hand : List A)
      → p.in_hand ≡ hand
      → 0 < length hand
      → work_left (finish_at p (finish_nth handle 0 hand)) < work_left p
  finish_less p [] e some_ = absurd (omega arith)
  finish_less p (event ∷ events) e some_ = omega (arith, ap length e)

  idle_less :
      (p : Pool A C) (w : ℕ) (queue : List A)
      → p.idle ≡ suc w
      → p.channel.queue ≡ queue
      → (s : WorkerStep) × (work_left (work_pool handle true p s) < work_left p)
  unfolding work_pool
  idle_less p w [] i e = (
    returned,
    subst (λ n. work_left (return_at true p n p.channel.queue) < work_left p) (sym i)
        (subst (λ q. work_left (return_at true p (suc w) q) < work_left p) (sym e) (omega arith)),
  )
  idle_less p w (event ∷ rest) i e = (
    received,
    subst (λ n. work_left (receive_at p n p.channel.queue) < work_left p) (sym i)
        (subst (λ q. work_left (receive_at p (suc w) q) < work_left p) (sym e)
          (omega (
            arith,
            work-length p.channel event rest e,
            ap length e,
            length-append p.in_hand (event ∷ []),
          ))),
  )

  -- While a worker has not returned, some step brings the end nearer.
  pub some_step_less :
      (p : Pool A C)
      → (working p ≡ 0) ⊎ ((s : WorkerStep) × (work_left (work_pool handle true p s) < work_left p))
  unfolding work_pool
  some_step_less p = elim (dec_lt 0 (length p.in_hand)) [
    | yes some_ ↦ inr (finished 0, finish_less p p.in_hand refl some_)
    | no none_ ↦ elim (dec_lt 0 p.idle) [
      | yes idle ↦
          let one : p.idle ≡ suc (p.idle - 1) = omega arith in
          inr (idle_less p (p.idle - 1) p.channel.queue one refl)
      | no gone ↦ inl (omega arith)
    ]
  ]

  ends_within :
      (fuel : ℕ) (p : Pool A C)
      → work_left p ≤ fuel
      → (steps : List WorkerStep) × (working (work_all p steps) ≡ 0)
  unfolding work_all
  ends_within zero p enough = ([], omega arith)
  ends_within (suc fuel) p enough = elim (some_step_less p) [
    | inl gone ↦ ([], gone)
    | inr (s, less) ↦
        let (steps, gone) = ends_within fuel (work_pool handle true p s) (omega arith) in
        (s ∷ steps, gone)
  ]

  -- From any state there are steps after which all workers have returned.
  pub workers_end : (p : Pool A C) → (steps : List WorkerStep) × (working (work_all p steps) ≡ 0)
  workers_end p = ends_within (work_left p) p (omega arith)
