-- ===== src/Queues/Pool/Draining.antt =====
-- What the workers of a pool have done when all of them have returned.
use mathlib.Core.List.{append_assoc, append-nil, Perm}
use realtime_chat_platform.Prelude.{
  ℕ, zero, suc, ◌<◌, ◌≡◌, ◌⊎◌, inl, inr, refl, sym, ap, ◌∙◌, subst, true, List, [], ◌∷◌, ◌++◌, map,
  if_pos, if_neg, dec_lt, length, length-append, arith,
}
use realtime_chat_platform.Queues.{Channel, offer}
use realtime_chat_platform.Queues.Order.{taken-offer, taken-work, accepted-work}
use realtime_chat_platform.Queues.Pool.{
  Pool, working, offer_to, receive_at, finish_nth, finish_at, return_at, received, finished,
  returned, WorkerStep, work_pool,
}
use realtime_chat_platform.Queues.Pool.Calls.{IsSound, finish_nth-length}

-- The first list begins with the second.
abbrev pub BeginsWith : {A : Type 0} → List A → List A → Type 0
BeginsWith {A} whole start = (rest : List A) × (whole ≡ start ++ rest)

longer :
    {A : Type 0} (whole start : List A) (a : A)
    → BeginsWith whole start
    → BeginsWith (whole ++ (a ∷ [])) start
longer whole start a (rest, e) =
    (rest ++ (a ∷ []), ap (λ l. l ++ (a ∷ [])) e ∙ append_assoc start rest (a ∷ []))

module _ {A C : Type 0} (handle : A → C) (before : List A) where
  -- The handler was called for each event of `before`, and for the `late` ones that were still
  -- received, and for no others; what is still queued was accepted after those. `In` says in which
  -- order the calls are made.
  pub data HasServed (In : List C → List C → Type 0) (p : Pool A C) : Type 0 where
    served :
        (late : List A)
        → p.channel.accepted ≡ (before ++ late) ++ p.channel.queue
        → In p.calls (map handle (before ++ late))
        → HasServed In p

module _ {A C : Type 0} (handle : A → C) (workers : ℕ) (before : List A) where
  -- Since the stop, when `before` had been accepted: whatever was accepted came later, and unless
  -- every worker still works, all of `before` has been taken out.
  pub record IsDraining (p : Pool A C) : Type 0 where
    pub accepted : BeginsWith p.channel.accepted before
    pub taken : (working p ≡ workers) ⊎ BeginsWith p.channel.taken before

  accepted-offer :
      (ch : Channel A) (event : A)
      → BeginsWith ch.accepted before
      → BeginsWith (offer ch event).accepted before
  unfolding offer
  accepted-offer ch event v = elim (dec_lt (length ch.queue) ch.capacity) [
    | yes room ↦
        subst (λ (c : Channel A). BeginsWith c.accepted before)
          (sym (if_pos (dec_lt (length ch.queue) ch.capacity) room _ _))
          (longer ch.accepted before event v)
    | no over ↦
        subst (λ (c : Channel A). BeginsWith c.accepted before)
          (sym (if_neg (dec_lt (length ch.queue) ch.capacity) over _ _)) v
  ]

  pub offer_to-IsDraining :
      (p : Pool A C) (event : A) → IsDraining p → IsDraining (offer_to p event)
  unfolding offer_to
  offer_to-IsDraining p event v = record {
    accepted = accepted-offer p.channel event v.accepted;
    taken = elim v.taken [
      | inl all ↦ inl all
      | inr out ↦ inr (subst (λ l. BeginsWith l before) (sym (taken-offer p.channel event)) out)
    ];
  }

  receive_at-IsDraining :
      (p : Pool A C) (w : ℕ) (queue : List A)
      → p.idle ≡ w
      → p.channel.queue ≡ queue
      → IsDraining p
      → IsDraining (receive_at p w queue)
  receive_at-IsDraining p zero queue i e v = v
  receive_at-IsDraining p (suc w) [] i e v = v
  receive_at-IsDraining p (suc w) (event ∷ rest) i e v = record {
    accepted = subst (λ l. BeginsWith l before) (sym (accepted-work p.channel)) v.accepted;
    taken = elim v.taken [
      | inl all ↦ inl (omega (arith, length-append p.in_hand (event ∷ []), all))
      | inr out ↦ inr (
          subst (λ l. BeginsWith l before) (sym (taken-work p.channel event rest e))
            (longer p.channel.taken before event out))
    ];
  }

  finish-IsDraining :
      (p : Pool A C) (n : ℕ)
      → IsDraining p
      → IsDraining (finish_at p (finish_nth handle n p.in_hand))
  finish-IsDraining p n v = record {
    accepted = v.accepted;
    taken = elim v.taken [
      | inl all ↦ inl (omega (arith, finish_nth-length handle workers n p.in_hand, all))
      | inr out ↦ inr out
    ];
  }

  return_at-IsDraining :
      (p : Pool A C) (w : ℕ) (queue : List A)
      → p.channel.queue ≡ queue
      → IsSound handle workers p
      → IsDraining p
      → IsDraining (return_at true p w queue)
  return_at-IsDraining p (suc w) [] e sound v =
      let all : p.channel.accepted ≡ p.channel.taken =
        sound.order.order ∙ ap (λ q. p.channel.taken ++ q) e ∙ append-nil p.channel.taken in
      record {
        accepted = v.accepted;
        taken = inr (subst (λ l. BeginsWith l before) all v.accepted);
      }
  return_at-IsDraining p (suc w) (event ∷ rest) e sound v = v
  return_at-IsDraining p zero queue e sound v = v

  pub work_pool-IsDraining :
      (p : Pool A C) (s : WorkerStep)
      → IsSound handle workers p
      → IsDraining p
      → IsDraining (work_pool handle true p s)
  unfolding work_pool
  work_pool-IsDraining p received sound v =
      receive_at-IsDraining p p.idle p.channel.queue refl refl v
  work_pool-IsDraining p (finished n) sound v = finish-IsDraining p n v
  work_pool-IsDraining p returned sound v =
      return_at-IsDraining p p.idle p.channel.queue refl sound v

  empty_hand : (l : List A) → length l ≡ 0 → l ≡ []
  empty_hand [] e = refl
  empty_hand (a ∷ l) e = absurd (omega arith)

  all_taken :
      (p : Pool A C)
      → IsDraining p
      → 0 < workers
      → working p ≡ 0
      → BeginsWith p.channel.taken before
  all_taken p v some_ gone = elim v.taken [ inl all ↦ absurd (omega arith) | inr out ↦ out ]

  no_hand : (p : Pool A C) → working p ≡ 0 → p.calls ++ map handle p.in_hand ≡ p.calls
  no_hand p gone =
      ap (λ l. p.calls ++ map handle l) (empty_hand p.in_hand (omega arith)) ∙ append-nil p.calls

  pub returned-HasServed :
      (p : Pool A C)
      → IsSound handle workers p
      → IsDraining p
      → 0 < workers
      → working p ≡ 0
      → HasServed handle before (λ made due. Perm made due) p
  returned-HasServed p sound v some_ gone =
      let (late, out) = all_taken p v some_ gone in
      served late (sound.order.order ∙ ap (λ l. l ++ p.channel.queue) out) (
        subst (λ l. Perm l (map handle (before ++ late))) (no_hand p gone)
          (subst (λ l. Perm (p.calls ++ map handle p.in_hand) (map handle l)) out sound.made))

  pub returned_alone-HasServed :
      (p : Pool A C)
      → IsSound handle workers p
      → IsDraining p
      → workers ≡ 1
      → working p ≡ 0
      → HasServed handle before (λ made due. made ≡ due) p
  returned_alone-HasServed p sound v one gone =
      let (late, out) = all_taken p v (omega arith) gone in
      served late (sound.order.order ∙ ap (λ l. l ++ p.channel.queue) out)
        (sym (no_hand p gone) ∙ sound.in_turn (omega arith) ∙ ap (map handle) out)
