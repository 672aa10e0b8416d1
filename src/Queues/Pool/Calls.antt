-- ===== src/Queues/Pool/Calls.antt =====
-- Which calls the workers of a pool make.
use mathlib.Core.List.Perm
use mathlib.Core.List.{append_assoc, map-append, Perm, perm_middle}
use realtime_chat_platform.Prelude.{
  ℕ, zero, suc, ◌+◌, ◌≤◌, ◌≡◌, refl, sym, ap, ◌∙◌, subst, Bool, true, false, List, [], ◌∷◌, ◌++◌,
  map, length, length-append, arith,
}
use realtime_chat_platform.Queues.{Channel, new_channel, take_from, work}
use realtime_chat_platform.Queues.Order.{InOrder, offer-InOrder, work-InOrder, taken-offer}
use realtime_chat_platform.Queues.Offers.{offered_to, offered_to-work}
use realtime_chat_platform.Queues.Pool.{
  Pool, new_pool, working, offer_to, receive_at, finish_nth, finish_at, return_at, received,
  finished, returned, WorkerStep, work_pool,
}

module _ {A C : Type 0} (handle : A → C) (workers : ℕ) where
  -- The calls made, with those of the events in hand, are those of the events taken out; with one
  -- worker they are made in turn.
  pub record IsSound (p : Pool A C) : Type 0 where
    pub order : InOrder p.channel
    pub crew : working p ≤ workers
    pub made : Perm (p.calls ++ map handle p.in_hand) (map handle p.channel.taken)
    pub in_turn : workers ≤ 1 → p.calls ++ map handle p.in_hand ≡ map handle p.channel.taken

  pub new_pool-IsSound : (capacity : ℕ) → IsSound (new_pool capacity workers)
  unfolding new_pool new_channel
  new_pool-IsSound capacity = record {
    order = record { order = refl; bounded = omega arith };
    crew = omega arith;
    made = Perm.refl [];
    in_turn = λ one. refl;
  }

  pub offer_to-IsSound : (p : Pool A C) (event : A) → IsSound p → IsSound (offer_to p event)
  unfolding offer_to
  offer_to-IsSound p event v =
      let same = sym (ap (map handle) (taken-offer p.channel event)) in
      record {
        order = offer-InOrder p.channel event v.order;
        crew = v.crew;
        made = subst (Perm (p.calls ++ map handle p.in_hand)) same v.made;
        in_turn = λ one. v.in_turn one ∙ same;
      }

  taken_one :
      (ch : Channel A) (event : A) (rest : List A)
      → ch.queue ≡ event ∷ rest
      → map handle (work ch).taken ≡ map handle ch.taken ++ (handle event ∷ [])
  unfolding work
  taken_one ch event rest e =
      ap (λ q. map handle (take_from ch q).taken) e ∙ map-append handle ch.taken (event ∷ [])

  one_more_in_hand :
      (calls : List C) (hand : List A) (event : A)
      → calls ++ map handle (hand ++ (event ∷ []))
        ≡ (calls ++ map handle hand) ++ (handle event ∷ [])
  one_more_in_hand calls hand event =
      ap (λ l. calls ++ l) (map-append handle hand (event ∷ []))
      ∙ sym (append_assoc calls (map handle hand) (handle event ∷ []))

  receive_at-IsSound :
      (p : Pool A C) (w : ℕ) (queue : List A)
      → p.idle ≡ w
      → p.channel.queue ≡ queue
      → IsSound p
      → IsSound (receive_at p w queue)
  receive_at-IsSound p zero queue i e v = v
  receive_at-IsSound p (suc w) [] i e v = v
  receive_at-IsSound p (suc w) (event ∷ rest) i e v =
      let more = one_more_in_hand p.calls p.in_hand event in
      let out = taken_one p.channel event rest e in
      record {
        order = work-InOrder p.channel v.order;
        crew = omega (arith, length-append p.in_hand (event ∷ []), v.crew);
        made =
            subst (λ l. Perm l (map handle (work p.channel).taken)) (sym more)
              (subst (Perm ((p.calls ++ map handle p.in_hand) ++ (handle event ∷ []))) (sym out)
                (Perm.append_right (handle event ∷ []) v.made));
        in_turn = λ one. more ∙ ap (λ l. l ++ (handle event ∷ [])) (v.in_turn one) ∙ sym out;
      }

  receive_at-working :
      (p : Pool A C) (w : ℕ) (queue : List A)
      → p.idle ≡ w
      → working (receive_at p w queue) ≡ working p
  receive_at-working p zero queue i = refl
  receive_at-working p (suc w) [] i = refl
  receive_at-working p (suc w) (event ∷ rest) i =
      omega (arith, length-append p.in_hand (event ∷ []))

  finish_nth-Perm :
      (n : ℕ) (events : List A)
      → let (rest, made) = finish_nth handle n events in
        Perm (made ++ map handle rest) (map handle events)
  finish_nth-Perm n [] = Perm.refl []
  finish_nth-Perm zero (event ∷ events) = Perm.refl (map handle (event ∷ events))
  finish_nth-Perm (suc n) (event ∷ events) =
      let (rest, made) = finish_nth handle n events in
      Perm.trans (perm_middle made (map handle rest))
        (Perm.cons (handle event) (finish_nth-Perm n events))

  pub finish_nth-length :
      (n : ℕ) (events : List A)
      → let (rest, made) = finish_nth handle n events in length made + length rest ≡ length events
  finish_nth-length n [] = refl
  finish_nth-length zero (event ∷ events) = omega arith
  finish_nth-length (suc n) (event ∷ events) = omega (arith, finish_nth-length n events)

  finish_nth_alone :
      (n : ℕ) (events : List A)
      → length events ≤ 1
      → let (rest, made) = finish_nth handle n events in made ++ map handle rest ≡ map handle events
  finish_nth_alone n [] few = refl
  finish_nth_alone zero (event ∷ events) few = refl
  finish_nth_alone (suc n) (event ∷ []) few = refl
  finish_nth_alone (suc n) (event ∷ e ∷ events) few = absurd (omega arith)

  finish-IsSound :
      (p : Pool A C) (n : ℕ) → IsSound p → IsSound (finish_at p (finish_nth handle n p.in_hand))
  finish-IsSound p n v =
      let (rest, made) = finish_nth handle n p.in_hand in
      let together = append_assoc p.calls made (map handle rest) in
      record {
        order = v.order;
        crew = omega (arith, finish_nth-length n p.in_hand, v.crew);
        made =
            subst (λ l. Perm l (map handle p.channel.taken)) (sym together)
              (Perm.trans (Perm.append_left p.calls (finish_nth-Perm n p.in_hand)) v.made);
        in_turn = λ one.
            together
            ∙ ap (λ l. p.calls ++ l) (finish_nth_alone n p.in_hand (omega (arith, v.crew)))
            ∙ v.in_turn one;
      }

  return_at-IsSound :
      (stopped : Bool) (p : Pool A C) (w : ℕ) (queue : List A)
      → p.idle ≡ w
      → IsSound p
      → IsSound (return_at stopped p w queue)
  return_at-IsSound true p (suc w) [] i v = record {
    order = v.order;
    crew = omega (arith, v.crew);
    made = v.made;
    in_turn = v.in_turn;
  }
  return_at-IsSound true p (suc w) (event ∷ rest) i v = v
  return_at-IsSound true p zero queue i v = v
  return_at-IsSound false p w queue i v = v

  pub work_pool-IsSound :
      (stopped : Bool) (p : Pool A C) (s : WorkerStep)
      → IsSound p
      → IsSound (work_pool handle stopped p s)
  unfolding work_pool
  work_pool-IsSound stopped p received v = receive_at-IsSound p p.idle p.channel.queue refl refl v
  work_pool-IsSound stopped p (finished n) v = finish-IsSound p n v
  work_pool-IsSound stopped p returned v = return_at-IsSound stopped p p.idle p.channel.queue refl v

  -- Before the stop no worker returns.
  pub work_pool-working :
      (stopped : Bool) (p : Pool A C) (s : WorkerStep)
      → stopped ≡ false
      → working (work_pool handle stopped p s) ≡ working p
  unfolding work_pool
  work_pool-working stopped p received going = receive_at-working p p.idle p.channel.queue refl
  work_pool-working stopped p (finished n) going = omega (arith, finish_nth-length n p.in_hand)
  work_pool-working true p returned going = absurd cc
  work_pool-working false p returned going = refl

  receive_at-offered_to :
      (p : Pool A C) (w : ℕ) (queue : List A)
      → offered_to (receive_at p w queue).channel ≡ offered_to p.channel
  receive_at-offered_to p zero queue = refl
  receive_at-offered_to p (suc w) [] = refl
  receive_at-offered_to p (suc w) (event ∷ rest) = offered_to-work p.channel

  return_at-offered_to :
      (stopped : Bool) (p : Pool A C) (w : ℕ) (queue : List A)
      → offered_to (return_at stopped p w queue).channel ≡ offered_to p.channel
  return_at-offered_to true p (suc w) [] = refl
  return_at-offered_to true p (suc w) (event ∷ rest) = refl
  return_at-offered_to true p zero queue = refl
  return_at-offered_to false p w queue = refl

  -- The workers leave alone what a queue was offered.
  pub work_pool-offered_to :
      (stopped : Bool) (p : Pool A C) (s : WorkerStep)
      → offered_to (work_pool handle stopped p s).channel ≡ offered_to p.channel
  unfolding work_pool
  work_pool-offered_to stopped p received = receive_at-offered_to p p.idle p.channel.queue
  work_pool-offered_to stopped p (finished n) = refl
  work_pool-offered_to stopped p returned = return_at-offered_to stopped p p.idle p.channel.queue
