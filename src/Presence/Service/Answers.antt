-- ===== src/Presence/Service/Answers.antt =====
-- What the presence service takes for a valid event, and what it does and answers on one.
use realtime_chat_platform.Prelude.{
  ℕ, ◌≡◌, ◌≢◌, ◌⊎◌, inl, inr, sym, ap, ◌∙◌, String_discrete, positive, Bool, true, false, Option,
  none, some, if◌then◌else◌, bytes, arith, Bool-cases, Option-cases, ite, if_pos, if_neg,
}
use realtime_chat_platform.Presence.Redis.{Redis}
use realtime_chat_platform.Presence.Repository.{
  Exec, executed, unheard, refused, set_online, set_offline, exec,
}
use realtime_chat_platform.Presence.History.{Call, online, offline, run_call}
use realtime_chat_platform.Presence.Service.{
  validate_room, validate_instance_id, PresenceEvent, record_event, by_status, repository_call,
  answer_of, respond_error, post_event, status_of, repository, ServiceError, validation,
  unknown_status, user_id_not_positive, Invalid,
}
use realtime_chat_platform.Presence.Service.Names.{
  IsName, validate_room_names, validate_instance_names,
}

pub record IsPresenceEvent (event : PresenceEvent) : Type 0 where
  pub room : IsName false event.room
  pub instance_id : IsName true event.instance_id
  pub user : positive event.user_id ≡ true
  pub status : (event.status ≡ "online") ⊎ (event.status ≡ "offline")

-- The call of the repository that an event stands for.
pub call_of : PresenceEvent → Call
call_of event =
    ite (String_discrete event.status "online")
      (online (bytes event.room) event.user_id (bytes event.instance_id))
      (offline (bytes event.room) event.user_id (bytes event.instance_id))

pub answered : Exec → Bool
answered executed = true
answered unheard = false
answered refused = false

-- 202 if Redis answers, else 500.
pub answered_status : Exec → ℕ
answered_status executed = 202
answered_status unheard = 500
answered_status refused = 500

module _ (R : Redis) (ttl : ℕ) (x : Exec) (now : ℕ) (event : PresenceEvent) (s : R.State) where
  -- What is done on an event that is valid, and on one that is not.
  pub record Done : Type 0 where
    pub valid : IsPresenceEvent event
    pub after : (post_event R ttl x now (some event) s).0 ≡ run_call R ttl x now (call_of event) s
    pub status : status_of (post_event R ttl x now (some event) s).1 ≡ answered_status x

  pub record Ignored : Type 0 where
    pub invalid : ¬ IsPresenceEvent event
    pub after : (post_event R ttl x now (some event) s).0 ≡ s
    pub status : status_of (post_event R ttl x now (some event) s).1 ≡ 400

  abbrev outcome : Call → R.State × Option ServiceError
  outcome c = (run_call R ttl x now c s, if answered x then none else some repository)

  online_done :
      repository_call
        (set_online R ttl x now (bytes event.room) event.user_id (bytes event.instance_id) s)
      ≡ (
        (set_online R ttl x now (bytes event.room) event.user_id (bytes event.instance_id) s).0,
        if answered x then none else some repository,
      )
  unfolding repository_call set_online exec answered
  online_done = ground arith

  offline_done :
      repository_call
        (set_offline R ttl x now (bytes event.room) event.user_id (bytes event.instance_id) s)
      ≡ (
        (set_offline R ttl x now (bytes event.room) event.user_id (bytes event.instance_id) s).0,
        if answered x then none else some repository,
      )
  unfolding repository_call set_offline exec answered
  offline_done = ground arith

  by_status_done :
      (event.status ≡ "online") ⊎ (event.status ≡ "offline")
      → by_status R ttl x now event s
        ≡ (run_call R ttl x now (call_of event) s, if answered x then none else some repository)
  unfolding by_status call_of
  by_status_done h = elim (String_discrete event.status "online") [
    | yes on ↦
        if_pos (String_discrete event.status "online") on _ _
        ∙ online_done
        ∙ ap outcome (sym (if_pos (String_discrete event.status "online") on _ _))
    | no n ↦ elim h [
      | inl on ↦ absurd (n on)
      | inr off ↦
          if_neg (String_discrete event.status "online") n _ _
          ∙ if_pos (String_discrete event.status "offline") off _ _
          ∙ offline_done
          ∙ ap outcome (sym (if_neg (String_discrete event.status "online") n _ _))
    ]
  ]

  by_status_unknown :
      event.status ≢ "online"
      → event.status ≢ "offline"
      → by_status R ttl x now event s ≡ (s, some (validation unknown_status))
  unfolding by_status
  by_status_unknown n m =
      if_neg (String_discrete event.status "online") n _ _
      ∙ if_neg (String_discrete event.status "offline") m _ _

  rejects :
      (e : Invalid)
      → ¬ IsPresenceEvent event
      → record_event R ttl x now event s ≡ (s, some (validation e))
      → Ignored
  unfolding post_event answer_of respond_error
  rejects e n eq = record { invalid = n; after = ap (λ p. p.0) eq; status = rw eq }

  accepts :
      IsPresenceEvent event
      → record_event R ttl x now event s
        ≡ (run_call R ttl x now (call_of event) s, if answered x then none else some repository)
      → Done
  unfolding post_event answer_of respond_error answered answered_status
  accepts v eq = record { valid = v; after = ap (λ p. p.0) eq; status = rw eq (ground arith) }

  valid_so_far :
      validate_room event.room ≡ none
      → validate_instance_id event.instance_id ≡ none
      → positive event.user_id ≡ true
      → Done ⊎ Ignored
  unfolding record_event
  valid_so_far room_fine instance_fine user_fine =
      let checked : record_event R ttl x now event s ≡ by_status R ttl x now event s =
        rw (room_fine, instance_fine, user_fine, record_event) in
      let accepted = λ (known : (event.status ≡ "online") ⊎ (event.status ≡ "offline")).
        accepts
          (record {
            room = (validate_room_names event.room).0 room_fine;
            instance_id = (validate_instance_names event.instance_id).0 instance_fine;
            user = user_fine;
            status = known;
          })
          (checked ∙ by_status_done known) in
      elim (String_discrete event.status "online") [
        | yes on ↦ inl (accepted (inl on))
        | no n ↦ elim (String_discrete event.status "offline") [
          | yes off ↦ inl (accepted (inr off))
          | no m ↦ inr (
              rejects unknown_status (λ v. elim v.status [ inl e ↦ n e | inr e ↦ m e ])
                (checked ∙ by_status_unknown n m))
        ]
      ]

  -- An event that is bound is either valid, then the repository's call for its status is made and
  -- the answer is 202 if Redis answers it and 500 if not, whether it was done or not, or it is not
  -- valid, then Redis is left alone and the answer is 400. Valid is an event with a room's name and
  -- an instance's name of 1 to 64 letters, digits, underscores and hyphens, in the instance's also
  -- dots, a positive user, and the status online or offline.
  pub post_event_lem : Done ⊎ Ignored
  unfolding record_event
  post_event_lem = elim (Option-cases (validate_room event.room)) [
    | inr (e, bad) ↦ inr (
        rejects e (λ v. (let fine = (validate_room_names event.room).1 v.room in cc))
          (rw (bad, record_event)))
    | inl room_fine ↦ elim (Option-cases (validate_instance_id event.instance_id)) [
      | inr (e, bad) ↦ inr (
          rejects e
            (λ v. (let fine = (validate_instance_names event.instance_id).1 v.instance_id in cc))
            (rw (room_fine, bad, record_event)))
      | inl instance_fine ↦ elim (Bool-cases (positive event.user_id)) [
        | inr negative ↦ inr (
            rejects user_id_not_positive (λ v. (let fine = v.user in cc))
              (rw (room_fine, instance_fine, negative, record_event)))
        | inl user_fine ↦ valid_so_far room_fine instance_fine user_fine
      ]
    ]
  ]
