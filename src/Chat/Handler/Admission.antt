-- ===== src/Chat/Handler/Admission.antt =====
-- Who is admitted to which room; and the three services agree on the names of rooms.
use realtime_chat_platform.Prelude.Maps
use realtime_chat_platform.Prelude.{
  ℕ, ◌≡◌, ◌≢◌, ◌↔◌, ◌⊎◌, inl, inr, refl, ap, ◌∙◌, String, String_discrete, Bool, true, false, ◌&&◌,
  none, some, List, [], ◌∷◌, if◌then◌else◌, codes, arith, Option-cases, Sum-cases, Bool-cases,
}
use realtime_chat_platform.Chat.Domain.{SendChannel}
use realtime_chat_platform.Chat.Hub.{Hub, get_or_create_room}
use realtime_chat_platform.Chat.Room.{Room}
use realtime_chat_platform.Chat.Handler.{
  Handshake, World, Served, refused, not_upgraded, unavailable, registered, room_name, all_allowed,
  validate_room_name, check_origin, connect, serve,
}
use realtime_chat_platform.Tokens.{Jwt, Claims, authenticate}
use realtime_chat_platform.Presence.Service as PresenceService
use realtime_chat_platform.Presence.Service.{is_safe_identifier, is_allowed}
use realtime_chat_platform.Notification.Validation as NotificationValidation
use realtime_chat_platform.Notification.Validation.{check_runes}

runes_agree : (rs : List ℕ) → is_safe_identifier rs false ≡ all_allowed rs
unfolding is_safe_identifier is_allowed all_allowed
runes_agree [] = refl
runes_agree (r ∷ rs) = ground (arith, runes_agree rs)

allowed_of_check : (rs : List ℕ) → check_runes rs ≡ none → all_allowed rs ≡ true
unfolding check_runes all_allowed
allowed_of_check [] h = refl
allowed_of_check (r ∷ rs) h = ground (arith, allowed_of_check rs)

check_of_allowed : (rs : List ℕ) → all_allowed rs ≡ true → check_runes rs ≡ none
unfolding check_runes all_allowed
check_of_allowed [] h = refl
check_of_allowed (r ∷ rs) h = ground (arith, check_of_allowed rs)

-- The chat, the presence and the notification service, each with a check of its own, take the same
-- names of rooms for valid.
pub room_names_agree :
    (room : String)
    → ((validate_room_name room ≡ none) ↔ (PresenceService.validate_room room ≡ none))
      × ((validate_room_name room ≡ none) ↔ (NotificationValidation.validate_room room ≡ none))
unfolding validate_room_name PresenceService.validate_room NotificationValidation.validate_room
room_names_agree room =
    let agree = runes_agree (codes room) in
    let to = allowed_of_check (codes room) in
    let from = check_of_allowed (codes room) in
    (
      (λ h. ground (arith, agree), λ h. ground (arith, agree)),
      (λ h. ground (arith, from), λ h. ground (arith, to)),
    )

module _ (channels : ℕ → SendChannel) (J : Jwt) (secret : List ℕ) (allowed_origins : List String)
    (world : World) (now : ℕ) (h : Handshake) (hub : Hub) where
  abbrev pub served : Hub × Served
  served = serve channels J secret allowed_origins world now h hub

  abbrev pub passes : Bool
  passes = check_origin allowed_origins h.origin && world.upgrades

  -- A handshake that is let in: the room is the hub's under its name, and the client is the user of
  -- the token.
  pub record Admitted : Type 0 where
    pub name_valid : validate_room_name (room_name h) ≡ none
    pub claims : Claims
    pub authenticated : authenticate J secret now (codes h.authorization) ≡ inl claims
    pub passed : passes ≡ true
    pub room : Room
    pub in_hub : Maps.get String_discrete (room_name h) served.0.rooms ≡ some room
    pub hub_after : served.0 ≡ (get_or_create_room channels hub (room_name h)).0
    pub result : served.1 ≡ (
        if world.taken
        then registered
            (room_name h)
            room
            (record { id = world.connection; user_id = claims.user_id })
        else unavailable (room_name h))

  -- A handshake that is not, for the first reason that there is: it leaves the hub alone.
  pub record TurnedAway : Type 0 where
    pub hub_kept : served.0 ≡ hub
    pub reason :
        ((validate_room_name (room_name h) ≢ none) × (served.1 ≡ refused 400))
        ⊎ (((claims : Claims) → authenticate J secret now (codes h.authorization) ≢ inl claims)
            × (served.1 ≡ refused 401))
        ⊎ ((passes ≡ false) × (served.1 ≡ not_upgraded))

  connect_in_hub :
      (room : Room)
      → (get_or_create_room channels hub (room_name h)).1 ≡ room
      → Maps.get String_discrete
          (room_name h)
          (get_or_create_room channels hub (room_name h)).0.rooms
        ≡ some room
  unfolding get_or_create_room
  connect_in_hub room e =
      ground (arith, Maps.get-put_self String_discrete (room_name h) room hub.rooms)

  -- A handshake creates a room or joins one only with a valid room's name, an accepted token and an
  -- upgrade from an allowed origin or from no browser: then the hub has the room under that name,
  -- and the client is registered there as the token's user, if the room takes it within the bound.
  -- Any other is answered 400, 401 or as the upgrade says, and the hub is as it was.
  pub serve_lem : Admitted ⊎ TurnedAway
  unfolding serve connect
  serve_lem = elim (Option-cases (validate_room_name (room_name h))) [
    | inr (e, bad) ↦
        inr
          (record { hub_kept = ground (arith, bad); reason = inl ((λ n. cc), ground (arith, bad)) })
    | inl fine ↦ elim (Sum-cases (authenticate J secret now (codes h.authorization))) [
      | inr (e, bad) ↦ inr (record {
        hub_kept = ground (arith, fine, bad);
        reason = inr (inl ((λ claims n. cc), ground (arith, fine, bad)));
      })
      | inl (claims, good) ↦ elim (Bool-cases passes) [
        | inr out ↦ inr (record {
          hub_kept = ground (arith, fine, good, out);
          reason = inr (inr (out, ground (arith, fine, good, out)));
        })
        | inl through ↦
            (let room = (get_or_create_room channels hub (room_name h)).1 in
              let after : served.0 ≡ (get_or_create_room channels hub (room_name h)).0 =
                ground (arith, fine, good, through) in
              inl (record {
                name_valid = fine;
                claims = claims;
                authenticated = good;
                passed = through;
                room = room;
                in_hub =
                    ap (λ k. Maps.get String_discrete (room_name h) k.rooms) after
                    ∙ connect_in_hub room refl;
                hub_after = after;
                result = ground (arith, fine, good, through);
              }))
      ]
    ]
  ]
