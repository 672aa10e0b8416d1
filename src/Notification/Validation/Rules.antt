-- ===== src/Notification/Validation/Rules.antt =====
-- What a valid event and a dialed address are.
use realtime_chat_platform.Prelude.{
  ℕ, ◌≤◌, ◌≡◌, ◌≢◌, ◌⊎◌, inl, inr, ◌↔◌, refl, sym, ap, subst, String, positive, Bool, true, false,
  none, List, [], ◌∷◌, if◌then◌else◌, codes, bytes, length, All, arith, Bool-cases,
}
use realtime_chat_platform.Notification.Domain.{MessageEvent}
use realtime_chat_platform.Notification.Validation.{
  is_allowed, check_runes, validate_room, validate_event, Ip, forbidden_ip, DialError,
  forbidden_destination, refused, Dialed, dial_loop, dial_context,
}

-- A rune that a room's name may have.
pub data IsRoomRune (r : ℕ) : Type 0 where
  lower : b'a' ≤ r → r ≤ b'z' → IsRoomRune r
  upper : b'A' ≤ r → r ≤ b'Z' → IsRoomRune r
  digit : b'0' ≤ r → r ≤ b'9' → IsRoomRune r
  underscore : r ≡ b'_' → IsRoomRune r
  hyphen : r ≡ b'-' → IsRoomRune r

is_allowed-IsRoomRune : (r : ℕ) → is_allowed r ≡ true → IsRoomRune r
unfolding is_allowed
is_allowed-IsRoomRune r h = grind (arith, lower, upper, digit, underscore, hyphen)

IsRoomRune-is_allowed : (r : ℕ) → IsRoomRune r → is_allowed r ≡ true
unfolding is_allowed
IsRoomRune-is_allowed r (lower a b) = ground arith
IsRoomRune-is_allowed r (upper a b) = ground arith
IsRoomRune-is_allowed r (digit a b) = ground arith
IsRoomRune-is_allowed r (underscore a) = ground arith
IsRoomRune-is_allowed r (hyphen a) = ground arith

check_runes-All : (rs : List ℕ) → check_runes rs ≡ none → All IsRoomRune rs
unfolding check_runes
check_runes-All [] h = tt
check_runes-All (r ∷ rs) h = elim (Bool-cases (is_allowed r)) [
  | inl yes_ ↦ (is_allowed-IsRoomRune r yes_, check_runes-All rs (ground arith))
  | inr no_ ↦ absurd (ground arith)
]

All-check_runes : (rs : List ℕ) → All IsRoomRune rs → check_runes rs ≡ none
unfolding check_runes
All-check_runes [] h = refl
All-check_runes (r ∷ rs) h = ground (arith, IsRoomRune-is_allowed r h.0, All-check_runes rs h.1)

-- A room's name as its clients must spell it.
pub record IsRoomName (room : String) : Type 0 where
  pub given : room ≢ ""
  pub short : length (bytes room) ≤ 64
  pub spelled : All IsRoomRune (codes room)

-- `validateRoom` accepts a name exactly when it is not empty, has at most 64 bytes, and consists of
-- letters, digits, underscores and hyphens.
validate_room_iff : (room : String) → (validate_room room ≡ none) ↔ IsRoomName room
unfolding validate_room
validate_room_iff room = (
  λ h. record {
    given = ground arith;
    short = ground arith;
    spelled = check_runes-All (codes room) (ground arith);
  },
  λ v. ground (arith, v.given, v.short, All-check_runes (codes room) v.spelled),
)

pub record IsEvent (event : MessageEvent) : Type 0 where
  pub room : IsRoomName event.room
  pub sender : positive event.user_id ≡ true
  pub identified : event.event_id ≢ ""
  pub short : length (bytes event.event_id) ≤ 32
  pub content : event.content ≢ ""

-- `ValidateEvent` accepts an event exactly when its room's name is valid, its sender positive, its
-- id of 1 to 32 bytes and its content not empty.
pub validate_event_iff : (event : MessageEvent) → (validate_event event ≡ none) ↔ IsEvent event
unfolding validate_event
validate_event_iff event = (
  λ h. record {
    room = (validate_room_iff event.room).0 (ground arith);
    sender = ground arith;
    identified = ground arith;
    short = ground arith;
    content = ground arith;
  },
  λ v.
      ground (
        arith,
        (validate_room_iff event.room).1 v.room,
        v.sender,
        v.identified,
        v.short,
        v.content,
      ),
)

module _ (connects : Ip → Bool) (allow_loopback : Bool) where
  -- The end of a dial: a connection that was allowed and made, or a reason why each address was
  -- out.
  abbrev pub Settled : List Ip → Ip ⊎ DialError → Type 0
  Settled addrs (inl ip) = (forbidden_ip ip allow_loopback ≡ false) × (connects ip ≡ true)
  Settled addrs (inr e) =
      All (λ ip. (forbidden_ip ip allow_loopback ≡ true) ⊎ (connects ip ≡ false)) addrs

  pub record DialsSafely (addrs : List Ip) (d : Dialed) : Type 0 where
    pub tried_allowed : All (λ ip. forbidden_ip ip allow_loopback ≡ false) d.tried
    pub settled : Settled addrs d.result

  Settled-one :
      (ip : Ip) (ips : List Ip) (r : Ip ⊎ DialError)
      → (forbidden_ip ip allow_loopback ≡ true) ⊎ (connects ip ≡ false)
      → Settled ips r
      → Settled (ip ∷ ips) r
  Settled-one ip ips (inl found) out h = h
  Settled-one ip ips (inr e) out h = (out, h)

  dial_loop-DialsSafely :
      (addrs : List Ip) (last_err : DialError)
      → DialsSafely addrs (dial_loop connects allow_loopback addrs last_err)
  unfolding dial_loop
  dial_loop-DialsSafely [] last_err = record { tried_allowed = tt; settled = tt }
  dial_loop-DialsSafely (ip ∷ ips) last_err =
      let skipped = dial_loop connects allow_loopback ips last_err in
      let next = dial_loop connects allow_loopback ips refused in
      let after : Dialed = record next { tried = ip ∷ next.tried } in
      let dialed = if connects ip then record { result = inl ip; tried = ip ∷ [] } else after in
      elim (Bool-cases (forbidden_ip ip allow_loopback)) [
        | inl forbidden ↦
            let w = dial_loop-DialsSafely ips last_err in
            subst (DialsSafely (ip ∷ ips)) (sym (ap (λ b. if b then skipped else dialed) forbidden))
              (record {
                tried_allowed = w.tried_allowed;
                settled = Settled-one ip ips skipped.result (inl forbidden) w.settled;
              })
        | inr allowed ↦
            subst (DialsSafely (ip ∷ ips)) (sym (ap (λ b. if b then skipped else dialed) allowed))
              (elim (Bool-cases (connects ip)) [
                | inl made ↦
                    subst (DialsSafely (ip ∷ ips))
                      (sym (
                        ap (λ b. if b then record { result = inl ip; tried = ip ∷ [] } else after)
                          made))
                      (record { tried_allowed = (allowed, tt); settled = (allowed, made) })
                | inr lost ↦
                    let w = dial_loop-DialsSafely ips refused in
                    subst (DialsSafely (ip ∷ ips))
                      (sym (
                        ap (λ b. if b then record { result = inl ip; tried = ip ∷ [] } else after)
                          lost))
                      (record {
                        tried_allowed = (allowed, w.tried_allowed);
                        settled = Settled-one ip ips next.result (inr lost) w.settled;
                      })
              ])
      ]

  -- Whatever a host resolves to, no forbidden address is ever dialed; the dial ends in a connection
  -- to an address that is allowed and answers, or in an error, and then every address was forbidden
  -- or refused.
  pub dial_context-DialsSafely :
      (addrs : List Ip) → DialsSafely addrs (dial_context connects allow_loopback addrs)
  unfolding dial_context
  dial_context-DialsSafely addrs = dial_loop-DialsSafely addrs forbidden_destination
