-- ===== src/Notification/Validation.antt =====
-- notification-service/internal/service/validation.go (rooms), `ValidateEvent` of fanout_service.go
-- and `forbiddenIP` with the dial loop of ssrf.go. The classes of an address are those of Go's
-- `net.Ip`, which is an argument, like the resolver's answer and the dialer.
pub mod Rules
use realtime_chat_platform.Prelude.{
  ℕ, ◌⊎◌, inl, inr, String, String_discrete, ℤ, positive, Bool, true, false, not, ◌&&◌, ◌||◌,
  Option, none, some, List, [], ◌∷◌, ite, if◌then◌else◌, ltb, leb, ◌==◌, codes, bytes, length,
}
use realtime_chat_platform.Notification.Domain.{MessageEvent}

-- The texts behind `ErrValidation`.
pub data Invalid : Type 0 where
  room_required room_too_long room_characters : Invalid
  user_id_not_positive event_id_length content_required : Invalid

abbrev pub max_room_name_length : ℕ
max_room_name_length = 64

unfoldable pub is_allowed : ℕ → Bool
is_allowed r =
    (leb b'a' r && leb r b'z')
    || ((leb b'A' r && leb r b'Z') || ((leb b'0' r && leb r b'9') || ((r == b'_') || (r == b'-'))))

-- The loop over the runes of a room's name.
unfoldable pub check_runes : List ℕ → Option Invalid
unfolding is_allowed
check_runes [] = none
check_runes (r ∷ rs) =
    let rest = check_runes rs in if is_allowed r then rest else some room_characters

-- `nil` is `none`.
unfoldable pub validate_room : String → Option Invalid
unfolding check_runes bytes
validate_room room = ite (String_discrete room "") (some room_required) (
    if ltb max_room_name_length (length (bytes room))
    then some room_too_long
    else check_runes (codes room))

unfoldable pub validate_event : MessageEvent → Option Invalid
unfolding validate_room bytes
validate_event event = elim (validate_room event.room) [
  | some e ↦ some e
  | none ↦
      if not (positive event.user_id)
      then some user_id_not_positive
      else ite (String_discrete event.event_id "") (some event_id_length) (
          if ltb 32 (length (bytes event.event_id))
          then some event_id_length
          else ite (String_discrete event.content "") (some content_required) none)
]

-- What `net.Ip` says of an address.
pub record Ip : Type 0 where
  pub address : ℕ
  pub is_loopback : Bool
  pub is_private : Bool
  pub is_link_local_unicast : Bool
  pub is_link_local_multicast : Bool
  pub is_unspecified : Bool
  pub is_multicast : Bool
  pub is_interface_local_multicast : Bool

unfoldable pub forbidden_ip : Ip → Bool → Bool
forbidden_ip ip allow_loopback =
    if ip.is_loopback
    then not allow_loopback
    else (ip.is_private
        || (ip.is_link_local_unicast
            || (ip.is_link_local_multicast
                || (ip.is_unspecified || (ip.is_multicast || ip.is_interface_local_multicast)))))

pub data DialError : Type 0 where
  forbidden_destination refused : DialError

-- The end of a dial, and the addresses to which a connection was tried, in their order.
pub record Dialed : Type 0 where
  pub result : Ip ⊎ DialError
  pub tried : List Ip

module _ (connects : Ip → Bool) where
  unfoldable pub dial_loop : Bool → List Ip → DialError → Dialed
  unfolding forbidden_ip
  dial_loop allow_loopback [] last_err = record { result = inr last_err; tried = [] }
  dial_loop allow_loopback (ip ∷ ips) last_err =
      let skipped = dial_loop allow_loopback ips last_err in
      let next = dial_loop allow_loopback ips refused in
      if forbidden_ip ip allow_loopback
      then skipped
      else if connects ip
      then record { result = inl ip; tried = ip ∷ [] }
      else record next { tried = ip ∷ next.tried }

  -- `DialContext` on the addresses that the host resolved to.
  unfoldable pub dial_context : Bool → List Ip → Dialed
  unfolding dial_loop
  dial_context allow_loopback addrs = dial_loop allow_loopback addrs forbidden_destination
