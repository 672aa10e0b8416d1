-- ===== src/Presence/History/Reports.antt =====
-- Reports by member and reports by user and instance are the same, and members are known.
use realtime_chat_platform.Prelude.{
  ℕ, ◌+◌, ◌≡◌, refl, sym, ap, ◌∙◌, true, false, Option, none, some, List, [], ◌∷◌, if_neg, arith, ℤ,
  Bool-cases, inl, inr, ◌⊎◌,
}
use realtime_chat_platform.Prelude.Decimal.{InInt64}
use realtime_chat_platform.Prelude.Lists.{All}
use realtime_chat_platform.Prelude.Orders.{Bytes_discrete}
use realtime_chat_platform.Prelude.Sorting.{listed}
use realtime_chat_platform.Presence.Repository.{
  Exec, executed, unheard, refused, member, members_of,
}
use realtime_chat_platform.Presence.Repository.Members.{same_member, listed-members_of}
use realtime_chat_platform.Presence.History.{
  Entry, Call, online, offline, heartbeat, read_room, read_rooms, counted, reported, last_report,
  AllInt64, HasInt64,
}
use realtime_chat_platform.Presence.History.Runs.{reported_at, expiry_at}

-- The report of a member is that of the user and the instance that it stands for.
reported_lem :
    (expiry : ℕ) (call : Call) (room : List ℕ) (u : ℤ) (i : List ℕ) (old : Option ℕ)
    → InInt64 u
    → HasInt64 call
    → reported_at expiry call room (member u i) old ≡ reported expiry call room u i old
unfolding listed
reported_lem expiry (online r v j) room u i old hu h =
    ground (arith, same_member u v i j true false hu h)
reported_lem expiry (offline r v j) room u i old hu h =
    ground (arith, same_member u v i j none old hu h)
reported_lem expiry (heartbeat r j vs) room u i old hu h =
    ground (arith, listed-members_of u i j vs hu h)
reported_lem expiry (read_room r) room u i old hu h = refl
reported_lem expiry (read_rooms second) room u i old hu h = refl

pub expiry_at-last_report :
    (ttl : ℕ) (h : List Entry) (room : List ℕ) (u : ℤ) (i : List ℕ)
    → InInt64 u
    → AllInt64 h
    → expiry_at ttl h room (member u i) ≡ last_report ttl h room u i
expiry_at-last_report ttl [] room u i hu all = refl
expiry_at-last_report ttl (e ∷ h) room u i hu all =
    rw (expiry_at-last_report ttl h room u i hu all.1) (
      ap (λ new. counted e.exec new (last_report ttl h room u i))
        (reported_lem (e.now + ttl) e.call room u i (last_report ttl h room u i) hu all.0))

-- A member that stands for a user of an instance.
abbrev pub Known : List ℕ → Type 0
Known x = (u : ℤ) × (i : List ℕ) × (x ≡ member u i) × InInt64 u

members-Known :
    (x i : List ℕ) (us : List ℤ)
    → All InInt64 us
    → listed Bytes_discrete x (members_of i us) ≡ true
    → Known x
unfolding listed members_of
members-Known x i [] h e = absurd (cc)
members-Known x i (u ∷ us) h e = elim (Bytes_discrete x (member u i)) [
  | yes p ↦ (u, i, p, h.0)
  | no n ↦ members-Known x i us h.1 (sym (if_neg (Bytes_discrete x (member u i)) n true _) ∙ e)
]

reported-Known :
    (expiry : ℕ) (call : Call) (room x : List ℕ) (old : Option ℕ) (e : ℕ)
    → HasInt64 call
    → (old ≡ some e → Known x)
    → reported_at expiry call room x old ≡ some e
    → Known x
unfolding listed
reported-Known expiry (online r v j) room x old e h before new =
    elim (Bytes_discrete x (member v j)) [ yes p ↦ (v, j, p, h) | no n ↦ before (ground arith) ]
reported-Known expiry (offline r v j) room x old e h before new = before (ground arith)
reported-Known expiry (heartbeat r j vs) room x old e h before new =
    elim (Bool-cases (listed Bytes_discrete x (members_of j vs))) [
      | inl there ↦ members-Known x j vs h there
      | inr absent ↦ before (ground arith)
    ]
reported-Known expiry (read_room r) room x old e h before new = before new
reported-Known expiry (read_rooms second) room x old e h before new = before new

counted_known :
    (x : Exec) (new old : Option ℕ) (e : ℕ)
    → counted x new old ≡ some e
    → (new ≡ some e) ⊎ (old ≡ some e)
counted_known executed new old e h = inl h
counted_known unheard new old e h = inl h
counted_known refused new old e h = inr h

pub expiry_at-Known :
    (ttl : ℕ) (h : List Entry) (room x : List ℕ) (e : ℕ)
    → AllInt64 h
    → expiry_at ttl h room x ≡ some e
    → Known x
expiry_at-Known ttl [] room x e all eq = absurd (cc)
expiry_at-Known ttl (en ∷ h) room x e all eq =
    let before = expiry_at-Known ttl h room x e all.1 in
    elim (counted_known en.exec _ _ e eq) [
      | inl new ↦
          reported-Known (en.now + ttl) en.call room x (expiry_at ttl h room x) e all.0 before new
      | inr old ↦ before old
    ]
