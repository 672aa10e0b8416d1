-- ===== src/Presence/Repository/Members.antt =====
-- Members of presence sets: who a member stands for, and what the collapse to users keeps.
use realtime_chat_platform.Prelude.{
  ℕ, ◌≡◌, refl, sym, ap, ◌∙◌, subst, ℤ, ℤ_discrete, Bool, true, false, ◌||◌, Option, none, some,
  List, [], ◌∷◌, ◌++◌, ite, if_pos, if_neg, if◌then◌else◌, arith, inl, inr, Bool-cases,
}
use realtime_chat_platform.Prelude.Decimal.{
  InInt64, format_int, parse_int, cut_before, cut_before-format_int, parse_int-format_int,
}
use realtime_chat_platform.Prelude.Lists.{All}
use realtime_chat_platform.Prelude.Orders.{
  Bytes_discrete, append-left_cancel, cons-injective, le_int, le_int_total, le_int_trans,
}
use realtime_chat_platform.Prelude.Sorting.{
  listed, listed-append_single, NoRepeats, NoRepeats-append_single, sort, IsSorted, sort-IsSorted,
  listed-sort, NoRepeats-sort,
}
use realtime_chat_platform.Presence.Repository.{
  member, members_of, collect_users, collapse_users, sorted,
}

abbrev pub user_of : List ℕ → Option ℤ
user_of m = parse_int (cut_before b':' m)

-- What is written as a member is read back as its user.
pub user_of-member : (u : ℤ) (i : List ℕ) → InInt64 u → user_of (member u i) ≡ some u
unfolding member
user_of-member u i h = rw (cut_before-format_int u i) (parse_int-format_int u h)

member-injective :
    (u v : ℤ) (i j : List ℕ) → InInt64 u → InInt64 v → member u i ≡ member v j → (u ≡ v) × (i ≡ j)
unfolding member
member-injective u v i j hu hv e =
    let same : u ≡ v = cc (user_of-member u i hu, user_of-member v j hv, ap user_of e) in
    (
      same,
      (cons-injective b':' b':' i j (
          append-left_cancel (format_int u) (b':' ∷ i) (b':' ∷ j)
            (e ∙ ap (λ w. format_int w ++ b':' ∷ j) (sym same)))).1,
    )

pub same_member :
    {A : Type 0} (u v : ℤ) (i j : List ℕ) (p q : A)
    → InInt64 u
    → InInt64 v
    → ite (Bytes_discrete (member u i) (member v j)) p q
      ≡ ite (ℤ_discrete u v) (ite (Bytes_discrete i j) p q) q
same_member u v i j p q hu hv =
    let injective = member-injective u v i j hu hv in
    elim (Bytes_discrete (member u i) (member v j)) [
      | yes e ↦ (let same = injective e in ground arith)
      | no n ↦ ground arith
    ]

pub listed-members_of :
    (u : ℤ) (i j : List ℕ) (us : List ℤ)
    → InInt64 u
    → All InInt64 us
    → listed Bytes_discrete (member u i) (members_of j us)
      ≡ ite (Bytes_discrete i j) (listed ℤ_discrete u us) false
unfolding listed members_of
listed-members_of u i j [] hu h = ground arith
listed-members_of u i j (v ∷ us) hu h =
    same_member u v i j true (listed Bytes_discrete (member u i) (members_of j us)) hu h.0
    ∙ ground (arith, listed-members_of u i j us hu h.1)

-- Whether a member stands for a user, and whether one in a list does.
abbrev pub stands_for : ℤ → Option ℤ → Bool
stands_for u none = false
stands_for u (some v) = ite (ℤ_discrete u v) true false

abbrev pub found : ℤ → List (List ℕ) → Bool
found u [] = false
found u (m ∷ ms) = stands_for u (user_of m) || found u ms

pub found-listed :
    (u : ℤ) (m : List ℕ) (raw : List (List ℕ))
    → listed Bytes_discrete m raw ≡ true
    → user_of m ≡ some u
    → found u raw ≡ true
unfolding listed
found-listed u m [] h e = cc
found-listed u m (x ∷ raw) h e = elim (Bytes_discrete m x) [
  | yes p ↦
      (let of_x : user_of x ≡ some u = subst (λ y. user_of y ≡ some u) p e in ground (arith, of_x))
  | no n ↦
      (let rest = found-listed u m raw (sym (if_neg (Bytes_discrete m x) n true _) ∙ h) e in
        ground (arith, rest))
]

pub listed-found :
    (u : ℤ) (raw : List (List ℕ))
    → found u raw ≡ true
    → (m : List ℕ) × (listed Bytes_discrete m raw ≡ true) × (user_of m ≡ some u)
unfolding listed
listed-found u [] h = absurd (cc)
listed-found u (x ∷ raw) h = elim (Bool-cases (stands_for u (user_of x))) [
  | inl here ↦ (x, if_pos (Bytes_discrete x x) refl true _, ground arith)
  | inr not_here ↦
      (let (m, there, e) = listed-found u raw (ground (arith, h, not_here)) in
        (m, ground (arith, there), e))
]

pub record Collapsed (raw : List (List ℕ)) (ids : List ℤ) : Type 0 where
  pub ordered : IsSorted le_int ids
  pub once : NoRepeats ℤ_discrete ids
  pub users : (u : ℤ) → listed ℤ_discrete u ids ≡ found u raw

collect_step :
    (m : List ℕ) (raw : List (List ℕ)) (acc : List ℤ) (v : ℤ)
    → user_of m ≡ some v
    → collect_users (m ∷ raw) acc
      ≡ collect_users raw (if listed ℤ_discrete v acc then acc else acc ++ v ∷ [])
unfolding collect_users
collect_step m raw acc v e = rw (e, collect_users)

collect_users_lem :
    (raw : List (List ℕ)) (acc : List ℤ)
    → All (λ m. (u : ℤ) × (user_of m ≡ some u)) raw
    → NoRepeats ℤ_discrete acc
    → (ids : List ℤ) × (collect_users raw acc ≡ inl ids)
      × NoRepeats ℤ_discrete ids
      × ((u : ℤ) → listed ℤ_discrete u ids ≡ (listed ℤ_discrete u acc || found u raw))
unfolding collect_users
collect_users_lem [] acc h once = (acc, refl, once, λ u. ground arith)
collect_users_lem (m ∷ raw) acc h once =
    let v = h.0.0 in
    elim (Bool-cases (listed ℤ_discrete v acc)) [
      | inl seen ↦
          (let (ids, e, o, all) = collect_users_lem raw acc h.1 once in
            (
              ids,
              collect_step m raw acc v h.0.1 ∙ rw seen e,
              o,
              λ u. ground (arith, h.0.1, all u, seen),
            ))
      | inr fresh ↦
          (let grown = acc ++ v ∷ [] in
            let (ids, e, o, all) =
              collect_users_lem raw grown h.1
                (NoRepeats-append_single ℤ_discrete v acc fresh once) in
            (
              ids,
              collect_step m raw acc v h.0.1 ∙ rw fresh e,
              o,
              λ u. ground (arith, h.0.1, all u, listed-append_single ℤ_discrete u v acc),
            ))
    ]

pub collapse_users_lem :
    (raw : List (List ℕ))
    → All (λ m. (u : ℤ) × (user_of m ≡ some u)) raw
    → (ids : List ℤ) × (collapse_users raw ≡ inl ids) × Collapsed raw ids
unfolding collapse_users sorted listed
collapse_users_lem raw h =
    let (ids, e, once, all) = collect_users_lem raw [] h tt in
    (
      sort le_int ids,
      ap sorted e,
      record {
        ordered = sort-IsSorted le_int le_int_total le_int_trans ids;
        once = NoRepeats-sort le_int ℤ_discrete ids once;
        users = λ u. listed-sort le_int ℤ_discrete u ids ∙ all u;
      },
    )

-- A property of all that are listed holds of a list.
pub All_of_listed {κ} :
    (Q : List ℕ → Type κ) (l : List (List ℕ))
    → ((m : List ℕ) → listed Bytes_discrete m l ≡ true → Q m)
    → All Q l
unfolding listed
All_of_listed Q [] h = tt
All_of_listed Q (x ∷ l) h = (
  h x (if_pos (Bytes_discrete x x) refl true _),
  All_of_listed Q l (λ m e. h m (ground (arith, e))),
)
