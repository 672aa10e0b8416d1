-- ===== src/Presence/Repository/Counts.antt =====
-- The counts of `ListRooms`, one round at a time, and the order of its answer.
use realtime_chat_platform.Prelude.{
  ℕ, ◌≡◌, ap, Bool, true, false, ◌&&◌, List, [], ◌∷◌, ite, if◌then◌else◌, arith, ltb, ◌==◌, ℤ, inl,
  length, ℕ_discrete,
}
use realtime_chat_platform.Prelude.Orders.{Bytes_discrete, le_bytes_total, le_bytes_trans}
use realtime_chat_platform.Prelude.Sorting.{listed}
use realtime_chat_platform.Presence.Repository.{collapse_users, count_rooms, RoomCount, by_name}

pub RoomCount-discrete : Discrete RoomCount
RoomCount-discrete = hlevel (ℕ_discrete, Bytes_discrete)

abbrev pub has_count : List ℕ → ℕ → List RoomCount → Bool
has_count room c rooms = listed RoomCount-discrete (record { name = room; count = c }) rooms

-- The number of some users, of whom there is one at least.
abbrev pub counts : ℕ → List ℤ → Bool
counts c ids = (c == length ids) && ltb 0 c

pub by_name_total : (a b : RoomCount) → by_name a b ≡ false → by_name b a ≡ true
unfolding by_name
by_name_total a b h = le_bytes_total a.name b.name h

pub by_name_trans :
    (a b c : RoomCount) → by_name a b ≡ true → by_name b c ≡ true → by_name a c ≡ true
unfolding by_name
by_name_trans a b c h k = le_bytes_trans a.name b.name c.name h k

has_count-cons :
    (room r : List ℕ) (c k : ℕ) (rest : List RoomCount)
    → has_count room c (record { name = r; count = k } ∷ rest)
      ≡ (if ite (Bytes_discrete room r) (c == k) false then true else has_count room c rest)
unfolding listed
has_count-cons room r c k rest =
    elim (RoomCount-discrete (record { name = room; count = c }) (record { name = r; count = k })) [
      | yes e ↦
          (let name = ap (λ (x : RoomCount). x.name) e in
            let number = ap (λ (x : RoomCount). x.count) e in ground arith)
      | no n ↦ ground arith
    ]

-- One round of the count.
pub count_step :
    (room r : List ℕ) (rs : List (List ℕ)) (raw : List (List ℕ)) (raws : List (List (List ℕ)))
    (ids : List ℤ) (c : ℕ)
    → collapse_users raw ≡ inl ids
    → has_count room c (count_rooms (r ∷ rs) (raw ∷ raws)) ≡ (
        if ite (Bytes_discrete room r) (counts c ids) false
        then true
        else has_count room c (count_rooms rs raws))
unfolding count_rooms listed
count_step room r rs raw raws [] c e = rw (e, count_rooms) (ground arith)
count_step room r rs raw raws (u ∷ ids) c e =
    rw (e, count_rooms)
      (ground (arith, has_count-cons room r c (length (u ∷ ids)) (count_rooms rs raws)))
