-- ===== src/Gateway/LoadBalancer/ConsistentHash/Ring.antt =====
-- The ring is sorted, and holds the points of every instance.
use mathlib.Core.List.Perm
use mathlib.Core.List.{Perm}
use realtime_chat_platform.Prelude.{
  ℕ, zero, suc, ◌*◌, ◌≤◌, ◌≡◌, refl, ap, ◌∙◌, subst, ◌++◌, map, bytes, decimal, inl, inr, List, [],
  ◌∷◌, leb, length, length-append, All, All-append, Bool-cases, arith,
}
use realtime_chat_platform.Gateway.LoadBalancer.Hash.{hash_key}
use realtime_chat_platform.Gateway.LoadBalancer.Pool.{Backend, Pool}
use realtime_chat_platform.Gateway.LoadBalancer.ConsistentHash.{
  RingPoint, virtual_nodes, points, all_points, insert, sort, new_consistent_hash,
}

abbrev pub Above : ℕ → List RingPoint → Type 0
Above h = All (λ p. h ≤ p.hash)

abbrev pub IsSorted : List RingPoint → Type 0
IsSorted [] = Unit
IsSorted (p ∷ ring) = Above p.hash ring × IsSorted ring

Above-trans : (g h : ℕ) (ring : List RingPoint) → g ≤ h → Above h ring → Above g ring
Above-trans g h [] le a = tt
Above-trans g h (p ∷ ring) le a = (omega arith, Above-trans g h ring le a.1)

insert-Above :
    (h : ℕ) (p : RingPoint) (ring : List RingPoint)
    → h ≤ p.hash
    → Above h ring
    → Above h (insert p ring)
unfolding insert
insert-Above h p [] le a = (le, tt)
insert-Above h p (q ∷ ring) le a = ground (arith, insert-Above h p ring le a.1)

insert-IsSorted : (p : RingPoint) (ring : List RingPoint) → IsSorted ring → IsSorted (insert p ring)
unfolding insert
insert-IsSorted p [] s = (tt, tt)
insert-IsSorted p (q ∷ ring) s =
    ground (
      arith,
      insert-IsSorted p ring s.1,
      insert-Above q.hash p ring,
      Above-trans p.hash q.hash ring,
    )

sort-IsSorted : (ps : List RingPoint) → IsSorted (sort ps)
unfolding sort
sort-IsSorted [] = tt
sort-IsSorted (p ∷ ps) = insert-IsSorted p (sort ps) (sort-IsSorted ps)

insert-perm : (p : RingPoint) (ring : List RingPoint) → Perm (insert p ring) (p ∷ ring)
unfolding insert
insert-perm p [] = Perm.refl (p ∷ [])
insert-perm p (q ∷ ring) = elim (Bool-cases (leb p.hash q.hash)) [
  | inl le ↦ rw (le, insert) (Perm.refl _)
  | inr gt ↦ rw (gt, insert) (Perm.trans (Perm.cons q (insert-perm p ring)) (Perm.swap p q ring))
]

sort-perm : (ps : List RingPoint) → Perm (sort ps) ps
unfolding sort
sort-perm [] = Perm.refl []
sort-perm (p ∷ ps) = Perm.trans (insert-perm p (sort ps)) (Perm.cons p (sort-perm ps))

-- What the ring has to hold: for every instance, and for every number below 150, the hash of the
-- instance's host and that number.
abbrev pub point_of : Backend → ℕ → RingPoint
point_of b i = record { hash = hash_key (bytes b.url.host ++ (b'#' ∷ decimal i)); backend = b.id }

abbrev pub from_to : ℕ → ℕ → List ℕ
from_to i zero = []
from_to i (suc n) = i ∷ from_to (suc i) n

abbrev pub points_of_all : ℕ → List Backend → List RingPoint
points_of_all n [] = []
points_of_all n (b ∷ bs) = map (point_of b) (from_to 0 n) ++ points_of_all n bs

points_lem : (n i : ℕ) (b : Backend) → points n i b ≡ map (point_of b) (from_to i n)
unfolding points
points_lem zero i b = refl
points_lem (suc n) i b = ap (λ l. point_of b i ∷ l) (points_lem n (suc i) b)

all_points_lem : (bs : List Backend) → all_points bs ≡ points_of_all virtual_nodes bs
unfolding all_points
all_points_lem [] = refl
all_points_lem (b ∷ bs) =
    ap (λ l. l ++ all_points bs) (points_lem virtual_nodes 0 b)
    ∙ ap (λ l. map (point_of b) (from_to 0 virtual_nodes) ++ l) (all_points_lem bs)

-- The ring of a pool is sorted by hash, and holds, each once, the points of all its instances,
-- healthy or not: for every number below 150 the hash of `host#number`, with the instance.
pub new_consistent_hash_lem :
    (pool : Pool)
    → IsSorted (new_consistent_hash pool).ring
      × Perm (new_consistent_hash pool).ring (points_of_all 150 pool.backends)
unfolding new_consistent_hash
new_consistent_hash_lem pool = (
  sort-IsSorted (all_points pool.backends),
  subst (Perm (sort (all_points pool.backends))) (all_points_lem pool.backends)
      (sort-perm (all_points pool.backends)),
)

-- A predicate of the points goes through the sort.
insert-All {ℓ} :
    (P : RingPoint → Type ℓ) (p : RingPoint) (ring : List RingPoint)
    → P p
    → All P ring
    → All P (insert p ring)
unfolding insert
insert-All P p [] hp a = (hp, tt)
insert-All P p (q ∷ ring) hp a = ground (arith, insert-All P p ring hp a.1)

pub sort-All {ℓ} : (P : RingPoint → Type ℓ) (ps : List RingPoint) → All P ps → All P (sort ps)
unfolding sort
sort-All P [] a = tt
sort-All P (p ∷ ps) a = insert-All P p (sort ps) a.0 (sort-All P ps a.1)

length-insert : (p : RingPoint) (ring : List RingPoint) → length (insert p ring) ≡ suc (length ring)
unfolding insert
length-insert p [] = refl
length-insert p (q ∷ ring) = ground (arith, length-insert p ring)

pub length-sort : (ps : List RingPoint) → length (sort ps) ≡ length ps
unfolding sort
length-sort [] = refl
length-sort (p ∷ ps) = omega (arith, length-insert p (sort ps), length-sort ps)

length-points : (left i : ℕ) (b : Backend) → length (points left i b) ≡ left
unfolding points
length-points zero i b = refl
length-points (suc left) i b = ap suc (length-points left (suc i) b)

pub length-all_points : (bs : List Backend) → length (all_points bs) ≡ virtual_nodes * length bs
unfolding all_points
length-all_points [] = refl
length-all_points (b ∷ bs) = omega (
  arith,
  length-append (points virtual_nodes 0 b) (all_points bs),
  length-points virtual_nodes 0 b,
  length-all_points bs,
)

points-All {ℓ} :
    (P : ℕ → Type ℓ) (left i : ℕ) (b : Backend) → P b.id → All (λ p. P p.backend) (points left i b)
unfolding points
points-All P zero i b h = tt
points-All P (suc left) i b h = (h, points-All P left (suc i) b h)

pub all_points-All {ℓ} :
    (P : ℕ → Type ℓ) (bs : List Backend)
    → All (λ b. P b.id) bs
    → All (λ p. P p.backend) (all_points bs)
unfolding all_points
all_points-All P [] a = tt
all_points-All P (b ∷ bs) a =
    All-append (λ p. P p.backend) (points virtual_nodes 0 b) (all_points bs)
      (points-All P virtual_nodes 0 b a.0) (all_points-All P bs a.1)
