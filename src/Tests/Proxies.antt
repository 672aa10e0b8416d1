-- ===== src/Tests/Proxies.antt =====
-- The load balancer and the proxies at concrete inputs.
use mathlib.Core.List.{Perm}
use mathlib.Core.Option
use realtime_chat_platform.Prelude.Maps
use realtime_chat_platform.Prelude.{
  ℕ, ◌+◌, ◌^◌, ◌≤◌, ◌<◌, ◌≡◌, refl, ite, String, String_discrete, true, Option, some, List, [], ◌∷◌,
  if◌then◌else◌, length, map, get_elem?, bytes, arith,
}
use realtime_chat_platform.Gateway.Http.{Request}
use realtime_chat_platform.Gateway.LoadBalancer.Pool.{
  Url, Backend, Pool, ok, ProbeReply, failed, answered, new_pool, healthy, probe, check_all,
}
use realtime_chat_platform.Gateway.LoadBalancer.Pool.Health.{
  IsConstructed, swept, new_pool-IsConstructed,
}
use realtime_chat_platform.Gateway.LoadBalancer.Hash.{hash_key}
use realtime_chat_platform.Gateway.LoadBalancer.ConsistentHash.{
  RingPoint, ConsistentHash, new_consistent_hash, lookup, pick, picked, backend_down,
}
use realtime_chat_platform.Gateway.LoadBalancer.ConsistentHash.Ring.{
  IsSorted, points_of_all, new_consistent_hash_lem,
}
use realtime_chat_platform.Gateway.LoadBalancer.ConsistentHash.Search.{successor, lookup-successor}
use realtime_chat_platform.Gateway.LoadBalancer.ConsistentHash.Sticky.{pick_sticky}
use realtime_chat_platform.Gateway.LoadBalancer.RoundRobin.{RoundRobin, picks, picks_fair}

-- A text is its own host.
abbrev parse_host : String → Option Url
parse_host raw = some (record { host = raw })

abbrev urls : List String
urls = "chat1" ∷ "chat2" ∷ []

abbrev instance_at : ℕ → String → Backend
instance_at id host = record { id = id; url = record { host = host }; healthy = true }

abbrev two_instances : Pool
two_instances = record { backends = instance_at 0 "chat1" ∷ instance_at 1 "chat2" ∷ [] }

constructed : new_pool parse_host urls ≡ ok two_instances
unfolding new_pool String_discrete Maps.get Maps.put
constructed = refl

two_instances-IsConstructed : IsConstructed two_instances
two_instances-IsConstructed = (new_pool-IsConstructed parse_host urls two_instances constructed).0

-- The second instance is down.
abbrev replies : Url → ProbeReply
replies url = ite (String_discrete url.host "chat2") failed (answered 200)

new_consistent_hash_lem_example :
    IsSorted (new_consistent_hash two_instances).ring
    × Perm (new_consistent_hash two_instances).ring (points_of_all 150 two_instances.backends)
new_consistent_hash_lem_example = new_consistent_hash_lem two_instances

abbrev small_ring : ConsistentHash
small_ring = record {
  ring = record { hash = 5; backend = 1 } ∷ record { hash = 2 ^ 63; backend = 0 } ∷ [];
}

small_ring-IsSorted : IsSorted small_ring.ring
small_ring-IsSorted = ((omega arith, tt), (tt, tt))

lookup-successor_example :
    lookup small_ring (bytes "general")
    ≡ Option.map
        (λ (p : RingPoint). p.backend)
        (successor (hash_key (bytes "general")) small_ring.ring)
lookup-successor_example = lookup-successor small_ring (bytes "general") small_ring-IsSorted

pick_sticky_example :
    (b : Backend) × (get_elem? two_instances.backends b.id ≡ some b)
    × (pick (new_consistent_hash two_instances) two_instances "general"
        ≡ (if b.healthy then picked b else backend_down "general" b))
    × (pick (new_consistent_hash two_instances) (check_all replies two_instances).0 "general" ≡ (
        if probe (replies b.url)
        then picked (swept replies b)
        else backend_down "general" (swept replies b)))
pick_sticky_example = pick_sticky two_instances replies "general" two_instances-IsConstructed

abbrev turns : RoundRobin
turns = record { next = 7 }

some_healthy : 0 < length (healthy two_instances)
unfolding healthy
some_healthy = omega arith

no_wrap : 7 + length (healthy two_instances) ≤ 2 ^ 64
unfolding healthy
no_wrap = omega arith

picks_fair_example :
    Perm
      (picks (length (healthy two_instances)) turns two_instances)
      (map picked (healthy two_instances))
picks_fair_example = picks_fair turns two_instances some_healthy no_wrap

abbrev forged : Request
forged = record {
  path = "/webhook";
  query = [];
  headers = ("X-User-Id", "1") ∷ ("Authorization", "Bearer t") ∷ [];
}
