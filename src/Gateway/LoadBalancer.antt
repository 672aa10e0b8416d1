-- ===== src/Gateway/LoadBalancer.antt =====
-- gateway/internal/loadbalancer: the pool, the two strategies, and what is proved of them.
pub mod Pool
pub mod Hash
pub mod ConsistentHash
pub mod RoundRobin
