-- ===== src/Gateway/LoadBalancer/Pool.antt =====
-- backend.go and pool.go: the static set of chat-service instances and their health flags. A
-- backend's `id` stands for its pointer. `url.Parse` and the health request are arguments.
pub mod Health
use realtime_chat_platform.Prelude.Maps
use realtime_chat_platform.Prelude.{
  ℕ, suc, String, String_discrete, Bool, true, false, Option, none, some, List, [], ◌∷◌, ◌++◌, map,
  ite, if◌then◌else◌, ◌==◌, length,
}

pub record Url : Type 0 where
  pub host : String

pub record Backend : Type 0 where
  pub id : ℕ
  pub url : Url
  pub healthy : Bool

pub record Pool : Type 0 where
  pub backends : List Backend

pub data PoolError : Type 0 where
  no_urls : PoolError
  invalid_url missing_host duplicate_url : String → PoolError

pub data PoolResult (A : Type 0) : Type 0 where
  ok : A → PoolResult A
  err : PoolError → PoolResult A

infixl 5 ◌>>=◌
abbrev pub ◌>>=◌ : {A B : Type 0} → PoolResult A → (A → PoolResult B) → PoolResult B
ok a >>= f = f a
err e >>= f = err e

-- Healthy until the first check says otherwise.
unfoldable pub new_backend : ℕ → Url → Backend
new_backend id url = record { id = id; url = url; healthy = true }

module _ (parse : String → Option Url) where
  -- The loop of `NewPool`; `seen` is its map of hosts.
  unfoldable pub add_backends : ℕ → List (String × Bool) → List String → PoolResult (List Backend)
  unfolding new_backend
  add_backends id seen [] = ok []
  add_backends id seen (raw ∷ raws) = elim (parse raw) [
    | none ↦ err (invalid_url raw)
    | some url ↦
        let rest = add_backends (suc id) (Maps.put String_discrete url.host true seen) raws in
        ite (String_discrete url.host "") (err (missing_host raw))
          (elim (Maps.get String_discrete url.host seen) [
            | some _ ↦ err (duplicate_url raw)
            | none ↦ do backends ← rest; ok (new_backend id url ∷ backends)
          ])
  ]

  unfoldable pub new_pool : List String → PoolResult Pool
  unfolding add_backends
  new_pool [] = err no_urls
  new_pool (raw ∷ raws) = do
    backends ← add_backends 0 [] (raw ∷ raws)
    ok (record { backends = backends })

unfoldable pub healthy_of : List Backend → List Backend
healthy_of [] = []
healthy_of (b ∷ bs) = if b.healthy then b ∷ healthy_of bs else healthy_of bs

unfoldable pub healthy : Pool → List Backend
unfolding healthy_of
healthy p = healthy_of p.backends

-- What the health request comes to: an error, or an answer with its status.
pub data ProbeReply : Type 0 where
  failed : ProbeReply
  answered : ℕ → ProbeReply

unfoldable pub probe : ProbeReply → Bool
probe failed = false
probe (answered status) = status == 200

pub data HealthLog : Type 0 where
  instance_back instance_down : String → HealthLog

abbrev pub differ : Bool → Bool → Bool
differ true true = false
differ false false = false
differ _ _ = true

-- `Swap`, and whether the flag changed.
unfoldable pub set_healthy : Backend → Bool → Backend × Bool
set_healthy b flag = (record b { healthy = flag }, differ b.healthy flag)

module _ (reply : Url → ProbeReply) where
  unfoldable pub check : Backend → Backend × List HealthLog
  unfolding probe set_healthy
  check b =
      let flag = probe (reply b.url) in
      let (b', changed) = set_healthy b flag in
      if changed
      then (b', (if flag then instance_back b.url.host else instance_down b.url.host) ∷ [])
      else (b', [])

  -- One sweep. The probes run in parallel, and each touches only its own backend.
  unfoldable pub check_each : List Backend → List Backend × List HealthLog
  unfolding check
  check_each [] = ([], [])
  check_each (b ∷ bs) =
      let (b', logs) = check b in let (bs', more) = check_each bs in (b' ∷ bs', logs ++ more)

  unfoldable pub check_all : Pool → Pool × List HealthLog
  unfolding check_each
  check_all p =
      let (backends, logs) = check_each p.backends in (record { backends = backends }, logs)
