-- ===== src/Presence/Repository/Stamps.antt =====
-- What the writes of the presence repository make of scores and deadlines. A stamp is the ZADD of
-- members with the expiry, followed by the EXPIRE of their key.
use realtime_chat_platform.Prelude.{
  ℕ, ◌+◌, ◌*◌, ◌/◌, ◌≤◌, ◌≡◌, ◌≢◌, refl, sym, ap, ◌∙◌, some, List, [], ◌∷◌, ite, if◌then◌else◌,
  codes, get_elem?, arith,
}
use realtime_chat_platform.Prelude.Orders.{Bytes_discrete, append-left_cancel}
use realtime_chat_platform.Prelude.Sorting.{listed}
use realtime_chat_platform.Presence.Redis.{Redis, IsLawful}
use realtime_chat_platform.Presence.Repository.{room_key, rooms_index_key, zadd_all}

pub room_key-injective : (a b : List ℕ) → room_key a ≡ room_key b → a ≡ b
unfolding room_key
room_key-injective a b e = append-left_cancel (codes "presence:room:") a b e

pub room_key-ne : (a : List ℕ) → room_key a ≢ rooms_index_key
unfolding room_key
room_key-ne a e = let colon = ap (λ l. get_elem? l 13) e in cc

module _ (R : Redis) (lawful : IsLawful R) (ttl : ℕ) (long : 1000 ≤ ttl) where
  open lawful use {
    score-zadd, score-zrem, score-zcard, score-zremrangebyscore, score-expire, score-expire_in,
    score-elapse, deadline-zadd, deadline-expire_in,
  }

  score-zadd_all :
      (key : List ℕ) (e : ℕ) (ms : List (List ℕ)) (s : R.State) (k x : List ℕ)
      → R.score (zadd_all R ttl key e ms s) k x
        ≡ ite
            (Bytes_discrete k key)
            (if listed Bytes_discrete x ms then some e else R.score s k x)
            (R.score s k x)
  unfolding zadd_all listed
  score-zadd_all key e [] s k x = ground arith
  score-zadd_all key e (m ∷ ms) s k x =
      ground (arith, score-zadd_all key e ms (R.zadd key e m s) k x, score-zadd s key e m k x)

  deadline-zadd_all :
      (key : List ℕ) (e : ℕ) (ms : List (List ℕ)) (s : R.State) (k : List ℕ)
      → R.deadline (zadd_all R ttl key e ms s) k ≡ R.deadline s k
  unfolding zadd_all
  deadline-zadd_all key e [] s k = refl
  deadline-zadd_all key e (m ∷ ms) s k =
      deadline-zadd_all key e ms (R.zadd key e m s) k ∙ deadline-zadd s key e m k

  unfoldable pub stamp : ℕ → List ℕ → List (List ℕ) → R.State → R.State
  unfolding zadd_all
  stamp now key ms s = R.expire_in now key (2 * ttl) (zadd_all R ttl key (now + ttl) ms s)

  pub score-stamp :
      (now : ℕ) (key : List ℕ) (ms : List (List ℕ)) (s : R.State) (k x : List ℕ)
      → R.score (stamp now key ms s) k x
        ≡ ite
            (Bytes_discrete k key)
            (if listed Bytes_discrete x ms then some (now + ttl) else R.score s k x)
            (R.score s k x)
  unfolding stamp
  score-stamp now key ms s k x =
      score-expire_in (zadd_all R ttl key (now + ttl) ms s) now key (2 * ttl) k x (omega arith)
      ∙ score-zadd_all key (now + ttl) ms s k x

  pub deadline-stamp :
      (now : ℕ) (key : List ℕ) (ms : List (List ℕ)) (s : R.State) (k x : List ℕ) (e : ℕ)
      → R.score (stamp now key ms s) k x ≡ some e
      → R.deadline (stamp now key ms s) k
        ≡ ite (Bytes_discrete k key) (some (now + 1000 * (2 * ttl / 1000))) (R.deadline s k)
  unfolding stamp
  deadline-stamp now key ms s k x e h =
      let added = zadd_all R ttl key (now + ttl) ms s in
      let kept : 1000 ≤ 2 * ttl = omega arith in
      let there : R.score added k x ≡ some e =
        sym (score-expire_in added now key (2 * ttl) k x kept) ∙ h in
      ground (
        arith,
        deadline-expire_in added now key (2 * ttl) k x e kept there,
        deadline-zadd_all key (now + ttl) ms s k,
      )
