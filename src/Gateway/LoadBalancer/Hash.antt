-- ===== src/Gateway/LoadBalancer/Hash.antt =====
-- `hashKey` of consistent_hash.go: FNV-1a over 64 bits with the finalizer of MurmurHash3. A key is
-- its bytes; uint64 arithmetic wraps.
use Prim.Native.Nat.{bit_xor}
use realtime_chat_platform.Prelude.{ℕ, ◌*◌, ◌/◌, ◌%◌, ◌^◌, List, [], ◌∷◌}

abbrev pub u64 : ℕ → ℕ
u64 n = n % 2 ^ 64

-- hash/fnv: `New64a`, then `Write`.
unfoldable pub fnv1a : ℕ → List ℕ → ℕ
fnv1a h [] = h
fnv1a h (b ∷ bs) = fnv1a (u64 (bit_xor h b * 1099511628211)) bs

abbrev shift_mix : ℕ → ℕ
shift_mix x = bit_xor x (x / 2 ^ 33)

unfoldable pub mix64 : ℕ → ℕ
mix64 x =
    let a = shift_mix x in
    let b = u64 (a * 0xff51afd7ed558ccd) in
    let c = shift_mix b in let d = u64 (c * 0xc4ceb9fe1a85ec53) in shift_mix d

unfoldable pub hash_key : List ℕ → ℕ
unfolding fnv1a mix64
hash_key key = mix64 (fnv1a 14695981039346656037 key)
