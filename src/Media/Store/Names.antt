-- ===== src/Media/Store/Names.antt =====
-- The names in the store's directory: hashes, their metadata and temporary files never meet.
use Prim.Native.Char.{code}
use realtime_chat_platform.Prelude.{
  ℕ, zero, suc, ◌*◌, ◌/◌, ◌%◌, ◌≡◌, ◌≢◌, ◌<◌, ◌≤◌, dec_lt, refl, sym, ap, ◌∙◌, Bool, true, ◌&&◌,
  List, [], ◌∷◌, ◌++◌, ite, if_pos, if_neg, codes, length, length-append, arith,
}
use realtime_chat_platform.Prelude.Orders.{Bytes_discrete, cons-injective}
use realtime_chat_platform.Gateway.Tickets.Hex.{hex_digit, encode_to_string}
use realtime_chat_platform.Media.Store.{
  is_hex, all_hex, matches_hash, object_path, meta_path, temp_path,
}

length-matches : (h : List ℕ) → matches_hash h ≡ true → length h ≡ 64
unfolding matches_hash
length-matches h m = ground arith

hash-ne-temp : (h suffix : List ℕ) → matches_hash h ≡ true → h ≢ temp_path suffix
unfolding matches_hash all_hex is_hex
hash-ne-temp [] suffix m e = cc
hash-ne-temp (c ∷ h) suffix m e = let dot : c ≡ b'.' = (cons-injective _ _ _ _ e).0 in ground arith

meta-ne-temp : (h suffix : List ℕ) → matches_hash h ≡ true → meta_path h ≢ temp_path suffix
unfolding matches_hash all_hex is_hex
meta-ne-temp [] suffix m e = absurd (ground arith)
meta-ne-temp (c ∷ h) suffix m e = let dot : c ≡ b'.' = (cons-injective _ _ _ _ e).0 in ground arith

hash-ne-meta : (h j : List ℕ) → matches_hash h ≡ true → matches_hash j ≡ true → h ≢ meta_path j
hash-ne-meta h j m n e =
    let long = ap length e in
    absurd
      (omega (arith, length-matches h m, length-matches j n, length-append j (codes ".json"), long))

append-right_cancel : (a b l : List ℕ) → length a ≡ length b → a ++ l ≡ b ++ l → a ≡ b
append-right_cancel [] [] l n e = refl
append-right_cancel [] (y ∷ b) l n e = absurd (omega arith)
append-right_cancel (x ∷ a) [] l n e = absurd (omega arith)
append-right_cancel (x ∷ a) (y ∷ b) l n e =
    let (first, rest) = cons-injective x y _ _ e in
    let tails = append-right_cancel a b l (omega arith) rest in cc

module _ {A : Type 0} (h : List ℕ) (valid : matches_hash h ≡ true) (p q : A) where
  pub object_temp :
      (suffix : List ℕ) → ite (Bytes_discrete (object_path h) (temp_path suffix)) p q ≡ q
  object_temp suffix = if_neg _ (hash-ne-temp h suffix valid) p q

  pub meta_temp : (suffix : List ℕ) → ite (Bytes_discrete (meta_path h) (temp_path suffix)) p q ≡ q
  meta_temp suffix = if_neg _ (meta-ne-temp h suffix valid) p q

  module _ (j : List ℕ) (also : matches_hash j ≡ true) where
    pub object_meta : ite (Bytes_discrete (object_path h) (meta_path j)) p q ≡ q
    object_meta = if_neg _ (hash-ne-meta h j valid also) p q

    pub meta_object : ite (Bytes_discrete (meta_path h) (object_path j)) p q ≡ q
    meta_object = if_neg _ (λ e. hash-ne-meta j h also valid (sym e)) p q

    pub meta_meta :
        ite (Bytes_discrete (meta_path h) (meta_path j)) p q ≡ ite (Bytes_discrete h j) p q
    meta_meta = elim (Bytes_discrete h j) [
      | yes e ↦ if_pos _ (ap meta_path e) p q ∙ sym (if_pos _ e p q)
      | no n ↦
          if_neg _
            (λ e. n (
              append-right_cancel h j (codes ".json")
                (length-matches h valid ∙ sym (length-matches j also)) e))
            p q
          ∙ sym (if_neg _ n p q)
    ]

-- The digits below a number, checked one by one.
hex_below : ℕ → Bool
hex_below zero = true
hex_below (suc n) = is_hex (code (hex_digit n)) && hex_below n

hex_below_sound : (n x : ℕ) → x < n → hex_below n ≡ true → is_hex (code (hex_digit x)) ≡ true
unfolding hex_below
hex_below_sound zero x h e = absurd (omega arith)
hex_below_sound (suc n) x h e = ground (arith, hex_below_sound n x)

hex_below_15 : hex_below 15 ≡ true
unfolding hex_below is_hex hex_digit
hex_below_15 = refl

hex_digit_above : (n : ℕ) → 15 ≤ n → hex_digit n ≡ "f"
unfolding hex_digit
hex_digit_above n h = ground arith

is_hex_f : is_hex (code "f") ≡ true
unfolding is_hex
is_hex_f = refl

is_hex-hex_digit : (n : ℕ) → is_hex (code (hex_digit n)) ≡ true
is_hex-hex_digit n = elim (dec_lt n 15) [
  | yes h ↦ hex_below_sound 15 n h hex_below_15
  | no h ↦ rw (hex_digit_above n (omega arith)) is_hex_f
]

all_hex-encode : (l : List ℕ) → all_hex (codes (encode_to_string l)) ≡ true
unfolding all_hex encode_to_string
all_hex-encode [] = refl
all_hex-encode (b ∷ l) =
    ground (arith, is_hex-hex_digit (b / 16), is_hex-hex_digit (b % 16), all_hex-encode l)

length-encode : (l : List ℕ) → length (codes (encode_to_string l)) ≡ 2 * length l
unfolding encode_to_string
length-encode [] = refl
length-encode (b ∷ l) = omega (arith, length-encode l)

-- The hex of 32 bytes is a hash.
pub encode-matches : (l : List ℕ) → length l ≡ 32 → matches_hash (codes (encode_to_string l)) ≡ true
unfolding matches_hash
encode-matches l n = ground (arith, length-encode l, all_hex-encode l)
