-- ===== src/Tests/Services.antt =====
-- Concrete libraries for the tests: a JSON of the metadata, and a digest.
use Prim.Native.Char.{Char, char, code, nul, IsScalar}
use Prim.Native.String.{String}
use text.Mathlib.TextEquality.{Char-path}
use realtime_chat_platform.Prelude.Lists.{All, take-append, drop-append, length, take, drop}
use realtime_chat_platform.Media.Store.{Meta}
use realtime_chat_platform.Prelude.Orders.{Bytes_discrete}
use realtime_chat_platform.Tokens.{Method, hmac, MapClaims, Token, Jwt, IsLawful}
use realtime_chat_platform.Prelude.{
  ℕ, zero, suc, ◌%◌, ◌<◌, ◌≡◌, ◌⊎◌, ℤ, pos, negsuc, Bool, true, false, if◌then◌else◌, ltb, lt→ltb,
  if_pos, inl, inr, refl, ap, ◌∙◌, Option, none, some, List, [], ◌∷◌, ◌++◌, ite, dec_lt, codes,
  arith,
}

below : (n : ℕ) → n < 55296 → IsScalar n
below n h = ground arith

above : (n : ℕ) → 57343 < n → n < 1114112 → IsScalar n
above n h k = ground arith

scalar_range : (n : ℕ) → IsScalar n → (n < 55296) ⊎ ((57343 < n) × (n < 1114112))
scalar_range n p = elim (dec_lt n 55296) [ yes h ↦ inl h | no h ↦ inr (ground arith) ]

char_of : ℕ → Char
char_of n = elim (dec_lt n 55296) [
  | yes h ↦ char n (below n h)
  | no _ ↦ elim (dec_lt 57343 n) [
    | no _ ↦ nul
    | yes low ↦ elim (dec_lt n 1114112) [ yes high ↦ char n (above n low high) | no _ ↦ nul ]
  ]
]

code-char_of : (n : ℕ) → IsScalar n → code (char_of n) ≡ n
unfolding char_of
code-char_of n p = elim (scalar_range n p) [ inl h ↦ ground arith | inr h ↦ ground arith ]

char_of-code : (c : Char) → char_of (code c) ≡ c
char_of-code (char n p) = Char-path (char_of n) (char n p) (code-char_of n p)

pub text_of : List ℕ → String
text_of [] = ""
text_of (r ∷ rs) = String.◌∷◌ (char_of r) (text_of rs)

text_of-codes : (s : String) → text_of (codes s) ≡ s
unfolding text_of
text_of-codes String.[] = refl
text_of-codes (String.◌∷◌ c s) =
    ap (λ d. String.◌∷◌ d (text_of (codes s))) (char_of-code c)
    ∙ ap (String.◌∷◌ c) (text_of-codes s)

pub codes-text_of : (l : List ℕ) → All IsScalar l → codes (text_of l) ≡ l
unfolding text_of
codes-text_of [] h = refl
codes-text_of (r ∷ rs) h =
    ap (λ n. n ∷ codes (text_of rs)) (code-char_of r h.0) ∙ ap (λ l. r ∷ l) (codes-text_of rs h.1)

codes-Scalar : (s : String) (rest : List ℕ) → All IsScalar rest → All IsScalar (codes s ++ rest)
codes-Scalar String.[] rest h = h
codes-Scalar (String.◌∷◌ (char n p) s) rest h = (p, codes-Scalar s rest h)

-- The text of an ETag.
pub codes-quoted :
    (s : String)
    → codes (text_of (b'"' ∷ (codes s ++ (b'"' ∷ [])))) ≡ b'"' ∷ (codes s ++ (b'"' ∷ []))
codes-quoted s = codes-text_of (b'"' ∷ (codes s ++ (b'"' ∷ []))) (tt, codes-Scalar s _ (tt, tt))

-- Some JSON of the metadata.
pub marshal : Meta → List ℕ
marshal m = m.size ∷ length m.hash ∷ (m.hash ++ codes m.content_type)

pub unmarshal : List ℕ → Option Meta
unfolding text_of
unmarshal [] = none
unmarshal (n ∷ []) = none
unmarshal (n ∷ k ∷ rest) =
    some (record { hash = take k rest; content_type = text_of (drop k rest); size = n })

pub unmarshal-marshal : (m : Meta) → unmarshal (marshal m) ≡ some m
unfolding marshal unmarshal
unmarshal-marshal m =
    rw
      (
        take-append m.hash (codes m.content_type),
        drop-append m.hash (codes m.content_type),
        text_of-codes m.content_type,
      )
      refl

pub unmarshal-empty : unmarshal [] ≡ none
unfolding unmarshal
unmarshal-empty = refl

-- Some digest of 32 bytes.
padded : ℕ → List ℕ → List ℕ
padded zero l = []
padded (suc n) [] = 0 ∷ padded n []
padded (suc n) (b ∷ l) = b % 256 ∷ padded n l

length-padded : (n : ℕ) (l : List ℕ) → length (padded n l) ≡ n
unfolding padded
length-padded zero l = refl
length-padded (suc n) [] = ap suc (length-padded n [])
length-padded (suc n) (b ∷ l) = ap suc (length-padded n l)

pub digest : List ℕ → List ℕ
unfolding padded
digest content = padded 32 content

pub length-digest : (content : List ℕ) → length (digest content) ≡ 32
unfolding digest
length-digest content = length-padded 32 content

-- Some signed tokens, which have the secret in them.
abbrev pub sign_of : ℤ → ℕ
sign_of (pos n) = 0
sign_of (negsuc n) = 1

abbrev pub size_of : ℤ → ℕ
size_of (pos n) = n
size_of (negsuc n) = n

int_of : ℕ → ℕ → ℤ
int_of zero n = pos n
int_of (suc s) n = negsuc n

int_of_lem : (z : ℤ) → int_of (sign_of z) (size_of z) ≡ z
unfolding int_of
int_of_lem (pos n) = refl
int_of_lem (negsuc n) = refl

abbrev pub signed_token : MapClaims → List ℕ → List ℕ
signed_token claims secret =
    sign_of claims.user_id
    ∷ (size_of claims.user_id ∷ (claims.exp ∷ (length secret ∷ (secret ++ codes claims.role))))

sign : MapClaims → List ℕ → Option (List ℕ)
sign claims secret = some (signed_token claims secret)

parsed : Option (List ℕ) → ℕ → List ℕ → Option (Token ℤ)
unfolding int_of text_of
parsed (some secret) now (s ∷ n ∷ exp ∷ k ∷ rest) =
    ite (Bytes_discrete (take k rest) secret)
      (if ltb now exp
        then some (record {
          valid = true;
          claims =
              some (record { user_id = some (int_of s n); role = some (text_of (drop k rest)) });
        })
        else none)
      none
parsed key now token = none

verifies : Method → List ℕ → List ℕ → Bool
verifies hmac secret (s ∷ n ∷ exp ∷ k ∷ rest) = ite (Bytes_discrete (take k rest) secret) true false
verifies m secret token = false

pub tokens : Jwt
unfolding sign parsed verifies
tokens = record {
  Float = ℤ;
  from_int = λ z. z;
  to_int = λ z. z;
  sign = sign;
  parse = λ key. parsed (key hmac);
  verifies = verifies;
}

abbrev token_of : MapClaims → Token ℤ
token_of claims = record {
  valid = true;
  claims = some (record { user_id = some claims.user_id; role = some claims.role });
}

parsed-signed_token :
    (claims : MapClaims) (secret : List ℕ) (now : ℕ)
    → now < claims.exp
    → parsed (some secret) now (signed_token claims secret) ≡ some (token_of claims)
unfolding parsed
parsed-signed_token claims secret now early =
    rw
      (
        take-append secret (codes claims.role),
        drop-append secret (codes claims.role),
        text_of-codes claims.role,
        int_of_lem claims.user_id,
        lt→ltb _ _ early,
      )
      (if_pos (Bytes_discrete secret secret) refl _ _)

parsed-sign :
    (claims : MapClaims) (secret token : List ℕ) (now : ℕ)
    → sign claims secret ≡ some token
    → now < claims.exp
    → parsed (some secret) now token ≡ some (token_of claims)
unfolding sign
parsed-sign claims secret token now h early =
    let same : token ≡ signed_token claims secret = cc in
    ap (parsed (some secret) now) same ∙ parsed-signed_token claims secret now early

parsed_verified :
    (key : Option (List ℕ)) (now : ℕ) (token : List ℕ) (t : Token ℤ)
    → parsed key now token ≡ some t
    → (k : List ℕ) × (key ≡ some k) × (verifies hmac k token ≡ true)
unfolding parsed verifies
parsed_verified (some secret) now (s ∷ n ∷ exp ∷ k ∷ rest) t h = (secret, refl, ground arith)
parsed_verified none now token t h = cc
parsed_verified (some secret) now [] t h = cc
parsed_verified (some secret) now (s ∷ []) t h = cc
parsed_verified (some secret) now (s ∷ n ∷ []) t h = cc
parsed_verified (some secret) now (s ∷ n ∷ e ∷ []) t h = cc

pub tokens-IsLawful : IsLawful tokens
unfolding tokens
tokens-IsLawful = record {
  to_int-from_int = λ z h. refl;
  parse-sign = λ claims secret token key now signed keyed early.
      ap (λ k. parsed k now token) keyed ∙ parsed-sign claims secret token now signed early;
  parse_verified = λ token key now t h valid.
      (let (k, keyed, ok) = parsed_verified (key hmac) now token t h in (hmac, k, keyed, ok));
}

pub sign_lem :
    (claims : MapClaims) (secret : List ℕ)
    → tokens.sign claims secret ≡ some (signed_token claims secret)
unfolding tokens sign
sign_lem claims secret = refl
