-- ===== src/Gateway/Users.antt =====
-- gateway/internal/service/user_service.go on internal/repository/user_repository.go, with
-- internal/controller/auth_controller.go on it. The table compares emails by its collation, which
-- is an argument, like the parser of addresses, bcrypt, and whether the database fails.
pub mod Accounts
use realtime_chat_platform.Prelude.{
  ℕ, suc, ◌⊎◌, inl, inr, String, String_discrete, ℤ, pos, ℤ_discrete, Bool, true, false, not, ◌||◌,
  Option, none, some, List, [], ◌∷◌, ite, if◌then◌else◌, ltb, bytes, length,
}

pub record User : Type 0 where
  pub id : ℤ
  pub email : String
  pub password_hash : List ℕ
  pub role : String

-- The table; its key over the email is unique.
pub record Users : Type 0 where
  pub next_id : ℕ
  pub rows : List User

-- A row, `sql.ErrNoRows`, or another error.
pub data Lookup : Type 0 where
  found : User → Lookup
  no_rows lookup_failed : Lookup

pub data UserError : Type 0 where
  email_too_long email_format password_too_short password_too_long : UserError
  email_exists invalid_credentials : UserError
  database hashing : UserError

-- Which statements of a registration fail.
pub record DbFaults : Type 0 where
  pub select : Bool
  pub insert : Bool

abbrev pub no_faults : DbFaults
no_faults = record { select = false; insert = false }

module _ (same_email : String → String → Bool) (parse_address : String → Bool)
    (generate : List ℕ → Option (List ℕ)) (compare_hash : List ℕ → List ℕ → Bool) where
  unfoldable pub find_email : String → List User → Lookup
  find_email email [] = no_rows
  find_email email (u ∷ us) =
      let rest = find_email email us in if same_email u.email email then found u else rest

  unfoldable pub get_by_email : Bool → String → Users → Lookup
  unfolding find_email
  get_by_email fails email table = if fails then lookup_failed else find_email email table.rows

  unfoldable pub find_id : ℤ → List User → Lookup
  find_id id [] = no_rows
  find_id id (u ∷ us) = let rest = find_id id us in ite (ℤ_discrete u.id id) (found u) rest

  unfoldable pub get_by_id : Bool → ℤ → Users → Lookup
  unfolding find_id
  get_by_id fails id table = if fails then lookup_failed else find_id id table.rows

  unfoldable pub is_taken : Lookup → Bool
  is_taken (found u) = true
  is_taken no_rows = false
  is_taken lookup_failed = false

  -- `Create`: the table with the row, and the user with its id; `none` is an error, of the unique
  -- key among others.
  unfoldable pub create : Bool → User → Users → Option (Users × User)
  unfolding find_email is_taken
  create fails user table =
      let row = record user { id = pos table.next_id } in
      if fails || is_taken (find_email user.email table.rows)
      then none
      else some (record { next_id = suc table.next_id; rows = row ∷ table.rows }, row)

  -- `nil` is `none`.
  unfoldable pub validate_email : String → Option UserError
  unfolding bytes
  validate_email email =
      if ltb 255 (length (bytes email))
      then some email_too_long
      else if parse_address email
      then none
      else some email_format

  unfoldable pub validate_password : String → Option UserError
  unfolding bytes
  validate_password password =
      if ltb (length (bytes password)) 8
      then some password_too_short
      else if ltb 128 (length (bytes password))
      then some password_too_long
      else none

  -- `Register` from the hash on.
  unfoldable pub create_user :
      DbFaults → String → Option (List ℕ) → Users → Users × (User ⊎ UserError)
  unfolding create
  create_user faults email none table = (table, inr hashing)
  create_user faults email (some hash) table =
      elim (create faults.insert
        (record { id = pos 0; email = email; password_hash = hash; role = "user" }) table) [
          | none ↦ (table, inr database)
          | some (after, user) ↦ (after, inl user)
        ]

  unfoldable pub register : DbFaults → String → String → Users → Users × (User ⊎ UserError)
  unfolding validate_email validate_password get_by_email create_user
  register faults email password table = elim (validate_email email) [
    | some e ↦ (table, inr e)
    | none ↦ elim (validate_password password) [
      | some e ↦ (table, inr e)
      | none ↦ elim (get_by_email faults.select email table) [
        | lookup_failed ↦ (table, inr database)
        | found u ↦ (table, inr email_exists)
        | no_rows ↦ create_user faults email (generate (bytes password)) table
      ]
    ]
  ]

  unfoldable pub login : Bool → String → String → Users → User ⊎ UserError
  unfolding get_by_email bytes
  login fails email password table = elim (get_by_email fails email table) [
    | lookup_failed ↦ inr invalid_credentials
    | no_rows ↦ inr invalid_credentials
    | found u ↦
        if compare_hash u.password_hash (bytes password) then inl u else inr invalid_credentials
  ]

  -- An answer: a status with an error, or what is shown of the user, or a token.
  pub data AuthAnswer : Type 0 where
    failed : ℕ → AuthAnswer
    user_shown : ℕ → User → AuthAnswer
    token_given : String → AuthAnswer

  unfoldable pub registered : User ⊎ UserError → AuthAnswer
  registered (inl u) = user_shown 201 u
  registered (inr e) = failed 400

  -- `POST /register`; what the body binds to is an argument.
  unfoldable pub post_register : DbFaults → Option (String × String) → Users → Users × AuthAnswer
  unfolding register registered
  post_register faults none table = (table, failed 400)
  post_register faults (some (email, password)) table =
      let (after, result) = register faults email password table in
      ite (String_discrete email "") (table, failed 400)
        (ite (String_discrete password "") (table, failed 400) (after, registered result))

  module _ (generate_token : ℤ → String → Option String) where
    unfoldable pub logged_in : User ⊎ UserError → AuthAnswer
    logged_in (inr e) = failed 401
    logged_in (inl u) = elim (generate_token u.id u.role) [
      | none ↦ failed 500
      | some token ↦ token_given token
    ]

    -- `POST /login`.
    unfoldable pub post_login : Bool → Option (String × String) → Users → AuthAnswer
    unfolding login logged_in
    post_login fails none table = failed 400
    post_login fails (some (email, password)) table = ite (String_discrete email "") (failed 400) (
        ite (String_discrete password "") (failed 400)
          (logged_in (login fails email password table)))

  -- `GET /me`; the id is what the token's check left.
  unfoldable pub get_me : Bool → Option ℤ → Users → AuthAnswer
  unfolding get_by_id
  get_me fails none table = failed 401
  get_me fails (some id) table = elim (get_by_id fails id table) [
    | found u ↦ user_shown 200 u
    | no_rows ↦ failed 404
    | lookup_failed ↦ failed 404
  ]
