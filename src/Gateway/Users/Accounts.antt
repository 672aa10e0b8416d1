-- ===== src/Gateway/Users/Accounts.antt =====
-- Who can register, and that who has can log in with the password, and with no other email.
use realtime_chat_platform.Prelude.{
  ℕ, ◌≤◌, ◌<◌, ◌≡◌, ◌↔◌, ◌⊎◌, inl, inr, refl, sym, ap, ◌∙◌, subst, String, Bool, true, false,
  Option, none, some, List, [], ◌∷◌, if◌then◌else◌, bytes, length, pos, arith, Bool-cases,
  Option-cases, Sum-cases,
}
use realtime_chat_platform.Gateway.Users.{
  User, Users, Lookup, found, no_rows, UserError, invalid_credentials, DbFaults, no_faults,
  find_email, get_by_email, is_taken, create, validate_email, validate_password, create_user,
  register, login,
}

module _ (same_email : String → String → Bool) (parse_address : String → Bool)
    (generate : List ℕ → Option (List ℕ)) (compare_hash : List ℕ → List ℕ → Bool) where
  abbrev lookup_email : String → Users → Lookup
  lookup_email email table =
      find_email same_email parse_address generate compare_hash email table.rows

  abbrev pub registering : DbFaults → String → String → Users → Users × (User ⊎ UserError)
  registering faults email password table =
      register same_email parse_address generate compare_hash faults email password table

  abbrev pub logging_in : Bool → String → String → Users → User ⊎ UserError
  logging_in fails email password table =
      login same_email parse_address generate compare_hash fails email password table

  -- What a registration needs: an address of at most 255 bytes that nobody has, and a password of
  -- 8 to 72 bytes.
  pub record CanRegister (email password : String) (table : Users) : Type 0 where
    pub short : length (bytes email) ≤ 255
    pub address : parse_address email ≡ true
    pub long_enough : 8 ≤ length (bytes password)
    pub hashable : length (bytes password) ≤ 72
    pub free : lookup_email email table ≡ no_rows

  -- A registration that succeeds: the new row, and the row that the table had for nobody.
  pub record Registered (email password : String) (table after : Users) (user : User) : Type 0 where
    pub email_kept : user.email ≡ email
    pub hashed : generate (bytes password) ≡ some user.password_hash
    pub rows : after.rows ≡ user ∷ table.rows
    pub free : lookup_email email table ≡ no_rows

  pub register_Registered :
      (faults : DbFaults) (email password : String) (table : Users) (user : User)
      → (registering faults email password table).1 ≡ inl user
      → Registered email password table (registering faults email password table).0 user
  unfolding register get_by_email create_user create is_taken
  register_Registered faults email password table user done = record {
    email_kept = ground arith;
    hashed = ground arith;
    rows = ground arith;
    free = ground arith;
  }

  -- A registration that fails leaves the table as it was.
  register_failed :
      (faults : DbFaults) (email password : String) (table : Users) (e : UserError)
      → (registering faults email password table).1 ≡ inr e
      → (registering faults email password table).0 ≡ table
  unfolding register get_by_email create_user
  register_failed faults email password table e h = ground arith

  module _ (too_long : (p : List ℕ) → (generate p ≡ none) ↔ (72 < length p)) where
    -- With a database that works, a registration succeeds exactly for a parsable address of at most
    -- 255 bytes that nobody has and a password of 8 to 72 bytes: bcrypt takes no more, although the
    -- check of the password allows 128.
    pub register_iff :
        (email password : String) (table : Users)
        → ((user : User) × ((registering no_faults email password table).1 ≡ inl user))
          ↔ CanRegister email password table
    unfolding register validate_email validate_password get_by_email create_user create is_taken
    register_iff email password table = (
      λ (user, done). record {
        short = ground arith;
        address = ground arith;
        long_enough = ground arith;
        hashable = ground (arith, (too_long (bytes password)).1);
        free = ground arith;
      },
      λ c. (elim (Option-cases (generate (bytes password))) [
        | inl none_made ↦
            absurd (ground (arith, (too_long (bytes password)).0 none_made, c.hashable))
        | inr (hash, made) ↦ (
          record { id = pos table.next_id; email = email; password_hash = hash; role = "user" },
          ground (arith, made, c.free, c.short, c.address, c.long_enough, c.hashable),
        )
      ]),
    )

  -- Registrations one after another, the latest first.
  abbrev pub after_registrations : List (DbFaults × String × String) → Users → Users
  after_registrations [] table = table
  after_registrations ((faults, email, password) ∷ l) table =
      (registering faults email password (after_registrations l table)).0

  module _ (same_sym : (a b : String) → same_email a b ≡ true → same_email b a ≡ true)
      (same_trans : (a b c : String)
        → same_email a b ≡ true
        → same_email b c ≡ true
        → same_email a c ≡ true) where
    -- Who is found by one email is found by another that is the same to the collation.
    found_by_same :
        (a b : String) (us : List User)
        → same_email a b ≡ true
        → find_email same_email parse_address generate compare_hash a us
          ≡ find_email same_email parse_address generate compare_hash b us
    unfolding find_email
    found_by_same a b [] e = refl
    found_by_same a b (v ∷ us) e = ground (
      arith,
      found_by_same a b us e,
      same_trans v.email a b,
      same_trans v.email b a,
      same_sym a b,
    )

    older_found :
        (user : User) (email other : String) (table : Users) (u : User)
        → user.email ≡ email
        → lookup_email email table ≡ no_rows
        → lookup_email other table ≡ found u
        → find_email same_email parse_address generate compare_hash other (user ∷ table.rows)
          ≡ found u
    unfolding find_email
    older_found user email other table u kept free h =
        elim (Bool-cases (same_email user.email other)) [
          | inr differs ↦ rw differs h
          | inl same ↦
              (let by_email : same_email email other ≡ true =
                  subst (λ m. same_email m other ≡ true) kept same in
                let equal = found_by_same email other table.rows by_email in absurd (cc))
        ]

    -- A registration leaves alone who is found.
    register_keeps :
        (faults : DbFaults) (email password other : String) (table : Users) (u : User)
        → lookup_email other table ≡ found u
        → lookup_email other (registering faults email password table).0 ≡ found u
    register_keeps faults email password other table u h =
        elim (Sum-cases (registering faults email password table).1) [
          | inr (e, failure) ↦
              ap (λ t. lookup_email other t) (register_failed faults email password table e failure)
              ∙ h
          | inl (user, done) ↦
              (let r = register_Registered faults email password table user done in
                ap (find_email same_email parse_address generate compare_hash other) r.rows
                ∙ older_found user email other table u r.email_kept r.free h)
        ]

    registrations_keep :
        (l : List (DbFaults × String × String)) (other : String) (table : Users) (u : User)
        → lookup_email other table ≡ found u
        → lookup_email other (after_registrations l table) ≡ found u
    registrations_keep [] other table u h = h
    registrations_keep ((faults, email, password) ∷ l) other table u h =
        register_keeps faults email password other (after_registrations l table) u
          (registrations_keep l other table u h)

    newest_found :
        (user : User) (other : String) (table : Users)
        → same_email user.email other ≡ true
        → find_email same_email parse_address generate compare_hash other (user ∷ table.rows)
          ≡ found user
    unfolding find_email
    newest_found user other table same = rw same

    login_found :
        (email attempt : String) (table : Users) (u : User)
        → lookup_email email table ≡ found u
        → logging_in false email attempt table ≡ (
            if compare_hash u.password_hash (bytes attempt) then inl u else inr invalid_credentials)
    unfolding login get_by_email
    login_found email attempt table u h = ground (arith, h)

    -- After a registration that succeeds and any others, whatever they come to, a login with an
    -- email that the collation takes for the same gives exactly this user if the password matches
    -- the hash, as the registered one does, and otherwise is refused. The database works at the
    -- login, the collation is an equivalence, and a hash matches the password that it was made of.
    pub register-login :
        (matches : (p h : List ℕ) → generate p ≡ some h → compare_hash h p ≡ true)
        (faults : DbFaults) (email password : String) (table : Users) (user : User)
        (l : List (DbFaults × String × String)) (other attempt : String)
        → (registering faults email password table).1 ≡ inl user
        → same_email email other ≡ true
        → (logging_in false other attempt
              (after_registrations l (registering faults email password table).0)
            ≡ (if compare_hash user.password_hash (bytes attempt)
                then inl user
                else inr invalid_credentials))
          × (compare_hash user.password_hash (bytes password) ≡ true)
    register-login matches faults email password table user l other attempt done same =
        let r = register_Registered faults email password table user done in
        let first : lookup_email other (registering faults email password table).0 ≡ found user =
          ap (find_email same_email parse_address generate compare_hash other) r.rows
          ∙ newest_found user other table
              (subst (λ m. same_email m other ≡ true) (sym r.email_kept) same) in
        let still =
          registrations_keep l other (registering faults email password table).0 user first in
        (
          login_found other attempt _ user still,
          matches (bytes password) user.password_hash r.hashed,
        )
