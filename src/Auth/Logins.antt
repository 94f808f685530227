-- ===== src/Auth/Logins.antt =====
-- api/routes/auth.py: a login against the table of users, and the user that its token names.
use netdeploy.Base.{
  ℕ, ◌+◌, ◌*◌, ◌≤◌, ◌<◌, ◌≡◌, refl, sym, ap, ◌∙◌, List, [], ◌∷◌, Option, none, some, All, find?,
  Bool-cases, Option-cases, inl, inr, if◌then◌else◌,
}
use netdeploy.Text.{Text, codes, text_eq, text_eq_refl, text_eq_iff}
use netdeploy.Routes.{message, Reply, reply, refused}
use netdeploy.Auth.{
  Claims, payload, jwt_error, Jwt, Passwords, RawUser, DevUser, Users, raw_user, dev_user, value_of,
  expire_minutes, lifetime, create_access_token, decode_access_token, get_current_user,
  decoded_user, user_of, or_text, hashed, cached, get_user, issued, login,
}

-- What the JWT library documents: a token is decoded with its own key until it expires, and is an
-- error after that.
pub record JwtLaws (jwt : Jwt) : Type 0 where
  pub decodes :
      (c : Claims) (secret : Text) (now : ℕ)
      → now ≤ c.exp
      → jwt.decode (jwt.encode c secret) secret now ≡ payload c
  pub expires :
      (c : Claims) (secret : Text) (now : ℕ)
      → c.exp < now
      → (e : Text) × (jwt.decode (jwt.encode c secret) secret now ≡ jwt_error e)

-- What passlib documents: a hash is verified by its password alone.
pub record PasswordLaws (passwords : Passwords) : Type 0 where
  pub verifies : (n : ℕ) (p q : Text) → passwords.verify p (passwords.hash n q) ≡ text_eq p q

module _ (passwords : Passwords) where
  -- the raw user with a hash of its password in place of the password
  abbrev hash_of : RawUser → ℕ → DevUser
  hash_of raw n = record {
    user_id = raw.user_id;
    email = raw.email;
    role = raw.role;
    hashed_password = passwords.hash n raw.password;
  }

  -- An entry of the cache is the raw user of its name, with a hash of the password.
  abbrev pub IsHash : Text × DevUser → Type 0
  IsHash e = (raw : RawUser) × (n : ℕ) × (raw_user e.0 ≡ some raw) × (e.1 ≡ hash_of raw n)

  abbrev pub Hashed : Users → Type 0
  Hashed users = All IsHash users.dev_users

  found_hash :
      (username : Text) (es : List (Text × DevUser)) {u : DevUser}
      → All IsHash es
      → value_of (find? (λ e. text_eq e.0 username) es) ≡ some u
      → (raw : RawUser) × (n : ℕ) × (raw_user username ≡ some raw) × (u ≡ hash_of raw n)
  unfolding value_of
  found_hash username [] h e = cc
  found_hash username ((name, v) ∷ es) {u} h e = elim (Bool-cases (text_eq name username)) [
    | inl same ↦
        let (raw, n, known, is) = h.0 in
        let name_is : name ≡ username = (text_eq_iff name username).0 same in
        let v_is : v ≡ u = cc in (raw, n, ap raw_user (sym name_is) ∙ known, sym v_is ∙ is)
    | inr other ↦
        let later : value_of (find? (λ e. text_eq e.0 username) es) ≡ some u = cc in
        found_hash username es h.1 later
  ]

  get_user-cached :
      (username : Text) (users : Users) {d : Option DevUser} {r : Option RawUser}
      → dev_user username users ≡ d
      → raw_user username ≡ r
      → (get_user passwords username users).0
        ≡ dev_user username (cached passwords username users d r)
  unfolding get_user
  get_user-cached username users {d} e f =
      ap (λ d. dev_user username (cached passwords username users d (raw_user username))) e
      ∙ ap (λ r. dev_user username (cached passwords username users d r)) f

  -- The user of a name, once it is in the cache.
  get_user-known :
      (username : Text) (users : Users) (raw : RawUser)
      → Hashed users
      → raw_user username ≡ some raw
      → (n : ℕ) × ((get_user passwords username users).0 ≡ some (hash_of raw n))
  unfolding cached dev_user value_of hashed
  get_user-known username users raw h known = elim (Option-cases (dev_user username users)) [
    | inl missing ↦ (
      users.hashes,
      get_user-cached username users missing known
          ∙ ap
              (λ t. value_of (
                if t
                then some (username, hash_of raw users.hashes)
                else find? (λ e. text_eq e.0 username) users.dev_users))
              (text_eq_refl username),
    )
    | inr (u, there) ↦
        let (raw', n, known', is) = found_hash username users.dev_users h there in
        let same : raw' ≡ raw = cc in
        (
          n,
          get_user-cached username users there known
              ∙ (there ∙ ap some (is ∙ ap (λ r. hash_of r n) same)),
        )
  ]

  get_user-unknown :
      (username : Text) (users : Users)
      → Hashed users
      → raw_user username ≡ none
      → (get_user passwords username users).0 ≡ none
  unfolding cached dev_user value_of hashed
  get_user-unknown username users h unknown = elim (Option-cases (dev_user username users)) [
    | inl missing ↦ get_user-cached username users missing unknown ∙ missing
    | inr (u, there) ↦ let (raw', n, known', is) = found_hash username users.dev_users h there in cc
  ]

module _ (jwt : Jwt) (secret : Text) where
  -- the answer to a login by the table of raw users
  abbrev pub answer : Text → ℕ → ℕ → Option RawUser → Reply Text
  answer password now later none = refused 401 (message (codes "Incorrect username or password"))
  answer password now later (some raw) =
      if text_eq password raw.password
      then reply (
          create_access_token jwt secret raw.user_id raw.email raw.role (some (expire_minutes * 60))
            now later)
      else refused 401 (message (codes "Incorrect username or password"))

  module _ (passwords : Passwords) where
    -- If each entry of the cache of users is the raw user of its name with a hash of the user's
    -- password in place of the password, then this holds after a login too.
    pub login-Hashed :
        (username password : Text) (now later : ℕ) (users : Users)
        → Hashed passwords users
        → Hashed passwords (login jwt secret passwords username password now later users).1
    unfolding login get_user cached hashed
    login-Hashed username password now later users h =
        go (dev_user username users) (raw_user username) refl
      where
        go :
            (d : Option DevUser) (r : Option RawUser)
            → raw_user username ≡ r
            → Hashed passwords (cached passwords username users d r)
        go none none e = h
        go (some d) r e = h
        go none (some raw) e = ((raw, users.hashes, e, refl), h)

    module _ (password_laws : PasswordLaws passwords) where
      -- If hashes are verified by their passwords, then a login answers as if it compared the name and
      -- the password with the table of users: with a token for the user, or with 401. What earlier
      -- logins left in the cache makes no difference.
      pub login-answer :
          (username password : Text) (now later : ℕ) (users : Users)
          → Hashed passwords users
          → (login jwt secret passwords username password now later users).0
            ≡ answer password now later (raw_user username)
      unfolding login issued hashed
      login-answer username password now later users h = elim (Option-cases (raw_user username)) [
        | inl unknown ↦
            ap (issued jwt secret passwords password now later)
              (get_user-unknown passwords username users h unknown)
            ∙ ap (answer password now later) (sym unknown)
        | inr (raw, known) ↦
            let (n, found) = get_user-known passwords username users raw h known in
            ap (issued jwt secret passwords password now later) found
            ∙ (ap
                  (λ t.
                    if t
                    then reply (
                        create_access_token jwt secret raw.user_id raw.email raw.role
                          (some (expire_minutes * 60)) now later)
                    else refused 401 (message (codes "Incorrect username or password")))
                  (password_laws.verifies n password raw.password)
                ∙ ap (answer password now later) (sym known))
      ]

      module _ (jwt_laws : JwtLaws jwt) where
        -- If in addition tokens are decoded until they expire, then a login with the name and the
        -- password of a user gives a token with which requests are made as that user, with its role,
        -- for 24 hours from the login; after that they are refused with 401.
        pub login-get_current_user :
            (username : Text) (raw : RawUser) (now later : ℕ) (users : Users)
            → Hashed passwords users
            → raw_user username ≡ some raw
            → (token : Text) × ((login jwt secret passwords username raw.password now later users).0
                ≡ reply token)
              × ((t : ℕ)
                  → t ≤ now + 24 * 60 * 60
                  → get_current_user jwt secret (some token) t
                    ≡ reply (record {
                      user_id = raw.user_id;
                      email = raw.email;
                      role = raw.role;
                      token = some token;
                    }))
              × ((t : ℕ)
                  → now + 24 * 60 * 60 < t
                  → (d : Text) × (get_current_user jwt secret (some token) t
                      ≡ refused 401 (message d)))
        unfolding get_current_user decoded_user user_of or_text decode_access_token
            create_access_token lifetime
        login-get_current_user username raw now later users h known =
            let claims : Claims = record {
              sub = some raw.user_id;
              email = some raw.email;
              role = some raw.role;
              exp = now + 24 * 60 * 60;
              iat = later;
            } in
            let token = jwt.encode claims secret in
            (
              token,
              login-answer username raw.password now later users h
                  ∙ (ap (answer raw.password now later) known
                      ∙ ap
                          (λ t.
                            if t
                            then reply token
                            else refused 401 (message (codes "Incorrect username or password")))
                          (text_eq_refl raw.password)),
              λ t le. ap (decoded_user jwt secret token) (jwt_laws.decodes claims secret t le),
              λ t late.
                  let (e, failed) = jwt_laws.expires claims secret t late in
                  (_, ap (decoded_user jwt secret token) failed),
            )
