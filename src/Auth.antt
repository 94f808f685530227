-- ===== src/Auth.antt =====
-- api/dependencies.py and api/routes/auth.py: tokens, the current user and the login. The JWT
-- library and the password hashes of passlib are parameters. Times are seconds.
pub mod Logins
use netdeploy.Base.{
  ℕ, zero, suc, ◌+◌, ◌*◌, Bool, List, [], ◌∷◌, ◌++◌, Option, none, some, find?, if◌then◌else◌,
}
use netdeploy.Text.{Text, codes, text_eq}
use netdeploy.Routes.{message, Reply, reply, refused}

-- the payload of a token
pub record Claims : Type 0 where
  pub sub : Option Text
  pub email : Option Text
  pub role : Option Text
  pub exp : ℕ
  pub iat : ℕ

-- what `jwt.decode` gives: the payload, or a JWTError with its text
pub data Decoded : Type 0 where
  payload : Claims → Decoded
  jwt_error : Text → Decoded

-- `jwt.encode` with a key, and `jwt.decode` with a key at a time, for the algorithm HS256
pub record Jwt : Type 0 where
  pub encode : Claims → Text → Text
  pub decode : Text → Text → ℕ → Decoded

-- `pwd_context.hash`, whose n-th call draws its own salt, and `pwd_context.verify`
pub record Passwords : Type 0 where
  pub hash : ℕ → Text → Text
  pub verify : Text → Text → Bool

-- The dict of a user; only the anonymous one has no token.
pub record User : Type 0 where
  pub user_id : Text
  pub email : Text
  pub role : Text
  pub token : Option Text

-- an entry of `_RAW_USERS`
pub record RawUser : Type 0 where
  pub user_id : Text
  pub email : Text
  pub role : Text
  pub password : Text

-- an entry of `_DEV_USERS`
pub record DevUser : Type 0 where
  pub user_id : Text
  pub email : Text
  pub role : Text
  pub hashed_password : Text

-- `_DEV_USERS`, and the number of hashes that were computed
pub record Users : Type 0 where
  pub dev_users : List (Text × DevUser)
  pub hashes : ℕ

abbrev admin : RawUser
admin = record {
  user_id = codes "admin";
  email = codes "admin@netdeploy.local";
  role = codes "admin";
  password = codes "admin";
}

abbrev readonly : RawUser
readonly = record {
  user_id = codes "readonly";
  email = codes "readonly@netdeploy.local";
  role = codes "viewer";
  password = codes "readonly";
}

-- `_RAW_USERS`
unfoldable pub raw_user : Text → Option RawUser
raw_user username =
    if text_eq username (codes "admin")
    then some admin
    else if text_eq username (codes "readonly")
    then some readonly
    else none

value_of : Option (Text × DevUser) → Option DevUser
value_of none = none
value_of (some (name, u)) = some u

unfoldable pub dev_user : Text → Users → Option DevUser
unfolding value_of
dev_user username users = value_of (find? (λ e. text_eq e.0 username) users.dev_users)

-- 24 hours
abbrev pub expire_minutes : ℕ
expire_minutes = 60 * 24

-- `expires_delta if expires_delta else …`, in seconds; a delta of zero counts as none
lifetime : Option ℕ → ℕ
lifetime none = expire_minutes * 60
lifetime (some zero) = expire_minutes * 60
lifetime (some (suc n)) = suc n

module _ (jwt : Jwt) (secret : Text) where
  -- the data of a login, with the two readings of the clock
  unfoldable pub create_access_token : Text → Text → Text → Option ℕ → ℕ → ℕ → Text
  unfolding lifetime
  create_access_token sub email role expires_delta now later =
      jwt.encode
        (record {
          sub = some sub;
          email = some email;
          role = some role;
          exp = now + lifetime expires_delta;
          iat = later;
        })
        secret

  unfoldable pub decode_access_token : Text → ℕ → Decoded
  decode_access_token token now = jwt.decode token secret now

  -- `payload.get(key, default)`
  or_text : Option Text → Text → Text
  or_text none d = d
  or_text (some t) d = t

  user_of : Text → Claims → Option Text → Reply User
  unfolding or_text
  user_of token claims none = refused 401 (message (codes "Token missing subject claim"))
  user_of token claims (some user_id) = reply (record {
    user_id = user_id;
    email = or_text claims.email [];
    role = or_text claims.role (codes "user");
    token = some token;
  })

  decoded_user : Text → Decoded → Reply User
  unfolding user_of
  decoded_user token (jwt_error e) = refused 401 (message (codes "Invalid or expired token: " ++ e))
  decoded_user token (payload claims) = user_of token claims claims.sub

  -- of the credentials of a request, if it has any
  unfoldable pub get_current_user : Option Text → ℕ → Reply User
  unfolding decoded_user
  get_current_user none now = reply (record {
    user_id = codes "anonymous";
    email = codes "dev@netdeploy.local";
    role = codes "admin";
    token = none;
  })
  get_current_user (some token) now = decoded_user token (decode_access_token token now)

  unfoldable pub require_auth : Option Text → ℕ → Reply User
  require_auth none now = refused 401 (message (codes "Authentication required"))
  require_auth (some token) now = get_current_user (some token) now

  without_token : Reply User → Reply (Text × Text × Text)
  without_token (refused code d) = refused code d
  without_token (reply u) = reply (u.user_id, u.email, u.role)

  unfoldable pub get_me : Option Text → ℕ → Reply (Text × Text × Text)
  unfolding without_token
  get_me credentials now = without_token (get_current_user credentials now)

module _ (passwords : Passwords) where
  pub hashed : RawUser → ℕ → DevUser
  hashed raw n = record {
    user_id = raw.user_id;
    email = raw.email;
    role = raw.role;
    hashed_password = passwords.hash n raw.password;
  }

  -- the first access hashes the password
  cached : Text → Users → Option DevUser → Option RawUser → Users
  unfolding hashed
  cached username users none (some raw) = record {
    dev_users = (username, hashed raw users.hashes) ∷ users.dev_users;
    hashes = users.hashes + 1;
  }
  cached username users _ _ = users

  unfoldable pub get_user : Text → Users → Option DevUser × Users
  unfolding cached
  get_user username users =
      let users' = cached username users (dev_user username users) (raw_user username) in
      (dev_user username users', users')

module _ (jwt : Jwt) (secret : Text) (passwords : Passwords) where
  -- the token that is issued for a user, or 401
  issued : Text → ℕ → ℕ → Option DevUser → Reply Text
  issued password now later none = refused 401 (message (codes "Incorrect username or password"))
  issued password now later (some u) =
      if passwords.verify password u.hashed_password
      then reply (
          create_access_token jwt secret u.user_id u.email u.role (some (expire_minutes * 60)) now
            later)
      else refused 401 (message (codes "Incorrect username or password"))

  unfoldable pub login : Text → Text → ℕ → ℕ → Users → Reply Text × Users
  unfolding issued
  login username password now later users =
      let (user, users') = get_user passwords username users in
      (issued password now later user, users')
