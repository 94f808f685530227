-- ===== src/Tests/Api.antt =====
-- Requests to the API: devices, configurations and logins.
use netdeploy.Base.{
  ℕ, suc, length, ap, ◌++◌, leb, leb_iff, ◌+◌, ◌*◌, ◌≤◌, ◌<◌, ◌≡◌, refl, false, [], ◌∷◌, Option,
  none, some, if◌then◌else◌, pos, arith,
}
use netdeploy.Text.{Text, codes, text_eq}
use netdeploy.Value.{int, end, field}
use netdeploy.Proc.{run}
use netdeploy.Routes.{message, reply, refused}
use netdeploy.Routes.Devices.{DeviceRequest, create_device}
use netdeploy.Routes.Devices.Hostnames.{UniqueHostnames, create_device-UniqueHostnames}
use netdeploy.Routes.Configs.{ConfigRequest}
use netdeploy.Auth.{
  Jwt, Passwords, Decoded, payload, jwt_error, RawUser, Users, raw_user, get_current_user, login,
}
use netdeploy.Auth.Logins.{
  JwtLaws, PasswordLaws, Hashed, answer, login-Hashed, login-answer, login-get_current_user,
}
use netdeploy.Tests.Batches.{env, silent, device}
use netdeploy.Tests.Jobs.{later}

abbrev new_device : DeviceRequest
new_device = record {
  hostname = codes "core";
  device_type = "junos";
  management_ip = codes "10.0.0.2";
  ssh_port = none;
  bgp_asn = some (some 65001);
  ospf_area = none;
  os_version = none;
}

create_device-UniqueHostnames_example :
    UniqueHostnames
      (run silent
        (create_device (env false) (codes "ops") none new_device)
        (record later { db = record later.db { devices = device 3 ∷ [] } })).1.db.devices
create_device-UniqueHostnames_example =
    create_device-UniqueHostnames (env false) silent (codes "ops") none new_device
      (record later { db = record later.db { devices = device 3 ∷ [] } }) (refl, tt)

abbrev posted_config : ConfigRequest
posted_config = record {
  device_id = 3;
  desired_state = none;
  bgp = some (field "local_asn" (int (pos 65002)) end);
  ospf = none;
  description = codes "Configuration update";
  created_by = codes "system";
}

-- Tokens that spell their claims out, and passwords that are their own hashes.
split_at : ℕ → Text → Text × Text
split_at ℕ.zero t = ([], t)
split_at (ℕ.suc n) [] = ([], [])
split_at (ℕ.suc n) (c ∷ t) = let (a, b) = split_at n t in (c ∷ a, b)

split_at-length : (t rest : Text) → split_at (length t) (t ++ rest) ≡ (t, rest)
unfolding split_at
split_at-length [] rest = refl
split_at-length (c ∷ t) rest = ap (λ (q : Text × Text). (c ∷ q.0, q.1)) (split_at-length t rest)

write_part : Option Text → Text → Text
write_part none rest = 0 ∷ rest
write_part (some t) rest = suc (length t) ∷ (t ++ rest)

read_part : Text → Option Text × Text
unfolding split_at
read_part [] = (none, [])
read_part (ℕ.zero ∷ t) = (none, t)
read_part (ℕ.suc n ∷ t) = let (a, b) = split_at n t in (some a, b)

read_part-write_part : (o : Option Text) (rest : Text) → read_part (write_part o rest) ≡ (o, rest)
unfolding read_part write_part
read_part-write_part none rest = refl
read_part-write_part (some t) rest = ap with_some (split_at-length t rest)
  where
    with_some : Text × Text → Option Text × Text
    with_some (a, b) = (some a, b)

read_claims : ℕ → Text → Decoded
unfolding read_part
read_claims now (exp ∷ iat ∷ t) =
    let (sub, r) = read_part t in
    let (email, q) = read_part r in
    let (role, p) = read_part q in
    if leb now exp
    then payload (record { sub = sub; email = email; role = role; exp = exp; iat = iat })
    else jwt_error (codes "Signature has expired.")
read_claims now _ = jwt_error (codes "Not enough segments")

abbrev plain_tokens : Jwt
plain_tokens = record {
  encode = λ c secret. c.exp ∷ c.iat ∷ write_part c.sub (write_part c.email (write_part c.role []));
  decode = λ token secret now. read_claims now token;
}

plain_tokens-JwtLaws : JwtLaws plain_tokens
unfolding read_claims
plain_tokens-JwtLaws = record {
  decodes = λ c secret now le.
      rw
        (
          read_part-write_part c.sub (write_part c.email (write_part c.role [])),
          read_part-write_part c.email (write_part c.role []),
          read_part-write_part c.role [],
          (leb_iff now c.exp).1 le,
        )
        refl;
  expires = λ c secret now less. (
    codes "Signature has expired.",
    let late : leb now c.exp ≡ false = ground (arith, less) in rw late refl,
  );
}

abbrev plain_passwords : Passwords
plain_passwords = record { hash = λ n p. p; verify = λ p h. text_eq p h }

plain_passwords-PasswordLaws : PasswordLaws plain_passwords
plain_passwords-PasswordLaws = record { verifies = λ n p q. refl }

abbrev admin_user : RawUser
admin_user = record {
  user_id = codes "admin";
  email = codes "admin@netdeploy.local";
  role = codes "admin";
  password = codes "admin";
}

abbrev no_users : Users
no_users = record { dev_users = []; hashes = 0 }

login-Hashed_example :
    Hashed plain_passwords
      (login plain_tokens (codes "key") plain_passwords (codes "admin") (codes "x") 5 6 no_users).1
login-Hashed_example =
    login-Hashed plain_tokens (codes "key") plain_passwords (codes "admin") (codes "x") 5 6 no_users
      tt

login-answer_example :
    (login plain_tokens (codes "key") plain_passwords (codes "root") (codes "x") 5 6 no_users).0
    ≡ answer plain_tokens (codes "key") (codes "x") 5 6 (raw_user (codes "root"))
login-answer_example =
    login-answer plain_tokens (codes "key") plain_passwords plain_passwords-PasswordLaws
      (codes "root") (codes "x") 5 6 no_users tt

login-get_current_user_example :
    (token : Text) × ((login plain_tokens
        (codes "key")
        plain_passwords
        (codes "admin")
        (codes "admin")
        5
        6
        no_users).0
      ≡ reply token)
    × ((t : ℕ)
        → t ≤ 5 + 24 * 60 * 60
        → get_current_user plain_tokens (codes "key") (some token) t
          ≡ reply (record {
            user_id = codes "admin";
            email = codes "admin@netdeploy.local";
            role = codes "admin";
            token = some token;
          }))
    × ((t : ℕ)
        → 5 + 24 * 60 * 60 < t
        → (d : Text) × (get_current_user plain_tokens (codes "key") (some token) t
            ≡ refused 401 (message d)))
unfolding raw_user text_eq
login-get_current_user_example =
    login-get_current_user plain_tokens (codes "key") plain_passwords plain_passwords-PasswordLaws
      plain_tokens-JwtLaws (codes "admin") admin_user 5 6 no_users tt refl
