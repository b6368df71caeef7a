-- ===== src/Auth/Samples.antt =====
-- Two users, one of them with a second factor, and parameters that compute.
use Prim.Native.String.{[], ◌∷◌, ◌++◌}
use sentinel_mail_gateway.Prelude.{ℕ, String, true, Option, none, some, List, str_eq}
use sentinel_mail_gateway.Auth.{User, Store, Primitives, Request}
use sentinel_mail_gateway.Auth.Login.{Credentials}

unfoldable pub drop_first : String → Option String
drop_first [] = none
drop_first (c ∷ s) = some s

unfoldable pub toy : Primitives
unfolding drop_first
toy = record {
  sha256 = λ s. "h" ++ s;
  id_key = λ pw salt t m p n. pw ++ salt;
  encode_url = λ s. "b" ++ s;
  decode_url = drop_first;
  decode_std = λ s. some s;
  validate_code = λ c s. str_eq c s;
  uuid_text = λ n. "00000000-0000-4000-8000-000000000002";
  parse_uuid = λ s. some 2;
}

abbrev pub key : String
key = "0123456789abcdef0123456789abcdef"

abbrev pub admin : User
admin = record {
  id = 1;
  organization_id = 10;
  email = "root@example.com";
  role = "super_admin";
  is_active = true;
  password_hash = "$argon2id$v=19$m=65536,t=3,p=2$salt$opensalt";
  mfa_secret = none;
  mfa_enrolled_at = none;
  last_login_at = none;
  failed_login_count = 0;
}

abbrev pub member : User
member = record {
  id = 2;
  organization_id = 20;
  email = "ann@example.com";
  role = "user";
  is_active = true;
  password_hash = "$argon2id$v=19$m=65536,t=3,p=2$salt$lindsalt";
  mfa_secret = some "123456";
  mfa_enrolled_at = some 50;
  last_login_at = none;
  failed_login_count = 0;
}

abbrev pub platform : Store
platform = record {
  users = List.◌∷◌ admin (List.◌∷◌ member List.[]);
  sessions = List.[];
  audits = List.[];
}

abbrev pub at : ℕ → Option String → Option String → Request
at now cookie random = record {
  now = now;
  cookie = cookie;
  identity = none;
  random_token = random;
  random_secret = none;
}

abbrev pub root_login : Credentials
root_login = record { email = " Root@example.com"; password = "open" }

abbrev pub ann_login : Credentials
ann_login = record { email = "ann@example.com"; password = "lind" }
