-- ===== src/Auth/Tests.antt =====
-- Two users, one of them with a second factor: logging in, acting as the other, logging out.
use sentinel_mail_gateway.Prelude.{ℕ, ◌+◌, ◌<◌, none, some, ◌≡◌, refl, arith, All, inl, inr}
use sentinel_mail_gateway.Strings.{lower, trim_space, is_space}
use sentinel_mail_gateway.Auth.{
  User, Store, Outcome, http_error, ok, mfa_required, token_cookie, find_user, is_null,
}
use sentinel_mail_gateway.Auth.Sessions.{is_taken, lookup, session_ttl}
use sentinel_mail_gateway.Auth.Passwords.{verify_password}
use sentinel_mail_gateway.Auth.Scan.{decimal}
use sentinel_mail_gateway.Auth.Challenge.{
  issue_mfa_challenge, parse_mfa_challenge, challenge_body, sign_challenge,
}
use sentinel_mail_gateway.Auth.Challenge.Laws.{parse_mfa_challenge-issue_mfa_challenge}
use sentinel_mail_gateway.Auth.Mfa.{text_of}
use sentinel_mail_gateway.Auth.Login.{login, mfa_verify_login, logout, wants_mfa, find_email}
use sentinel_mail_gateway.Auth.Admission.{IsAdmitted, IsCodeRight, login-ok, mfa_verify_login-ok}
use sentinel_mail_gateway.Auth.Arrival.{Admits}
use sentinel_mail_gateway.Auth.Entrance.{IsAccount, IsCodec, second, mfa_verify_login-login}
use sentinel_mail_gateway.Auth.History.{Reaches, start, next, post_login, post_impersonate, serve}
use sentinel_mail_gateway.Auth.History.Changes.{is_warranted}
use sentinel_mail_gateway.Auth.History.Served.{serve-refused}
use sentinel_mail_gateway.Auth.History.Spent.{lookup-logout}
use sentinel_mail_gateway.Auth.History.Warrants.{IsWarranted, Reaches-IsWarranted}
use sentinel_mail_gateway.Auth.Samples.{
  toy, key, admin, member, platform, at, root_login, ann_login,
}

test_verify : verify_password toy "open" admin.password_hash ≡ none
unfolding verify_password toy
test_verify = refl

test_verify_wrong : verify_password toy "shut" admin.password_hash ≡ some "password mismatch"
unfolding verify_password toy
test_verify_wrong = refl

test_verify_version :
    verify_password toy "open" "$argon2id$v=18$m=1,t=1,p=1$s$h" ≡ some "unsupported argon2 version"
unfolding verify_password
test_verify_version = refl

test_verify_threads :
    verify_password toy "open" "$argon2id$v=19$m=1,t=1,p=256$s$h" ≡ some "invalid hash params"
unfolding verify_password
test_verify_threads = refl

test_decimal : decimal 1700000300 ≡ "1700000300"
unfolding decimal
test_decimal = refl

test_expired :
    parse_mfa_challenge toy key 400 (issue_mfa_challenge toy key 100 2).0 ≡ inl "challenge expired"
unfolding parse_mfa_challenge issue_mfa_challenge toy
test_expired = refl

test_tampered :
    parse_mfa_challenge toy "another key" 200 (issue_mfa_challenge toy key 100 2).0
    ≡ inl "challenge signature mismatch"
unfolding parse_mfa_challenge issue_mfa_challenge toy
test_tampered = refl

abbrev after_root : Store
after_root = (login toy key (at 100 none (some "t1")) (some root_login) platform).store

test_root_in : (login toy key (at 100 none (some "t1")) (some root_login) platform).reply ≡ ok
unfolding login toy is_taken
test_root_in = refl

login-ok_example :
    (u : User) × (find_email (trim_space (lower root_login.email)) platform.users ≡ some u)
    × IsAdmitted toy key (at 100 none (some "t1")) "open" u
login-ok_example = login-ok toy key (at 100 none (some "t1")) root_login platform test_root_in

parse_mfa_challenge-issue_mfa_challenge_example :
    parse_mfa_challenge toy key 399 (issue_mfa_challenge toy key 100 2).0 ≡ inr 2
unfolding toy is_space challenge_body sign_challenge
parse_mfa_challenge-issue_mfa_challenge_example =
    parse_mfa_challenge-issue_mfa_challenge toy 2 refl refl refl key 100 399 (omega arith)
      (omega arith) (refl, refl) (refl, refl)

abbrev ann_second : Outcome
ann_second =
    mfa_verify_login toy key (at 200 none (some "t2"))
      (some ((issue_mfa_challenge toy key 100 2).0, "123456")) platform

test_ann_in : ann_second.reply ≡ ok
unfolding mfa_verify_login issue_mfa_challenge toy is_null is_taken
test_ann_in = refl

mfa_verify_login-ok_example :
    (user : ℕ) × (u : User) × (parse_mfa_challenge toy key 200 (issue_mfa_challenge toy key 100 2).0
      ≡ inr user)
    × (find_user user platform.users ≡ some u)
    × IsCodeRight toy key (at 200 none (some "t2")) "123456" u
mfa_verify_login-ok_example =
    mfa_verify_login-ok toy key (at 200 none (some "t2")) (issue_mfa_challenge toy key 100 2).0
      "123456" platform test_ann_in

test-IsAccount : IsAccount toy key (at 100 none none) ann_login "123456" member platform
unfolding find_email trim_space lower find_user is_null verify_password toy wants_mfa text_of
test-IsAccount = (refl, refl, refl, refl, refl, refl, refl, refl, refl, refl)

test-IsCodec : IsCodec toy key 2 400
unfolding toy challenge_body sign_challenge is_space
test-IsCodec = ((refl, refl), (refl, refl), refl, refl, refl)

mfa_verify_login-login_example :
    ((login toy key (at 100 none none) (some ann_login) platform).reply
      ≡ mfa_required (issue_mfa_challenge toy key 100 2).0 (issue_mfa_challenge toy key 100 2).1)
    × ((second toy key
          (at 100 none none)
          (at 200 none (some "t2"))
          ann_login
          "123456"
          "t2"
          member
          platform).cookie
        ≡ token_cookie "t2" (200 + session_ttl))
    × ((now : ℕ)
        → now < 200 + session_ttl
        → Admits toy "t2" member
            (second toy key
              (at 100 none none)
              (at 200 none (some "t2"))
              ann_login
              "123456"
              "t2"
              member
              platform).store
            now)
unfolding is_taken
mfa_verify_login-login_example =
    mfa_verify_login-login toy key (at 100 none none) (at 200 none (some "t2")) ann_login "123456"
      "t2" member platform test-IsAccount test-IsCodec (omega arith) (omega arith) refl refl refl

-- the admin acts as the member, and logs out of that session
abbrev as_ann : Store
as_ann =
    (serve toy key (post_impersonate (some "2")) (at 110 (some "t1") (some "t3")) after_root).store

run_as_ann : Reaches toy key after_root as_ann
run_as_ann = next start (post_impersonate (some "2")) (at 110 (some "t1") (some "t3"))

test_as_ann :
    lookup toy 120 "t3" as_ann
    ≡ some record {
      user_id = 2;
      organization_id = 20;
      email = "ann@example.com";
      role = "user";
      impersonator = some 1;
      impersonator_email = "root@example.com";
    }
unfolding lookup serve toy is_taken
test_as_ann = refl

test_root_out : lookup toy 120 "t1" as_ann ≡ none
unfolding lookup serve toy is_taken
test_root_out = refl

test_no_nesting :
    (serve toy key (post_impersonate (some "2")) (at 120 (some "t3") (some "t4")) as_ann).reply
    ≡ http_error 403 "forbidden"
unfolding serve toy is_taken
test_no_nesting = refl

Reaches-IsWarranted_example : All (IsWarranted as_ann.users) as_ann.sessions
unfolding login toy is_taken is_warranted
Reaches-IsWarranted_example = Reaches-IsWarranted toy run_as_ann (refl, tt)

serve-refused_example :
    (serve toy key (post_impersonate (some "2")) (at 120 (some "t3") (some "t4")) as_ann).store
    ≡ as_ann
unfolding serve toy is_taken
serve-refused_example =
    serve-refused toy (at 120 (some "t3") (some "t4")) as_ann key (post_impersonate (some "2")) refl

abbrev logged_out : Store
logged_out = (logout toy key (at 130 (some "t1") none) after_root).store

lookup-logout_example :
    lookup toy 150 "t1"
      (serve toy key (post_login (some root_login)) (at 140 none (some "t1")) logged_out).store
    ≡ none
unfolding is_taken login toy
lookup-logout_example =
    lookup-logout toy key (at 130 (some "t1") none) "t1" after_root
      (serve toy key (post_login (some root_login)) (at 140 none (some "t1")) logged_out).store refl
      refl (next start (post_login (some root_login)) (at 140 none (some "t1"))) 150
