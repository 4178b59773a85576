-- ===== src/SharedKernel/AuthService/Tests.antt =====
-- Logins and changes of allowed users in a table that has room for one row.
use Prim.Native.Char.{Char}
use zensor_server.Prelude.{
  ◌≡◌, ◌≢◌, refl, Time, after, String, Bool, true, false, Option, none, some, ==_iff, string_eq,
  if◌then◌else◌, Result, ok, err, Err, is_error, sentinel, session_not_found,
  allowed_user_not_found, validate_email, run_actions, api_key_not_found, arith,
}
use zensor_server.SharedKernel.Session.{Session}
use zensor_server.SharedKernel.ApiKey.{ApiKey}
use zensor_server.SharedKernel.AllowedUser.{AllowedUser, record_login, normalize_email, build}
use zensor_server.SharedKernel.AllowedUser.Normalization.{IsLowering}
use zensor_server.SharedKernel.AllowedUserRepository as Repository
use zensor_server.SharedKernel.AllowedUserRepository.{query_result}
use zensor_server.SharedKernel.AuthService.{
  UserPort, OauthIdentity, get_session, remove_allowed_user, handle_callback, session_for,
  update_allowed_user, beside_sessions, add_allowed_user, bootstrap_admin,
}
use zensor_server.SharedKernel.AuthService.Login.{
  user_key, repository, login_lasts, removed_user_cannot_log_in,
}
use zensor_server.SharedKernel.AuthService.Admins.{EmailsDiffer}
use zensor_server.SharedKernel.AuthService.Addresses.{HasOwnErrors}
use zensor_server.SharedKernel.AuthService.Uniqueness.{emails_stay_unique}
use zensor_server.SharedKernel.AuthService.Bootstrap.{HasAdmin, bootstrap_grants_admin}
use zensor_server.SharedKernel.AuthService.Demotion.{demoted_admin_still_served}
use zensor_server.Infra.Orm.{Orm, OrmLaws}
use zensor_server.Infra.Orm.OneRow as OneRow
use zensor_server.Infra.SessionStore as Sessions
use zensor_server.Infra.SessionStore.{Store, new_store}
use zensor_server.Infra.AuthMiddleware.{
  Request, served, by_session, strip_headers, set_headers, middleware,
}
use zensor_server.Infra.AuthMiddleware.Lockout.{memory_port, memory_sessions}

abbrev Table : Type 0
Table = Option AllowedUser

abbrev one_row : Orm AllowedUser Table
one_row = OneRow.one_row user_key

abbrev laws : OrmLaws user_key one_row
laws = OneRow.one_row_laws user_key

-- Addresses that are in lower case already.
abbrev lower : Char → Char
lower c = c

lowering : IsLowering lower
lowering = record { stays_lower = λ c. refl; keeps_space = λ c. refl }

read_error :
    (o : Option AllowedUser) (x : Err)
    → OneRow.read user_key o ≡ err x
    → is_error x allowed_user_not_found ≡ false
read_error none x h = ground (arith, h)
read_error (some u) x h = cc

own_errors : HasOwnErrors one_row
own_errors p s x h = read_error (OneRow.find_where user_key p s) x h

abbrev users : UserPort Table
users = repository lower one_row

abbrev ann : AllowedUser
ann = record {
  id = "u1";
  email = "ann@example.com";
  display_name = "";
  is_admin = true;
  last_login_at = none;
  created_at = 1;
  updated_at = 1;
}

abbrev identity : OauthIdentity
identity = record { email = " ann@example.com"; name = "Ann"; email_verified = true }

abbrev session : Session
session = record {
  id = "s1";
  user_id = "u1";
  email = "ann@example.com";
  name = "Ann";
  is_admin = true;
  created_at = 6;
  expires_at = 106;
}

logs_in :
    (handle_callback lower 100 users
      (memory_port 6)
      5
      6
      (ok "s1")
      (ok identity)
      (some ann, new_store)).0
    ≡ ok session
unfolding handle_callback Repository.get_by_email Repository.update query_result normalize_email
    record_login session_for Sessions.create
logs_in = refl

login_lasts_example :
    let (_, c') =
      (handle_callback lower 100 users
        (memory_port 6)
        5
        6
        (ok "s1")
        (ok identity)
        (some ann, new_store)).1 in
    (get_session (memory_port 50) "s1" c').0
    ≡ (if after 50 106 then err (sentinel session_not_found) else ok session)
login_lasts_example =
    login_lasts lower 100 users 5 6 50 (ok "s1") (ok identity) (some ann) new_store logs_in

abbrev no_keys : String → Store → Result ApiKey × Store
no_keys raw s = (err (sentinel api_key_not_found), s)

abbrev list_users : Request
list_users = record {
  path = "/v1/admin/users";
  session_cookie = some "s1";
  authorization = "";
  user_id = none;
  user_name = none;
  user_email = none;
}

abbrev logged_in : Table × Store
logged_in =
    (handle_callback lower 100 users (memory_port 6) 5 6 (ok "s1") (ok identity)
      (some ann, new_store)).1

abbrev demoted_ann : AllowedUser
demoted_ann = record ann {
  display_name = "Ann";
  is_admin = false;
  last_login_at = some 5;
  updated_at = 50;
}

demotes : (update_allowed_user lower users 50 "u1" false logged_in.0).0 ≡ ok demoted_ann
unfolding handle_callback Repository.get_by_email Repository.update query_result normalize_email
    record_login session_for Sessions.create update_allowed_user Repository.get_by_id
demotes = refl

s1_named : ◌≢◌ {A = String} "s1" ""
s1_named h = absurd (ground (arith, (==_iff {T = String} "s1" "").1 h))

demoted_admin_still_served_example :
    let (_, (s2, c2)) = beside_sessions (update_allowed_user lower users 50 "u1" false) logged_in in
    (OneRow.rows user_key "u1" s2 ≡ some demoted_ann)
    × (demoted_ann.is_admin ≡ false)
    × ((middleware (memory_sessions 70) no_keys list_users c2).0
        ≡ served (set_headers (by_session session) (strip_headers list_users)))
demoted_admin_still_served_example =
    demoted_admin_still_served lower one_row laws no_keys 100 5 6 50 70 (ok "s1") (ok identity)
      (some ann) new_store list_users logs_in refl s1_named demotes (omega arith) refl refl

one_address : (s : Table) → EmailsDiffer lower one_row laws s
one_address none i j a b h k q = cc
one_address (some u) i j a b h k q = ground (
  arith,
  OneRow.rows-key user_key i (some u) h,
  OneRow.rows-key user_key j (some u) k,
  h,
  k,
  ==_iff u.id i,
  ==_iff u.id j,
)

emails_stay_unique_example :
    ((uuid : String) (now : Time) (email : String) (is_admin : Bool)
      → EmailsDiffer lower one_row laws
          (add_allowed_user lower users uuid now email is_admin (some ann)).1)
    × ((now : Time) (id : String) (is_admin : Bool)
        → EmailsDiffer lower one_row laws
            (update_allowed_user lower users now id is_admin (some ann)).1)
    × ((id : String)
        → EmailsDiffer lower one_row laws
            (remove_allowed_user (memory_port 6) users.delete id (some ann, new_store)).1.0)
    × ((uuid : String) (now : Time) (email : String)
        → EmailsDiffer lower one_row laws (bootstrap_admin lower users uuid now email (some ann)).1)
    × ((at now : Time) (random : Result String) (answer : Result OauthIdentity)
        → EmailsDiffer lower one_row laws
            (handle_callback lower 100 users
              (memory_port 6)
              at
              now
              random
              answer
              (some ann, new_store)).1.0)
emails_stay_unique_example =
    emails_stay_unique lower lowering one_row laws own_errors 100 (memory_port 6) (some ann)
      new_store (one_address (some ann))

removes : (remove_allowed_user (memory_port 3) users.delete "u2" (some ann, new_store)).0 ≡ ok tt
unfolding remove_allowed_user Repository.delete
removes = refl

logs_in_after :
    (handle_callback lower 100 users
      (memory_port 6)
      5
      6
      (ok "s1")
      (ok identity)
      (remove_allowed_user (memory_port 3) users.delete "u2" (some ann, new_store)).1).0
    ≡ ok session
unfolding handle_callback Repository.get_by_email Repository.update query_result normalize_email
    record_login session_for Sessions.create remove_allowed_user Repository.delete
logs_in_after = refl

removed_user_cannot_log_in_example : session.user_id ≢ "u2"
removed_user_cannot_log_in_example =
    removed_user_cannot_log_in lower one_row laws 100 "u2" 3 5 6 (ok "s1") (ok identity) (some ann)
      new_store removes logs_in_after

root_named : ◌≢◌ {A = String} "root@example.com" ""
root_named h = absurd (ground (arith, (==_iff {T = String} "root@example.com" "").1 h))

bootstraps : (bootstrap_admin lower users "u9" 3 "root@example.com" none).0 ≡ ok tt
unfolding bootstrap_admin Repository.get_by_email Repository.create query_result normalize_email
    build run_actions validate_email
bootstraps = refl

bootstrap_grants_admin_example :
    HasAdmin lower lowering one_row laws own_errors
      (normalize_email lower "root@example.com")
      (bootstrap_admin lower users "u9" 3 "root@example.com" none).1
    × ((at later : Time) (random : Result String) (given : OauthIdentity) (opened : Session)
        → normalize_email lower given.email ≡ normalize_email lower "root@example.com"
        → (handle_callback lower 100 users
            (memory_port 6)
            at
            later
            random
            (ok given)
            ((bootstrap_admin lower users "u9" 3 "root@example.com" none).1, new_store)).0
          ≡ ok opened
        → opened.is_admin ≡ true)
bootstrap_grants_admin_example =
    bootstrap_grants_admin lower lowering one_row laws own_errors 100 (memory_port 6) "u9" 3
      "root@example.com" none new_store (one_address none) root_named bootstraps
