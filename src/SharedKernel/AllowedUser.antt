-- ===== src/SharedKernel/AllowedUser.antt =====
-- internal/shared_kernel/domain/allowed_user.go. `lower` is `unicode.ToLower`, which `strings.ToLower`
-- maps over the characters.
pub mod Normalization
use zensor_server.Prelude.{
  String, Bool, false, Option, none, some, Time, List, trim_space, Result, ok, err, Result-cases,
  validate_email, run_actions,
}
use Prim.Native.Char.{Char}
use Prim.Native.String.{[], ◌∷◌}

pub record AllowedUser : Type 0 where
  pub id : String
  pub email : String
  pub display_name : String
  pub is_admin : Bool
  pub last_login_at : Option Time
  pub created_at : Time
  pub updated_at : Time

unfoldable pub record_login : Time → String → AllowedUser → AllowedUser
record_login now display_name u = record u {
  display_name = display_name;
  last_login_at = some now;
  updated_at = now;
}

abbrev pub to_lower : (Char → Char) → String → String
to_lower lower [] = []
to_lower lower (c ∷ s) = lower c ∷ to_lower lower s

unfoldable pub normalize_email : (Char → Char) → String → String
normalize_email lower email = to_lower lower (trim_space email)

-- The handlers of `allowedUserBuilder`.
abbrev pub set_email : String → AllowedUser → Result (Unit {0}) → Result AllowedUser
set_email normalized u (ok _) = ok (record u { email = normalized })
set_email normalized u (err e) = err e

abbrev pub with_email : (Char → Char) → String → AllowedUser → Result AllowedUser
with_email lower email u =
    let normalized = normalize_email lower email in
    set_email normalized u (validate_email normalized)

abbrev pub with_is_admin : Bool → AllowedUser → Result AllowedUser
with_is_admin is_admin u = ok (record u { is_admin = is_admin })

abbrev pub with_display_name : String → AllowedUser → Result AllowedUser
with_display_name display_name u = ok (record u { display_name = display_name })

abbrev pub check_email : AllowedUser → Result (Unit {0}) → Result AllowedUser
check_email u (ok _) = ok u
check_email u (err e) = err e

abbrev pub checked : Result AllowedUser → Result AllowedUser
checked (ok u) = check_email u (validate_email u.email)
checked (err e) = err e

-- `Build`, with the generated identifier.
unfoldable pub build : String → Time → List (AllowedUser → Result AllowedUser) → Result AllowedUser
build uuid now actions = checked (
    run_actions actions (record {
      id = uuid;
      email = "";
      display_name = "";
      is_admin = false;
      last_login_at = none;
      created_at = now;
      updated_at = now;
    }))
