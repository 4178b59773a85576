-- ===== src/SharedKernel/Session.antt =====
-- internal/shared_kernel/domain/session.go.
use zensor_server.Prelude.{String, Bool, Time, after}

pub record Session : Type 0 where
  pub id : String
  pub user_id : String
  pub email : String
  pub name : String
  pub is_admin : Bool
  pub created_at : Time
  pub expires_at : Time

unfoldable pub is_expired : Session → Time → Bool
is_expired s now = after now s.expires_at
