-- ===== src/SharedKernel/ApiKey.antt =====
-- internal/shared_kernel/domain/api_key.go: the record and its builder. The SHA-256 digest and the random
-- text are parameters.
use zensor_server.Prelude.{
  String, Time, ◌==◌, string_eq, trim_space, if◌then◌else◌, List, Result, ok, err, sentinel,
  api_key_name_required, run_actions,
}
use Prim.Native.String.{slice}

pub record ApiKey : Type 0 where
  pub id : String
  pub name : String
  pub key_hash : String
  pub key_prefix : String
  pub created_by : String
  pub created_at : Time

-- The handlers of `apiKeyBuilder`.
abbrev pub with_name : String → ApiKey → Result ApiKey
with_name name k =
    let trimmed = trim_space name in
    if trimmed == "" then err (sentinel api_key_name_required) else ok (record k { name = trimmed })

abbrev pub with_created_by : String → ApiKey → Result ApiKey
with_created_by created_by k = ok (record k { created_by = created_by })

abbrev pub new_api_key : String → Time → ApiKey
new_api_key uuid now = record {
  id = uuid;
  name = "";
  key_hash = "";
  key_prefix = "";
  created_by = "";
  created_at = now;
}

-- The second half of `Build`, with the outcome of `generateAPIKeyPlaintext`.
abbrev pub seal : (String → String) → Result String → ApiKey → Result (ApiKey × String)
seal hash (err e) k = err e
seal hash (ok plaintext) k =
    ok (record k { key_hash = hash plaintext; key_prefix = slice plaintext 0 12 }, plaintext)

abbrev pub check_name_and_seal :
    (String → String) → Result String → ApiKey → Result (ApiKey × String)
check_name_and_seal hash random k =
    if k.name == "" then err (sentinel api_key_name_required) else seal hash random k

-- `Build`
unfoldable pub build :
    (String → String)
    → Result String
    → String
    → Time
    → List (ApiKey → Result ApiKey)
    → Result (ApiKey × String)
build hash random uuid now actions = elim (run_actions actions (new_api_key uuid now)) [
  | err e ↦ err e
  | ok k ↦ check_name_and_seal hash random k
]
