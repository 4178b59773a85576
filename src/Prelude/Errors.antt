-- ===== src/Prelude/Errors.antt =====
-- Go's error values. A sentinel is a package-level `errors.New`; `wrap` is `fmt.Errorf("…: %w")`;
-- `foreign` is an error made by code outside the repository. `Result A` is the pair `(A, error)`.
use Prim.Native.Nat.{ℕ}
use Prim.Native.String.{String}
use mathlib.Core.Path.{◌≡◌, refl}
use mathlib.Core.Bool.{Bool, true, false}
use mathlib.Core.Logic.{◌⊎◌, inl, inr}
use zensor_server.Prelude.Tests.{nat_beq}

pub data Sentinel : Type 0 where
  record_not_found : Sentinel
  tenant_not_found tenant_duplicated tenant_soft_deleted tenant_version_conflict : Sentinel
  api_key_not_found api_key_duplicated api_key_name_required : Sentinel
  session_not_found : Sentinel
  topic_not_found subscriptor_not_found : Sentinel
  command_overlap device_not_found : Sentinel
  activity_not_found execution_not_found execution_scheduled_in_future : Sentinel
  execution_deleted execution_already_completed activity_deleted activity_already_deleted : Sentinel
  activity_id_required scheduled_date_required : Sentinel
  start_date_required interval_required invalid_recurrence_unit : Sentinel
  allowed_user_not_found allowed_user_duplicated email_not_allowed email_not_verified : Sentinel
  invalid_credentials email_cannot_be_empty invalid_email_format : Sentinel
  user_not_found mixed_tenant_validation : Sentinel
  tenant_configuration_not_found invalid_timezone : Sentinel
  forbidden_tenant_configuration_access timezone_cannot_be_empty : Sentinel
  execution_time_format hour_out_of_range minute_out_of_range : Sentinel
  device_duplicated unknown_error : Sentinel
  invalid_parameters push_token_not_found : Sentinel
  push_token_user_id_required push_token_token_required push_token_platform_required : Sentinel
  interval_only tenant_required device_required command_templates_required : Sentinel
  schedule_required initial_day_required day_interval_required : Sentinel
  execution_time_required initial_day_in_past : Sentinel
  task_device_required task_commands_required : Sentinel
  cron_schedule_required no_valid_scheduling : Sentinel

abbrev pub sentinel_code : Sentinel → ℕ
sentinel_code record_not_found = 0
sentinel_code tenant_not_found = 1
sentinel_code tenant_duplicated = 2
sentinel_code tenant_soft_deleted = 3
sentinel_code tenant_version_conflict = 4
sentinel_code api_key_not_found = 5
sentinel_code api_key_duplicated = 6
sentinel_code api_key_name_required = 7
sentinel_code session_not_found = 8
sentinel_code topic_not_found = 9
sentinel_code subscriptor_not_found = 10
sentinel_code command_overlap = 11
sentinel_code device_not_found = 12
sentinel_code activity_not_found = 13
sentinel_code execution_not_found = 14
sentinel_code execution_scheduled_in_future = 15
sentinel_code execution_deleted = 16
sentinel_code execution_already_completed = 17
sentinel_code activity_deleted = 18
sentinel_code activity_already_deleted = 19
sentinel_code activity_id_required = 20
sentinel_code scheduled_date_required = 21
sentinel_code start_date_required = 22
sentinel_code interval_required = 23
sentinel_code invalid_recurrence_unit = 24
sentinel_code allowed_user_not_found = 25
sentinel_code allowed_user_duplicated = 26
sentinel_code email_not_allowed = 27
sentinel_code email_not_verified = 28
sentinel_code invalid_credentials = 29
sentinel_code email_cannot_be_empty = 30
sentinel_code invalid_email_format = 31
sentinel_code user_not_found = 32
sentinel_code mixed_tenant_validation = 33
sentinel_code tenant_configuration_not_found = 34
sentinel_code invalid_timezone = 35
sentinel_code forbidden_tenant_configuration_access = 36
sentinel_code timezone_cannot_be_empty = 37
sentinel_code execution_time_format = 38
sentinel_code hour_out_of_range = 39
sentinel_code minute_out_of_range = 40
sentinel_code device_duplicated = 41
sentinel_code unknown_error = 42
sentinel_code invalid_parameters = 43
sentinel_code push_token_not_found = 44
sentinel_code push_token_user_id_required = 45
sentinel_code push_token_token_required = 46
sentinel_code push_token_platform_required = 47
sentinel_code interval_only = 48
sentinel_code tenant_required = 49
sentinel_code device_required = 50
sentinel_code command_templates_required = 51
sentinel_code schedule_required = 52
sentinel_code initial_day_required = 53
sentinel_code day_interval_required = 54
sentinel_code execution_time_required = 55
sentinel_code initial_day_in_past = 56
sentinel_code task_device_required = 57
sentinel_code task_commands_required = 58
sentinel_code cron_schedule_required = 59
sentinel_code no_valid_scheduling = 60

pub data Err : Type 0 where
  sentinel : Sentinel → Err
  wrap : String → Err → Err
  foreign : String → Err

-- `errors.Is(err, target)`
abbrev pub is_error : Err → Sentinel → Bool
is_error (sentinel s) t = nat_beq (sentinel_code s) (sentinel_code t)
is_error (wrap _ e) t = is_error e t
is_error (foreign _) t = false

pub data Result {ℓ} (A : Type ℓ) : Type ℓ where
  ok : A → Result A
  err : Err → Result A

-- A call that may panic, on a nil pointer or function, instead of returning.
pub data Outcome {ℓ} (A : Type ℓ) : Type ℓ where
  returns : Result A → Outcome A
  panics : Outcome A

abbrev pub is_ok {ℓ} : {A : Type ℓ} → Result A → Bool
is_ok (ok _) = true
is_ok (err _) = false

pub Result-cases {ℓ} :
    {A : Type ℓ} (r : Result A) → ((a : A) × (r ≡ ok a)) ⊎ ((e : Err) × (r ≡ err e))
Result-cases (ok a) = inl (a, refl)
Result-cases (err e) = inr (e, refl)

-- A call that may change the store `S` and fail, keeping what was written before the failure.
abbrev pub Action : Type 0 → Type 0 → Type 0
Action S A = S → Result A × S

-- Runs the next step only after a success; a failure passes through a wrapper of the error.
infixl 5 ◌>>=◌ ◌>>◌
abbrev pub ◌>>=◌ : {S A B : Type 0} → Action S A → (A → Action S B) → Action S B
◌>>=◌ m f s = let (r, s') = m s in elim r [ ok a ↦ f a s' | err e ↦ (err e, s') ]

abbrev pub ◌>>◌ : {S A B : Type 0} → Action S A → Action S B → Action S B
m >> k = m >>= λ _. k

-- `if err != nil { return fmt.Errorf("context: %w", err) }`
abbrev pub wrap_error {ℓ} : {A : Type ℓ} → String → Result A → Result A
wrap_error context (ok a) = ok a
wrap_error context (err e) = err (wrap context e)
