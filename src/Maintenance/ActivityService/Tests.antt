-- ===== src/Maintenance/ActivityService/Tests.antt =====
-- Changes of an activity in a repository that holds one activity.
use zensor_server.Prelude.{
  ℕ, ◌≡◌, refl, true, [], ◌∷◌, string_eq, ◌==◌, if◌then◌else◌, ok, err, is_ok, sentinel,
  activity_not_found, arith,
}
use zensor_server.Maintenance.Activity.{Activity, new_activity, is_deleted, soft_delete}
use zensor_server.Maintenance.Ports.{ActivityRepository, TenantPort}
use zensor_server.Maintenance.ActivityService.{
  live_activity, update_activity, delete_activity, activate_activity, deactivate_activity,
}
use zensor_server.Maintenance.ActivityService.Frozen.{Refused, IsUnavailable, unavailable_frozen}

abbrev Row : Type 0
Row = Activity ℕ

abbrev one_row : ActivityRepository ℕ Row
one_row = record {
  create = λ a s. (ok tt, a);
  get_by_id = λ id s. if s.id == id then ok s else err (sentinel activity_not_found);
  find_all_active = λ s. ok (s ∷ []);
  update = λ a s. (ok tt, a);
  delete = λ id s. (ok tt, soft_delete 3 s);
}

abbrev tenants : TenantPort Row
tenants = record { get_tenant = λ id s. ok tt; get_or_create_configuration = λ id s. s }

abbrev pump : Row
pump = new_activity "a1" 1

abbrev closed : Row
closed = soft_delete 3 pump

pump_is_activated : is_ok (activate_activity one_row tenants 5 "a1" pump).0 ≡ true
unfolding activate_activity live_activity is_deleted
pump_is_activated = refl

closed-IsUnavailable : IsUnavailable one_row tenants "a1" closed
unfolding is_deleted soft_delete
closed-IsUnavailable a h = ground (arith, h)

unavailable_frozen_example :
    Refused one_row tenants (update_activity one_row tenants pump) closed
    × Refused one_row tenants (delete_activity one_row tenants "a1") closed
    × Refused one_row tenants (activate_activity one_row tenants 5 "a1") closed
    × Refused one_row tenants (deactivate_activity one_row tenants 5 "a1") closed
unavailable_frozen_example =
    unavailable_frozen one_row tenants 5 "a1" pump closed refl closed-IsUnavailable
