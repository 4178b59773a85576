-- ===== src/ControlPlane/DeviceService/Adoption.antt =====
-- The row of a device after the changes that the service makes, over the repository.
use zensor_server.Prelude.{
  ◌+◌, ◌<◌, ◌≡◌, refl, subst, inl, inr, String, not, if_cases, some, ◌==◌, ==_iff, ==_refl,
  string_eq, Time, ltb, if◌then◌else◌, Result, Result-cases, ok, err, is_error, wrap, sentinel,
  Action, device_not_found, arith,
}
use zensor_server.Infra.Orm.{Orm, OrmLaws, Wrote}
use zensor_server.SharedKernel.Command.{Command}
use zensor_server.SharedKernel.Device.{
  Device, adopt_to_tenant, update_last_message_received_at, five_minutes, is_online,
}
use zensor_server.ControlPlane.DeviceRepository as Repository
use zensor_server.ControlPlane.DeviceRepository.{
  Row, to_domain, from_device, read_row, update_named,
}
use zensor_server.ControlPlane.DeviceService.{
  DevicePorts, wrapped, adopt, adopt_device_to_tenant, touch, update_last_message,
}

abbrev pub row_key : Row → String
row_key row = row.id

-- The repository as the service sees it, at an instant.
abbrev pub ports : {S : Type 0} → Orm Row S → Time → (Command → Action S (Unit {0})) → DevicePorts S
ports o now create_command = record {
  create_device = Repository.create_device o now;
  update_device = Repository.update_device o now;
  get = Repository.get o;
  find_by_name = Repository.find_by_name o;
  create_command = create_command;
}

module _ {S : Type 0} (o : Orm Row S) (laws : OrmLaws row_key o) (now : Time)
    (create_command : Command → Action S (Unit {0})) where
  -- The row of a device has been replaced, and no other.
  abbrev pub Replaced : Row → S → S → Type 0
  Replaced row s s' =
      (id : String) → laws.rows id s' ≡ (if row.id == id then some row else laws.rows id s)

  write-Replaced :
      (context : String) (row : Row) (s : S) (p : Result (Unit {0}) × S)
      → Wrote row_key laws.rows row s p
      → (Repository.wrapped o context p).0 ≡ ok tt
      → Replaced row s (Repository.wrapped o context p).1
  write-Replaced context row s (ok _, s') w h = w
  write-Replaced context row s (err e, s') w h = cc

  abbrev Replaces : Device → S → Result (Unit {0}) × S → Type 0
  Replaces d s p = p.0 ≡ ok tt → Replaced (from_device now d) s p.1

  update_named-Replaces :
      (d : Device) (found : Result Device) (s : S) → Replaces d s (update_named o now d found s)
  update_named-Replaces d (err e) s =
      if_cases (Replaces d s) (not (is_error e device_not_found)) (err (wrap "getting device" e), s)
        (err (sentinel device_not_found), s) (λ _ h. cc) (λ _ h. cc)
  update_named-Replaces d (ok current) s =
      let row = from_device now d in
      if_cases (Replaces d s) (current.id == "") (err (sentinel device_not_found), s)
        (Repository.wrapped o "updating device in database" (o.save row s)) (λ _ h. cc)
        (λ _ h.
          write-Replaced "updating device in database" row s (o.save row s) (laws.save_writes row s)
            h)

  wrapped-ok :
      (context : String) (d : Device) (s : S) (p : Result (Unit {0}) × S)
      → Replaces d s p
      → Replaces d s (wrapped (ports o now create_command) context p)
  wrapped-ok context d s (ok _, s') h q = h refl
  wrapped-ok context d s (err e, s') h q = cc

  get-row :
      (id : String) (s : S) {d : Device}
      → Repository.get o id s ≡ ok d
      → (row : Row) × (laws.rows id s ≡ some row) × (d ≡ to_domain row) × (row.id ≡ id)
  unfolding Repository.get
  get-row id s h = elim (Result-cases (o.first id s)) [
    | inl (row, e) ↦
        let stored = laws.first_found id s e in
        (row, stored, ground (arith, e, h), laws.row_key id s stored)
    | inr (x, e) ↦ absurd (ground (arith, e, h))
  ]

  find_by_name-row :
      (name : String) (s : S) {d : Device}
      → Repository.find_by_name o name s ≡ ok d
      → (row : Row) × (laws.rows row.id s ≡ some row) × (d ≡ to_domain row) × (row.name ≡ name)
  unfolding Repository.find_by_name
  find_by_name-row name s h =
      let is_asked = λ (row : Row). row.name == name in
      elim (Result-cases (o.first_where is_asked s)) [
        | inl (row, e) ↦
            let (named, stored) = laws.where_holds is_asked s e in
            (row, stored, ground (arith, e, h), (==_iff row.name name).0 named)
        | inr (x, e) ↦ absurd (ground (arith, e, h))
      ]

  adopt-Replaced :
      (tenant_id id : String) (found : Result Device) (s : S)
      → Repository.get o id s ≡ found
      → (adopt (ports o now create_command) tenant_id found s).0 ≡ ok tt
      → (old : Row) × (laws.rows id s ≡ some old)
        × (old.id ≡ id)
        × Replaced
            (from_device now (adopt_to_tenant tenant_id (to_domain old)))
            s
            (adopt (ports o now create_command) tenant_id found s).1
  unfolding Repository.update_device
  adopt-Replaced tenant_id id (err e) s q h = cc
  adopt-Replaced tenant_id id (ok d) s q h =
      let (row, stored, same, key) = get-row id s q in
      let d' = adopt_to_tenant tenant_id d in
      let p = Repository.update_device o now d' s in
      (
        row,
        stored,
        key,
        subst
            (λ x.
              Replaced (from_device now (adopt_to_tenant tenant_id x)) s
                (wrapped (ports o now create_command) "updating device" p).1)
            same
            (wrapped-ok "updating device" d' s p
              (update_named-Replaces d' (Repository.find_by_name o d'.name s) s) h),
      )

  -- A successful `AdoptDeviceToTenant` has replaced the row of a stored device by the same device
  -- with the tenant set, and no other row. The new row begins a new life: its version is 1 and its
  -- time of creation is that of the adoption.
  pub adopt_effect :
      (tenant_id id : String) (s : S)
      → (adopt_device_to_tenant (ports o now create_command) tenant_id id s).0 ≡ ok tt
      → (old new : Row) × (laws.rows id s ≡ some old)
        × (to_domain new ≡ record (to_domain old) { tenant_id = some tenant_id })
        × (new.version ≡ 1)
        × (new.created_at ≡ now)
        × ((j : String)
            → laws.rows j (adopt_device_to_tenant (ports o now create_command) tenant_id id s).1
              ≡ (if id == j then some new else laws.rows j s))
  unfolding adopt_device_to_tenant from_device to_domain adopt_to_tenant
  adopt_effect tenant_id id s h =
      let (old, stored, key, replaced) =
        adopt-Replaced tenant_id id (Repository.get o id s) s refl h in
      (
        old,
        from_device now (adopt_to_tenant tenant_id (to_domain old)),
        stored,
        refl,
        refl,
        refl,
        λ j. ground (arith, replaced j, key),
      )

  touch-Replaced :
      (at : Time) (name : String) (found : Result Device) (s : S)
      → Repository.find_by_name o name s ≡ found
      → (touch (ports o now create_command) at found s).0 ≡ ok tt
      → (old : Row) × (laws.rows old.id s ≡ some old)
        × (old.name ≡ name)
        × Replaced
            (from_device now (update_last_message_received_at at (to_domain old)))
            s
            (touch (ports o now create_command) at found s).1
  unfolding Repository.update_device
  touch-Replaced at name (err e) s q h = cc
  touch-Replaced at name (ok d) s q h =
      let (row, stored, same, named) = find_by_name-row name s q in
      let d' = update_last_message_received_at at d in
      let p = Repository.update_device o now d' s in
      (
        row,
        stored,
        named,
        subst
            (λ x.
              Replaced (from_device now (update_last_message_received_at at x)) s
                (wrapped (ports o now create_command) "updating device" p).1)
            same
            (wrapped-ok "updating device" d' s p
              (update_named-Replaces d' (Repository.find_by_name o d'.name s) s) h),
      )

  -- After a successful `UpdateLastMessageReceivedAt` for a name, at an instant after Go's zero time, a device
  -- of that name is stored that is online until five minutes have passed, and not from then on.
  pub touched_device_is_online :
      (at : Time) (name : String) (s : S)
      → (update_last_message (ports o now create_command) at name s).0 ≡ ok tt
      → 0 < at
      → (row : Row) × (laws.rows row.id
            (update_last_message (ports o now create_command) at name s).1
          ≡ some row)
        × (row.name ≡ name)
        × ((later : Time) → is_online later (to_domain row) ≡ ltb later (at + five_minutes))
  unfolding update_last_message from_device to_domain update_last_message_received_at is_online
  touched_device_is_online at name s h started =
      let (old, stored, named, replaced) =
        touch-Replaced at name (Repository.find_by_name o name s) s refl h in
      let new = from_device now (update_last_message_received_at at (to_domain old)) in
      (
        new,
        ground (arith, replaced old.id, ==_refl old.id),
        named,
        λ later. ground (arith, started),
      )
