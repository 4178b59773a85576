-- ===== src/ControlPlane/CommandRepository/Updates.antt =====
-- What an update of a command keeps, and the conversions to and from its row.
use zensor_server.Prelude.{
  ◌+◌, ◌≤ℤ◌, ◌≡◌, ◌≢◌, refl, inl, inr, sym, subst, String, ℤ, pos, negsuc, ==_iff, Option, none,
  some, or_else, Time, ◌==◌, ==_refl, string_eq, if◌then◌else◌, ok, Result-cases, wrap_error, arith,
}
use zensor_server.Infra.Orm.{Orm, OrmLaws, Wrote, Wrote-wrap, Wrote-ok}
use zensor_server.SharedKernel.Command.{Command}
use zensor_server.ControlPlane.CommandRepository.{
  Row, to_uint8, to_domain, from_command, merged, update,
}

abbrev pub row_key : Row → String
row_key row = row.id

-- A value of the type `uint8`.
abbrev pub IsByte : ℤ → Type 0
IsByte z = (pos 0 ≤ℤ z) × (z ≤ℤ pos 255)

-- The byte nearest to an integer.
abbrev pub IsNearest : ℤ → ℤ → Type 0
IsNearest z b =
    IsByte b × (IsByte z → b ≡ z) × (¬ (pos 0 ≤ℤ z) → b ≡ pos 0) × (¬ (z ≤ℤ pos 255) → b ≡ pos 255)

to_uint8-IsNearest : (z : ℤ) → IsNearest z (pos (to_uint8 z))
to_uint8-IsNearest (pos n) =
    (ground arith, λ h. ground (arith, h), λ h. ground (arith, h), λ h. ground (arith, h))
to_uint8-IsNearest (negsuc n) =
    (omega arith, λ h. absurd (omega (arith, h)), λ h. refl, λ h. absurd (h (omega arith)))

-- A row that is read as a command and written back is the same row but for its payload's index and
-- value, which are then the bytes nearest to those that were stored.
pub from_command-to_domain :
    (row : Row)
    → (index : ℤ) × (value : ℤ) × (from_command (to_domain row)
        ≡ record row { payload_index = index; payload_value = value })
      × IsNearest row.payload_index index
      × IsNearest row.payload_value value
unfolding to_domain from_command
from_command-to_domain row = (
  pos (to_uint8 row.payload_index),
  pos (to_uint8 row.payload_value),
  refl,
  to_uint8-IsNearest row.payload_index,
  to_uint8-IsNearest row.payload_value,
)

module _ {S : Type 0} (o : Orm Row S) (laws : OrmLaws row_key o) where
  update-saves :
      (cmd : Command) (s : S) (old : Row)
      → o.first cmd.id s ≡ ok old
      → update o cmd s ≡ (
        wrap_error "updating command in database" (o.save (merged old cmd) s).0,
        (o.save (merged old cmd) s).1,
      )
  unfolding update
  update-saves cmd s old e = rw (e, update)

  merged-key : (old : Row) (cmd : Command) → row_key (merged old cmd) ≡ cmd.id
  unfolding merged from_command
  merged-key old cmd = refl

  -- A successful `Update` replaced the row of the command, which existed, and no other row: the time
  -- of creation is the stored one, the version is one higher, an empty status and missing times
  -- are those of the stored row, and the rest is the given command.
  pub update_lem :
      (cmd : Command) (s : S)
      → (update o cmd s).0 ≡ ok tt
      → (old : Row) × (laws.rows cmd.id s ≡ some old)
        × ((id : String)
            → laws.rows id (update o cmd s).1
              ≡ (if cmd.id == id then some (merged old cmd) else laws.rows id s))
  unfolding update
  update_lem cmd s h = elim (Result-cases (o.first cmd.id s)) [
    | inr (_, e) ↦ absurd (ground (arith, e, h))
    | inl (old, e) ↦
        let m = merged old cmd in
        let p = o.save m s in
        let wrote : Wrote row_key laws.rows m s (update o cmd s) =
          subst (λ x. Wrote row_key laws.rows m s x) (sym (update-saves cmd s old e))
            (Wrote-wrap row_key laws.rows "updating command in database" m s p
              (laws.save_writes m s)) in
        (
          old,
          laws.first_found cmd.id s e,
          λ id.
              subst
                (λ k.
                  laws.rows id (update o cmd s).1 ≡ (if k == id then some m else laws.rows id s))
                (merged-key old cmd) (Wrote-ok row_key laws.rows m s (update o cmd s) wrote h id),
        )
  ]

  -- A time is the new one where there is one, and else the old one.
  abbrev pub IsLatest : Option Time → Option Time → Option Time → Type 0
  IsLatest new old kept = (new ≡ none → kept ≡ old) × ((at : Time) → new ≡ some at → kept ≡ new)

  or_else-IsLatest : (new old : Option Time) → IsLatest new old (or_else new old)
  or_else-IsLatest (some t) old = (λ h. cc, λ at h. refl)
  or_else-IsLatest none old = (λ h. refl, λ at h. cc)

  -- Through any successful `Update` the time of creation stays, the version grows by one, a time of
  -- queueing, acknowledgement or failure stays as it was recorded unless the command carries another,
  -- which is then stored, and the rows of other commands stay.
  pub update_keeps_history :
      (cmd : Command) (s : S) {old : Row}
      → laws.rows cmd.id s ≡ some old
      → (update o cmd s).0 ≡ ok tt
      → (row : Row) × (laws.rows cmd.id (update o cmd s).1 ≡ some row)
        × (row.created_at ≡ old.created_at)
        × (row.version ≡ old.version + 1)
        × IsLatest cmd.queued_at old.queued_at row.queued_at
        × IsLatest cmd.acked_at old.acked_at row.acked_at
        × IsLatest cmd.failed_at old.failed_at row.failed_at
        × ((id : String) → cmd.id ≢ id → laws.rows id (update o cmd s).1 ≡ laws.rows id s)
  unfolding merged
  update_keeps_history cmd s {old} stored h =
      let (found, row, written) = update_lem cmd s h in
      let same : found ≡ old = ground (arith, row, stored) in
      (
        merged old cmd,
        ground (arith, written cmd.id, ==_refl cmd.id, same),
        refl,
        refl,
        or_else-IsLatest cmd.queued_at old.queued_at,
        or_else-IsLatest cmd.acked_at old.acked_at,
        or_else-IsLatest cmd.failed_at old.failed_at,
        λ id others. ground (arith, written id, ==_iff cmd.id id, others),
      )
