-- ===== src/Maintenance/Schedule/Occurrences.antt =====
-- The occurrences of a valid schedule, and where the loop of `Next` ends among them.
use zensor_server.Prelude.{
  ℕ, zero, suc, ◌+◌, ◌*◌, ◌≤ℤ◌, ◌↔◌, ◌≤◌, ◌<◌, ◌≡◌, ◌≢◌, true, some, pos, mul_int-pos, Time, dec_lt,
  dec_le, subst, sym, ap, ◌∙◌, nat_eq, ok, arith,
}
use native.Mathlib.Nat.{le_refl}
use zensor_server.Maintenance.Calendar.{Calendar}
use zensor_server.Maintenance.Schedule.{
  RecurrenceUnit, day_unit, week_unit, month_unit, quarter_unit, year_unit, other, Schedule,
  is_known, validate, advance, next_loop, next,
}

-- A schedule that passes `validate`, within the bounds of the calendar.
pub record IsValid (c : Calendar) (s : Schedule) : Type 0 where
  pub started : 0 < s.start_date
  pub interval : ℕ
  pub interval_lem : s.every ≡ pos interval
  pub interval_pos : 0 < interval
  pub interval_fits : interval * 7 ≤ c.max_step
  pub unit_known : is_known s.unit ≡ true

module _ (c : Calendar) (s : Schedule) where
  -- The start date and its repeated advances.
  abbrev pub occurrence : ℕ → Time
  occurrence zero = s.start_date
  occurrence (suc k) = advance c s (occurrence k)

  -- `reference` lies in a gap: the occurrence `j` is the first one after it.
  pub record IsFirstAfter (reference : Time) (j : ℕ) : Type 0 where
    pub later : reference < occurrence j
    pub least : (i : ℕ) → i < j → occurrence i ≤ reference

module _ (c : Calendar) where
  advance_by_later :
      (u : RecurrenceUnit) (n : ℕ) (t : Time)
      → is_known u ≡ true
      → 0 < n
      → n * 7 ≤ c.max_step
      → t ≤ c.horizon
      → t < advance c (record { start_date = t; every = pos n; unit = u }) t
  unfolding advance
  advance_by_later day_unit n t k p f h =
      c.add_date_later t 0 0 n h (omega arith) (omega arith) (omega arith) (omega arith)
  advance_by_later week_unit n t k p f h =
      subst (λ x. t < c.add_date t (pos 0) (pos 0) x)
        (sym (mul_int-pos n 7 (omega (arith, c.step_fits))))
        (c.add_date_later t 0 0 (n * 7) h (omega arith) (omega arith) (omega arith) (omega arith))
  advance_by_later month_unit n t k p f h =
      c.add_date_later t 0 n 0 h (omega arith) (omega arith) (omega arith) (omega arith)
  advance_by_later quarter_unit n t k p f h =
      subst (λ x. t < c.add_date t (pos 0) x (pos 0))
        (sym (mul_int-pos n 3 (omega (arith, c.step_fits))))
        (c.add_date_later t 0 (n * 3) 0 h (omega arith) (omega arith) (omega arith) (omega arith))
  advance_by_later year_unit n t k p f h =
      c.add_date_later t n 0 0 h (omega arith) (omega arith) (omega arith) (omega arith)
  advance_by_later other n t k p f h = cc

module _ (c : Calendar) (s : Schedule) (valid : IsValid c s) where
  -- Every advance up to the horizon moves forward in time.
  pub advance-later : (t : Time) → t ≤ c.horizon → t < advance c s t
  unfolding advance
  advance-later t h = rw valid.interval_lem (
      advance_by_later c s.unit valid.interval t valid.unit_known valid.interval_pos
        valid.interval_fits h)

  -- One round of the loop.
  next_loop-found :
      (fuel : ℕ) (reference t : Time)
      → reference < t
      → next_loop c (suc fuel) s reference t ≡ some t
  unfolding next_loop
  next_loop-found fuel reference t h = ground arith

  next_loop-past :
      (fuel : ℕ) (reference t : Time)
      → t ≤ reference
      → next_loop c (suc fuel) s reference t ≡ next_loop c fuel s reference (advance c s t)
  unfolding next_loop
  next_loop-past fuel reference t h = ground arith

  next_loop-IsFirstAfter :
      (fuel k : ℕ) (reference : Time)
      → reference ≤ c.horizon
      → reference < occurrence c s k + fuel
      → ((i : ℕ) → i < k → occurrence c s i ≤ reference)
      → (j : ℕ) × (next_loop c (suc fuel) s reference (occurrence c s k) ≡ some (occurrence c s j))
        × IsFirstAfter c s reference j
  next_loop-IsFirstAfter zero k reference h m past =
      (k, next_loop-found 0 reference _ (omega arith), record { later = omega arith; least = past })
  next_loop-IsFirstAfter (suc fuel) k reference h m past =
      elim (dec_le (occurrence c s k) reference) [
        | yes gone ↦
            let (j, run, first) =
              next_loop-IsFirstAfter fuel (suc k) reference h
                (omega (arith, advance-later (occurrence c s k) (omega arith)))
                (λ i lt. elim (dec_lt i k) [
                  | yes earlier ↦ past i earlier
                  | no same ↦
                      let e : i ≡ k = omega arith in
                      subst (λ x. occurrence c s x ≤ reference) (sym e) gone
                ]) in
            (j, next_loop-past (suc fuel) reference _ gone ∙ run, first)
        | no ahead ↦ (
          k,
          next_loop-found (suc fuel) reference _ (omega arith),
          record { later = omega arith; least = past },
        )
      ]

  validate-ok : validate s ≡ ok tt
  unfolding validate
  validate-ok =
      ground (arith, valid.started, valid.interval_lem, valid.interval_pos, valid.unit_known)

  next-valid :
      (fuel : ℕ) (reference : Time)
      → next c fuel s reference ≡ ok (next_loop c fuel s reference s.start_date)
  unfolding next
  next-valid fuel reference = rw (next, validate-ok)

  -- For a valid schedule and a reference up to the horizon, `Next` returns, within
  -- `reference + 1` rounds of its loop, the first occurrence that lies after the reference.
  pub next-IsFirstAfter :
      (reference : Time)
      → reference ≤ c.horizon
      → (j : ℕ) × (next c (suc reference) s reference ≡ ok (some (occurrence c s j)))
        × IsFirstAfter c s reference j
  next-IsFirstAfter reference h =
      let (j, run, first) =
        next_loop-IsFirstAfter reference 0 reference h (omega (arith, valid.started))
          (λ i lt. absurd (omega arith)) in
      (j, next-valid (suc reference) reference ∙ ap ok run, first)

  pub IsFirstAfter-unique :
      (reference : Time) (i j : ℕ)
      → IsFirstAfter c s reference i
      → IsFirstAfter c s reference j
      → i ≡ j
  IsFirstAfter-unique reference i j h k = elim (dec_lt i j) [
    | yes p ↦ absurd (omega (arith, k.least i p, h.later))
    | no p ↦ elim (dec_lt j i) [
      | yes q ↦ absurd (omega (arith, h.least j q, k.later))
      | no q ↦ omega arith
    ]
  ]

  pub next_first :
      (reference : Time) (j : ℕ)
      → IsFirstAfter c s reference j
      → reference ≤ c.horizon
      → next c (suc reference) s reference ≡ ok (some (occurrence c s j))
  next_first reference j first h =
      let (i, run, first') = next-IsFirstAfter reference h in
      let e : i ≡ j = IsFirstAfter-unique reference i j first' first in
      subst (λ x. next c (suc reference) s reference ≡ ok (some (occurrence c s x))) e run

  pub step-IsFirstAfter :
      (reference : Time) (j : ℕ)
      → IsFirstAfter c s reference j
      → occurrence c s j ≤ c.horizon
      → IsFirstAfter c s (occurrence c s j) (suc j)
  step-IsFirstAfter reference j h fits = record {
    later = advance-later (occurrence c s j) fits;
    least = λ i lt. elim (dec_lt i j) [
      | yes p ↦ omega (arith, h.least i p, h.later)
      | no p ↦
          let e : i ≡ j = omega arith in
          subst (λ x. occurrence c s x ≤ occurrence c s j) (sym e) (le_refl _)
    ];
  }

  -- Asked again from the date that it returned, the first occurrence after a reference, `Next` returns
  -- the occurrence that follows, within the bounds of the calendar: none is skipped or returned twice.
  pub next_consecutive :
      (reference : Time) (j : ℕ)
      → IsFirstAfter c s reference j
      → occurrence c s j ≤ c.horizon
      → (next c (suc (occurrence c s j)) s (occurrence c s j) ≡ ok (some (occurrence c s (suc j))))
        × (occurrence c s j < occurrence c s (suc j))
  next_consecutive reference j h fits =
      let (k, run, first) = next-IsFirstAfter (occurrence c s j) fits in
      let e : k ≡ suc j =
        IsFirstAfter-unique (occurrence c s j) k (suc j) first
          (step-IsFirstAfter reference j h fits) in
      (
        subst
            (λ x.
              next c (suc (occurrence c s j)) s (occurrence c s j) ≡ ok (some (occurrence c s x)))
            e run,
        advance-later (occurrence c s j) fits,
      )

-- `validate` accepts exactly the schedules with a start date, a positive interval and one of the
-- five recurrence units; `Next` refuses all others at once, whatever the reference.
pub validate_iff :
    (s : Schedule)
    → (validate s ≡ ok tt) ↔ ((s.start_date ≢ 0) × (pos 1 ≤ℤ s.every) × (is_known s.unit ≡ true))
unfolding validate
validate_iff s = (λ h. ground arith, λ h. ground arith)
