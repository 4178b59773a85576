-- ===== src/Maintenance/DueCheck/Recorded.antt =====
-- The invariant that ties the announcements to the stored days, through the rounds of the two loops.
use zensor_server.Prelude.{
  ℕ, suc, ◌≤◌, ◌≡◌, refl, inl, inr, Bool, false, ◌&&◌, ◌||◌, Bool-cases, String, List, [], ◌∷◌, ℤ,
  pos, ltb_ℤ, int_eq, string_eq, Time, whole_days, ◌==◌, ==_iff, All, contains, if◌then◌else◌, sym,
  ◌∙◌, Result, ok, err, arith,
}
use zensor_server.Maintenance.Execution.{
  Execution, has_notification_day_sent, mark_notification_day_sent, calculate_overdue_days,
}
use zensor_server.Maintenance.Execution.Laws.{has_sent-mark}
use zensor_server.Maintenance.Ports.{ExecutionRepository, Pending}
use zensor_server.Maintenance.ExecutionWorker.{
  Event, execution_ready_for_notification, execution_created, execution_creation_failed,
  execution_overdue, World,
}
use zensor_server.Maintenance.DueCheck.{
  NotificationLaws, Stores, publish_if_ok, mark_ready, mark_overdue,
}

abbrev pub is_ready_event : String → ℤ → Event → Bool
is_ready_event id d (execution_ready_for_notification i n) = i == id && n == d
is_ready_event id d (execution_created _ _) = false
is_ready_event id d (execution_creation_failed _ _) = false
is_ready_event id d (execution_overdue _ _) = false

-- How often an execution was announced for a day.
abbrev pub announced : String → ℤ → List Event → ℕ
announced id d [] = 0
announced id d (e ∷ es) =
    let rest = announced id d es in if is_ready_event id d e then suc rest else rest

module _ {V : Type 0} where
  mark-id : (now : Time) (x : Execution V) (d : ℤ) → (mark_notification_day_sent now x d).id ≡ x.id
  unfolding mark_notification_day_sent
  mark-id now x d = ground arith

  has_sent-contains :
      (now : Time) (x : Execution V) (d n : ℤ)
      → contains (mark_notification_day_sent now x d).notification_days_sent n
        ≡ ((d == n) || contains x.notification_days_sent n)
  unfolding has_notification_day_sent
  has_sent-contains now x d n = has_sent-mark now x d n

  not_contained :
      (x : Execution V) (d : ℤ)
      → has_notification_day_sent x d ≡ false
      → contains x.notification_days_sent d ≡ false
  unfolding has_notification_day_sent
  not_contained x d h = h

module _ {V S : Type 0} (r : ExecutionRepository V S) (laws : NotificationLaws r) where
  -- A day that was announced is stored as sent, and was announced once.
  abbrev pub Recorded : World S → Type 0
  Recorded w =
      (id : String) (d : ℤ)
      → announced id d w.published ≤ (if contains (laws.sent_days id w.store) d then 1 else 0)

  -- An entry of a query's result carries the days that are stored.
  abbrev pub Current : S → Pending V → Type 0
  Current s p = p.0.notification_days_sent ≡ laws.sent_days p.0.id s

  -- A round writes the days of its own execution only.
  unfoldable pub KeepsOthers : Pending V → S → S → Type 0
  KeepsOthers p s s' =
      (id : String) → (p.0.id == id) ≡ false → laws.sent_days id s' ≡ laws.sent_days id s

  pub Current-keep :
      (p : Pending V) (ps : List (Pending V)) (s s' : S)
      → KeepsOthers p s s'
      → All (λ q. (p.0.id == q.0.id) ≡ false) ps
      → All (Current s) ps
      → All (Current s') ps
  unfolding KeepsOthers
  Current-keep p [] s s' keep others now = tt
  Current-keep p (q ∷ qs) s s' keep others now =
      (now.0 ∙ sym (keep q.0.id others.0), Current-keep p qs s s' keep others.1 now.1)

  publish_ready-Recorded :
      (x x' : Execution V) (d : ℤ) (w : World S) (o : Result (Unit {0}) × S)
      → x'.id ≡ x.id
      → ((n : ℤ)
          → contains x'.notification_days_sent n
            ≡ ((d == n) || contains x.notification_days_sent n))
      → contains x.notification_days_sent d ≡ false
      → x.notification_days_sent ≡ laws.sent_days x.id w.store
      → Stores laws.sent_days x' w.store o
      → Recorded w
      → Recorded (publish_if_ok (execution_ready_for_notification x.id d) o w)
  publish_ready-Recorded x x' d w (ok _, s) same days new current stores h id n =
      ground (arith, stores id, days n, h id n, ==_iff x.id id, ==_iff x'.id id, ==_iff d n)
  publish_ready-Recorded x x' d w (err _, s) same days new current stores h id n =
      rw (stores id) (h id n)

  publish_overdue-Recorded :
      (x x' : Execution V) (days : ℕ) (w : World S) (o : Result (Unit {0}) × S)
      → x'.id ≡ x.id
      → x'.notification_days_sent ≡ x.notification_days_sent
      → x.notification_days_sent ≡ laws.sent_days x.id w.store
      → Stores laws.sent_days x' w.store o
      → Recorded w
      → Recorded (publish_if_ok (execution_overdue x.id days) o w)
  publish_overdue-Recorded x x' days w (ok _, s) same keep current stores h id n =
      ground (arith, stores id, h id n, ==_iff x.id id, ==_iff x'.id id)
  publish_overdue-Recorded x x' days w (err _, s) same keep current stores h id n =
      rw (stores id) (h id n)

  publish_if_ok-KeepsOthers :
      (event : Event) (p : Pending V) (x' : Execution V) (w : World S) (o : Result (Unit {0}) × S)
      → x'.id ≡ p.0.id
      → Stores laws.sent_days x' w.store o
      → KeepsOthers p w.store (publish_if_ok event o w).store
  unfolding KeepsOthers
  publish_if_ok-KeepsOthers event p x' w (ok _, s) same stores id other =
      ground (arith, stores id, ==_iff x'.id id, ==_iff p.0.id id)
  publish_if_ok-KeepsOthers event p x' w (err _, s) same stores id other = stores id

  KeepsOthers-refl : (p : Pending V) (s : S) → KeepsOthers p s s
  unfolding KeepsOthers
  KeepsOthers-refl p s id other = refl

  -- What a round keeps of the invariant, and of the entries that are still to come.
  abbrev pub Keeps : Pending V → World S → World S → Type 0
  Keeps p w w' = Recorded w' × KeepsOthers p w.store w'.store

  pub mark_ready-Keeps :
      (now : Time) (p : Pending V) (w : World S)
      → Recorded w
      → Current w.store p
      → Keeps p w (mark_ready r now p w)
  unfolding mark_ready
  mark_ready-Keeps now (x, a) w h current =
      let d = whole_days x.scheduled_date now in
      let x' = mark_notification_day_sent now x d in
      let o = r.update x' w.store in
      elim (Bool-cases (has_notification_day_sent x d)) [
        | inl sent ↦ rw (sent, mark_ready) (h, KeepsOthers-refl (x, a) w.store)
        | inr new ↦
            rw (new, mark_ready)
              (
                publish_ready-Recorded x x' d w o (mark-id now x d) (has_sent-contains now x d)
                    (not_contained x d new) current (laws.update_stores x' w.store) h,
                publish_if_ok-KeepsOthers (execution_ready_for_notification x.id d) (x, a) x' w o
                    (mark-id now x d) (laws.update_stores x' w.store),
              )
      ]

  pub mark_overdue-Keeps :
      (now : Time) (p : Pending V) (w : World S)
      → Recorded w
      → Current w.store p
      → Keeps p w (mark_overdue r now p w)
  unfolding mark_overdue
  mark_overdue-Keeps now (x, a) w h current =
      let days = calculate_overdue_days x now in
      let x' = record x { overdue_days = pos days } in
      let o = r.update x' w.store in
      elim (Bool-cases (ltb_ℤ x.overdue_days (pos days))) [
        | inr same ↦ rw (same, mark_overdue) (h, KeepsOthers-refl (x, a) w.store)
        | inl more ↦
            rw (more, mark_overdue)
              (
                publish_overdue-Recorded x x' days w o refl refl current
                    (laws.update_stores x' w.store) h,
                publish_if_ok-KeepsOthers (execution_overdue x.id days) (x, a) x' w o refl
                    (laws.update_stores x' w.store),
              )
      ]
