-- ===== src/Infra/Orm/OneRow.antt =====
-- A table that has room for one row, over which the theorems on repositories are run.
use zensor_server.Prelude.{
  ◌≡◌, refl, ◌≢◌, sym, subst, inl, inr, String, Bool, true, Bool-cases, Option, none, some,
  string_eq, ◌==◌, ==_iff, ==_refl, if◌then◌else◌, Result, ok, err, Err, sentinel, record_not_found,
  arith,
}
use zensor_server.Infra.Orm.{Orm, OrmLaws, Wrote, Deleted}

module _ {E : Type 0} (key : E → String) where
  abbrev pub rows : String → Option E → Option E
  rows id none = none
  rows id (some t) = if key t == id then some t else none

  abbrev pub write : E → Option E → Result (Unit {0}) × Option E
  write e none = (ok tt, some e)
  write e (some t) =
      if key e == key t then (ok tt, some e) else (err (sentinel record_not_found), some t)

  abbrev pub read : Option E → Result E
  read none = err (sentinel record_not_found)
  read (some t) = ok t

  abbrev pub find_where : (E → Bool) → Option E → Option E
  find_where p none = none
  find_where p (some t) = if p t then some t else none

  abbrev pub erase_row : String → Option E → Option E
  erase_row id none = none
  erase_row id (some t) = if key t == id then none else some t

  abbrev pub one_row : Orm E (Option E)
  one_row = record {
    create = write;
    save = write;
    first = λ id s. read (rows id s);
    first_where = λ p s. read (find_where p s);
    delete = λ id s. (ok tt, erase_row id s);
  }

  pub read-ok : (o : Option E) {e : E} → read o ≡ ok e → o ≡ some e
  read-ok none h = cc
  read-ok (some t) h = cc

  pub read-err : (o : Option E) {x : Err} → read o ≡ err x → o ≡ none
  read-err none h = refl
  read-err (some t) h = cc

  pub rows-key : (id : String) (s : Option E) {e : E} → rows id s ≡ some e → key e ≡ id
  rows-key id none h = cc
  rows-key id (some t) {e} h = ground (arith, ==_iff (key t) id, h)

  pub find_where-holds :
      (p : E → Bool) (s : Option E) {e : E}
      → find_where p s ≡ some e
      → (p e ≡ true) × (rows (key e) s ≡ some e)
  find_where-holds p none h = cc
  find_where-holds p (some t) {e} h = elim (Bool-cases (p t)) [
    | inl holds ↦
        let same : t ≡ e = ground (arith, h, holds) in
        subst (λ x. (p x ≡ true) × (rows (key x) (some t) ≡ some x)) same
          (holds, ground (arith, ==_refl (key t)))
    | inr fails ↦ absurd (ground (arith, h, fails))
  ]

  pub find_where-missing :
      (p : E → Bool) (s : Option E) (id : String) {e : E}
      → find_where p s ≡ none
      → rows id s ≡ some e
      → p e ≢ true
  find_where-missing p none id h row q = cc
  find_where-missing p (some t) id {e} h row q =
      let same : t ≡ e = ground (arith, row) in
      ground (arith, h, subst (λ x. p x ≡ true) (sym same) q)

  pub write-Wrote : (e : E) (s : Option E) → Wrote key rows e s (write e s)
  write-Wrote e none = λ id. refl
  write-Wrote e (some t) = elim (Bool-cases (key e == key t)) [
    | inl same ↦ rw same (λ id. ground (arith, (==_iff (key e) (key t)).0 same))
    | inr different ↦ rw different (λ id. refl)
  ]

  pub erase_row-Deleted :
      (id : String) (s : Option E) → Deleted key rows id s (ok tt, erase_row id s)
  erase_row-Deleted id none k = ground arith
  erase_row-Deleted id (some t) k = ground (arith, ==_iff (key t) id, ==_iff (key t) k, ==_iff id k)

  abbrev pub one_row_laws : OrmLaws key one_row
  one_row_laws = record {
    rows = rows;
    first_found = λ id s h. read-ok (rows id s) h;
    first_missing = λ id s h _. read-err (rows id s) h;
    row_key = λ id s h. rows-key id s h;
    where_holds = λ p s h. find_where-holds p s (read-ok (find_where p s) h);
    where_missing = λ p s id h _ row. find_where-missing p s id (read-err (find_where p s) h) row;
    create_writes = write-Wrote;
    save_writes = write-Wrote;
    delete_writes = erase_row-Deleted;
  }
