-- ===== src/Infra/Orm.antt =====
-- The calls of `sql.ORM` (internal/infra/sql/orm.go, a front of gorm) that the repositories make, over
-- a table of rows `E` in a store `S`, with what gorm documents of them.
pub mod OneRow
use zensor_server.Prelude.{
  ◌≡◌, ◌≢◌, String, Bool, true, Option, none, some, ◌==◌, string_eq, if◌then◌else◌, Result, ok, err,
  Err, is_error, wrap_error, Action, record_not_found,
}

pub record Orm (E S : Type 0) : Type 0 where
  pub create : E → Action S (Unit {0})
  pub save : E → Action S (Unit {0})
  -- `First(&entity, "id = ?", id)`
  pub first : String → S → Result E
  -- `Where(query, value).First(&entity)`
  pub first_where : (E → Bool) → S → Result E
  -- `Where("id = ?", id).Delete(&entity)`
  pub delete : String → Action S (Unit {0})

module _ {E S : Type 0} (key : E → String) (rows : String → S → Option E) where
  -- A write of `e` has replaced the row of its key, or has failed and written nothing.
  abbrev pub Wrote : E → S → Result (Unit {0}) × S → Type 0
  Wrote e s (ok _, s') = (id : String) → rows id s' ≡ (if key e == id then some e else rows id s)
  Wrote e s (err _, s') = (id : String) → rows id s' ≡ rows id s

  abbrev pub Deleted : String → S → Result (Unit {0}) × S → Type 0
  Deleted k s (ok _, s') = (id : String) → rows id s' ≡ (if k == id then none else rows id s)
  Deleted k s (err _, s') = (id : String) → rows id s' ≡ rows id s

  -- Wrapping the error of a write leaves what was written.
  pub Wrote-wrap :
      (context : String) (e : E) (s : S) (p : Result (Unit {0}) × S)
      → Wrote e s p
      → Wrote e s (wrap_error context p.0, p.1)
  Wrote-wrap context e s (ok _, s') h = h
  Wrote-wrap context e s (err _, s') h = h

  pub Wrote-ok :
      (e : E) (s : S) (p : Result (Unit {0}) × S)
      → Wrote e s p
      → p.0 ≡ ok tt
      → (id : String) → rows id p.1 ≡ (if key e == id then some e else rows id s)
  Wrote-ok e s (ok _, s') h q = h
  Wrote-ok e s (err _, s') h q = cc

  pub Wrote-err :
      (e : E) (s : S) (p : Result (Unit {0}) × S) {x : Err}
      → Wrote e s p
      → p.0 ≡ err x
      → (id : String) → rows id p.1 ≡ rows id s
  Wrote-err e s (ok _, s') h q = cc
  Wrote-err e s (err _, s') h q = h

-- The rows of a table by primary key. A read may fail for other reasons; where it answers, it
-- answers with the row, and `ErrRecordNotFound` means that there is none.
pub record OrmLaws {E S : Type 0} (key : E → String) (o : Orm E S) : Type 0 where
  pub rows : String → S → Option E
  pub first_found : (id : String) (s : S) {e : E} → o.first id s ≡ ok e → rows id s ≡ some e
  pub first_missing :
      (id : String) (s : S) {x : Err}
      → o.first id s ≡ err x
      → is_error x record_not_found ≡ true
      → rows id s ≡ none
  pub row_key : (id : String) (s : S) {e : E} → rows id s ≡ some e → key e ≡ id
  pub where_holds :
      (p : E → Bool) (s : S) {e : E}
      → o.first_where p s ≡ ok e
      → (p e ≡ true) × (rows (key e) s ≡ some e)
  pub where_missing :
      (p : E → Bool) (s : S) (id : String) {x : Err} {e : E}
      → o.first_where p s ≡ err x
      → is_error x record_not_found ≡ true
      → rows id s ≡ some e
      → p e ≢ true
  pub create_writes : (e : E) (s : S) → Wrote key rows e s (o.create e s)
  pub save_writes : (e : E) (s : S) → Wrote key rows e s (o.save e s)
  pub delete_writes : (id : String) (s : S) → Deleted key rows id s (o.delete id s)
