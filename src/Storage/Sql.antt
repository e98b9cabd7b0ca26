-- ===== src/Storage/Sql.antt =====
-- Statements and transactions of database/sql as internal/storage/state.go uses them. The driver
-- may fail at any statement: `faults` tells, for the statements to come, which ones fail.
use lunefetch.Base.{
  ◌≡◌, refl, List, [], ◌∷◌, Option, none, some, Bool, false, if◌then◌else◌, Bool-cases, inl, inr,
  arith,
}
use lunefetch.Storage.Record.{Db}

pub data Error : Type 0 where
  driver : Error
  constraint : Error
  not_found : Error
  invalid_chunk_boundaries : Error
  -- The panic of an index past the end of a slice.
  out_of_range : Error

pub data Result {ℓ} (A : Type ℓ) : Type ℓ where
  ok : A → Result A
  err : Error → Result A

pub record Conn : Type 0 where
  pub db : Db
  pub faults : List Bool

abbrev pub M : Type 0 → Type 0
M A = Conn → Result A × Conn

abbrev pub and_then : {A B : Type 0} → Result A × Conn → (A → M B) → Result B × Conn
and_then (ok a, c) f = f a c
and_then (err e, c) f = (err e, c)

infixl 5 ◌>>=◌ ◌>>◌
abbrev pub ◌>>=◌ : {A B : Type 0} → M A → (A → M B) → M B
◌>>=◌ m f c = and_then (m c) f

abbrev pub ◌>>◌ : {B : Type 0} → M (Unit {0}) → M B → M B
m >> k = m >>= λ _. k

abbrev pub pure : {A : Type 0} → A → M A
pure a c = (ok a, c)

abbrev pub fail : {A : Type 0} → Error → M A
fail e c = (err e, c)

abbrev pub is_faulty : List Bool → Bool
is_faulty [] = false
is_faulty (f ∷ fs) = f

abbrev pub later_faults : List Bool → List Bool
later_faults [] = []
later_faults (f ∷ fs) = fs

abbrev pub elapse : Conn → Conn
elapse c = record c { faults = later_faults c.faults }

-- A statement that changes the tables.
unfoldable pub exec : (Db → Db) → M (Unit {0})
exec f c =
    if is_faulty c.faults
    then (err driver, elapse c)
    else (ok tt, record (elapse c) { db = f c.db })

-- A statement that changes the tables and also answers: with the new key, or the rows affected.
unfoldable pub exec_for : {A : Type 0} → (Db → A) → (Db → Db) → M A
exec_for g f c =
    if is_faulty c.faults
    then (err driver, elapse c)
    else (ok (g c.db), record (elapse c) { db = f c.db })

abbrev pub checked : Option Db → Conn → Result (Unit {0}) × Conn
checked none c = (err constraint, c)
checked (some db) c = (ok tt, record c { db = db })

-- A statement that a constraint of the schema may refuse.
unfoldable pub exec_checked : (Db → Option Db) → M (Unit {0})
exec_checked f c =
    if is_faulty c.faults then (err driver, elapse c) else checked (f c.db) (elapse c)

unfoldable pub query : {A : Type 0} → (Db → A) → M A
query g c = if is_faulty c.faults then (err driver, elapse c) else (ok (g c.db), elapse c)

-- `tx.Commit`, or the deferred `tx.Rollback` after an error.
abbrev pub commit : {A : Type 0} → Db → Result A × Conn → Result A × Conn
commit saved (err e, c) = (err e, record c { db = saved })
commit saved (ok a, c) =
    if is_faulty c.faults then (err driver, record (elapse c) { db = saved }) else (ok a, elapse c)

-- `tx, err := sm.db.Begin()`, the body, and its end.
unfoldable pub transaction : {A : Type 0} → M A → M A
transaction body c =
    if is_faulty c.faults then (err driver, elapse c) else commit c.db (body (elapse c))

-- The tables, with no error to come.
abbrev pub quiet : Db → Conn
quiet db = record { db = db; faults = [] }

-- UPDATE t SET f WHERE p
unfoldable pub update_where : {R : Type 0} → (R → Bool) → (R → R) → List R → List R
update_where p f [] = []
update_where p f (r ∷ rs) = (if p r then f r else r) ∷ update_where p f rs

-- SELECT * FROM t WHERE p, and DELETE FROM t WHERE not p
unfoldable pub select : {R : Type 0} → (R → Bool) → List R → List R
select p [] = []
select p (r ∷ rs) = if p r then r ∷ select p rs else select p rs

unfoldable pub first : {R : Type 0} → (R → Bool) → List R → Option R
first p [] = none
first p (r ∷ rs) = if p r then some r else first p rs

-- A row put in its place by an order.
unfoldable pub insert_by : {R : Type 0} → (R → R → Bool) → R → List R → List R
insert_by le r [] = r ∷ []
insert_by le r (s ∷ ss) = if le r s then r ∷ s ∷ ss else s ∷ insert_by le r ss

-- SELECT * FROM t ORDER BY: equal rows keep the order of the table.
unfoldable pub order_by : {R : Type 0} → (R → R → Bool) → List R → List R
unfolding insert_by
order_by le [] = []
order_by le (r ∷ rs) = insert_by le r (order_by le rs)

-- An operation that fails leaves the tables as they were.
abbrev pub IsAtomic : {A : Type 0} → M A → Type 0
IsAtomic {A} m = (c : Conn) (e : Error) → (m c).0 ≡ err e → (m c).1.db ≡ c.db

commit-db :
    {A : Type 0} (saved : Db) (r : Result A × Conn) (e : Error)
    → (commit saved r).0 ≡ err e
    → (commit saved r).1.db ≡ saved
commit-db saved (ok a, c) e h = ground arith
commit-db saved (err x, c) e h = refl

pub transaction-IsAtomic : {A : Type 0} (m : M A) → IsAtomic (transaction m)
unfolding transaction
transaction-IsAtomic m c e h = elim (Bool-cases (is_faulty c.faults)) [
  | inl bad ↦ rw (bad, transaction)
  | inr good ↦
      rw (good, transaction) (commit-db c.db (m (elapse c)) e (rw (good, transaction) at h))
]
