-- ===== src/Storage/Keeps.antt =====
-- A predicate on the tables that every statement of an operation keeps, whichever statements fail.
use lunefetch.Base.{◌≡◌, refl, Bool, Bool-cases, inl, inr, Option, some, none, if◌then◌else◌}
use lunefetch.Storage.Record.{Db}
use lunefetch.Storage.Sql.{
  M, Conn, Error, Result, ok, err, pure, fail, ◌>>=◌, ◌>>◌, exec, exec_for, exec_checked, query,
  transaction, commit, is_faulty, elapse, and_then, checked,
}

abbrev pub Keeps {ℓ} : (Db → Type ℓ) → {A : Type 0} → M A → Type ℓ
Keeps V m = (c : Conn) → V c.db → V (m c).1.db

module _ {ℓ} (V : Db → Type ℓ) where
  pub pure-Keeps : {A : Type 0} (a : A) → Keeps V (pure a)
  pure-Keeps a c v = v

  pub fail-Keeps : (A : Type 0) (e : Error) → Keeps V (fail {A = A} e)
  fail-Keeps A e c v = v

  pub exec-Keeps : (f : Db → Db) → ((db : Db) → V db → V (f db)) → Keeps V (exec f)
  unfolding exec
  exec-Keeps f keep c v = elim (Bool-cases (is_faulty c.faults)) [
    | inl bad ↦ rw (bad, exec) v
    | inr good ↦ rw (good, exec) (keep c.db v)
  ]

  pub exec_for-Keeps :
      {A : Type 0} (g : Db → A) (f : Db → Db)
      → ((db : Db) → V db → V (f db))
      → Keeps V (exec_for g f)
  unfolding exec_for
  exec_for-Keeps g f keep c v = elim (Bool-cases (is_faulty c.faults)) [
    | inl bad ↦ rw (bad, exec_for) v
    | inr good ↦ rw (good, exec_for) (keep c.db v)
  ]

  checked-Keeps :
      (o : Option Db) (c : Conn) → V c.db → ((db : Db) → o ≡ some db → V db) → V (checked o c).1.db
  checked-Keeps none c v keep = v
  checked-Keeps (some db) c v keep = keep db refl

  pub exec_checked-Keeps :
      (f : Db → Option Db)
      → ((db db' : Db) → V db → f db ≡ some db' → V db')
      → Keeps V (exec_checked f)
  unfolding exec_checked
  exec_checked-Keeps f keep c v = elim (Bool-cases (is_faulty c.faults)) [
    | inl bad ↦ rw (bad, exec_checked) v
    | inr good ↦
        rw (good, exec_checked) (checked-Keeps (f c.db) (elapse c) v (λ db' e. keep c.db db' v e))
  ]

  pub query-Keeps : {A : Type 0} (g : Db → A) → Keeps V (query g)
  unfolding query
  query-Keeps g c v = elim (Bool-cases (is_faulty c.faults)) [
    | inl bad ↦ rw (bad, query) v
    | inr good ↦ rw (good, query) v
  ]

  and_then-Keeps :
      {A B : Type 0} (r : Result A × Conn) (f : A → M B)
      → V r.1.db
      → ((a : A) → Keeps V (f a))
      → V (and_then r f).1.db
  and_then-Keeps (ok a, c) f v keep = keep a c v
  and_then-Keeps (err e, c) f v keep = v

  pub >>=-Keeps :
      {A B : Type 0} (m : M A) (f : A → M B)
      → Keeps V m
      → ((a : A) → Keeps V (f a))
      → Keeps V (m >>= f)
  >>=-Keeps m f first rest c v = and_then-Keeps (m c) f (first c v) rest

  commit-Keeps :
      {A : Type 0} (saved : Db) (r : Result A × Conn)
      → V saved
      → ((a : A) → r.0 ≡ ok a → V r.1.db)
      → V (commit saved r).1.db
  commit-Keeps saved (err e, c) v keep = v
  commit-Keeps saved (ok a, c) v keep = elim (Bool-cases (is_faulty c.faults)) [
    | inl bad ↦ rw (bad, commit) v
    | inr good ↦ rw (good, commit) (keep a refl)
  ]

  -- Of a transaction only the end counts, and only if the body succeeds.
  pub transaction-end :
      {A : Type 0} (m : M A) (c : Conn)
      → V c.db
      → ((a : A) → (m (elapse c)).0 ≡ ok a → V (m (elapse c)).1.db)
      → V (transaction m c).1.db
  unfolding transaction
  transaction-end m c v keep = elim (Bool-cases (is_faulty c.faults)) [
    | inl bad ↦ rw (bad, transaction) v
    | inr good ↦ rw (good, transaction) (commit-Keeps c.db (m (elapse c)) v keep)
  ]

  pub transaction-Keeps : {A : Type 0} (m : M A) → Keeps V m → Keeps V (transaction m)
  transaction-Keeps m keep c v = transaction-end m c v (λ a e. keep (elapse c) v)

  pub if-Keeps :
      {A : Type 0} (b : Bool) (m n : M A) → Keeps V m → Keeps V n → Keeps V (if b then m else n)
  if-Keeps b m n hm hn c v = elim (Bool-cases b) [ inl e ↦ rw e (hm c v) | inr e ↦ rw e (hn c v) ]

-- Two statements that both succeed.
pub exec-exec :
    (f g : Db → Db) (c : Conn)
    → ((exec f >> exec g) c).0 ≡ ok tt
    → ((exec f >> exec g) c).1.db ≡ g (f c.db)
unfolding exec
exec-exec f g c h = elim (Bool-cases (is_faulty c.faults)) [
  | inl bad ↦ cc (rw (bad, exec) at h)
  | inr good ↦ elim (Bool-cases (is_faulty (elapse c).faults)) [
    | inl bad ↦ cc (rw (bad, exec) at (rw (good, exec) at h))
    | inr fine ↦ rw (good, exec) (rw (fine, exec))
  ]
]
