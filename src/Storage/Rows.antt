-- ===== src/Storage/Rows.antt =====
-- What the statements do to predicates on rows.
use lunefetch.Base.{
  ◌≡◌, refl, ap, subst, List, [], ◌∷◌, ◌++◌, Bool, true, if◌then◌else◌, Bool-cases, inl, inr, All,
  Pairwise, some, arith,
}
use lunefetch.Storage.Record.{is_some}
use lunefetch.Storage.Sql.{update_where, select, first}

module _ {R : Type 0} where
  pub All-update_where {ℓ κ} :
      (P : R → Type ℓ) (Q : R → Type κ) (p : R → Bool) (f : R → R) (rs : List R)
      → ((r : R) → P r → Q (if p r then f r else r))
      → All P rs
      → All Q (update_where p f rs)
  unfolding update_where
  All-update_where P Q p f [] h a = tt
  All-update_where P Q p f (r ∷ rs) h a = (h r a.0, All-update_where P Q p f rs h a.1)

  pub All-select {ℓ} :
      (P : R → Type ℓ) (p : R → Bool) (rs : List R) → All P rs → All P (select p rs)
  unfolding select
  All-select P p [] a = tt
  All-select P p (r ∷ rs) a = elim (Bool-cases (p r)) [
    | inl e ↦ rw (e, select) (a.0, All-select P p rs a.1)
    | inr e ↦ rw (e, select) (All-select P p rs a.1)
  ]

  Pairwise-row {ℓ κ μ} :
      (P : R → Type ℓ) (S : R → R → Type κ) (T : R → R → Type μ) (p : R → Bool) (f : R → R)
      → ((r s : R) → P r → P s → S r s → T (if p r then f r else r) (if p s then f s else s))
      → (r : R) (rs : List R) → P r
      → All P rs
      → All (S r) rs
      → All (T (if p r then f r else r)) (update_where p f rs)
  unfolding update_where
  Pairwise-row P S T p f h r [] pr ps a = tt
  Pairwise-row P S T p f h r (s ∷ rs) pr ps a =
      (h r s pr ps.0 a.0, Pairwise-row P S T p f h r rs pr ps.1 a.1)

  pub Pairwise-update_where {ℓ κ μ} :
      (P : R → Type ℓ) (S : R → R → Type κ) (T : R → R → Type μ) (p : R → Bool) (f : R → R)
      (rs : List R)
      → ((r s : R) → P r → P s → S r s → T (if p r then f r else r) (if p s then f s else s))
      → All P rs
      → Pairwise S rs
      → Pairwise T (update_where p f rs)
  unfolding update_where
  Pairwise-update_where P S T p f [] h ps w = tt
  Pairwise-update_where P S T p f (r ∷ rs) h ps w =
      (Pairwise-row P S T p f h r rs ps.0 ps.1 w.0, Pairwise-update_where P S T p f rs h ps.1 w.1)

  pub Pairwise-select {ℓ} :
      (S : R → R → Type ℓ) (p : R → Bool) (rs : List R) → Pairwise S rs → Pairwise S (select p rs)
  unfolding select
  Pairwise-select S p [] w = tt
  Pairwise-select S p (r ∷ rs) w = elim (Bool-cases (p r)) [
    | inl e ↦ rw (e, select) (All-select (S r) p rs w.0, Pairwise-select S p rs w.1)
    | inr e ↦ rw (e, select) (Pairwise-select S p rs w.1)
  ]

  pub Pairwise-append_one {ℓ} :
      (S : R → R → Type ℓ) (rs : List R) (s : R)
      → Pairwise S rs
      → All (λ r. S r s) rs
      → Pairwise S (rs ++ s ∷ [])
  Pairwise-append_one S [] s w a = (tt, tt)
  Pairwise-append_one S (r ∷ rs) s w a = (grow rs w.0, Pairwise-append_one S rs s w.1 a.1)
    where
      grow : (ts : List R) → All (S r) ts → All (S r) (ts ++ s ∷ [])
      grow [] h = (a.0, tt)
      grow (t ∷ ts) h = (h.0, grow ts h.1)

  -- An update that keeps what `q` tests finds as before.
  pub is_some-first-update_where :
      (q p : R → Bool) (f : R → R) (rs : List R)
      → ((r : R) → q (f r) ≡ q r)
      → is_some (first q (update_where p f rs)) ≡ is_some (first q rs)
  unfolding first update_where
  is_some-first-update_where q p f [] h = refl
  is_some-first-update_where q p f (r ∷ rs) h =
      ground (arith, h r, is_some-first-update_where q p f rs h)

  pub is_some-first-append :
      (q : R → Bool) (rs ss : List R)
      → is_some (first q rs) ≡ true
      → is_some (first q (rs ++ ss)) ≡ true
  unfolding first
  is_some-first-append q [] ss h = cc
  is_some-first-append q (r ∷ rs) ss h = ground (arith, is_some-first-append q rs ss)

  pub update_where-twice :
      (p q : R → Bool) (f g : R → R) (rs : List R)
      → update_where q g (update_where p f rs)
        ≡ update_where
            (λ _. true)
            (λ r.
              if q (if p r then f r else r)
              then g (if p r then f r else r)
              else (if p r then f r else r))
            rs
  unfolding update_where
  update_where-twice p q f g [] = refl
  update_where-twice p q f g (r ∷ rs) =
      ap
        (◌∷◌ (
          if q (if p r then f r else r)
          then g (if p r then f r else r)
          else (if p r then f r else r)))
        (update_where-twice p q f g rs)

  -- A row that is found passes the test, and what holds of all rows.
  pub first-All {ℓ} :
      (P : R → Type ℓ) (q : R → Bool) (rs : List R) (r : R)
      → first q rs ≡ some r
      → All P rs
      → (q r ≡ true) × P r
  unfolding first
  first-All P q [] r e a = cc
  first-All P q (s ∷ rs) r e a = elim (Bool-cases (q s)) [
    | inl t ↦ let same : s ≡ r = ground arith in (rw (← same) t, subst P same a.0)
    | inr t ↦ first-All P q rs r (rw (t, first) at e) a.1
  ]

  -- What is selected passed the test.
  pub All-select-true {ℓ} :
      (P : R → Type ℓ) (q : R → Bool) (rs : List R)
      → All (λ r. q r ≡ true → P r) rs
      → All P (select q rs)
  unfolding select
  All-select-true P q [] a = tt
  All-select-true P q (r ∷ rs) a = elim (Bool-cases (q r)) [
    | inl t ↦ rw (t, select) (a.0 t, All-select-true P q rs a.1)
    | inr t ↦ rw (t, select) (All-select-true P q rs a.1)
  ]
