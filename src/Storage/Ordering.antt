-- ===== src/Storage/Ordering.antt =====
-- The ORDER BY of internal/storage/state.go as an insertion sort: its results are sorted, and a WHERE may
-- come before or after it.
use lunefetch.Base.{
  ◌≡◌, refl, sym, ap, ◌∙◌, List, [], ◌∷◌, ◌++◌, Bool, true, false, All, All-map, Pairwise, arith,
  Bool-cases, inl, inr,
}
use lunefetch.Storage.Sql.{select, insert_by, order_by}
use lunefetch.Storage.Rows.{All-select}

module _ {A : Type 0} (le : A → A → Bool) where
  insert_by-All :
      (P : A → Type 0) (a : A) (xs : List A) → P a → All P xs → All P (insert_by le a xs)
  unfolding insert_by
  insert_by-All P a [] p h = (p, tt)
  insert_by-All P a (x ∷ xs) p (q, h) = elim (Bool-cases (le a x)) [
    | inl e ↦ rw e (p, (q, h))
    | inr e ↦ rw e (q, insert_by-All P a xs p h)
  ]

  pub order_by-All : (P : A → Type 0) (xs : List A) → All P xs → All P (order_by le xs)
  unfolding order_by
  order_by-All P [] h = tt
  order_by-All P (x ∷ xs) (h, hs) = insert_by-All P x (order_by le xs) h (order_by-All P xs hs)

  -- A row that no other stands behind goes to the end, and stays there.
  pub insert_by-last :
      (a : A) (xs : List A) → All (λ x. le a x ≡ false) xs → insert_by le a xs ≡ xs ++ a ∷ []
  unfolding insert_by
  insert_by-last a [] h = refl
  insert_by-last a (x ∷ xs) h = rw h.0 (ap (λ ys. x ∷ ys) (insert_by-last a xs h.1))

  pub insert_by-append_one :
      (a z : A) (xs : List A)
      → le a z ≡ true
      → insert_by le a (xs ++ z ∷ []) ≡ insert_by le a xs ++ z ∷ []
  unfolding insert_by
  insert_by-append_one a z [] h = rw h refl
  insert_by-append_one a z (x ∷ xs) h = elim (Bool-cases (le a x)) [
    | inl e ↦ rw e refl
    | inr e ↦ rw e (ap (λ ys. x ∷ ys) (insert_by-append_one a z xs h))
  ]

module _ {A : Type 0} (le : A → A → Bool) (total : (a b : A) → le a b ≡ false → le b a ≡ true)
    (trans : (a b c : A) → le a b ≡ true → le b c ≡ true → le a c ≡ true) where
  abbrev Le : A → A → Type 0
  Le a b = le a b ≡ true

  insert_by-Pairwise : (a : A) (xs : List A) → Pairwise Le xs → Pairwise Le (insert_by le a xs)
  unfolding insert_by
  insert_by-Pairwise a [] h = (tt, tt)
  insert_by-Pairwise a (x ∷ xs) (h, hs) = elim (Bool-cases (le a x)) [
    | inl e ↦ rw e ((e, All-map (Le x) (Le a) xs (λ y k. trans a x y e k) h), (h, hs))
    | inr e ↦ rw e (insert_by-All le (Le x) a xs (total a x e) h, insert_by-Pairwise a xs hs)
  ]

  pub order_by-Pairwise : (xs : List A) → Pairwise Le (order_by le xs)
  unfolding order_by
  order_by-Pairwise [] = tt
  order_by-Pairwise (x ∷ xs) = insert_by-Pairwise x (order_by le xs) (order_by-Pairwise xs)

  insert_by-first : (a : A) (xs : List A) → All (Le a) xs → insert_by le a xs ≡ a ∷ xs
  unfolding insert_by
  insert_by-first a [] h = refl
  insert_by-first a (x ∷ xs) h = rw h.0 refl

  insert_by-skip :
      (p : A → Bool) (a : A) (xs : List A)
      → p a ≡ false
      → select p (insert_by le a xs) ≡ select p xs
  unfolding insert_by select
  insert_by-skip p a [] h = rw h refl
  insert_by-skip p a (x ∷ xs) h = elim (Bool-cases (le a x)) [
    | inl e ↦ rw (e, h) refl
    | inr e ↦ rw e (ground (arith, insert_by-skip p a xs h))
  ]

  insert_by-select :
      (p : A → Bool) (a : A) (xs : List A)
      → p a ≡ true
      → Pairwise Le xs
      → select p (insert_by le a xs) ≡ insert_by le a (select p xs)
  unfolding insert_by select
  insert_by-select p a [] h w = rw h refl
  insert_by-select p a (x ∷ xs) h (w, ws) = elim (Bool-cases (le a x)) [
    | inl e ↦
        rw (e, h)
          (sym (
            insert_by-first a (select p (x ∷ xs)) (
              All-select (Le a) p (x ∷ xs)
                (e, All-map (Le x) (Le a) xs (λ y k. trans a x y e k) w))))
    | inr e ↦ elim (Bool-cases (p x)) [
      | inl keep ↦ rw (e, keep, e) (ap (λ ys. x ∷ ys) (insert_by-select p a xs h ws))
      | inr drop ↦ rw (e, drop) (insert_by-select p a xs h ws)
    ]
  ]

  -- What a WHERE leaves of the sorted rows is what it leaves, sorted.
  pub order_by-select :
      (p : A → Bool) (xs : List A) → select p (order_by le xs) ≡ order_by le (select p xs)
  unfolding order_by select
  order_by-select p [] = refl
  order_by-select p (x ∷ xs) = elim (Bool-cases (p x)) [
    | inl keep ↦ rw keep (
        insert_by-select p x (order_by le xs) keep (order_by-Pairwise xs)
        ∙ ap (insert_by le x) (order_by-select p xs))
    | inr drop ↦ rw drop (insert_by-skip p x (order_by le xs) drop ∙ order_by-select p xs)
  ]
