-- ===== src/View/Orders.antt =====
-- Three-way comparisons, as the code makes them with -1, 0 and 1.
use lunefetch.Base.{ℕ, ◌≡◌, ◌≢◌, refl, ap, ◌∙◌, if◌then◌else◌, ltb, arith}
use lunefetch.Base.Int64.{ℤ, ltb_ℤ}

pub data Order : Type 0 where
  lt eq gt : Order

abbrev pub flip : Order → Order
flip lt = gt
flip eq = eq
flip gt = lt

-- The second comparison where the first one does not decide.
abbrev pub then_by : Order → Order → Order
then_by eq o = o
then_by lt o = lt
then_by gt o = gt

abbrev pub compare_ℕ : ℕ → ℕ → Order
compare_ℕ a b = if ltb a b then lt else if ltb b a then gt else eq

-- compareInt64
abbrev pub compare_ℤ : ℤ → ℤ → Order
compare_ℤ a b = if ltb_ℤ a b then lt else if ltb_ℤ b a then gt else eq

-- A comparison that is a total order up to ties.
pub record IsOrder {ℓ} {A : Type ℓ} (cmp : A → A → Order) : Type ℓ where
  pub flips : (a b : A) → cmp b a ≡ flip (cmp a b)
  pub trans : (a b c : A) → cmp a b ≢ gt → cmp b c ≢ gt → cmp a c ≢ gt

pub compare_ℕ-IsOrder : IsOrder compare_ℕ
compare_ℕ-IsOrder = record { flips = λ a b. ground arith; trans = λ a b c h k e. ground arith }

pub compare_ℤ-IsOrder : IsOrder compare_ℤ
compare_ℤ-IsOrder = record { flips = λ a b. ground arith; trans = λ a b c h k e. ground arith }

-- A comparison of what the values are mapped to.
pub along-IsOrder {ℓ κ} :
    {A : Type ℓ} {B : Type κ} (f : B → A) (cmp : A → A → Order)
    → IsOrder cmp
    → IsOrder (λ a b. cmp (f a) (f b))
along-IsOrder f cmp o = record {
  flips = λ a b. o.flips (f a) (f b);
  trans = λ a b c. o.trans (f a) (f b) (f c);
}

module _ {ℓ} {A : Type ℓ} (one two : A → A → Order) (o : IsOrder one) (p : IsOrder two) where
  then_flips : (x y : Order) → then_by (flip x) (flip y) ≡ flip (then_by x y)
  then_flips lt y = refl
  then_flips eq y = refl
  then_flips gt y = refl

  -- Where `a` and `c` tie and `b` is between them, all tie.
  between :
      (a b c : A) → one a b ≢ gt → one b c ≢ gt → one a c ≡ eq → (one a b ≡ eq) × (one b c ≡ eq)
  between a b c h k e =
      let back : one c a ≡ eq = o.flips a c ∙ ap flip e in
      let c_b : one c b ≢ gt = o.trans c a b (λ x. cc) h in
      let b_a : one b a ≢ gt = o.trans b c a k (λ x. cc) in
      (
        tie (one a b) h (λ x. b_a (o.flips a b ∙ ap flip x)),
        tie (one b c) k (λ x. c_b (o.flips b c ∙ ap flip x)),
      )
    where
      tie : (x : Order) → x ≢ gt → (x ≡ lt → ⊥) → x ≡ eq
      tie lt n m = elim (m refl) [ ]
      tie eq n m = refl
      tie gt n m = elim (n refl) [ ]

  first_le : (x y : Order) → then_by x y ≢ gt → x ≢ gt
  first_le lt y h e = cc
  first_le eq y h e = cc
  first_le gt y h e = h refl

  second_le : (x y : Order) → x ≡ eq → then_by x y ≢ gt → y ≢ gt
  second_le lt y e h = cc
  second_le eq y e h = h
  second_le gt y e h = cc

  decided : (x y : Order) → x ≢ gt → (x ≡ eq → y ≢ gt) → then_by x y ≢ gt
  decided lt y h k e = cc
  decided eq y h k e = k refl e
  decided gt y h k e = h refl

  pub then_by-IsOrder : IsOrder (λ a b. then_by (one a b) (two a b))
  then_by-IsOrder = record {
    flips = λ a b.
        ap (λ x. then_by x (two b a)) (o.flips a b)
        ∙ ap (then_by (flip (one a b))) (p.flips a b)
        ∙ then_flips (one a b) (two a b);
    trans = λ a b c h k.
        let a_b : one a b ≢ gt = first_le (one a b) (two a b) h in
        let b_c : one b c ≢ gt = first_le (one b c) (two b c) k in
        decided (one a c) (two a c) (o.trans a b c a_b b_c) (λ e.
          let (tie_ab, tie_bc) = between a b c a_b b_c e in
          p.trans a b c (second_le (one a b) (two a b) tie_ab h)
            (second_le (one b c) (two b c) tie_bc k));
  }
