-- ===== src/Core/Transfer/Contents.antt =====
-- What the loop leaves in the file: the first bytes of the body, in their place.
use lunefetch.Base.{
  ℕ, ◌+◌, ◌-◌, ◌≤◌, ◌==◌, ◌≡◌, refl, sym, ap, ◌∙◌, subst, List, [], ◌∷◌, ◌++◌, Option, none, some,
  true, false, length, take, arith, Bool-cases, Option-cases, inl, inr, ◌⊎◌,
}
use lunefetch.Core.Transfer.{
  ChunkError, write_failed, throttle_failed, ReadEnd, more, eof, broken, Round, write_at, Transfer,
  Ended, finished, read_some, advance, store, round_end, transfer,
}
use lunefetch.Core.Transfer.Bytes.{
  offered, Stored, IsRoomy, length-read_some, nothing-Stored, partial-Stored, advance-IsRoomy,
  advance-then,
}

-- What a loop that ends with `e` in the state `t'` has done.
abbrev pub IsGood : List ℕ → ℕ → Transfer → Ended × Transfer → Type 0
IsGood body k t o = Stored body k t o.1 × (o.0 ≡ finished → o.1.remaining ≡ 0)

empty_of : (xs : List ℕ) → (length xs == 0) ≡ true → xs ≡ []
empty_of [] h = refl
empty_of (x ∷ xs) h = ground arith

round_end-finished :
    (e : ReadEnd) (t : Transfer) → round_end e (none, t) ≡ some finished → t.remaining ≡ 0
round_end-finished more t h = cc
round_end-finished eof t h = elim (Bool-cases (t.remaining == 0)) [
  | inl done ↦ ground arith
  | inr open_end ↦ cc (rw open_end at h)
]
round_end-finished broken t h = cc

-- The rest of the loop after a round that stored its bytes and leaves `t1`.
module _ (rs : List Round) (ending : ReadEnd) (body : List ℕ) (k : ℕ) (t t1 : Transfer)
    (here : Stored body k t t1) (later : IsGood body k t (transfer rs t1)) where
  round-IsGood :
      IsGood body k t
        (elim (round_end ending (none, t1)) [ some e ↦ (e, t1) | none ↦ transfer rs t1 ])
  round-IsGood = elim (Option-cases (round_end ending (none, t1))) [
    | inl e ↦ rw e later
    | inr (x, e) ↦ rw e (here, λ same. round_end-finished ending t1 (e ∙ ap some same))
  ]

-- One round of the loop that does not end it at once.
pub transfer_round :
    (r : Round) (rs : List Round) (t : Transfer) (s : Option ChunkError × Transfer)
    → (t.remaining == 0) ≡ false
    → r.ctx_done ≡ false
    → store r (read_some t.remaining r) t ≡ s
    → transfer (r ∷ rs) t
      ≡ elim (round_end r.ending s) [ some e ↦ (e, s.1) | none ↦ transfer rs s.1 ]
unfolding transfer
transfer_round r rs t s wants goes stored =
    simp (wants, goes, transfer)
      (ap
        (λ s. elim (round_end r.ending s) as (λ _. Ended × Transfer) [
          | some e ↦ (e, s.1)
          | none ↦ transfer rs s.1
        ])
        stored)

pub store-cases :
    (r : Round) (got : List ℕ) (t : Transfer)
    → ((got ≡ []) × (store r got t ≡ (none, t)))
      ⊎ ((store r got t ≡ (none, advance got t))
          ⊎ ((store r got t ≡ (some throttle_failed, t))
              ⊎ ((n : ℕ) × (store r got t ≡ (
                some write_failed,
                record t { file = write_at t.written (take n got) t.file },
              )))))
store-cases r got t = elim (Bool-cases (length got == 0)) [
  | inl nothing ↦ inl (empty_of got nothing, rw nothing refl)
  | inr several ↦ elim (Bool-cases r.passes) [
    | inr held ↦ inr (inr (inl (rw (several, held) refl)))
    | inl through ↦ elim (Option-cases r.write_stops) [
      | inl e ↦ inr (inl (rw (several, through, e) refl))
      | inr (n, e) ↦ inr (inr (inr (n, rw (several, through, e) refl)))
    ]
  ]
]

-- A round by what it stores.
module _ (r : Round) (rs : List Round) (k : ℕ) (t : Transfer) (roomy : IsRoomy k t)
    (wants : (t.remaining == 0) ≡ false) (goes : r.ctx_done ≡ false)
    (later : (j : ℕ) (t1 : Transfer)
      → IsRoomy j t1
      → IsGood (offered rs t1.remaining) j t1 (transfer rs t1)) where
  abbrev got : List ℕ
  got = read_some t.remaining r

  abbrev body : List ℕ
  body = offered rs (t.remaining - length got)

  one_round-IsGood : IsGood (got ++ body) k t (transfer (r ∷ rs) t)
  unfolding advance
  one_round-IsGood =
      let le : length got ≤ t.remaining = length-read_some t.remaining r in
      elim (store-cases r got t) [
        | inl (nothing, e) ↦
            subst (IsGood (got ++ body) k t) (sym (transfer_round r rs t (none, t) wants goes e)) (
              round-IsGood rs r.ending (got ++ body) k t t (nothing-Stored _ k t roomy) (
                subst (λ b. IsGood b k t (transfer rs t))
                  (ap (λ n. offered rs n) (omega arith)
                    ∙ ap (λ g. g ++ offered rs (t.remaining - length g)) (sym nothing))
                  (later k t roomy)))
        | inr (inl e) ↦
            let fine : IsRoomy (k + length got) (advance got t) =
              advance-IsRoomy got k t roomy le in
            let next : IsGood body (k + length got) (advance got t) (transfer rs (advance got t)) =
              later (k + length got) (advance got t) fine in
            subst (IsGood (got ++ body) k t)
              (sym (transfer_round r rs t (none, advance got t) wants goes e))
              (round-IsGood rs r.ending (got ++ body) k t (advance got t)
                (advance-then got k t roomy le body (advance got t)
                  (nothing-Stored body _ (advance got t) fine))
                (advance-then got k t roomy le body _ next.0, next.1))
        | inr (inr (inl e)) ↦
            subst (IsGood (got ++ body) k t) (sym (transfer_round r rs t _ wants goes e))
              (nothing-Stored _ k t roomy, λ h. cc)
        | inr (inr (inr (n, e))) ↦
            subst (IsGood (got ++ body) k t) (sym (transfer_round r rs t _ wants goes e))
              (partial-Stored n got body k t roomy le, λ h. cc)
      ]

-- However the loop ends: the bytes that it counts are the first bytes of the body, in order and in
-- their place of the file, and nothing else of the file changed but for a failed write's bytes, which
-- are the next ones of the body; if it finishes, all the bytes that it wanted are there.
pub transfer-IsGood :
    (rs : List Round) (k : ℕ) (t : Transfer)
    → IsRoomy k t
    → IsGood (offered rs t.remaining) k t (transfer rs t)
unfolding transfer offered
transfer-IsGood [] k t roomy = (
  nothing-Stored [] k t roomy,
  λ e. elim (Bool-cases (t.remaining == 0)) [
    | inl done ↦ ground arith
    | inr open_end ↦ cc (rw open_end at e)
  ],
)
transfer-IsGood (r ∷ rs) k t roomy = elim (Bool-cases (t.remaining == 0)) [
  | inl done ↦ rw (done, transfer) (nothing-Stored _ k t roomy, λ _. ground arith)
  | inr wants ↦ elim (Bool-cases r.ctx_done) [
    | inl stop ↦ simp (wants, stop, transfer) (nothing-Stored _ k t roomy, λ e. cc)
    | inr goes ↦
        one_round-IsGood r rs k t roomy wants goes (λ j t1 fine. transfer-IsGood rs j t1 fine)
  ]
]
