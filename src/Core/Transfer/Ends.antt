-- ===== src/Core/Transfer/Ends.antt =====
-- The loop over a body ends.
use lunefetch.Base.{
  ℕ, zero, suc, min, ◌≤◌, ◌<◌, ◌==◌, ◌≡◌, ◌≢◌, refl, sym, ap, ◌∙◌, subst, List, [], ◌∷◌, Option,
  none, some, false, length, take, All, arith, Bool-cases, Option-cases, inl, inr, ◌⊎◌,
}
use lunefetch.Core.Transfer.{
  ChunkError, ReadEnd, more, eof, broken, Round, Transfer, unfinished, read_buf_size, read_some,
  advance, store, round_end, transfer,
}
use lunefetch.Core.Transfer.Contents.{transfer_round, store-cases}

length-take-pos : (n : ℕ) (xs : List ℕ) → 0 < n → 0 < length xs → 0 < length (take n xs)
length-take-pos zero xs h k = omega arith
length-take-pos (suc n) [] h k = omega arith
length-take-pos (suc n) (x ∷ xs) h k = omega arith

-- A round that reads a byte at least or ends the body.
abbrev pub Progresses : Round → Type 0
Progresses r = (0 < length r.bytes) ⊎ (r.ending ≢ more)

round_end-unfinished :
    (e : ReadEnd) (s : Option ChunkError × Transfer) → round_end e s ≢ some unfinished
round_end-unfinished e (some x, t) h = cc
round_end-unfinished more (none, t) h = cc
round_end-unfinished eof (none, t) h = elim (Bool-cases (t.remaining == 0)) [
  | inl done ↦ cc (rw done at h)
  | inr open_end ↦ cc (rw open_end at h)
]
round_end-unfinished broken (none, t) h = cc

round_end-more : (e : ReadEnd) (t : Transfer) → round_end e (none, t) ≡ none → e ≡ more
round_end-more more t h = refl
round_end-more eof t h = cc
round_end-more broken t h = cc

module _ (r : Round) (rs : List Round) (t : Transfer) (wants : (t.remaining == 0) ≡ false)
    (goes : r.ctx_done ≡ false) (progresses : Progresses r) (short : t.remaining ≤ length rs)
    (later : (t1 : Transfer) → t1.remaining < length rs → (transfer rs t1).0 ≢ unfinished) where
  -- After a round that stores its bytes.
  stored-ends :
      (t1 : Transfer)
      → store r (read_some t.remaining r) t ≡ (none, t1)
      → (r.ending ≡ more → t1.remaining < t.remaining)
      → (transfer (r ∷ rs) t).0 ≢ unfinished
  stored-ends t1 e less =
      subst (λ o. o.0 ≢ unfinished) (sym (transfer_round r rs t (none, t1) wants goes e))
        (elim (Option-cases (round_end r.ending (none, t1))) [
          | inl on ↦
              let fewer : t1.remaining < t.remaining = less (round_end-more r.ending t1 on) in
              rw on (later t1 (omega arith))
          | inr (x, stops) ↦
              rw stops (λ h. round_end-unfinished r.ending (none, t1) (stops ∙ ap some h))
        ])

  some_read : r.ending ≡ more → 0 < length (read_some t.remaining r)
  unfolding read_some
  some_read h = elim progresses [
    | inl bytes ↦ length-take-pos (min read_buf_size t.remaining) r.bytes (ground arith) bytes
    | inr ends ↦ elim (ends h) [ ]
  ]

  round-ends : (transfer (r ∷ rs) t).0 ≢ unfinished
  unfolding advance
  round-ends = elim (store-cases r (read_some t.remaining r) t) [
    | inl (nothing, e) ↦ stored-ends t e (λ h.
        let read : 0 < length (read_some t.remaining r) = some_read h in
        let empty : length (read_some t.remaining r) ≡ 0 = ap length nothing in omega arith)
    | inr (inl e) ↦
        stored-ends (advance (read_some t.remaining r) t) e
          (λ h. let read : 0 < length (read_some t.remaining r) = some_read h in ground arith)
    | inr (inr (inl e)) ↦
        subst (λ o. o.0 ≢ unfinished) (sym (transfer_round r rs t _ wants goes e)) (λ h. cc)
    | inr (inr (inr (n, e))) ↦
        subst (λ o. o.0 ≢ unfinished) (sym (transfer_round r rs t _ wants goes e)) (λ h. cc)
  ]

-- If each Read gives a byte at least or ends the body, the loop ends within as many rounds as the
-- bytes that it wants, and one more.
pub transfer-ends :
    (rs : List Round) (t : Transfer)
    → All Progresses rs
    → t.remaining < length rs
    → (transfer rs t).0 ≢ unfinished
unfolding transfer
transfer-ends [] t h less = omega arith
transfer-ends (r ∷ rs) t (progresses, h) less = elim (Bool-cases (t.remaining == 0)) [
  | inl done ↦ rw (done, transfer) (λ e. cc)
  | inr wants ↦ elim (Bool-cases r.ctx_done) [
    | inl stop ↦ simp (wants, stop, transfer) (λ e. cc)
    | inr goes ↦
        round-ends r rs t wants goes progresses (omega arith) (λ t1 few. transfer-ends rs t1 h few)
  ]
]
