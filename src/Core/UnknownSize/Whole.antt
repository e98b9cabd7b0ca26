-- ===== src/Core/UnknownSize/Whole.antt =====
-- What a success of startUnknownSize means.
use lunefetch.Base.{
  ℕ, ◌+◌, ◌^◌, ◌≤◌, ◌<◌, ◌==◌, ◌≡◌, refl, sym, ap, ◌∙◌, subst, List, [], ◌∷◌, ◌++◌, Option, none,
  some, Bool, true, ◌||◌, length, length-append, take, ltb, leb, arith, Bool-cases, Option-cases,
  inl, inr, ◌⊎◌,
}
use lunefetch.Base.Int64.{pos}
use lunefetch.Storage.Record.{Status}
use lunefetch.Core.Progress.{ChunkProgress}
use lunefetch.Core.Transfer.{
  ChunkError, write_failed, throttle_failed, ReadEnd, more, eof, broken, Round, File, write_at,
  Ended, unfinished, failed, finished,
}
use lunefetch.Core.Transfer.Bytes.{write_at-append}
use lunefetch.Core.UnknownSize.{
  Sequential, read_full, append_bytes, keep, body_end, read_all, closed, start_unknown_size,
}

-- The body: what the rounds read up to the one that ends it.
abbrev pub and_more : ReadEnd → List ℕ → List ℕ → List ℕ
and_more more got rest = got ++ rest
and_more eof got rest = got
and_more broken got rest = got

unfoldable pub body_of : List Round → List ℕ
body_of [] = []
body_of (r ∷ rs) = and_more r.ending (read_full r) (body_of rs)

keep-cases :
    (r : Round) (got : List ℕ) (t : Sequential)
    → ((got ≡ []) × (keep r got t ≡ (none, t)))
      ⊎ ((keep r got t ≡ (none, append_bytes got t))
          ⊎ ((x : ChunkError) × (t' : Sequential) × (keep r got t ≡ (some x, t'))))
keep-cases r got t = elim (Bool-cases (length got == 0)) [
  | inl nothing ↦ inl (empty_of got nothing, rw nothing refl)
  | inr several ↦ elim (Bool-cases r.passes) [
    | inr held ↦ inr (inr (throttle_failed, t, rw (several, held) refl))
    | inl through ↦ elim (Option-cases r.write_stops) [
      | inl e ↦ inr (inl (rw (several, through, e) refl))
      | inr (n, e) ↦ inr (
          inr (
            write_failed,
            record t { file = write_at t.total (take n got) t.file },
            rw (several, through, e) refl,
          ))
    ]
  ]
]
  where
    empty_of : (xs : List ℕ) → (length xs == 0) ≡ true → xs ≡ []
    empty_of [] h = refl
    empty_of (x ∷ xs) h = ground arith

-- The entry counts the bytes so far, once there are some.
abbrev IsCounted : Sequential → Type 0
IsCounted t = (t.total ≡ 0) ⊎ (t.entry.downloaded_size ≡ pos t.total)

abbrev Holds : List ℕ → Sequential → Sequential → Type 0
Holds body t t' =
    (t'.file ≡ write_at t.total body t.file) × (t'.total ≡ t.total + length body) × IsCounted t'

append_bytes-Holds :
    (got : List ℕ) (t : Sequential)
    → t.total + length got < 2 ^ 63
    → Holds got t (append_bytes got t)
unfolding append_bytes
append_bytes-Holds got t h = (refl, omega arith, inr (ground arith))

nothing-Holds : (t : Sequential) → IsCounted t → Holds [] t t
unfolding write_at
nothing-Holds t c = (refl, omega arith, c)

then-Holds :
    (got rest : List ℕ) (t t1 t2 : Sequential)
    → Holds got t t1
    → Holds rest t1 t2
    → Holds (got ++ rest) t t2
then-Holds got rest t t1 t2 (file1, total1, _) (file2, total2, c) = (
  file2
      ∙ ap (λ o. write_at o rest t1.file) total1
      ∙ ap (λ f. write_at (t.total + length got) rest f) file1
      ∙ write_at-append t.total got rest t.file,
  omega (arith, total1, total2, length-append got rest),
  c,
)

-- What a loop that comes to `o` has done, if it finished.
abbrev IsRead : List ℕ → Sequential → Ended × Sequential → Type 0
IsRead body t o = o.0 ≡ finished → Holds body t o.1

-- A round after which `t1` holds.
round-IsRead :
    (e : ReadEnd) (got rest : List ℕ) (rs : List Round) (t t1 : Sequential)
    → Holds got t t1
    → (e ≡ more → IsRead rest t1 (read_all rs t1))
    → IsRead
        (and_more e got rest)
        t
        (elim (body_end e (none, t1)) [ some x ↦ (x, t1) | none ↦ read_all rs t1 ])
round-IsRead more got rest rs t t1 here later h =
    then-Holds got rest t t1 (read_all rs t1).1 here (later refl h)
round-IsRead eof got rest rs t t1 here later h = here
round-IsRead broken got rest rs t t1 here later h = cc

length-and_more :
    (e : ReadEnd) (got rest : List ℕ)
    → (length got ≤ length (and_more e got rest))
      × (e ≡ more → length (and_more e got rest) ≡ length got + length rest)
length-and_more more got rest = (omega (arith, length-append got rest), λ _. length-append got rest)
length-and_more eof got rest = (omega arith, λ h. cc)
length-and_more broken got rest = (omega arith, λ h. cc)

read_all_round :
    (r : Round) (rs : List Round) (t : Sequential) (s : Option ChunkError × Sequential)
    → keep r (read_full r) t ≡ s
    → read_all (r ∷ rs) t
      ≡ elim (body_end r.ending s) [ some e ↦ (e, s.1) | none ↦ read_all rs s.1 ]
unfolding read_all
read_all_round r rs t s kept =
    ap
      (λ s. elim (body_end r.ending s) as (λ _. Ended × Sequential) [
        | some e ↦ (e, s.1)
        | none ↦ read_all rs s.1
      ])
      kept

read_all-IsRead :
    (rs : List Round) (t : Sequential)
    → IsCounted t
    → t.total + length (body_of rs) < 2 ^ 63
    → IsRead (body_of rs) t (read_all rs t)
unfolding read_all body_of
read_all-IsRead [] t c room = λ h. cc
read_all-IsRead (r ∷ rs) t c room =
    let got : List ℕ = read_full r in
    let rest : List ℕ = body_of rs in
    let (least, sum) = length-and_more r.ending got rest in
    elim (keep-cases r got t) [
      | inl (nothing, e) ↦
          subst (IsRead (and_more r.ending got rest) t) (sym (read_all_round r rs t (none, t) e)) (
            round-IsRead r.ending got rest rs t t
              (subst (λ g. Holds g t t) (sym nothing) (nothing-Holds t c))
              (λ m. read_all-IsRead rs t c (omega (arith, sum m))))
      | inr (inl e) ↦
          let t1 : Sequential = append_bytes got t in
          let here : Holds got t t1 = append_bytes-Holds got t (omega (arith, least)) in
          subst (IsRead (and_more r.ending got rest) t) (sym (read_all_round r rs t (none, t1) e)) (
            round-IsRead r.ending got rest rs t t1 here
              (λ m. read_all-IsRead rs t1 here.2 (omega (arith, sum m, here.1))))
      | inr (inr (x, t', e)) ↦
          subst (IsRead (and_more r.ending got rest) t) (sym (read_all_round r rs t (some x, t') e))
            (λ h. cc)
    ]

-- A file that is complete: it is the body from offset 0, which is not empty, and the entry of its
-- chunk is completed and counts it.
pub record IsWhole (body : List ℕ) (t : Sequential) : Type 0 where
  pub in_file : t.file ≡ write_at 0 body (λ i. 0)
  pub sized : t.total ≡ length body
  pub some_bytes : 0 < length body
  pub counted : t.entry.downloaded_size ≡ pos (length body)
  pub completed : t.entry.status ≡ Status.completed

closed-IsWhole :
    (body : List ℕ) (p : ChunkProgress) (o : Ended × Sequential)
    → IsRead body (record { total = 0; entry = p; file = λ i. 0 }) o
    → (closed o).0 ≡ finished
    → IsWhole body (closed o).1
closed-IsWhole body p (unfinished, t) r h = cc
closed-IsWhole body p (failed e, t) r h = cc
closed-IsWhole body p (finished, t) r h = elim (Bool-cases (t.total == 0)) [
  | inl empty ↦ cc (rw empty at h)
  | inr several ↦
      let (file, total, c) = r refl in
      let sized : t.total ≡ length body = omega arith in
      rw several (record {
        in_file = file;
        sized = sized;
        some_bytes = ground arith;
        counted = elim c [ inl none_yet ↦ ground arith | inr count ↦ count ∙ ap pos sized ];
        completed = refl;
      })
]

-- If startUnknownSize returns without an error for a body of int64 length: the file is the body that
-- the rounds read up to the end of file, and the chunk is completed with its size.
pub start_unknown_size-IsWhole :
    (status : Option ℕ) (truncates : Bool) (rs : List Round) (p : ChunkProgress) (f : File)
    → length (body_of rs) < 2 ^ 63
    → (start_unknown_size status truncates rs p f).0 ≡ finished
    → IsWhole (body_of rs) (start_unknown_size status truncates rs p f).1
unfolding start_unknown_size
start_unknown_size-IsWhole none truncates rs p f room h = cc
start_unknown_size-IsWhole (some code) truncates rs p f room h =
    elim (Bool-cases (ltb code 200 || leb 300 code)) [
      | inl bad ↦ cc (rw bad at h)
      | inr good ↦ elim (Bool-cases truncates) [
        | inr stuck ↦ cc (rw (good, stuck) at h)
        | inl cut ↦
            rw (good, cut)
              (closed-IsWhole (body_of rs) p _
                (read_all-IsRead rs (record { total = 0; entry = p; file = λ i. 0 }) (inl refl)
                  (omega arith))
                (rw (good, cut) at h))
      ]
    ]
