-- ===== src/Core/Transfer/Bytes.antt =====
-- The bytes of the body that the loop has put into the file, and what one round adds to them.
use lunefetch.Base.{
  ℕ, suc, min, ◌+◌, ◌-◌, ◌^◌, ◌≤◌, ◌<◌, ◌==◌, ◌≡◌, refl, sym, ap, ◌∙◌, if◌then◌else◌, List, [], ◌∷◌,
  ◌++◌, length, take, drop, take-drop, length-take, length-append, append_assoc, arith,
}
use lunefetch.Base.Int64.{pos, add64, add64-pos}
use lunefetch.Core.Transfer.{Round, File, write_at, Transfer, read_buf_size, read_some, advance}

pub write_at-append :
    (offset : ℕ) (xs ys : List ℕ) (f : File)
    → write_at (offset + length xs) ys (write_at offset xs f) ≡ write_at offset (xs ++ ys) f
unfolding write_at
write_at-append offset [] ys f = ap (λ o. write_at o ys f) (omega arith)
write_at-append offset (x ∷ xs) ys f =
    ap (λ o. write_at o ys (write_at (suc offset) xs (λ i. if i == offset then x else f i)))
      (omega arith)
    ∙ write_at-append (suc offset) xs ys (λ i. if i == offset then x else f i)

-- The bytes that the rounds offer to a loop that still wants `remaining` bytes.
unfoldable pub offered : List Round → ℕ → List ℕ
offered [] remaining = []
offered (r ∷ rs) remaining =
    read_some remaining r ++ offered rs (remaining - length (read_some remaining r))

-- From `t` the loop has come to `t'`: the bytes `stored` are in the file and counted, `partial` is
-- what a failed write left behind them, and both are the first bytes of `body`.
pub record Stored (body : List ℕ) (k : ℕ) (t t' : Transfer) : Type 0 where
  pub stored : List ℕ
  pub partial : List ℕ
  pub rest : List ℕ
  pub first_bytes : stored ++ (partial ++ rest) ≡ body
  pub in_file : t'.file ≡ write_at t.written (stored ++ partial) t.file
  pub counted : t'.chunk_downloaded ≡ pos (k + length stored)
  pub moved : t'.written ≡ t.written + length stored
  pub left : t'.remaining + length stored ≡ t.remaining
  pub fits : length partial ≤ t'.remaining

-- The offsets and the count stay in an int64.
abbrev pub IsRoomy : ℕ → Transfer → Type 0
IsRoomy k t =
    (t.chunk_downloaded ≡ pos k) × (k + t.remaining < 2 ^ 63) × (t.written + t.remaining < 2 ^ 64)

pub length-read_some : (remaining : ℕ) (r : Round) → length (read_some remaining r) ≤ remaining
unfolding read_some
length-read_some remaining r = omega (arith, length-take (min read_buf_size remaining) r.bytes)

pub nothing-Stored : (body : List ℕ) (k : ℕ) (t : Transfer) → IsRoomy k t → Stored body k t t
unfolding write_at
nothing-Stored body k t (count, _, _) = record {
  stored = [];
  partial = [];
  rest = body;
  first_bytes = refl;
  in_file = refl;
  counted = count ∙ ap pos (omega arith);
  moved = omega arith;
  left = omega arith;
  fits = omega arith;
}

append_nil : (xs : List ℕ) → xs ++ [] ≡ xs
append_nil [] = refl
append_nil (x ∷ xs) = ap (λ l. x ∷ l) (append_nil xs)

-- A write that fails after `n` bytes.
pub partial-Stored :
    (n : ℕ) (got body : List ℕ) (k : ℕ) (t : Transfer)
    → IsRoomy k t
    → length got ≤ t.remaining
    → Stored (got ++ body) k t (record t { file = write_at t.written (take n got) t.file })
partial-Stored n got body k t (count, _, _) le = record {
  stored = [];
  partial = take n got;
  rest = drop n got ++ body;
  first_bytes =
      sym (append_assoc (take n got) (drop n got) body) ∙ ap (λ l. l ++ body) (take-drop n got);
  in_file = refl;
  counted = count ∙ ap pos (omega arith);
  moved = omega arith;
  left = omega arith;
  fits = omega (arith, ap length (take-drop n got), length-append (take n got) (drop n got));
}

module _ (got : List ℕ) (k : ℕ) (t : Transfer) (roomy : IsRoomy k t)
    (le : length got ≤ t.remaining) where
  advance-count : (advance got t).chunk_downloaded ≡ pos (k + length got)
  unfolding advance
  advance-count =
      ap (λ z. add64 z (pos (length got))) roomy.0
      ∙ add64-pos k (length got) (omega (arith, roomy.1))

  advance-written : (advance got t).written ≡ t.written + length got
  unfolding advance
  advance-written = omega (arith, roomy.2)

  pub advance-IsRoomy : IsRoomy (k + length got) (advance got t)
  unfolding advance
  advance-IsRoomy = (advance-count, omega (arith, roomy.1), omega (arith, roomy.2))

  -- What happens after the bytes are stored adds to them.
  pub advance-then :
      (body : List ℕ) (t' : Transfer)
      → Stored body (k + length got) (advance got t) t'
      → Stored (got ++ body) k t t'
  unfolding advance
  advance-then body t' s = record {
    stored = got ++ s.stored;
    partial = s.partial;
    rest = s.rest;
    first_bytes =
        append_assoc got s.stored (s.partial ++ s.rest) ∙ ap (λ l. got ++ l) s.first_bytes;
    in_file =
        s.in_file
        ∙ ap (λ o. write_at o (s.stored ++ s.partial) (write_at t.written got t.file))
            advance-written
        ∙ write_at-append t.written got (s.stored ++ s.partial) t.file
        ∙ ap (λ l. write_at t.written l t.file) (sym (append_assoc got s.stored s.partial));
    counted = s.counted ∙ ap pos (omega (arith, length-append got s.stored));
    moved = omega (arith, s.moved, advance-written, length-append got s.stored);
    left = omega (arith, s.left, le, length-append got s.stored);
    fits = s.fits;
  }
