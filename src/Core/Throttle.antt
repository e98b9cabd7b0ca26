-- ===== src/Core/Throttle.antt =====
-- internal/core/throttle.go: `Limiter`. The rate limiter below it is golang.org/x/time/rate; whether
-- its WaitN lets the bytes pass is an argument.
use lunefetch.Base.{
  ℕ, zero, suc, min, ◌+◌, ◌-◌, ◌*◌, ◌^◌, ◌≤◌, ◌<◌, ◌==◌, ◌≡◌, ◌≢◌, List, [], ◌∷◌, Option, none,
  some, Bool, true, false, if◌then◌else◌, Bool-cases, inl, inr, All, All-map, arith,
}
use lunefetch.Base.Int64.{ℤ, pos, pos_part, leb_ℤ, ltb_ℤ}

-- The limit in bytes a second, `none` for rate.Inf.
pub record Limiter : Type 0 where
  pub limit : Option ℤ
  pub burst : ℤ

abbrev max_int32 : ℤ
max_int32 = pos (2 ^ 31 - 1)

-- readBufSize, or the rate where that is less, and one byte at least.
unfoldable pub burst_for : ℤ → ℤ
burst_for bytes_per_sec =
    let buffer : ℤ = pos (32 * 1024) in
    let burst : ℤ = if ltb_ℤ bytes_per_sec buffer then bytes_per_sec else buffer in
    if ltb_ℤ burst (pos 1) then pos 1 else burst

unfoldable pub make_limiter : ℤ → Limiter
unfolding burst_for
make_limiter bytes_per_sec =
    if leb_ℤ bytes_per_sec (pos 0)
    then record { limit = none; burst = max_int32 }
    else record { limit = some bytes_per_sec; burst = burst_for bytes_per_sec }

unfoldable pub new_limiter : ℤ → Limiter
unfolding make_limiter
new_limiter bytes_per_sec = make_limiter bytes_per_sec

unfoldable pub set_rate : ℤ → Limiter → Limiter
unfolding burst_for
set_rate bytes_per_sec lim =
    if leb_ℤ bytes_per_sec (pos 0)
    then record lim { limit = none; burst = max_int32 }
    else record lim { limit = some bytes_per_sec; burst = burst_for bytes_per_sec }

pub data WaitEnd : Type 0 where
  passed refused stuck : WaitEnd

-- The loop of Wait on fuel, with the arguments of WaitN; `lets` says which calls of it succeed.
unfoldable pub wait_loop : ℕ → ℕ → ℕ → (ℕ → Bool) → WaitEnd × List ℕ
wait_loop zero burst n lets = (if n == 0 then passed else stuck, [])
wait_loop (suc fuel) burst n lets = elim (n == 0) [
  | true ↦ (passed, [])
  | false ↦ elim (lets 0) [
    | false ↦ (refused, min n burst ∷ [])
    | true ↦
        let rest = wait_loop fuel burst (n - min n burst) (λ i. lets (suc i)) in
        (rest.0, min n burst ∷ rest.1)
  ]
]

-- A burst is positive, so `n` rounds are enough.
unfoldable pub wait : Limiter → ℕ → (ℕ → Bool) → WaitEnd × List ℕ
unfolding wait_loop
wait lim n lets = elim lim.limit [
  | none ↦ (passed, [])
  | some rate ↦ wait_loop n (pos_part lim.burst) n lets
]

abbrev pub sum : List ℕ → ℕ
sum [] = 0
sum (n ∷ ns) = n + sum ns

-- What WaitN was asked for: parts of at most a burst, of all the bytes or of the first ones.
abbrev pub IsPaid : ℕ → ℕ → WaitEnd × List ℕ → Type 0
IsPaid burst n (e, takes) =
    All (λ t. (0 < t) × (t ≤ burst)) takes
    × (sum takes ≤ n)
    × (e ≡ passed → sum takes ≡ n)
    × (e ≢ stuck)

wait_loop-IsPaid :
    (fuel burst n : ℕ) (lets : ℕ → Bool)
    → 0 < burst
    → n ≤ fuel
    → IsPaid burst n (wait_loop fuel burst n lets)
unfolding wait_loop
wait_loop-IsPaid zero burst n lets h le =
    let nothing : (n == 0) ≡ true = ground arith in
    rw nothing (tt, omega arith, λ _. omega arith, λ e. cc)
wait_loop-IsPaid (suc fuel) burst n lets h le = elim (Bool-cases (n == 0)) [
  | inl nothing ↦ rw (nothing, wait_loop) (tt, omega arith, λ _. ground arith, λ e. cc)
  | inr wants ↦ elim (Bool-cases (lets 0)) [
    | inr held ↦
        rw (wants, held, wait_loop)
          (((ground arith, omega arith), tt), omega arith, λ e. cc, λ e. cc)
    | inl through ↦
        let (parts, most, all, ends) =
          wait_loop-IsPaid fuel burst (n - min n burst) (λ i. lets (suc i)) h (ground arith) in
        rw (wants, through, wait_loop)
          (
            ((ground arith, omega arith), parts),
            omega (arith, most),
            λ e. omega (arith, all e),
            ends,
          )
  ]
]

burst_for-bounds :
    (rate : ℤ) → (0 < pos_part (burst_for rate)) × (pos_part (burst_for rate) ≤ 32 * 1024)
unfolding burst_for
burst_for-bounds rate = (ground arith, ground arith)

-- After SetRate with a positive rate: a Wait for `n` bytes ends, asks WaitN for parts of at most the
-- read buffer, never for more than `n` bytes in all, and for exactly `n` where it passes.
pub set_rate-IsPaid :
    (rate : ℤ) (lim : Limiter) (n : ℕ) (lets : ℕ → Bool)
    → 0 < pos_part rate
    → IsPaid (32 * 1024) n (wait (set_rate rate lim) n lets)
unfolding wait set_rate
set_rate-IsPaid rate lim n lets h =
    let limited : leb_ℤ rate (pos 0) ≡ false = ground arith in
    let (some_bytes, few) = burst_for-bounds rate in
    rw limited (
      let (parts, most, all, ends) =
        wait_loop-IsPaid n (pos_part (burst_for rate)) n lets some_bytes (omega arith) in
      (
        All-map (λ t. (0 < t) × (t ≤ pos_part (burst_for rate))) _ _
            (λ t p. (p.0, omega (arith, p.1, few))) parts,
        most,
        all,
        ends,
      ))
