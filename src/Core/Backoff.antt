-- ===== src/Core/Backoff.antt =====
-- The wait between attempts: backoffFor and SetRetryBackoff of internal/core/downloader.go.
-- Durations are int64 nanoseconds.
use lunefetch.Base.{
  ℕ, zero, suc, min, ◌+◌, ◌*◌, ◌^◌, ◌≤◌, ◌<◌, ◌≡◌, sym, ap, ◌∙◌, true, false, if◌then◌else◌,
  Bool-cases, inl, inr, arith,
}
use lunefetch.Base.Int64.{ℤ, pos, add64, leb_ℤ, add64-pos}

abbrev pub second : ℕ
second = 10 ^ 9

-- maxRetryBackoff
abbrev pub max_retry_backoff : ℕ
max_retry_backoff = 120 * second

unfoldable pub set_retry_backoff : ℤ → ℤ → ℤ
set_retry_backoff base backoff = if leb_ℤ base (pos 0) then backoff else base

-- The loop over the attempts that are left.
unfoldable pub double_delay : ℕ → ℤ → ℤ
double_delay zero delay = delay
double_delay (suc left) delay = elim (leb_ℤ (pos max_retry_backoff) (add64 delay delay)) [
  | true ↦ pos max_retry_backoff
  | false ↦ double_delay left (add64 delay delay)
]

unfoldable pub backoff_for : ℤ → ℕ → ℤ
unfolding double_delay
backoff_for backoff attempt =
    double_delay attempt (if leb_ℤ backoff (pos 0) then pos second else backoff)

two_pow-pos : (k : ℕ) → 0 < 2 ^ k
two_pow-pos zero = omega arith
two_pow-pos (suc k) = omega (arith, two_pow-pos k)

pow_suc : (k : ℕ) → 2 ^ suc k ≡ 2 ^ k + 2 ^ k
pow_suc k = omega arith

double_mul : (n k : ℕ) → n * 2 ^ suc k ≡ (n + n) * 2 ^ k
double_mul n k = rw (pow_suc k) (grind arith)

le_mul : (n m : ℕ) → 0 < m → n ≤ n * m
le_mul n zero h = omega arith
le_mul n (suc m) h = grind arith

double_delay_lem :
    (left n : ℕ)
    → 0 < n
    → n ≤ max_retry_backoff
    → double_delay left (pos n) ≡ pos (min max_retry_backoff (n * 2 ^ left))
unfolding double_delay
double_delay_lem zero n h le = ap pos (omega arith)
double_delay_lem (suc left) n h le =
    let twice : add64 (pos n) (pos n) ≡ pos (n + n) = add64-pos n n (omega arith) in
    rw (twice, double_delay)
      (elim (Bool-cases (leb_ℤ (pos max_retry_backoff) (pos (n + n)))) [
        | inl over ↦
            let many : n + n ≤ n * 2 ^ suc left =
              omega (arith, double_mul n left, le_mul (n + n) (2 ^ left) (two_pow-pos left)) in
            rw (over, double_delay) (ap pos (ground (arith, many)))
        | inr under ↦
            rw (under, double_delay)
              (ap (double_delay left) twice
                ∙ double_delay_lem left (n + n) (omega arith) (ground arith)
                ∙ ap (λ m. pos (min max_retry_backoff m)) (sym (double_mul n left)))
      ])

-- For a base of at most two minutes, the wait before the next attempt is the base doubled once for
-- each attempt so far, and two minutes from where that is more.
pub backoff_for_lem :
    (n attempt : ℕ)
    → 0 < n
    → n ≤ max_retry_backoff
    → backoff_for (pos n) attempt ≡ pos (min max_retry_backoff (n * 2 ^ attempt))
unfolding backoff_for
backoff_for_lem n attempt h le =
    let positive : leb_ℤ (pos n) (pos 0) ≡ false = ground arith in
    rw positive (double_delay_lem attempt n h le)
