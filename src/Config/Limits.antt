-- ===== src/Config/Limits.antt =====
-- What a valid configuration guarantees to the downloader and the queue.
use lunefetch.Base.{
  ℕ, ◌≡◌, refl, if◌then◌else◌, Option, none, some, Bool, true, false, ◌||◌, Bool-cases, inl, inr,
  arith, List,
}
use lunefetch.Base.Int64.{ℤ, pos, ltb_ℤ, leb_ℤ, ◌≤ℤ◌, ◌<ℤ◌}
use lunefetch.Config.{
  Config, ConfigError, ProxyUrl, outside, bad_rules, validate, chunks_for_size, bad_thresholds,
  negative_limit, check_proxy_url,
}

abbrev pub IsWithin : ℕ → ℕ → ℤ → Type 0
IsWithin lo hi v = (pos lo ≤ℤ v) × (v ≤ℤ pos hi)

inside : (v : ℤ) (lo hi : ℕ) → outside v lo hi ≡ false → IsWithin lo hi v
inside v lo hi h = (ground arith, ground arith)

-- The bounds that Validate is there for.
pub record IsUsable (c : Config) : Type 0 where
  pub concurrent : IsWithin 1 64 c.max_concurrent
  pub retries : IsWithin 0 20 c.max_retries
  pub backoff : IsWithin 1 300 c.retry_backoff_s
  pub timeout : IsWithin 1 3600 c.timeout
  pub chunks : (size : ℤ) → IsWithin 1 64 (chunks_for_size c size)
  pub increasing :
      (pos 0 <ℤ c.small_size) × (c.small_size <ℤ c.medium_size) × (c.medium_size <ℤ c.large_size)

chunks_for_size-IsWithin :
    (c : Config) (size : ℤ)
    → bad_rules c.chunk_rules ≡ false
    → IsWithin 1 64 (chunks_for_size c size)
unfolding chunks_for_size
chunks_for_size-IsWithin c size h = elim (Bool-cases (ltb_ℤ size c.small_size)) [
  | inl e ↦ simp e (inside c.chunk_rules.small 1 64 (ground arith))
  | inr e ↦ elim (Bool-cases (ltb_ℤ size c.medium_size)) [
    | inl k ↦ simp (e, k) (inside c.chunk_rules.medium 1 64 (ground arith))
    | inr k ↦ elim (Bool-cases (ltb_ℤ size c.large_size)) [
      | inl l ↦ simp (e, k, l) (inside c.chunk_rules.large 1 64 (ground arith))
      | inr l ↦ simp (e, k, l) (inside c.chunk_rules.xlarge 1 64 (ground arith))
    ]
  ]
]

thresholds_increase :
    (a b c : ℤ)
    → (leb_ℤ a (pos 0) || leb_ℤ b a || leb_ℤ c b) ≡ false
    → (pos 0 <ℤ a) × (a <ℤ b) × (b <ℤ c)
thresholds_increase a b c h = (ground arith, ground arith, ground arith)

-- A test that Validate passed.
passes :
    (b : Bool) (e : ConfigError) (o : Option ConfigError)
    → (if b then some e else o) ≡ none
    → (b ≡ false) × (o ≡ none)
passes true e o h = cc
passes false e o h = (refl, h)

-- Whatever url.Parse says: a configuration that Validate accepts has the bounds that keep the queue,
-- the retries and the split into chunks going, for files of every size.
pub validate-IsUsable :
    (parse : List ℕ → Option ProxyUrl) (c : Config) → validate parse c ≡ none → IsUsable c
unfolding validate
validate-IsUsable parse c h0 =
    let (concurrent, h1) = passes _ _ _ h0 in
    let (retries, h2) = passes _ _ _ h1 in
    let (backoff, h3) = passes _ _ _ h2 in
    let (space, h4) = passes _ _ _ h3 in
    let (timeout, h5) = passes _ _ _ h4 in
    let (rules, h6) = passes _ _ _ h5 in
    let thresholds : Bool =
      leb_ℤ c.small_size (pos 0)
      || leb_ℤ c.medium_size c.small_size
      || leb_ℤ c.large_size c.medium_size in
    let limits : Option ConfigError =
      if ltb_ℤ c.global_speed_limit (pos 0) || ltb_ℤ c.history_retention_days (pos 0)
      then some negative_limit
      else check_proxy_url parse c.proxy_url in
    let sizes : thresholds ≡ false = (passes thresholds bad_thresholds limits h6).0 in
    record {
      concurrent = inside c.max_concurrent 1 64 concurrent;
      retries = inside c.max_retries 0 20 retries;
      backoff = inside c.retry_backoff_s 1 300 backoff;
      timeout = inside c.timeout 1 3600 timeout;
      chunks = λ size. chunks_for_size-IsWithin c size rules;
      increasing = thresholds_increase c.small_size c.medium_size c.large_size sizes;
    }
