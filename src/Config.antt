-- ===== src/Config.antt =====
-- internal/config/config.go: the settings, what they may be, and how they are saved.
pub mod Limits
pub mod Saving
use lunefetch.Base.{
  ℕ, ◌+◌, ◌*◌, ◌^◌, ◌==◌, if◌then◌else◌, List, [], ◌∷◌, ◌++◌, Option, none, some, Bool, true, false,
  ◌&&◌, ◌||◌, not, take,
}
use lunefetch.Base.Int64.{ℤ, pos, leb_ℤ, ltb_ℤ}
use lunefetch.Core.ContentRange.{parse_int}

pub record ChunkRules : Type 0 where
  pub small : ℤ
  pub medium : ℤ
  pub large : ℤ
  pub xlarge : ℤ

pub record Config : Type 0 where
  pub download_dir : List ℕ
  pub max_retries : ℤ
  pub retry_backoff_s : ℤ
  pub min_free_space_mb : ℤ
  pub timeout : ℤ
  pub chunk_rules : ChunkRules
  pub small_size : ℤ
  pub medium_size : ℤ
  pub large_size : ℤ
  pub max_concurrent : ℤ
  pub global_speed_limit : ℤ
  pub proxy_url : List ℕ
  pub notifications : Bool
  pub close_to_tray : Bool
  pub history_retention_days : ℤ
  pub allow_local_hosts : Bool

unfoldable pub default : List ℕ → Config
default downloads = record {
  download_dir = downloads;
  max_retries = pos 3;
  retry_backoff_s = pos 1;
  min_free_space_mb = pos 100;
  timeout = pos 30;
  chunk_rules = record { small = pos 4; medium = pos 8; large = pos 16; xlarge = pos 32 };
  small_size = pos (2 ^ 30);
  medium_size = pos (5 * 2 ^ 30);
  large_size = pos (100 * 2 ^ 30);
  max_concurrent = pos 2;
  global_speed_limit = pos 0;
  proxy_url = [];
  notifications = true;
  close_to_tray = true;
  history_retention_days = pos 30;
  allow_local_hosts = false;
}

unfoldable pub chunks_for_size : Config → ℤ → ℤ
chunks_for_size c size =
    if ltb_ℤ size c.small_size
    then c.chunk_rules.small
    else if ltb_ℤ size c.medium_size
    then c.chunk_rules.medium
    else if ltb_ℤ size c.large_size
    then c.chunk_rules.large
    else c.chunk_rules.xlarge

pub data ConfigError : Type 0 where
  bad_max_concurrent bad_max_retries bad_retry_backoff bad_min_free_space bad_timeout : ConfigError
  bad_chunk_counts bad_thresholds negative_limit bad_proxy no_hostname bad_port : ConfigError

-- `v < lo || v > hi`
abbrev pub outside : ℤ → ℕ → ℕ → Bool
outside v lo hi = ltb_ℤ v (pos lo) || ltb_ℤ (pos hi) v

-- What url.Parse tells of a proxy.
pub data ProxyScheme : Type 0 where
  http https socks5 other : ProxyScheme

pub record ProxyUrl : Type 0 where
  pub scheme : ProxyScheme
  pub has_host : Bool
  pub has_hostname : Bool
  pub port : List ℕ

abbrev known_scheme : ProxyScheme → Bool
known_scheme other = false
known_scheme _ = true

abbrev check_number : Option ℤ → Option ConfigError
check_number none = some bad_port
check_number (some n) = if outside n 1 65535 then some bad_port else none

abbrev check_port : List ℕ → Option ConfigError
check_port [] = none
check_port (c ∷ cs) = check_number (parse_int (c ∷ cs))

abbrev pub check_proxy : Option ProxyUrl → Option ConfigError
check_proxy none = some bad_proxy
check_proxy (some u) =
    if not u.has_host || not (known_scheme u.scheme)
    then some bad_proxy
    else if not u.has_hostname
    then some no_hostname
    else check_port u.port

abbrev pub check_proxy_url : (List ℕ → Option ProxyUrl) → List ℕ → Option ConfigError
check_proxy_url parse [] = none
check_proxy_url parse (c ∷ cs) = check_proxy (parse (c ∷ cs))

abbrev pub bad_rules : ChunkRules → Bool
bad_rules r =
    outside r.small 1 64 || outside r.medium 1 64 || outside r.large 1 64 || outside r.xlarge 1 64

-- `parse` is url.Parse; `none` is a valid configuration.
unfoldable pub validate : (List ℕ → Option ProxyUrl) → Config → Option ConfigError
validate parse c =
    if outside c.max_concurrent 1 64
    then some bad_max_concurrent
    else if outside c.max_retries 0 20
    then some bad_max_retries
    else if outside c.retry_backoff_s 1 300
    then some bad_retry_backoff
    else if outside c.min_free_space_mb 0 100000
    then some bad_min_free_space
    else if outside c.timeout 1 3600
    then some bad_timeout
    else if bad_rules c.chunk_rules
    then some bad_chunk_counts
    else if leb_ℤ c.small_size (pos 0)
        || leb_ℤ c.medium_size c.small_size
        || leb_ℤ c.large_size c.medium_size
    then some bad_thresholds
    else if ltb_ℤ c.global_speed_limit (pos 0) || ltb_ℤ c.history_retention_days (pos 0)
    then some negative_limit
    else check_proxy_url parse c.proxy_url

pub data SaveError : Type 0 where
  invalid : ConfigError → SaveError
  mkdir_failed marshal_failed create_failed chmod_failed write_failed sync_failed close_failed
        rename_failed :
      SaveError

-- The configuration file and the temporary file beside it.
pub record Disk : Type 0 where
  pub target : Option (List ℕ)
  pub temp : Option (List ℕ)

-- Which system call fails; a failing Write leaves some bytes.
pub record Faults : Type 0 where
  pub mkdir : Bool
  pub create : Bool
  pub chmod : Bool
  pub write : Option ℕ
  pub sync : Bool
  pub close : Bool
  pub rename : Bool

abbrev pub cleaned : Disk → Disk
cleaned d = record d { temp = none }

-- The result of Save and each state of the disk on the way, the last one first.
abbrev pub SaveRun : Type 0
SaveRun = Option SaveError × List Disk

-- An early return: os.Remove runs.
abbrev pub stopped : SaveError → Disk → List Disk → SaveRun
stopped e d seen = (some e, cleaned d ∷ d ∷ seen)

-- From the written temporary file.
abbrev pub publish : Faults → List ℕ → Disk → List Disk → SaveRun
publish f data_ d seen =
    if f.sync
    then stopped sync_failed d seen
    else if f.close
    then stopped close_failed d seen
    else if f.rename
    then stopped rename_failed d seen
    else (none, record { target = some data_; temp = none } ∷ d ∷ seen)

abbrev pub write_temp : Faults → List ℕ → Disk → List Disk → Option ℕ → SaveRun
write_temp f data_ d seen none = publish f data_ (record d { temp = some data_ }) (d ∷ seen)
write_temp f data_ d seen (some k) =
    stopped write_failed (record d { temp = some (take k data_) }) (d ∷ seen)

abbrev pub save_data : Faults → Option (List ℕ) → Disk → SaveRun
save_data f none d = (some marshal_failed, d ∷ [])
save_data f (some data_) d =
    if f.create
    then (some create_failed, d ∷ [])
    else (let made : Disk = record d { temp = some [] } in
        if f.chmod
        then stopped chmod_failed made (d ∷ [])
        else write_temp f data_ made (d ∷ []) f.write)

abbrev pub save_checked : Faults → Option (List ℕ) → Disk → Option ConfigError → SaveRun
save_checked f marshalled d (some e) = (some (invalid e), d ∷ [])
save_checked f marshalled d none =
    if f.mkdir then (some mkdir_failed, d ∷ []) else save_data f marshalled d

-- `marshalled` is what yaml.Marshal makes of the configuration.
unfoldable pub save :
    (List ℕ → Option ProxyUrl) → Config → Option (List ℕ) → Faults → Disk → SaveRun
unfolding validate
save parse c marshalled f d = save_checked f marshalled d (validate parse c)
