-- ===== src/Core/Address.antt =====
-- Which addresses a download may reach: addressPolicy, dialContext and validateHTTPURL of
-- internal/core/downloader.go. An address is its bits; the resolver and the dialer are arguments.
pub mod Policy
use lunefetch.Base.{
  ℕ, ◌+◌, ◌-◌, ◌*◌, ◌/◌, ◌%◌, ◌^◌, ◌==◌, if◌then◌else◌, List, [], ◌∷◌, Option, none, some, Bool,
  true, false, ◌&&◌, ◌||◌, not, ltb,
}

-- netip.Addr; an IPv6 address has a zone, 0 for none.
pub data Addr : Type 0 where
  v4 : ℕ → Addr
  v6 : ℕ → ℕ → Addr

abbrev pub same_addr : Addr → Addr → Bool
same_addr (v4 a) (v4 b) = a == b
same_addr (v6 a z) (v6 b y) = a == b && z == y
same_addr _ _ = false

-- A prefix of `len` bits of an address of `width` bits.
abbrev pub has_prefix : ℕ → ℕ → ℕ → ℕ → Bool
has_prefix width net len a = a / 2 ^ (width - len) == net / 2 ^ (width - len)

abbrev pub ip4 : ℕ → ℕ → ℕ → ℕ → ℕ
ip4 a b c d = ((a * 256 + b) * 256 + c) * 256 + d

-- The IPv6 address of the first 16-bit groups, and the last one.
abbrev pub ip6 : ℕ → ℕ → ℕ → ℕ → ℕ
ip6 a b c last = (((a * 2 ^ 16 + b) * 2 ^ 16 + c) * 2 ^ 80) + last

-- Addr.Unmap: ::ffff:0:0/96 is IPv4.
unfoldable pub unmap : Addr → Addr
unmap (v4 a) = v4 a
unmap (v6 a z) = if a / 2 ^ 32 == 65535 then v4 (a % 2 ^ 32) else v6 a z

-- IsUnspecified, IsMulticast
abbrev pub is_unusable : Addr → Bool
is_unusable (v4 a) = a == 0 || has_prefix 32 (ip4 224 0 0 0) 4 a
is_unusable (v6 a z) = a == 0 || has_prefix 128 (ip6 65280 0 0 0) 8 a

-- IsLoopback, IsPrivate, IsLinkLocalUnicast, IsLinkLocalMulticast, IsInterfaceLocalMulticast
abbrev pub is_local : Addr → Bool
is_local (v4 a) =
    has_prefix 32 (ip4 127 0 0 0) 8 a
    || has_prefix 32 (ip4 10 0 0 0) 8 a
    || has_prefix 32 (ip4 172 16 0 0) 12 a
    || has_prefix 32 (ip4 192 168 0 0) 16 a
    || has_prefix 32 (ip4 169 254 0 0) 16 a
    || has_prefix 32 (ip4 224 0 0 0) 24 a
is_local (v6 a z) =
    a == 1
    || has_prefix 128 (ip6 64512 0 0 0) 7 a
    || has_prefix 128 (ip6 65152 0 0 0) 10 a
    || a / 2 ^ 112 % 2 ^ 4 == 2 && a / 2 ^ 120 == 255
    || a / 2 ^ 112 % 2 ^ 4 == 1 && a / 2 ^ 120 == 255

-- reservedPrefixes; Prefix.Contains is false for an address with a zone.
abbrev pub is_reserved : Addr → Bool
is_reserved (v4 a) =
    has_prefix 32 (ip4 100 64 0 0) 10 a
    || has_prefix 32 (ip4 192 0 0 0) 24 a
    || has_prefix 32 (ip4 192 0 2 0) 24 a
    || has_prefix 32 (ip4 198 18 0 0) 15 a
    || has_prefix 32 (ip4 198 51 100 0) 24 a
    || has_prefix 32 (ip4 203 0 113 0) 24 a
    || has_prefix 32 (ip4 240 0 0 0) 4 a
is_reserved (v6 a z) =
    z == 0
    && (has_prefix 128 (ip6 100 65435 0 0) 96 a
        || has_prefix 128 (ip6 256 0 0 0) 64 a
        || has_prefix 128 (ip6 8193 3512 0 0) 32 a)

-- metadataAddrs: 169.254.169.254 and fd00:ec2::254
abbrev pub is_metadata : Addr → Bool
is_metadata a = same_addr a (v4 (ip4 169 254 169 254)) || same_addr a (v6 (ip6 64768 3778 0 596) 0)

pub record AddressPolicy : Type 0 where
  pub allow_local : Bool
  -- Whether a host is the configured proxy's.
  pub is_proxy : Bool

abbrev pub screened : Bool → Addr → Bool
screened allow_local a =
    is_metadata a || is_unusable a || (not allow_local && (is_local a || is_reserved a))

unfoldable pub blocked : AddressPolicy → Addr → Bool
unfolding unmap
blocked p a = screened p.allow_local (unmap a)

pub data Dialed : Type 0 where
  -- A connection by the dialer's own resolution, to the proxy.
  to_proxy : Dialed
  connected : Addr → Dialed
  resolve_failed is_blocked no_addresses connect_failed : Dialed

unfoldable pub any_blocked : AddressPolicy → List Addr → Bool
unfolding blocked
any_blocked p [] = false
any_blocked p (a ∷ rest) = if blocked p a then true else any_blocked p rest

-- The first address that the dialer reaches.
unfoldable pub dial_each : (Addr → Bool) → List Addr → Dialed
dial_each reaches [] = connect_failed
dial_each reaches (a ∷ rest) = if reaches a then connected a else dial_each reaches rest

abbrev pub dial_resolved : AddressPolicy → (Addr → Bool) → Option (List Addr) → Dialed
dial_resolved p reaches none = resolve_failed
dial_resolved p reaches (some []) = no_addresses
dial_resolved p reaches (some (a ∷ rest)) =
    if any_blocked p (a ∷ rest) then is_blocked else dial_each reaches (a ∷ rest)

-- `resolved` is what LookupNetIP says of the host.
unfoldable pub dial_context : AddressPolicy → Option (List Addr) → (Addr → Bool) → Dialed
unfolding any_blocked dial_each
dial_context p resolved reaches = if p.is_proxy then to_proxy else dial_resolved p reaches resolved

-- validateHTTPURL: whether the scheme and the host are there, the address that the host is, if it is
-- one, and what the resolver says otherwise. `true` is success.
abbrev pub validate_resolved : AddressPolicy → Option (List Addr) → Bool
validate_resolved p none = false
validate_resolved p (some []) = false
validate_resolved p (some (a ∷ rest)) = not (any_blocked p (a ∷ rest))

abbrev pub validate_host : AddressPolicy → Option Addr → Option (List Addr) → Bool
validate_host p (some a) resolved = not (blocked p a)
validate_host p none resolved = validate_resolved p resolved

unfoldable pub validate_http_url : AddressPolicy → Bool → Option Addr → Option (List Addr) → Bool
unfolding blocked any_blocked
validate_http_url p web literal resolved = if web then validate_host p literal resolved else false
