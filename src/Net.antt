-- ===== src/Net.antt =====
-- util-src/net.c: `util.net` as it is built for other systems than Windows. Network addresses are
-- their bytes. getifaddrs, inet_pton, inet_ntop and the macros of netinet/in.h are parameters.
pub mod LinkLocal
pub mod Listing
pub mod RoundTrip
mod Tests
use Prim.Native.Nat.{bit_and}
use prosody.Base.{
  ℕ, zero, suc, ◌+◌, ◌-◌, ◌*◌, ◌/◌, ◌%◌, ◌^◌, ◌⊎◌, inl, inr, Bool, true, false, not, ◌&&◌, ◌||◌,
  List, [], ◌∷◌, ◌++◌, Option, none, some, length, get_or, take, ◌==◌, if◌then◌else◌, codes,
}
use prosody.Base.Int.{ℤ, pos}
use prosody.Base.Lua.{
  c_string, check_option, Value, nil, integer, string, Outcome, ret, raise, ◌>>=◌,
}

-- AF_INET and AF_INET6
pub data Family : Type 0 where
  inet inet6 : Family

-- `ifa_addr` with what it holds, and `none` for NULL; `other` is an address of another family.
pub data Address : Type 0 where
  ipv4 ipv6 : List ℕ → Address
  other : Address

-- `struct ifaddrs`
pub record Interface : Type 0 where
  pub ifa_addr : Option Address
  pub ifa_flags : ℕ

-- What inet_pton gives: 1 with the address, 0, or -1 with `errno`.
pub data Parsed : Type 0 where
  address : List ℕ → Parsed
  invalid : Parsed
  unsupported : ℤ → Parsed

-- The system. `inl` is a failure, with `errno`.
pub record System : Type 0 where
  pub getifaddrs : ℤ ⊎ List Interface
  pub inet_pton : Family → List ℕ → Parsed
  pub inet_ntop : Family → List ℕ → ℤ ⊎ List ℕ
  pub is_linklocal : List ℕ → Bool
  pub is_v4mapped : List ℕ → Bool
  pub is_v4compat : List ℕ → Bool
  pub strerror : ℤ → List ℕ
  pub getifaddrs_failed : ℤ → List ℕ

-- `htonl` on a target that stores the lowest byte first.
pub htonl : ℕ → ℕ
htonl n =
    (n % 256) * 2 ^ 24
    + ((n / 2 ^ 8) % 256) * 2 ^ 16
    + ((n / 2 ^ 16) % 256) * 2 ^ 8
    + ((n / 2 ^ 24) % 256)

-- `s_addr`, the four bytes of an address as a `uint32_t` of such a target.
pub s_addr : List ℕ → ℕ
s_addr bytes =
    get_or bytes 0 0
    + get_or bytes 1 0 * 2 ^ 8
    + get_or bytes 2 0 * 2 ^ 16
    + get_or bytes 3 0 * 2 ^ 24

-- `(sin_addr.s_addr & ip4_mask) == ip4_linklocal`
pub is_ip4_linklocal : List ℕ → Bool
is_ip4_linklocal bytes = bit_and (s_addr bytes) (htonl 4294901760) == htonl 2851995648

abbrev pub iff_loopback : ℕ
iff_loopback = 8

abbrev pub type_strings : List (List ℕ)
type_strings = codes "both" ∷ codes "ipv4" ∷ codes "ipv6" ∷ []

abbrev pub check_type : Option (List ℕ) → Outcome ℕ
check_type none = ret 0
check_type (some s) = check_option type_strings s

-- The result of inet_ntop as `tmp`; `none` is NULL.
abbrev pub printed : ℤ ⊎ List ℕ → Option (List ℕ)
printed (inl errno) = none
printed (inr s) = some s

abbrev pub einval : ℤ
einval = pos 22

abbrev pub eafnosupport : ℤ
eafnosupport = pos 97

module _ (system : System) where
  -- The body of the loop of `lc_local_addresses` from the choice by the family to the test of `tmp`;
  -- `none` is a `continue` or NULL.
  pub tmp_of_address : ℕ → Bool → Address → Option (List ℕ)
  tmp_of_address type link_local (ipv4 bytes) =
      if (type == 0) || (type == 1)
      then (if not link_local && is_ip4_linklocal bytes
          then none
          else printed (system.inet_ntop inet bytes))
      else none
  tmp_of_address type link_local (ipv6 bytes) =
      if (type == 0) || (type == 2)
      then (if not link_local && system.is_linklocal bytes
          then none
          else if system.is_v4mapped bytes || system.is_v4compat bytes
          then none
          else printed (system.inet_ntop inet6 bytes))
      else none
  tmp_of_address type link_local other = none

  -- The whole body up to that test.
  pub tmp_of : ℕ → Bool → Interface → Option (List ℕ)
  tmp_of type link_local a = elim a.ifa_addr [
    | none ↦ none
    | some addr ↦
        if not (bit_and a.ifa_flags iff_loopback == 0)
        then none
        else tmp_of_address type link_local addr
  ]

  -- The loop, with the table that it fills and `n`, the next key.
  pub list_loop : ℕ → Bool → List Interface → ℕ → (ℕ → Option (List ℕ)) → ℕ → Option (List ℕ)
  list_loop type link_local [] n table = table
  list_loop type link_local (a ∷ rest) n table = elim (tmp_of type link_local a) [
    | none ↦ list_loop type link_local rest n table
    | some tmp ↦ list_loop type link_local rest (n + 1) (λ j. if j == n then some tmp else table j)
  ]

  -- The part of `lc_local_addresses` behind getifaddrs: the table, or what is returned of a failure.
  pub reply : ℕ → Bool → ℤ ⊎ List Interface → List Value ⊎ (ℕ → Option (List ℕ))
  reply type link_local (inl errno) = inl (nil ∷ string (system.getifaddrs_failed errno) ∷ [])
  reply type link_local (inr addr) = inr (list_loop type link_local addr 1 (λ j. none))

  pub local_addresses : Option (List ℕ) → Bool → Outcome (List Value ⊎ (ℕ → Option (List ℕ)))
  local_addresses type_name link_local =
      check_type type_name >>= λ type. ret (reply type link_local system.getifaddrs)

  -- nil, the text of an error and its number.
  abbrev pub failure : ℤ → List Value
  failure errno = nil ∷ string (system.strerror errno) ∷ integer errno ∷ []

-- `strchr(ipaddr, ':')`
pub has_colon : List ℕ → Bool
has_colon [] = false
has_colon (c ∷ rest) = (c == 58) || has_colon rest

abbrev pub address_size : Family → ℕ
address_size inet = 4
address_size inet6 = 16

module _ (system : System) where
  -- The part of `lc_pton` behind the choice of the family.
  pub pton_as : Family → List ℕ → List Value
  pton_as family ipaddr = elim (system.inet_pton family ipaddr) [
    | address buf ↦ string (take (address_size family) buf) ∷ []
    | unsupported errno ↦ failure system errno
    | invalid ↦ failure system einval
  ]

  -- `lc_pton`
  pub pton : List ℕ → List Value
  pton arg = let ipaddr = c_string arg in pton_as (if has_colon ipaddr then inet6 else inet) ipaddr

  -- The part of `lc_ntop` behind the choice of the family.
  pub ntop_as : Family → List ℕ → List Value
  ntop_as family ipaddr = elim (system.inet_ntop family ipaddr) [
    | inl errno ↦ failure system errno
    | inr buf ↦ string buf ∷ []
  ]

  -- `lc_ntop`
  pub ntop : List ℕ → List Value
  ntop ipaddr =
      if length ipaddr == 16
      then ntop_as inet6 ipaddr
      else if length ipaddr == 4
      then ntop_as inet ipaddr
      else failure system (eafnosupport)
