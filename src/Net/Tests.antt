-- ===== src/Net/Tests.antt =====
-- A small system with its interfaces, and the theorems at it. It prints a byte as one letter.
use prosody.Base.{
  ℕ, zero, suc, ◌+◌, ◌-◌, ◌<◌, ◌≡◌, ◌∙◌, ◌⊎◌, inl, inr, refl, sym, ap, subst, true, false, List, [],
  ◌∷◌, Option, none, some, get_elem?, get_or, All, arith, ◌==◌,
}
use prosody.Base.Int.{ℤ}
use prosody.Base.Lua.{string, ret}
use prosody.Net.{
  Family, inet, inet6, Address, ipv4, ipv6, Interface, Parsed, address, System, has_colon, ntop,
  pton, local_addresses, list_loop, tmp_of, tmp_of_address, is_ip4_linklocal, s_addr, htonl,
}
use prosody.Net.Listing.{HasBytes, Listing, local_addresses-Listing}
use prosody.Net.RoundTrip.{IsText, is_inet6, pton-ntop}

abbrev letters : List ℕ → List ℕ
letters [] = []
letters (b ∷ rest) = (b + 64) ∷ letters rest

abbrev from_letters : List ℕ → List ℕ
from_letters [] = []
from_letters (c ∷ rest) = (c - 64) ∷ from_letters rest

abbrev after_colon : List ℕ → List ℕ
after_colon [] = []
after_colon (c ∷ rest) = rest

abbrev loopback : Interface
loopback = record { ifa_addr = some (ipv4 (127 ∷ 0 ∷ 0 ∷ 1 ∷ [])); ifa_flags = 73 }

abbrev reachable : Interface
reachable = record { ifa_addr = some (ipv4 (192 ∷ 0 ∷ 2 ∷ 1 ∷ [])); ifa_flags = 67 }

abbrev local : Interface
local = record { ifa_addr = some (ipv4 (169 ∷ 254 ∷ 0 ∷ 9 ∷ [])); ifa_flags = 67 }

abbrev interfaces : List Interface
interfaces = loopback ∷ reachable ∷ local ∷ []

abbrev small : System
small = record {
  getifaddrs = inr interfaces;
  inet_pton = λ family text. parse family text;
  inet_ntop = λ family bytes. print family bytes;
  is_linklocal = λ bytes. false;
  is_v4mapped = λ bytes. false;
  is_v4compat = λ bytes. false;
  strerror = λ errno. [];
  getifaddrs_failed = λ errno. [];
}
  where
    parse : Family → List ℕ → Parsed
    parse inet text = address (from_letters text)
    parse inet6 text = address (from_letters (after_colon text))

    print : Family → List ℕ → ℤ ⊎ List ℕ
    print inet bytes = inr (letters bytes)
    print inet6 bytes = inr (58 ∷ letters bytes)

letters-IsText : (bytes : List ℕ) → IsText (letters bytes)
letters-IsText [] = tt
letters-IsText (b ∷ rest) = (λ e. omega arith, letters-IsText rest)

no_colon : (bytes : List ℕ) → has_colon (letters bytes) ≡ false
unfolding has_colon
no_colon [] = refl
no_colon (b ∷ rest) =
    let other : (b + 64 == 58) ≡ false = ground arith in rw (other, no_colon rest) refl

from_letters_lem : (bytes : List ℕ) → from_letters (letters bytes) ≡ bytes
from_letters_lem [] = refl
from_letters_lem (b ∷ rest) =
    let same : b + 64 - 64 ≡ b = omega arith in rw (same, from_letters_lem rest) refl

text_of : ℤ ⊎ List ℕ → List ℕ
text_of (inl errno) = []
text_of (inr text) = text

reads_back :
    (family : Family) (bytes text : List ℕ)
    → small.inet_ntop family bytes ≡ inr text
    → IsText text
      × (has_colon text ≡ is_inet6 family)
      × (small.inet_pton family text ≡ address bytes)
unfolding has_colon text_of
reads_back inet bytes text e =
    subst (λ s. IsText s × (has_colon s ≡ false) × (small.inet_pton inet s ≡ address bytes))
      (ap text_of e) (letters-IsText bytes, no_colon bytes, ap address (from_letters_lem bytes))
reads_back inet6 bytes text e =
    subst (λ s. IsText s × (has_colon s ≡ true) × (small.inet_pton inet6 s ≡ address bytes))
      (ap text_of e)
      ((λ z. omega arith, letters-IsText bytes), refl, ap address (from_letters_lem bytes))

abbrev documented : List ℕ
documented = 192 ∷ 0 ∷ 2 ∷ 1 ∷ []

pton-ntop_example :
    (ntop small documented ≡ string (letters documented) ∷ [])
    × (pton small (letters documented) ≡ string documented ∷ [])
pton-ntop_example = pton-ntop small reads_back inet documented (letters documented) refl refl

bytes_of : Option Address → List ℕ
bytes_of none = []
bytes_of (some (ipv4 bytes)) = bytes
bytes_of (some (ipv6 bytes)) = bytes
bytes_of (some Address.other) = []

four-HasBytes :
    (a : Interface) (x0 x1 x2 x3 : ℕ)
    → x0 < 256
    → x1 < 256
    → x2 < 256
    → x3 < 256
    → a.ifa_addr ≡ some (ipv4 (x0 ∷ x1 ∷ x2 ∷ x3 ∷ []))
    → HasBytes a
unfolding bytes_of
four-HasBytes a x0 x1 x2 x3 h0 h1 h2 h3 e bytes e' i =
    subst (λ s. get_or s i 0 < 256) (ap bytes_of (sym e ∙ e')) (at i)
  where
    at : (j : ℕ) → get_or (x0 ∷ x1 ∷ x2 ∷ x3 ∷ []) j 0 < 256
    at zero = h0
    at (suc zero) = h1
    at (suc (suc zero)) = h2
    at (suc (suc (suc zero))) = h3
    at (suc (suc (suc (suc j)))) = omega arith

interfaces-HasBytes : All HasBytes interfaces
interfaces-HasBytes = (
  four-HasBytes loopback 127 0 0 1 (omega arith) (omega arith) (omega arith) (omega arith) refl,
  (
    four-HasBytes reachable 192 0 2 1 (omega arith) (omega arith) (omega arith) (omega arith) refl,
    (
      four-HasBytes local 169 254 0 9 (omega arith) (omega arith) (omega arith) (omega arith) refl,
      tt,
    ),
  ),
)

-- Only the second is listed.
listed : list_loop small 0 false interfaces 1 (λ j. none) 1 ≡ some (letters documented)
unfolding list_loop tmp_of tmp_of_address is_ip4_linklocal s_addr htonl
listed = refl

listed_once : list_loop small 0 false interfaces 1 (λ j. none) 2 ≡ none
unfolding list_loop tmp_of tmp_of_address is_ip4_linklocal s_addr htonl
listed_once = refl

local_addresses-Listing_example :
    (texts : List (List ℕ)) × (table : ℕ → Option (List ℕ)) × (local_addresses small none false
      ≡ ret (inr table))
    × (table 0 ≡ none)
    × ((i : ℕ) → table (suc i) ≡ get_elem? texts i)
    × Listing small 0 false interfaces texts
local_addresses-Listing_example =
    local_addresses-Listing small none 0 false interfaces refl refl interfaces-HasBytes
