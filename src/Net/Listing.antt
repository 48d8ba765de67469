-- ===== src/Net/Listing.antt =====
-- What `lc_local_addresses` lists.
use Prim.Native.Nat.{bit_and}
use prosody.Base.{
  ℕ, zero, suc, ◌+◌, ◌<◌, ◌≡◌, ◌≢◌, ◌∙◌, ◌⊎◌, inl, inr, refl, sym, ap, Bool, true, false, not, ◌&&◌,
  ◌||◌, List, [], ◌∷◌, Option, none, some, Option-cases, Bool-cases, codes, get_or, get_elem?, ◌==◌,
  All, arith, if◌then◌else◌,
}
use prosody.Base.Bits.{digit}
use prosody.Base.Int.{ℤ}
use prosody.Base.Lua.{c_string, eq_bytes, ret}
use prosody.Net.{
  inet, inet6, Address, ipv4, ipv6, other, Interface, System, is_ip4_linklocal, iff_loopback,
  check_type, printed, tmp_of_address, tmp_of, list_loop, reply, local_addresses,
}
use prosody.Net.LinkLocal.{is_ip4_linklocal_iff, is_loopback_iff}

-- The bytes of an IPv4 address are below 256.
abbrev pub HasBytes : Interface → Type 0
HasBytes a = (bytes : List ℕ) → a.ifa_addr ≡ some (ipv4 bytes) → (i : ℕ) → get_or bytes i 0 < 256

-- What the tests of the loop tell.
not_both : (b x : Bool) → (not b && x) ≡ false → (b ≡ true) ⊎ (x ≡ false)
not_both true x e = inl refl
not_both false x e = inr e

printed-some : {text : List ℕ} (o : ℤ ⊎ List ℕ) → printed o ≡ some text → o ≡ inr text
printed-some (inl errno) e = absurd (ground (arith, e))
printed-some (inr s) e = ap (λ t. inr (text_of t)) e
  where
    text_of : Option (List ℕ) → List ℕ
    text_of none = []
    text_of (some t) = t

-- A table with a text at `n` and others behind it.
in_order :
    (table : ℕ → Option (List ℕ)) (n : ℕ) (text : List ℕ) (texts : List (List ℕ))
    → table n ≡ some text
    → ((i : ℕ) → table (n + 1 + i) ≡ get_elem? texts i)
    → (i : ℕ) → table (n + i) ≡ get_elem? (text ∷ texts) i
in_order table n text texts e h zero = let same : n + 0 ≡ n = omega arith in ap table same ∙ e
in_order table n text texts e h (suc i) =
    let same : n + suc i ≡ n + 1 + i = omega arith in ap table same ∙ h i

module _ (system : System) (type : ℕ) (link_local : Bool) where
  -- An interface shows a text: it is no loopback (digit 3 of its flags), its family is asked for (1 is
  -- IPv4 only, 2 IPv6 only), its address is link-local only where these are asked for, is no IPv6 form
  -- of an IPv4 address, and inet_ntop prints it as the text.
  pub data Shows (a : Interface) (text : List ℕ) : Type 0 where
    shows_ipv4 :
        (bytes : List ℕ)
        → a.ifa_addr ≡ some (ipv4 bytes)
        → digit 3 a.ifa_flags ≡ 0
        → type ≢ 2
        → (link_local ≡ true) ⊎ (¬ ((get_or bytes 0 0 ≡ 169) × (get_or bytes 1 0 ≡ 254)))
        → system.inet_ntop inet bytes ≡ inr text
        → Shows a text
    shows_ipv6 :
        (bytes : List ℕ)
        → a.ifa_addr ≡ some (ipv6 bytes)
        → digit 3 a.ifa_flags ≡ 0
        → type ≢ 1
        → (link_local ≡ true) ⊎ (system.is_linklocal bytes ≡ false)
        → system.is_v4mapped bytes ≡ false
        → system.is_v4compat bytes ≡ false
        → system.inet_ntop inet6 bytes ≡ inr text
        → Shows a text

  -- The texts of the interfaces that show one, in order.
  pub data Listing : List Interface → List (List ℕ) → Type 0 where
    end : Listing [] []
    shown :
        {a : Interface} {text : List ℕ} {rest : List Interface} {texts : List (List ℕ)}
        → Shows a text
        → Listing rest texts
        → Listing (a ∷ rest) (text ∷ texts)
    not_shown :
        {a : Interface} {rest : List Interface} {texts : List (List ℕ)}
        → ((text : List ℕ) → ¬ Shows a text)
        → Listing rest texts
        → Listing (a ∷ rest) texts

  module _ (t : type < 3) (a : Interface) (text : List ℕ) (h : HasBytes a) where
    address-Shows :
        (addr : Address)
        → a.ifa_addr ≡ some addr
        → digit 3 a.ifa_flags ≡ 0
        → tmp_of_address system type link_local addr ≡ some text
        → Shows a text
    unfolding tmp_of_address
    address-Shows (ipv4 bytes) e running told = elim (Bool-cases ((type == 0) || (type == 1))) [
      | inr unasked ↦ absurd (ground (arith, unasked, told))
      | inl asked ↦ elim (Bool-cases (not link_local && is_ip4_linklocal bytes)) [
        | inl skipped ↦ absurd (ground (arith, asked, skipped, told))
        | inr kept ↦
            shows_ipv4 bytes e running (ground (arith, asked))
              (elim (not_both link_local (is_ip4_linklocal bytes) kept) [
                | inl all ↦ inl all
                | inr differs ↦ inr (λ both.
                    absurd
                      (ground (arith, differs, (is_ip4_linklocal_iff bytes (h bytes e)).1 both)))
              ])
              (printed-some _ (ground (arith, asked, kept, told)))
      ]
    ]
    address-Shows (ipv6 bytes) e running told = elim (Bool-cases ((type == 0) || (type == 2))) [
      | inr unasked ↦ absurd (ground (arith, unasked, told))
      | inl asked ↦ elim (Bool-cases (not link_local && system.is_linklocal bytes)) [
        | inl skipped ↦ absurd (ground (arith, asked, skipped, told))
        | inr kept ↦ elim (Bool-cases (system.is_v4mapped bytes || system.is_v4compat bytes)) [
          | inl form ↦ absurd (ground (arith, asked, kept, form, told))
          | inr plain ↦
              shows_ipv6 bytes e running (ground (arith, asked))
                (not_both link_local (system.is_linklocal bytes) kept) (ground (arith, plain))
                (ground (arith, plain)) (printed-some _ (ground (arith, asked, kept, plain, told)))
        ]
      ]
    ]
    address-Shows other e running told = absurd (ground (arith, told))

    tmp_of-Shows : tmp_of system type link_local a ≡ some text → Shows a text
    unfolding tmp_of
    tmp_of-Shows told = elim (Option-cases a.ifa_addr) [
      | inl e ↦ absurd (ground (arith, e, told))
      | inr (addr, e) ↦ elim (Bool-cases (bit_and a.ifa_flags iff_loopback == 0)) [
        | inl up ↦
            address-Shows addr e ((is_loopback_iff a.ifa_flags).0 up)
              (sym (rw (e, up, tmp_of) refl) ∙ told)
        | inr down ↦ absurd (ground (arith, e, down, told))
      ]
    ]

    Shows-tmp_of : Shows a text → tmp_of system type link_local a ≡ some text
    unfolding tmp_of tmp_of_address
    Shows-tmp_of (shows_ipv4 bytes e running wanted local told) =
        let up = (is_loopback_iff a.ifa_flags).1 running in
        let asked : ((type == 0) || (type == 1)) ≡ true = ground arith in
        let kept : (not link_local && is_ip4_linklocal bytes) ≡ false =
          ground (arith, is_ip4_linklocal_iff bytes (h bytes e)) in
        rw (e, up, asked, kept, told) refl
    Shows-tmp_of (shows_ipv6 bytes e running wanted local mapped compat told) =
        let up = (is_loopback_iff a.ifa_flags).1 running in
        let asked : ((type == 0) || (type == 2)) ≡ true = ground arith in
        let kept : (not link_local && system.is_linklocal bytes) ≡ false = ground arith in
        rw (e, up, asked, kept, mapped, compat, told) refl

  none_told : {text : List ℕ} → none ≡ some text → ⊥
  none_told e = absurd (ground (arith, e))

  -- Keys below the next one are kept.
  list_loop-below :
      (addr : List Interface) (n : ℕ) (table : ℕ → Option (List ℕ)) (j : ℕ)
      → j < n
      → list_loop system type link_local addr n table j ≡ table j
  unfolding list_loop
  list_loop-below [] n table j h = refl
  list_loop-below (a ∷ rest) n table j h = elim (Option-cases (tmp_of system type link_local a)) [
    | inl e ↦ rw (e, list_loop) (list_loop-below rest n table j h)
    | inr (tmp, e) ↦
        let table' : ℕ → Option (List ℕ) = λ i. if i == n then some tmp else table i in
        let other_key : (j == n) ≡ false = ground arith in
        let kept : table' j ≡ table j = rw other_key refl in
        rw (e, list_loop) (list_loop-below rest (n + 1) table' j (omega arith) ∙ kept)
  ]

  pub list_loop-Listing :
      type < 3
      → (addr : List Interface) (n : ℕ) (table : ℕ → Option (List ℕ)) → All HasBytes addr
      → ((i : ℕ) → table (n + i) ≡ none)
      → (texts : List (List ℕ)) × ((i : ℕ)
          → list_loop system type link_local addr n table (n + i) ≡ get_elem? texts i)
        × Listing addr texts
  unfolding list_loop
  list_loop-Listing t [] n table h free = ([], free, end)
  list_loop-Listing t (a ∷ rest) n table h free =
      elim (Option-cases (tmp_of system type link_local a)) [
        | inl e ↦
            let more = list_loop-Listing t rest n table h.1 free in
            (
              more.0,
              λ i. rw (e, list_loop) (more.1 i),
              not_shown (λ text s. absurd (none_told (sym e ∙ Shows-tmp_of t a text h.0 s))) more.2,
            )
        | inr (tmp, e) ↦
            let table' : ℕ → Option (List ℕ) = λ i. if i == n then some tmp else table i in
            let at_n : (n == n) ≡ true = ground arith in
            let first : table' n ≡ some tmp = rw at_n refl in
            let more = list_loop-Listing t rest (n + 1) table' h.1 (λ i.
              let later : (n + 1 + i == n) ≡ false = ground arith in
              let key : n + 1 + i ≡ n + suc i = omega arith in
              rw later (ap table key ∙ free (suc i))) in
            (
              tmp ∷ more.0,
              in_order (list_loop system type link_local (a ∷ rest) n table) n tmp more.0
                  (rw (e, list_loop) (list_loop-below rest (n + 1) table' n (omega arith) ∙ first))
                  (λ i. rw (e, list_loop) (more.1 i)),
              shown (tmp_of-Shows t a tmp h.0 e) more.2,
            )
      ]

option_lt : (o : Option (List ℕ)) (type : ℕ) → check_type o ≡ ret type → type < 3
option_lt none type e = ground (arith, e)
option_lt (some s) type e = elim (Bool-cases (eq_bytes (codes "both") (c_string s))) [
  | inl b ↦ ground (arith, b, e)
  | inr b ↦ elim (Bool-cases (eq_bytes (codes "ipv4") (c_string s))) [
    | inl c ↦ ground (arith, b, c, e)
    | inr c ↦ elim (Bool-cases (eq_bytes (codes "ipv6") (c_string s))) [
      | inl d ↦ ground (arith, b, c, d, e)
      | inr d ↦ absurd (ground (arith, b, c, d, e))
    ]
  ]
]

-- For a type that is known, and where getifaddrs gives a list, `local_addresses` returns an array from
-- key 1 on without gaps: the texts of the interfaces of that list that show one, in order.
pub local_addresses-Listing :
    (system : System) (type_name : Option (List ℕ)) (type : ℕ) (link_local : Bool)
    → (addr : List Interface) → check_type type_name ≡ ret type
    → system.getifaddrs ≡ inr addr
    → All HasBytes addr
    → (texts : List (List ℕ)) × (table : ℕ → Option (List ℕ)) × (local_addresses system type_name
          link_local
        ≡ ret (inr table))
      × (table 0 ≡ none)
      × ((i : ℕ) → table (suc i) ≡ get_elem? texts i)
      × Listing system type link_local addr texts
unfolding local_addresses reply
local_addresses-Listing system type_name type link_local addr checked given h =
    let t = option_lt type_name type checked in
    let listed = list_loop-Listing system type link_local t addr 1 (λ j. none) h (λ i. refl) in
    (
      listed.0,
      list_loop system type link_local addr 1 (λ j. none),
      rw checked (ap (λ r. ret (reply system type link_local r)) given),
      list_loop-below system type link_local addr 1 (λ j. none) 0 (omega arith),
      λ i.
          (let key : suc i ≡ 1 + i = omega arith in
            ap (list_loop system type link_local addr 1 (λ j. none)) key ∙ listed.1 i),
      listed.2,
    )
