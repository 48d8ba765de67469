-- ===== src/Net/LinkLocal.antt =====
-- The masks of `lc_local_addresses`.
use Prim.Native.Nat.{bit_and, min}
use prosody.Base.{
  ℕ, zero, suc, ◌+◌, ◌*◌, ◌/◌, ◌%◌, ◌<◌, ◌≡◌, ◌↔◌, ◌∙◌, refl, ap, ap₂, true, List, get_or, ◌==◌,
  arith,
}
use prosody.Base.Bits.{digit, bit_and_lowest}
use prosody.Net.{htonl, s_addr, is_ip4_linklocal, iff_loopback}

-- The number with `w` binary digits that are all 1, and `q` moved up by `w` digits.
abbrev ones : ℕ → ℕ
ones zero = 0
ones (suc w) = ones w * 2 + 1

abbrev move_up : ℕ → ℕ → ℕ
move_up zero q = q
move_up (suc w) q = move_up w q * 2

bit_and-zero : (n x : ℕ) → x < n → bit_and x 0 ≡ 0
bit_and-zero zero x h = absurd (omega arith)
bit_and-zero (suc n) zero h = refl
bit_and-zero (suc n) (suc x) h =
    omega (arith, bit_and_lowest (suc x) 0, bit_and-zero n (suc x / 2) (omega arith))

-- A mask of ones keeps the low digits.
bit_and-ones : (w low q : ℕ) → low < move_up w 1 → bit_and (low + move_up w q) (ones w) ≡ low
bit_and-ones zero low q h = omega (arith, bit_and-zero (suc (low + q)) (low + q) (omega arith))
bit_and-ones (suc w) low q h =
    let x = low + move_up w q * 2 in
    let half : x / 2 ≡ low / 2 + move_up w q = omega arith in
    let mask : (ones w * 2 + 1) / 2 ≡ ones w = omega arith in
    let first : bit_and x (ones w * 2 + 1)
        ≡ bit_and (low / 2 + move_up w q) (ones w) * 2 + min (x % 2) ((ones w * 2 + 1) % 2) =
      bit_and_lowest x (ones w * 2 + 1)
      ∙ ap₂ (λ a b. bit_and a b * 2 + min (x % 2) ((ones w * 2 + 1) % 2)) half mask in
    omega (arith, first, bit_and-ones w (low / 2) q (omega arith))

-- The test is for 169.254.0.0/16.
pub is_ip4_linklocal_iff :
    (bytes : List ℕ)
    → ((i : ℕ) → get_or bytes i 0 < 256)
    → (is_ip4_linklocal bytes ≡ true) ↔ ((get_or bytes 0 0 ≡ 169) × (get_or bytes 1 0 ≡ 254))
unfolding is_ip4_linklocal s_addr htonl
is_ip4_linklocal_iff bytes small =
    let low = get_or bytes 0 0 + get_or bytes 1 0 * 256 in
    let high = get_or bytes 2 0 + get_or bytes 3 0 * 256 in
    let masked = bit_and-ones 16 low high (omega (arith, small 0, small 1)) in
    let word : s_addr bytes ≡ low + move_up 16 high = omega arith in
    let all : bit_and (s_addr bytes) 65535 ≡ low = ap (λ a. bit_and a 65535) word ∙ masked in
    let b0 = small 0 in let b1 = small 1 in ground (arith, all)

-- IFF_LOOPBACK is the digit 3 of the flags.
pub is_loopback_iff : (flags : ℕ) → ((bit_and flags iff_loopback == 0) ≡ true) ↔ (digit 3 flags ≡ 0)
is_loopback_iff flags =
    let top = flags / 2 / 2 / 2 in
    let nothing = bit_and-zero (suc (top / 2)) (top / 2) (omega arith) in
    let all : bit_and flags 8 ≡ (top % 2) * 8 = omega (
      arith,
      bit_and_lowest flags 8,
      bit_and_lowest (flags / 2) 4,
      bit_and_lowest (flags / 2 / 2) 2,
      bit_and_lowest top 1,
      nothing,
    ) in
    ground (arith, all)
