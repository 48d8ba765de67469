-- ===== src/Ring/Splice/Place.antt =====
-- Where in the storage the bytes between two offsets lie.
use prosody.Base.{
  ℕ, ◌+◌, ◌-◌, ◌%◌, ◌≤◌, ◌<◌, ◌≡◌, refl, List, ◌++◌, length, get_or, take, drop, tabulate, arith,
  ap, ap₂, ◌∙◌, sym, tabulate-append, tabulate_ext, tabulate_cong, length-tabulate, take-tabulate,
  drop-tabulate, if◌then◌else◌, ltb,
}
use prosody.Ring.{Ring}
use prosody.Ring.Inv.{IsValid, byte_at, contents, wrap_index}

-- The index that `wrap_pos` gives for an offset; the end of the storage counts as an index.
abbrev pub place : Ring → ℕ → ℕ
place b i = if ltb b.alen (i + b.rpos) then i - (b.alen - b.rpos) else b.rpos + i

-- The bytes of the ring from offset `s` up to offset `e`.
abbrev pub picked : Ring → ℕ → ℕ → List ℕ
picked b s e = take (e - s) (drop s (contents b))

module _ {b : Ring} (v : IsValid b) (s e : ℕ) (lt : s < e) (fits : e ≤ b.blen) where
  pub place-le-alen : (place b s ≤ b.alen) × (place b e ≤ b.alen)
  place-le-alen = ground arith

  picked-tabulate : picked b s e ≡ tabulate (e - s) (λ i. byte_at b (s + i))
  picked-tabulate =
      ap (take (e - s)) (drop-tabulate s b.blen (byte_at b))
      ∙ take-tabulate (e - s) (b.blen - s) (λ i. byte_at b (s + i)) (omega arith)

  pub length-picked : length (picked b s e) ≡ e - s
  length-picked = ap length picked-tabulate ∙ length-tabulate (e - s) (λ i. byte_at b (s + i))

  straight_index :
      place b s < place b e → (i : ℕ) → i < e - s → place b s + i ≡ (b.rpos + (s + i)) % b.alen
  straight_index h i p = ground (arith, v, wrap_index b.rpos (s + i) b.alen)

  pub straight_length : place b s < place b e → place b e - place b s ≡ e - s
  straight_length h = ground (arith, v)

  pub straight :
      place b s < place b e
      → tabulate (place b e - place b s) (λ i. get_or b.buffer (place b s + i) 0) ≡ picked b s e
  straight h =
      tabulate_cong _ (e - s) _ _ (straight_length h) (λ i p.
        ap (λ k. get_or b.buffer k 0) (straight_index h i (omega (arith, straight_length h))))
      ∙ sym picked-tabulate

  pub wrapped_length : place b e ≤ place b s → (b.alen - place b s) + place b e ≡ e - s
  wrapped_length h = ground (arith, v)

  front_index :
      place b e ≤ place b s
      → (i : ℕ) → i < b.alen - place b s
      → place b s + i ≡ (b.rpos + (s + i)) % b.alen
  front_index h i p = ground (arith, v, wrap_index b.rpos (s + i) b.alen)

  back_index :
      place b e ≤ place b s
      → (i : ℕ) → i < place b e
      → 0 + i ≡ (b.rpos + (s + (b.alen - place b s + i))) % b.alen
  back_index h i p = ground (arith, v, wrap_index b.rpos (s + (b.alen - place b s + i)) b.alen)

  pub wrapped :
      place b e ≤ place b s
      → tabulate (b.alen - place b s) (λ i. get_or b.buffer (place b s + i) 0)
          ++ tabulate (place b e) (λ i. get_or b.buffer (0 + i) 0)
        ≡ picked b s e
  wrapped h =
      ap₂ ◌++◌ (tabulate_ext _ _ _ (λ i p. ap (λ k. get_or b.buffer k 0) (front_index h i p)))
        (tabulate_ext _ _ _ (λ i p. ap (λ k. get_or b.buffer k 0) (back_index h i p)))
      ∙ sym (tabulate-append (b.alen - place b s) (place b e) (λ i. byte_at b (s + i)))
      ∙ tabulate_cong _ (e - s) _ _ (wrapped_length h) (λ i p. refl)
      ∙ sym picked-tabulate
