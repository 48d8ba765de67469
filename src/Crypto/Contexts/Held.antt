-- ===== src/Crypto/Contexts/Held.antt =====
-- The objects that `derive` makes and releases.
use prosody.Base.{
  ℕ, ◌+◌, ◌≤◌, ◌≡◌, refl, ap, ◌∙◌, false, not, List, Option, none, some, Option-cases, inl, inr,
  arith,
}
use prosody.Base.Lua.{if_held, Value, Outcome, ret, raise, fault}
use prosody.Crypto.Evp.{Evp, Key, pkey_from_arg, with_pkey}
use prosody.Crypto.Keys.{failed, free_ctx}
use prosody.Crypto.Contexts.{derive_fails, derive_on, derive_with, derive}

-- The kinds of objects that are made and freed.
pub data Kind : Type 0 where
  context parameters builder : Kind

-- What one object of a kind adds to the number of those of another.
unfoldable pub one : Kind → Kind → ℕ
one context context = 1
one parameters parameters = 1
one builder builder = 1
one kind other = 0

-- Nothing for NULL.
abbrev pub size : ℕ → Option ℕ → ℕ
size weight none = 0
size weight (some object) = weight

-- What OpenSSL's manual says of the number of objects of one kind: a call that makes one of that kind
-- makes it where it does not give NULL, the kind's own free releases one, and the other calls do
-- neither.
pub record Counts {ℓ} {K : Type ℓ} (evp : Evp K) (kind : Kind) (held : K → ℕ) : Type ℓ where
  pub ctx_made :
      (k : K) (pkey : Option ℕ)
      → held (evp.ctx_new k pkey).1 ≡ held k + size (one kind context) (evp.ctx_new k pkey).0
  pub ec_made :
      (k : K) → held (evp.ctx_new_ec k).1 ≡ held k + size (one kind context) (evp.ctx_new_ec k).0
  pub bld_made :
      (k : K) → held (evp.bld_new k).1 ≡ held k + size (one kind builder) (evp.bld_new k).0
  pub params_made :
      (k : K) (b : ℕ)
      → held (evp.to_param k b).1 ≡ held k + size (one kind parameters) (evp.to_param k b).0
  pub ctx_freed :
      (k : K) (c : ℕ)
      → one kind context ≤ held k
      → held (evp.ctx_free k (some c)) + one kind context ≡ held k
  pub params_freed :
      (k : K) (p : ℕ)
      → one kind parameters ≤ held k
      → held (evp.params_free k p) + one kind parameters ≡ held k
  pub bld_freed :
      (k : K) (b : ℕ)
      → one kind builder ≤ held k
      → held (evp.bld_free k b) + one kind builder ≡ held k
  pub bio_made : (k : K) → held (evp.bio_new k).1 ≡ held k
  pub reset : (k : K) (b : ℕ) → held (evp.bio_reset k b) ≡ held k
  pub derive_begun : (k : K) (c : ℕ) → held (evp.derive_init k c).1 ≡ held k
  pub peer_set : (k : K) (c : ℕ) (p : Option ℕ) → held (evp.set_peer k c p).1 ≡ held k
  pub measured : (k : K) (c : ℕ) → held (evp.derive_length k c).2 ≡ held k
  pub grown : (k : K) (b n : ℕ) → held (evp.grow k b n).1 ≡ held k
  pub derived : (k : K) (c : ℕ) → held (evp.derive k c).2 ≡ held k
  pub grouped : (k : K) (b : ℕ) (s : List ℕ) → held (evp.push_group k b s).1 ≡ held k
  pub filled : (k : K) (b : ℕ) (s : List ℕ) → held (evp.push_pub k b s).1 ≡ held k
  pub import_begun : (k : K) (c : ℕ) → held (evp.fromdata_init k c).1 ≡ held k
  pub made : (k : K) (c p : ℕ) → held (evp.fromdata k c p).2 ≡ held k

with_pkey-held {ℓ} :
    {K : Type ℓ} (held : K → ℕ) (k : K) (o : Outcome (Option ℕ)) (f : Option ℕ → Outcome Value × K)
    → ((pkey : Option ℕ) → held (f pkey).1 ≡ held k)
    → held (with_pkey o k f).1 ≡ held k
with_pkey-held held k (ret pkey) f h = h pkey
with_pkey-held held k raise f h = refl
with_pkey-held held k fault f h = refl

module _ {ℓ} {K : Type ℓ} (evp : Evp K) (kind : Kind) (held : K → ℕ)
    (counts : Counts evp kind held) where
  pub free_ctx-held :
      (k : K) (ctx : Option ℕ) (n : ℕ)
      → held k ≡ n + size (one kind context) ctx
      → held (free_ctx evp k ctx) ≡ n
  unfolding free_ctx
  free_ctx-held k none n e = e ∙ omega arith
  free_ctx-held k (some ctx) n e =
      let less = counts.ctx_freed k ctx (omega (arith, e)) in omega (arith, less, e)

  derive_fails-held :
      (k : K) (bio : ℕ) (ctx : Option ℕ) (n : ℕ)
      → held k ≡ n + size (one kind context) ctx
      → held (derive_fails evp k bio ctx).1 ≡ n
  unfolding derive_fails
  derive_fails-held k bio ctx n e = counts.reset _ bio ∙ free_ctx-held k ctx n e

  derive_on-held :
      (k : K) (bio ctx : ℕ) (peer : Option ℕ) (n : ℕ)
      → held k ≡ n + one kind context
      → held (derive_on evp k bio ctx peer).1 ≡ n
  unfolding derive_on
  derive_on-held k bio ctx peer n e =
      let begun = evp.derive_init k ctx in
      let with_peer = evp.set_peer begun.1 ctx peer in
      let measured = evp.derive_length with_peer.1 ctx in
      let grown = evp.grow measured.2 bio measured.1 in
      let derived = evp.derive grown.1 ctx in
      let h1 = counts.derive_begun k ctx ∙ e in
      let h2 = counts.peer_set begun.1 ctx peer ∙ h1 in
      let h3 = counts.measured with_peer.1 ctx ∙ h2 in
      let h4 = counts.grown measured.2 bio measured.1 ∙ h3 in
      let h5 = counts.derived grown.1 ctx ∙ h4 in
      let last = counts.ctx_freed derived.2 ctx (omega (arith, h5)) in
      if_held held n (failed begun.0) _ _ (derive_fails-held begun.1 bio (some ctx) n h1) (
        if_held held n (failed with_peer.0) _ _ (derive_fails-held with_peer.1 bio (some ctx) n h2)
          (if_held held n (failed measured.0) _ _ (derive_fails-held measured.2 bio (some ctx) n h3)
            (if_held held n (not grown.0) _ _ (derive_fails-held grown.1 bio (some ctx) n h4) (
              if_held held n (failed derived.0) _ _
                (derive_fails-held derived.2 bio (some ctx) n h5)
                (counts.reset _ bio ∙ omega (arith, last, h5))))))

  derive_with-held :
      (k : K) (bio : ℕ) (key peer : Option ℕ) → held (derive_with evp k bio key peer).1 ≡ held k
  unfolding derive_with
  derive_with-held k bio key peer =
      let made = evp.ctx_new k key in
      let n = counts.ctx_made k key in
      elim (Option-cases made.0) [
        | inl e ↦
            rw (e, derive_with)
              (derive_fails-held made.1 bio none (held k)
                (n ∙ ap (λ o. held k + size (one kind context) o) e))
        | inr (ctx, e) ↦
            rw (e, derive_with)
              (derive_on-held made.1 bio ctx peer (held k)
                (n ∙ ap (λ o. held k + size (one kind context) o) e))
      ]

  on_bio-held :
      (made : Option ℕ × K) (key peer : Option ℕ)
      → (let done : Outcome Value × K = elim made.0 [
        | none ↦ (raise, made.1)
        | some bio ↦ derive_with evp made.1 bio key peer
      ] in
          held done.1 ≡ held made.1)
  on_bio-held (none, k) key peer = refl
  on_bio-held (some bio, k) key peer = derive_with-held k bio key peer

-- Where OpenSSL counts its objects as its manual says, on each path through `derive`, whether it
-- returns or raises an error, of each kind as many objects are held afterwards as before: the context
-- that it makes is released once.
pub derive-held {ℓ} :
    {K : Type ℓ} (evp : Evp K) (held : Kind → K → ℕ)
    → ((kind : Kind) → Counts evp kind (held kind))
    → (k : K) (key peer : Key) (kind : Kind) → held kind (derive evp k key peer).1 ≡ held kind k
unfolding derive
derive-held evp held counts k key peer kind =
    with_pkey-held (held kind) k (pkey_from_arg key 0 false) _ λ own.
      with_pkey-held (held kind) k (pkey_from_arg peer 0 false) _ λ other.
        on_bio-held evp kind (held kind) (counts kind) (evp.bio_new k) own other
        ∙ (counts kind).bio_made k
