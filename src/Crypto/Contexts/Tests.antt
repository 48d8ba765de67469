-- ===== src/Crypto/Contexts/Tests.antt =====
-- The objects of the small OpenSSL, and the theorems at it.
use prosody.Base.{ℕ, ◌≡◌, refl, true, false, some, [], ◌∷◌, codes, arith}
use prosody.Crypto.Small.{State, begin, small}
use prosody.Crypto.Evp.{push_pkey}
use prosody.Crypto.Contexts.{derive, import_public_ec_raw}
use prosody.Crypto.Contexts.Held.{Kind, context, parameters, builder, one, Counts, derive-held}
use prosody.Crypto.Contexts.Imported.{import_public_ec_raw-held}

abbrev held : Kind → State → ℕ
held context k = k.contexts
held parameters k = k.parameters
held builder k = k.builders

small-Counts : (kind : Kind) → Counts small kind (held kind)
unfolding one
small-Counts context = record {
  ctx_made = λ k pkey. omega arith;
  ec_made = λ k. omega arith;
  bld_made = λ k. omega arith;
  params_made = λ k b. omega arith;
  ctx_freed = λ k c h. omega (arith, h);
  params_freed = λ k p h. omega (arith, h);
  bld_freed = λ k b h. omega (arith, h);
  bio_made = λ k. refl;
  reset = λ k b. refl;
  derive_begun = λ k c. refl;
  peer_set = λ k c p. refl;
  measured = λ k c. refl;
  grown = λ k b n. refl;
  derived = λ k c. refl;
  grouped = λ k b s. refl;
  filled = λ k b s. refl;
  import_begun = λ k c. refl;
  made = λ k c p. refl;
}
small-Counts parameters = record {
  ctx_made = λ k pkey. omega arith;
  ec_made = λ k. omega arith;
  bld_made = λ k. omega arith;
  params_made = λ k b. omega arith;
  ctx_freed = λ k c h. omega (arith, h);
  params_freed = λ k p h. omega (arith, h);
  bld_freed = λ k b h. omega (arith, h);
  bio_made = λ k. refl;
  reset = λ k b. refl;
  derive_begun = λ k c. refl;
  peer_set = λ k c p. refl;
  measured = λ k c. refl;
  grown = λ k b n. refl;
  derived = λ k c. refl;
  grouped = λ k b s. refl;
  filled = λ k b s. refl;
  import_begun = λ k c. refl;
  made = λ k c p. refl;
}
small-Counts builder = record {
  ctx_made = λ k pkey. omega arith;
  ec_made = λ k. omega arith;
  bld_made = λ k. omega arith;
  params_made = λ k b. omega arith;
  ctx_freed = λ k c h. omega (arith, h);
  params_freed = λ k p h. omega (arith, h);
  bld_freed = λ k b h. omega (arith, h);
  bio_made = λ k. refl;
  reset = λ k b. refl;
  derive_begun = λ k c. refl;
  peer_set = λ k c p. refl;
  measured = λ k c. refl;
  grown = λ k b n. refl;
  derived = λ k c. refl;
  grouped = λ k b s. refl;
  filled = λ k b s. refl;
  import_begun = λ k c. refl;
  made = λ k c p. refl;
}

derive-held_example :
    (kind : Kind)
    → held kind (derive small begin (push_pkey (some 7) 408 true) (push_pkey (some 8) 408 false)).1
      ≡ held kind begin
derive-held_example =
    derive-held small held small-Counts begin (push_pkey (some 7) 408 true)
      (push_pkey (some 8) 408 false)

import_public_ec_raw-held_example :
    (import_public_ec_raw small begin (4 ∷ 1 ∷ []) (codes "P-256")).1.parameters ≡ 0
import_public_ec_raw-held_example =
    import_public_ec_raw-held small held small-Counts begin (4 ∷ 1 ∷ []) (codes "P-256") parameters
