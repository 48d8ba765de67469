-- ===== src/Crypto/Small.antt =====
-- A small OpenSSL, on which the theorems about keys are tried.
use prosody.Base.{ℕ, ◌+◌, ◌-◌, Bool, true, false, List, [], ◌∷◌, Option, none, some}
use prosody.Base.Int.{pos}
use prosody.Base.Lua.{eq_bytes}
use prosody.Crypto.Evp.{Evp, Digest}

-- The numbers of contexts, parameters and builders that are held, what the context is set up for, and what the BIO holds.
pub record State : Type 0 where
  pub contexts : ℕ
  pub parameters : ℕ
  pub builders : ℕ
  pub setting : Option Digest × Bool × Option ℕ
  pub content : List ℕ

-- A signature is the message, behind the padding and the key.
abbrev pub signature : Option Digest × Bool × Option ℕ → List ℕ → List ℕ
signature s msg = elim s.1 [ false ↦ 0 | true ↦ 1 ] ∷ elim s.2 [ none ↦ 0 | some pkey ↦ pkey ] ∷ msg

abbrev pub add_context : State → State
add_context k = record k { contexts = k.contexts + 1 }

abbrev pub set_up : State → Option Digest × Bool × Option ℕ → State
set_up k s = record k { setting = s }

abbrev pub holding : State → List ℕ → State
holding k bytes = record k { content = bytes }

-- A key is written as one byte.
abbrev pub pem_of : Option ℕ → List ℕ
pem_of none = []
pem_of (some pkey) = pkey ∷ []

abbrev pub first : List ℕ → Option ℕ
first [] = none
first (b ∷ bytes) = some b

abbrev pub begin : State
begin = record {
  contexts = 0;
  parameters = 0;
  builders = 0;
  setting = (none, false, none);
  content = [];
}

abbrev pub small : Evp State
small = record {
  md_ctx_new = λ k. (some 1, k);
  md_ctx_free = λ k ctx. k;
  sign_init = λ k ctx digest pkey. (pos 1, set_up k (digest, false, pkey));
  sign_length = λ k ctx msg. (pos 1, 8, k);
  digest_sign = λ k ctx msg. (pos 1, signature k.setting msg, k);
  verify_init = λ k ctx digest pkey. (pos 1, set_up k (digest, false, pkey));
  digest_verify = λ k ctx sig msg.
      (elim (eq_bytes sig (signature k.setting msg)) [ false ↦ pos 0 | true ↦ pos 1 ], k);
  set_pss_padding = λ k ctx. set_up k (k.setting.0, true, k.setting.2);
  pkey_id = λ pkey. 408;
  nid2sn = λ nid. [];
  pkey_free = λ k pkey. k;
  todata = λ k pkey. (none, k);
  param_free = λ k. k;
  bio_new = λ k. (some 2, holding k []);
  bio_write = λ k bio bytes n. holding k bytes;
  bio_data = λ k bio. k.content;
  write_public = λ k bio pkey. (true, k);
  write_private = λ k bio pkey. (true, holding k (pem_of pkey));
  read_public = λ k bio. (some 5, k);
  read_private = λ k bio. (first k.content, k);
  ctx_new = λ k pkey. (some 3, add_context k);
  ctx_new_id = λ k nid. (some 3, add_context k);
  ctx_new_ec = λ k. (some 3, add_context k);
  ctx_free = λ k ctx. record k { contexts = k.contexts - 1 };
  keygen_init = λ k ctx. (pos 1, k);
  set_curve = λ k ctx nid. (pos 1, k);
  keygen = λ k ctx. (pos 1, some 9, k);
  derive_init = λ k ctx. (pos 1, k);
  set_peer = λ k ctx pkey. (pos 1, k);
  derive_length = λ k ctx. (pos 1, 4, k);
  grow = λ k bio n. (true, k);
  derive = λ k ctx. (pos 1, 1 ∷ 2 ∷ 3 ∷ 4 ∷ [], k);
  bio_reset = λ k bio. k;
  bld_new = λ k. (some 6, record k { builders = k.builders + 1 });
  push_group = λ k bld curve. (true, k);
  push_pub = λ k bld pubkey. (true, k);
  to_param = λ k bld. (some 4, record k { parameters = k.parameters + 1 });
  params_free = λ k params. record k { parameters = k.parameters - 1 };
  bld_free = λ k bld. record k { builders = k.builders - 1 };
  fromdata_init = λ k ctx. (true, k);
  fromdata = λ k ctx params. (pos 1, some 9, k);
}
