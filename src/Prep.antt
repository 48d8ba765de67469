-- ===== src/Prep.antt =====
-- util-src/encodings.c: stringprep, IDNA and skeletons, over the functions of the library that the
-- build chooses, as parameters.
pub mod Libidn
pub mod Icu

-- The profiles that are registered.
pub data Profile : Type 0 where
  nameprep nodeprep resourceprep saslprep : Profile
