-- ===== src/Legacy/Scheme/RoundTrip.antt =====
-- The schemes are read back.
use go_tpm.Base.{
  ℕ, ◌^◌, ◌⊎◌, not_both, ◌<◌, ◌≡◌, refl, sym, arith, true, false, [], ◌++◌, append_assoc, Option,
  none, some, ◌==◌, Bool-cases, inl, inr,
}
use go_tpm.Base.Bytes.{put_be}
use go_tpm.Tpm2.Reflect.Types.{w16, w32}
use go_tpm.Tpmutil.Encoding.{pack_values, pack_value}
use go_tpm.Legacy.Wire.{pack}
use go_tpm.Legacy.Wire.Back.{ReadsBack, unpack_num-put_be}
use go_tpm.Legacy.Algorithm.{alg_null, is_null, uses_count}
use go_tpm.Legacy.Scheme.{
  SymScheme, SigScheme, KdfScheme, encode_sym_scheme, decode_sym_scheme, encode_sig_scheme,
  decode_sig_scheme, encode_kdf_scheme, decode_kdf_scheme,
}

-- A scheme with an algorithm, with numbers of 16 bits.
abbrev pub ValidSym : Option SymScheme → Type 0
ValidSym none = Unit {0}
ValidSym (some s) =
    (is_null s.alg ≡ false) × (s.alg < 2 ^ 16) × (s.key_bits < 2 ^ 16) × (s.mode < 2 ^ 16)

not_null : (a : ℕ) → is_null a ≡ false → a == alg_null ≡ false
not_null a h = ground (arith, h)

pub sym_back :
    (s : Option SymScheme) → ValidSym s → ReadsBack (encode_sym_scheme s) decode_sym_scheme s
unfolding encode_sym_scheme decode_sym_scheme pack pack_values pack_value
sym_back none v = (
  put_be 2 alg_null ++ [],
  refl,
  λ rest. simp (append_assoc, unpack_num-put_be w16 alg_null rest (omega arith)),
)
sym_back (some s) (named, small, bits, mode) = (
  put_be 2 s.alg ++ (put_be 2 s.key_bits ++ (put_be 2 s.mode ++ [])),
  rw named,
  λ rest. simp (
    append_assoc,
    unpack_num-put_be w16 s.alg _ small,
    not_null s.alg named,
    unpack_num-put_be w16 s.key_bits _ bits,
    unpack_num-put_be w16 s.mode _ mode,
  ),
)

-- A count stands only where the algorithm uses it.
abbrev pub ValidSig : Option SigScheme → Type 0
ValidSig none = Unit {0}
ValidSig (some s) =
    (is_null s.alg ≡ false)
    × (s.alg < 2 ^ 16)
    × (s.hash < 2 ^ 16)
    × (s.count < 2 ^ 32)
    × ((uses_count s.alg ≡ true) ⊎ (s.count ≡ 0))

abbrev pub ValidKdf : Option KdfScheme → Type 0
ValidKdf none = Unit {0}
ValidKdf (some s) = (is_null s.alg ≡ false) × (s.alg < 2 ^ 16) × (s.hash < 2 ^ 16)

pub kdf_back :
    (s : Option KdfScheme) → ValidKdf s → ReadsBack (encode_kdf_scheme s) decode_kdf_scheme s
unfolding encode_kdf_scheme decode_kdf_scheme pack pack_values pack_value
kdf_back none v = (
  put_be 2 alg_null ++ [],
  refl,
  λ rest. simp (append_assoc, unpack_num-put_be w16 alg_null rest (omega arith)),
)
kdf_back (some s) (named, small, hash) = (
  put_be 2 s.alg ++ (put_be 2 s.hash ++ []),
  rw named,
  λ rest. simp (
    append_assoc,
    unpack_num-put_be w16 s.alg _ small,
    not_null s.alg named,
    unpack_num-put_be w16 s.hash _ hash,
  ),
)

counted :
    (s : SigScheme)
    → ValidSig (some s)
    → uses_count s.alg ≡ true
    → ReadsBack (encode_sig_scheme (some s)) decode_sig_scheme (some s)
unfolding encode_sig_scheme decode_sig_scheme pack pack_values pack_value
counted s (named, small, hash, count, either) uses = (
  put_be 2 s.alg ++ (put_be 2 s.hash ++ (put_be 4 s.count ++ [])),
  rw (named, uses),
  λ rest. simp (
    append_assoc,
    unpack_num-put_be w16 s.alg _ small,
    not_null s.alg named,
    unpack_num-put_be w16 s.hash _ hash,
    uses,
    unpack_num-put_be w32 s.count _ count,
  ),
)

uncounted :
    (s : SigScheme)
    → ValidSig (some s)
    → uses_count s.alg ≡ false
    → ReadsBack (encode_sig_scheme (some s)) decode_sig_scheme (some s)
unfolding encode_sig_scheme decode_sig_scheme pack pack_values pack_value
uncounted s (named, small, hash, count, either) uses = (
  put_be 2 s.alg ++ (put_be 2 s.hash ++ []),
  rw (named, uses),
  λ rest. simp (
    append_assoc,
    unpack_num-put_be w16 s.alg _ small,
    not_null s.alg named,
    unpack_num-put_be w16 s.hash _ hash,
    uses,
    no_count either,
  ),
)
  where
    no_count : (uses_count s.alg ≡ true) ⊎ (s.count ≡ 0) → 0 ≡ s.count
    no_count (inl t) = absurd (not_both t uses)
    no_count (inr z) = sym z

pub sig_back :
    (s : Option SigScheme) → ValidSig s → ReadsBack (encode_sig_scheme s) decode_sig_scheme s
unfolding encode_sig_scheme decode_sig_scheme pack pack_values pack_value
sig_back none v = (
  put_be 2 alg_null ++ [],
  refl,
  λ rest. simp (append_assoc, unpack_num-put_be w16 alg_null rest (omega arith)),
)
sig_back (some s) v = elim (Bool-cases (uses_count s.alg)) [
  | inl uses ↦ counted s v uses
  | inr uses ↦ uncounted s v uses
]
