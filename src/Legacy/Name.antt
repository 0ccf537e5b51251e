-- ===== src/Legacy/Name.antt =====
-- Name and HashValue of legacy/tpm2/structures.go, and the name of a public area; a pointer that may
-- be nil is an Option. What package crypto gives is a parameter.
pub mod RoundTrip
use go_tpm.Base.{ℕ, Bool, List, [], ◌∷◌, Option, none, some, ◌==◌, if◌then◌else◌, length}
use go_tpm.Base.Outcome.{ok, err, ◌>>=◌}
use go_tpm.Tpm2.Reflect.Types.{w16, w32}
use go_tpm.Tpmutil.Encoding.{value, no_values, num, u16_bytes, raw_bytes}
use go_tpm.Legacy.Wire.{Res, pack, unpack_num, unpack_bytes, read_into, no_digest}
use go_tpm.Legacy.Algorithm.{Hashes, algorithm_hash}
use go_tpm.Legacy.Public.{Public, encode_public}
use go_tpm.Legacy.Template.{bytes_equal}

pub record HashValue : Type 0 where
  pub alg : ℕ
  pub digest : List ℕ

pub record Name : Type 0 where
  pub handle : Option ℕ
  pub digest : Option HashValue

abbrev pub no_name : Name
no_name = record { handle = none; digest = none }

abbrev pub handle_named : ℕ → Name
handle_named h = record { handle = some h; digest = none }

abbrev pub digest_named : HashValue → Name
digest_named v = record { handle = none; digest = some v }

-- `HashValue.Encode`
unfoldable pub encode_hash_value : HashValue → Res (List ℕ)
encode_hash_value v = pack (value (num w16 v.alg) (value (raw_bytes v.digest) no_values))

-- `Name.Encode`
abbrev pub by_fields : Option ℕ → Option HashValue → Res (List ℕ)
unfolding encode_hash_value
by_fields (some h) d = pack (value (num w32 h) no_values)
by_fields none (some v) = encode_hash_value v
by_fields none none = ok []

unfoldable pub encode_entity : Name → Res (List ℕ)
unfolding encode_hash_value
encode_entity n = by_fields n.handle n.digest

unfoldable pub encode_name : Name → Res (List ℕ)
unfolding encode_entity
encode_name n = do b ← encode_entity n; pack (value (u16_bytes b) no_values)

module _ (hashes : Hashes) where
  -- `decodeHashValue`, which is given a buffer of its own.
  unfoldable pub decode_hash_value : List ℕ → Res HashValue
  decode_hash_value b = do
    (alg, b₁) ← unpack_num w16 b
    h ← algorithm_hash hashes alg
    (digest, b₂) ← read_into (hashes.size h) b₁
    ok (record { alg = alg; digest = digest })

  -- `DecodeName`
  unfoldable pub decode_entity : List ℕ → Res Name
  unfolding decode_hash_value
  decode_entity b =
      if length b == 0
      then ok no_name
      else if length b == 4
      then (do (h, rest) ← unpack_num w32 b; ok (handle_named h))
      else (do v ← decode_hash_value b; ok (digest_named v))

  unfoldable pub decode_name : List ℕ → Res (Name × List ℕ)
  unfolding decode_entity
  decode_name b = do (name, rest) ← unpack_bytes b; n ← decode_entity name; ok (n, rest)

  -- `Public.Name`
  unfoldable pub public_name : Public → Res Name
  public_name p = do
    b ← encode_public p
    h ← algorithm_hash hashes p.name_alg
    ok (digest_named (record { alg = p.name_alg; digest = hashes.sum h b }))

  -- `Name.MatchesPublic`
  abbrev pub digest_of : Option HashValue → Res HashValue
  digest_of (some v) = ok v
  digest_of none = err no_digest

  unfoldable pub matches_public : Name → Public → Res Bool
  unfolding public_name
  matches_public n p = do
    v ← digest_of n.digest
    expected ← public_name p
    v' ← digest_of expected.digest
    ok (bytes_equal v'.digest v.digest)
