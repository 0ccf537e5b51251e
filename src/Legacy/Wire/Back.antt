-- ===== src/Legacy/Wire/Back.antt =====
-- What is read back, for the encodings of package legacy/tpm2.
use go_tpm.Base.{
  suc, ◌-◌, take-append, drop-append, append-nil, length-append, ℕ, ◌-◌, ◌^◌, ◌<◌, ◌≡◌, refl, arith,
  List, [], ◌∷◌, ◌++◌, append-nil, length,
}
use go_tpm.Base.Outcome.{ok}
use go_tpm.Tpm2.Reflect.Types.{Width, size_of}
use go_tpm.Tpmutil.Encoding as Encoding
use go_tpm.Tpmutil.Encoding.RoundTrip.{binary_read-put_be, read_full-front}
use go_tpm.Base.Bytes.{put_be}
use native.Mathlib.Nat.{mod-eq_of_lt}
use go_tpm.Legacy.Wire.{Res, unpack_num, unpack_bytes, read_into}

-- Encoding gives bytes, and decoding these gives the value and leaves what follows.
abbrev pub ReadsBack : {A : Type 0} → Res (List ℕ) → (List ℕ → Res (A × List ℕ)) → A → Type 0
ReadsBack e d v = (b : List ℕ) × (e ≡ ok b) × ((rest : List ℕ) → d (b ++ rest) ≡ ok (v, rest))

-- A reader of a number, and of U16Bytes, before what follows.
pub unpack_num-put_be :
    (w : Width) (n : ℕ) (rest : List ℕ)
    → n < 256 ^ size_of w
    → unpack_num w (put_be (size_of w) n ++ rest) ≡ ok (n, rest)
unfolding unpack_num
unpack_num-put_be w n rest h = rw (binary_read-put_be (size_of w) n rest, mod-eq_of_lt h)

pub unpack_bytes-put_be :
    (x rest : List ℕ)
    → length x < 2 ^ 16
    → unpack_bytes (put_be 2 (length x) ++ (x ++ rest)) ≡ ok (x, rest)
unfolding unpack_bytes Encoding.unpack_value
unpack_bytes-put_be x rest h = rw (
  binary_read-put_be 2 (length x) (x ++ rest),
  mod-eq_of_lt h,
  read_full-front Encoding.unexpected_eof x rest,
)

-- A read of as many bytes as there are in front.
pub read_into-front : (x rest : List ℕ) → read_into (length x) (x ++ rest) ≡ ok (x, rest)
unfolding read_into
read_into-front [] rest = refl
read_into-front (y ∷ x) rest =
    let enough : suc (length x) - suc (length (x ++ rest)) ≡ 0 =
      omega (arith, length-append x rest) in
    simp (take-append x rest, drop-append x rest, enough, append-nil)
