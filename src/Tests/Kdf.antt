-- ===== src/Tests/Kdf.antt =====
-- legacy/tpm2/kdf.go with a checksum of four bytes in place of the hash function.
use go_tpm.Base.{ℕ, ◌%◌, ◌≡◌, refl, arith, List, [], ◌∷◌, some, take, replicate, All}
use go_tpm.Base.Bytes.{IsByte, put_be}
use go_tpm.Tpm2.Kdf.{kdf, kdf_loop, mask_first, bytes_for}
use go_tpm.Tpm2.Kdf.Blocks.{blocks, kdf-blocks}
use go_tpm.Tests.Toy.{total}

abbrev checksum : List ℕ → List ℕ
checksum b = replicate 4 (total b % 256)

checksum-IsByte : (b : List ℕ) → All IsByte (checksum b)
checksum-IsByte b = (omega arith, (omega arith, (omega arith, (omega arith, tt))))

-- 43 bits: six bytes of two blocks, of whose first three bits are kept.
ran : kdf checksum (7 ∷ []) 43 ≡ some (0 ∷ 8 ∷ 8 ∷ 8 ∷ 9 ∷ 9 ∷ [])
unfolding kdf kdf_loop mask_first put_be
ran = refl

kdf-blocks_example :
    kdf checksum (7 ∷ []) 43
    ≡ some (mask_first (43 % 8) (take (bytes_for 43) (blocks checksum (7 ∷ []) 1 (bytes_for 43))))
kdf-blocks_example = kdf-blocks checksum (7 ∷ []) 4 (λ b. refl) 43 (omega arith)
