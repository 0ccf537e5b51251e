-- ===== src/Tpm2/Structures/Attributes.antt =====
-- tpm2/structures.go: the attribute structures, each a set of bits.
use go_tpm.Base.{[], ◌∷◌}
use go_tpm.Tpm2.Reflect.Types.{Ty, bits, w8, w16}
use go_tpm.Tpm2.Structures.Tags.{bool_bits, num_bits}

abbrev pub tpma_algorithm : Ty
tpma_algorithm = bits 4 (
    bool_bits 0 0
    ∷ bool_bits 1 1
    ∷ bool_bits 2 2
    ∷ bool_bits 3 3
    ∷ bool_bits 8 8
    ∷ bool_bits 9 9
    ∷ bool_bits 10 10
    ∷ [])

abbrev pub tpma_object : Ty
tpma_object = bits 4 (
    bool_bits 1 1
    ∷ bool_bits 2 2
    ∷ bool_bits 4 4
    ∷ bool_bits 5 5
    ∷ bool_bits 6 6
    ∷ bool_bits 7 7
    ∷ bool_bits 8 8
    ∷ bool_bits 10 10
    ∷ bool_bits 11 11
    ∷ bool_bits 16 16
    ∷ bool_bits 17 17
    ∷ bool_bits 18 18
    ∷ bool_bits 19 19
    ∷ [])

abbrev pub tpma_session : Ty
tpma_session = bits 1 (
    bool_bits 0 0
    ∷ bool_bits 1 1
    ∷ bool_bits 2 2
    ∷ bool_bits 5 5
    ∷ bool_bits 6 6
    ∷ bool_bits 7 7
    ∷ [])

abbrev pub tpma_locality : Ty
tpma_locality = bits 1 (
    bool_bits 0 0
    ∷ bool_bits 1 1
    ∷ bool_bits 2 2
    ∷ bool_bits 3 3
    ∷ bool_bits 4 4
    ∷ num_bits w8 7 5
    ∷ [])

abbrev pub tpma_cc : Ty
tpma_cc = bits 4 (
    num_bits w16 15 0
    ∷ bool_bits 22 22
    ∷ bool_bits 23 23
    ∷ bool_bits 24 24
    ∷ num_bits w8 27 25
    ∷ bool_bits 28 28
    ∷ bool_bits 29 29
    ∷ [])

abbrev pub tpma_act : Ty
tpma_act = bits 4 (bool_bits 0 0 ∷ bool_bits 1 1 ∷ [])
