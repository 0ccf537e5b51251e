-- ===== src/Tpm2/Structures/Nv.antt =====
-- tpm2/structures.go: NV indices, contexts and creation data.
use go_tpm.Base.{[], ◌∷◌}
use go_tpm.Tpm2.Reflect.Types.{
  plain, Ty, num, struct, bits, sized_2b, field, no_fields, w8, w16, w32, w64,
}
use go_tpm.Tpm2.Structures.Tags.{bool_bits, num_bits}
use go_tpm.Tpm2.Structures.Attributes.{tpma_locality}
use go_tpm.Tpm2.Structures.Basic.{tpm2b_data, tpm2b_digest, tpm2b_name}
use go_tpm.Tpm2.Structures.Lists.{tpml_pcr_selection}

abbrev pub tpms_creation_data : Ty
tpms_creation_data = struct (
    field "PCRSelect" plain tpml_pcr_selection (
      field "PCRDigest" plain tpm2b_digest (
        field "Locality" plain tpma_locality (
          field "ParentNameAlg" plain (num w16) (
            field "ParentName" plain tpm2b_name (
              field "ParentQualifiedName" plain tpm2b_name
                (field "OutsideInfo" plain tpm2b_data no_fields)))))))

abbrev pub tpm2b_id_object : Ty
tpm2b_id_object = tpm2b_data

abbrev pub tpma_nv : Ty
tpma_nv = bits 4 (
    bool_bits 0 0
    ∷ bool_bits 1 1
    ∷ bool_bits 2 2
    ∷ bool_bits 3 3
    ∷ num_bits w8 7 4
    ∷ bool_bits 10 10
    ∷ bool_bits 11 11
    ∷ bool_bits 12 12
    ∷ bool_bits 13 13
    ∷ bool_bits 14 14
    ∷ bool_bits 15 15
    ∷ bool_bits 16 16
    ∷ bool_bits 17 17
    ∷ bool_bits 18 18
    ∷ bool_bits 19 19
    ∷ bool_bits 25 25
    ∷ bool_bits 26 26
    ∷ bool_bits 27 27
    ∷ bool_bits 28 28
    ∷ bool_bits 29 29
    ∷ bool_bits 30 30
    ∷ bool_bits 31 31
    ∷ [])

abbrev pub tpms_nv_public : Ty
tpms_nv_public = struct (
    field "NVIndex" plain (num w32) (
      field "NameAlg" plain (num w16) (
        field "Attributes" plain tpma_nv
          (field "AuthPolicy" plain tpm2b_digest (field "DataSize" plain (num w16) no_fields)))))

abbrev pub tpm2b_nv_public : Ty
tpm2b_nv_public = sized_2b tpms_nv_public

abbrev pub tpm2b_context_sensitive : Ty
tpm2b_context_sensitive = tpm2b_data

abbrev pub tpms_context_data : Ty
tpms_context_data = struct (
    field "Integrity" plain tpm2b_digest
      (field "Encrypted" plain tpm2b_context_sensitive no_fields))

abbrev pub tpm2b_context_data : Ty
tpm2b_context_data = tpm2b_data

abbrev pub tpms_context : Ty
tpms_context = struct (
    field "Sequence" plain (num w64) (
      field "SavedHandle" plain (num w32) (
        field "Hierarchy" plain (num w32)
          (field "ContextBlob" plain tpm2b_context_data no_fields))))

abbrev pub tpm2b_creation_data : Ty
tpm2b_creation_data = sized_2b tpms_creation_data
