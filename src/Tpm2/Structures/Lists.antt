-- ===== src/Tpm2/Structures/Lists.antt =====
-- tpm2/structures.go: the counted lists.
use go_tpm.Tpm2.Reflect.Types.{Ty, num, slice, struct, field, no_fields, w16, w32}
use go_tpm.Tpm2.Structures.Tags.{list_tag}
use go_tpm.Tpm2.Structures.Attributes.{tpma_cc}
use go_tpm.Tpm2.Structures.Basic.{
  tpm2b_digest, tpms_act_data, tpms_alg_property, tpms_pcr_selection, tpms_tagged_pcr_select,
  tpms_tagged_policy, tpms_tagged_property, tpmt_ha,
}

abbrev pub tpml_cc : Ty
tpml_cc = struct (field "CommandCodes" list_tag (slice (num w32)) no_fields)

abbrev pub tpml_cca : Ty
tpml_cca = struct (field "CommandAttributes" list_tag (slice tpma_cc) no_fields)

abbrev pub tpml_alg : Ty
tpml_alg = struct (field "Algorithms" list_tag (slice (num w16)) no_fields)

abbrev pub tpml_handle : Ty
tpml_handle = struct (field "Handle" list_tag (slice (num w32)) no_fields)

abbrev pub tpml_digest : Ty
tpml_digest = struct (field "Digests" list_tag (slice tpm2b_digest) no_fields)

abbrev pub tpml_digest_values : Ty
tpml_digest_values = struct (field "Digests" list_tag (slice tpmt_ha) no_fields)

abbrev pub tpml_pcr_selection : Ty
tpml_pcr_selection = struct (field "PCRSelections" list_tag (slice tpms_pcr_selection) no_fields)

abbrev pub tpml_alg_property : Ty
tpml_alg_property = struct (field "AlgProperties" list_tag (slice tpms_alg_property) no_fields)

abbrev pub tpml_tagged_tpm_property : Ty
tpml_tagged_tpm_property =
    struct (field "TPMProperty" list_tag (slice tpms_tagged_property) no_fields)

abbrev pub tpml_tagged_pcr_property : Ty
tpml_tagged_pcr_property =
    struct (field "PCRProperty" list_tag (slice tpms_tagged_pcr_select) no_fields)

abbrev pub tpml_ecc_curve : Ty
tpml_ecc_curve = struct (field "ECCCurves" list_tag (slice (num w16)) no_fields)

abbrev pub tpml_tagged_policy : Ty
tpml_tagged_policy = struct (field "Policies" list_tag (slice tpms_tagged_policy) no_fields)

abbrev pub tpml_act_data : Ty
tpml_act_data = struct (field "ACTData" list_tag (slice tpms_act_data) no_fields)
