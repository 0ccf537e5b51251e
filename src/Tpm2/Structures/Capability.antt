-- ===== src/Tpm2/Structures/Capability.antt =====
-- tpm2/structures.go: TPMU_CAPABILITIES.
use go_tpm.Tpm2.Reflect.Types.{
  plain, Ty, Members, num, struct, field, union, no_fields, member, no_members, w32,
}
use go_tpm.Tpm2.Constants.{
  cap_act, cap_algs, cap_audit_commands, cap_auth_policies, cap_commands, cap_ecc_curves,
  cap_handles, cap_pc_rs, cap_pcr_properties, cap_pp_commands, cap_tpm_properties,
}
use go_tpm.Tpm2.Structures.Lists.{
  tpml_act_data, tpml_alg_property, tpml_cc, tpml_cca, tpml_ecc_curve, tpml_handle,
  tpml_pcr_selection, tpml_tagged_pcr_property, tpml_tagged_policy, tpml_tagged_tpm_property,
}

abbrev pub tpmu_capabilities : Members
tpmu_capabilities =
    (member cap_algs tpml_alg_property (
      member cap_handles tpml_handle (
        member cap_commands tpml_cca (
          member cap_pp_commands tpml_cc (
            member cap_audit_commands tpml_cc (
              member cap_pc_rs tpml_pcr_selection (
                member cap_tpm_properties tpml_tagged_tpm_property (
                  member cap_pcr_properties tpml_tagged_pcr_property (
                    member cap_ecc_curves tpml_ecc_curve (
                      member cap_auth_policies tpml_tagged_policy
                        (member cap_act tpml_act_data no_members)))))))))))

abbrev pub tpms_capability_data : Ty
tpms_capability_data =
    struct (field "Capability" plain (num w32) (union "Capability" tpmu_capabilities no_fields))
