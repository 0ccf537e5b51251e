-- ===== src/Tpm2/Union/Tables.antt =====
-- tpm2/structures.go: the cases of `create` and `get` and the accessors of every union, by the names
-- of the Go types; an alias stands as the type that it names.
use go_tpm.Base.{ℕ, String, [], ◌∷◌, List}
use go_tpm.Tpm2.Union.{UnionType, Accessor}

abbrev pub accessor : String → ℕ → String → Accessor
accessor name tested asserted = record { name = name; tested = tested; asserted = asserted }

abbrev pub capabilities_union : UnionType
capabilities_union = record {
  name = "TPMUCapabilities";
  created =
      (0x00000000, "TPMLAlgProperty")
      ∷ (0x00000001, "TPMLHandle")
      ∷ (0x00000002, "TPMLCCA")
      ∷ (0x00000003, "TPMLCC")
      ∷ (0x00000004, "TPMLCC")
      ∷ (0x00000005, "TPMLPCRSelection")
      ∷ (0x00000006, "TPMLTaggedTPMProperty")
      ∷ (0x00000007, "TPMLTaggedPCRProperty")
      ∷ (0x00000008, "TPMLECCCurve")
      ∷ (0x00000009, "TPMLTaggedPolicy")
      ∷ (0x0000000a, "TPMLACTData")
      ∷ [];
  got =
      (0x00000000, "TPMLAlgProperty")
      ∷ (0x00000001, "TPMLHandle")
      ∷ (0x00000002, "TPMLCCA")
      ∷ (0x00000003, "TPMLCC")
      ∷ (0x00000004, "TPMLCC")
      ∷ (0x00000005, "TPMLPCRSelection")
      ∷ (0x00000006, "TPMLTaggedTPMProperty")
      ∷ (0x00000007, "TPMLTaggedPCRProperty")
      ∷ (0x00000008, "TPMLECCCurve")
      ∷ (0x00000009, "TPMLTaggedPolicy")
      ∷ (0x0000000a, "TPMLACTData")
      ∷ [];
  accessors =
      accessor "Algorithms" 0x00000000 "TPMLAlgProperty"
      ∷ accessor "Handles" 0x00000001 "TPMLHandle"
      ∷ accessor "Command" 0x00000002 "TPMLCCA"
      ∷ accessor "PPCommands" 0x00000003 "TPMLCC"
      ∷ accessor "AuditCommands" 0x00000004 "TPMLCC"
      ∷ accessor "AssignedPCR" 0x00000005 "TPMLPCRSelection"
      ∷ accessor "TPMProperties" 0x00000006 "TPMLTaggedTPMProperty"
      ∷ accessor "PCRProperties" 0x00000007 "TPMLTaggedPCRProperty"
      ∷ accessor "ECCCurves" 0x00000008 "TPMLECCCurve"
      ∷ accessor "AuthPolicies" 0x00000009 "TPMLTaggedPolicy"
      ∷ accessor "ACTData" 0x00000009 "TPMLACTData"
      ∷ [];
  built = "TPMUCapabilities";
}

abbrev pub attest_union : UnionType
attest_union = record {
  name = "TPMUAttest";
  created =
      (0x8014, "TPMSNVCertifyInfo")
      ∷ (0x8015, "TPMSCommandAuditInfo")
      ∷ (0x8016, "TPMSSessionAuditInfo")
      ∷ (0x8017, "TPMSCertifyInfo")
      ∷ (0x8018, "TPMSQuoteInfo")
      ∷ (0x8019, "TPMSTimeAttestInfo")
      ∷ (0x801a, "TPMSCreationInfo")
      ∷ (0x801c, "TPMSNVDigestCertifyInfo")
      ∷ [];
  got =
      (0x8014, "TPMSNVCertifyInfo")
      ∷ (0x8015, "TPMSCommandAuditInfo")
      ∷ (0x8016, "TPMSSessionAuditInfo")
      ∷ (0x8017, "TPMSCertifyInfo")
      ∷ (0x8018, "TPMSQuoteInfo")
      ∷ (0x8019, "TPMSTimeAttestInfo")
      ∷ (0x801a, "TPMSCreationInfo")
      ∷ (0x801c, "TPMSNVDigestCertifyInfo")
      ∷ [];
  accessors =
      accessor "Certify" 0x8017 "TPMSCertifyInfo"
      ∷ accessor "Creation" 0x801a "TPMSCreationInfo"
      ∷ accessor "Quote" 0x8018 "TPMSQuoteInfo"
      ∷ accessor "CommandAudit" 0x8015 "TPMSCommandAuditInfo"
      ∷ accessor "SessionAudit" 0x8016 "TPMSSessionAuditInfo"
      ∷ accessor "Time" 0x8019 "TPMSTimeAttestInfo"
      ∷ accessor "NV" 0x8014 "TPMSNVCertifyInfo"
      ∷ accessor "NVDigest" 0x801c "TPMSNVDigestCertifyInfo"
      ∷ [];
  built = "TPMUAttest";
}

abbrev pub sym_key_bits_union : UnionType
sym_key_bits_union = record {
  name = "TPMUSymKeyBits";
  created = (0x0006, "boxed[TPMKeyBits]") ∷ (0x000a, "boxed[TPMAlgID]") ∷ [];
  got = (0x0006, "boxed[TPMKeyBits]") ∷ (0x000a, "boxed[TPMAlgID]") ∷ [];
  accessors =
      accessor "AES" 0x0006 "boxed[TPMKeyBits]" ∷ accessor "XOR" 0x000a "boxed[TPMAlgID]" ∷ [];
  built = "TPMUSymKeyBits";
}

abbrev pub sym_mode_union : UnionType
sym_mode_union = record {
  name = "TPMUSymMode";
  created = (0x0006, "boxed[TPMAlgID]") ∷ (0x000a, "boxed[TPMSEmpty]") ∷ [];
  got = (0x0006, "boxed[TPMAlgID]") ∷ (0x000a, "boxed[TPMSEmpty]") ∷ [];
  accessors = accessor "AES" 0x0006 "boxed[TPMAlgID]" ∷ [];
  built = "TPMUSymMode";
}

abbrev pub sym_details_union : UnionType
sym_details_union = record {
  name = "TPMUSymDetails";
  created = (0x0006, "boxed[TPMSEmpty]") ∷ (0x000a, "boxed[TPMSEmpty]") ∷ [];
  got = (0x0006, "boxed[TPMSEmpty]") ∷ (0x000a, "boxed[TPMSEmpty]") ∷ [];
  accessors = [];
  built = "TPMUSymMode";
}

abbrev pub scheme_keyed_hash_union : UnionType
scheme_keyed_hash_union = record {
  name = "TPMUSchemeKeyedHash";
  created = (0x0005, "TPMSSchemeHMAC") ∷ (0x000a, "TPMSSchemeXOR") ∷ [];
  got = (0x0005, "TPMSSchemeHMAC") ∷ (0x000a, "TPMSSchemeXOR") ∷ [];
  accessors = accessor "HMAC" 0x0005 "TPMSSchemeHMAC" ∷ accessor "XOR" 0x000a "TPMSSchemeXOR" ∷ [];
  built = "TPMUSchemeKeyedHash";
}

abbrev pub sig_scheme_union : UnionType
sig_scheme_union = record {
  name = "TPMUSigScheme";
  created =
      (0x0005, "TPMSSchemeHMAC")
      ∷ (0x0014, "TPMSSchemeHash")
      ∷ (0x0016, "TPMSSchemeHash")
      ∷ (0x0018, "TPMSSchemeHash")
      ∷ (0x001a, "TPMSSchemeECDAA")
      ∷ [];
  got =
      (0x0005, "TPMSSchemeHMAC")
      ∷ (0x0014, "TPMSSchemeHash")
      ∷ (0x0016, "TPMSSchemeHash")
      ∷ (0x0018, "TPMSSchemeHash")
      ∷ (0x001a, "TPMSSchemeECDAA")
      ∷ [];
  accessors =
      accessor "HMAC" 0x0005 "TPMSSchemeHMAC"
      ∷ accessor "RSASSA" 0x0014 "TPMSSchemeHash"
      ∷ accessor "RSAPSS" 0x0016 "TPMSSchemeHash"
      ∷ accessor "ECDSA" 0x0018 "TPMSSchemeHash"
      ∷ accessor "ECDAA" 0x001a "TPMSSchemeECDAA"
      ∷ [];
  built = "TPMUSigScheme";
}

-- Their receiver is TPMUKDFScheme, among the methods of TPMUSensitiveComposite.
abbrev pub misplaced_accessors : List Accessor
misplaced_accessors =
    accessor "RSA" 0x0001 "TPM2BPrivateKeyRSA"
    ∷ accessor "ECC" 0x0023 "TPM2BECCParameter"
    ∷ accessor "Bits" 0x0008 "TPM2BSensitiveData"
    ∷ accessor "Sym" 0x0025 "TPM2BSymKey"
    ∷ []

abbrev pub kdf_scheme_union : UnionType
kdf_scheme_union = record {
  name = "TPMUKDFScheme";
  created =
      (0x0007, "TPMSKDFSchemeMGF1")
      ∷ (0x0019, "TPMSKDFSchemeECDH")
      ∷ (0x0020, "TPMSKDFSchemeKDF1SP80056A")
      ∷ (0x0021, "TPMSKDFSchemeKDF2")
      ∷ (0x0022, "TPMSKDFSchemeKDF1SP800108")
      ∷ [];
  got =
      (0x0007, "TPMSKDFSchemeMGF1")
      ∷ (0x0019, "TPMSKDFSchemeECDH")
      ∷ (0x0020, "TPMSKDFSchemeKDF1SP80056A")
      ∷ (0x0021, "TPMSKDFSchemeKDF2")
      ∷ (0x0022, "TPMSKDFSchemeKDF1SP800108")
      ∷ [];
  accessors =
      accessor "MGF1" 0x0007 "TPMSKDFSchemeMGF1"
      ∷ accessor "ECDH" 0x0019 "TPMSKDFSchemeECDH"
      ∷ accessor "KDF1SP80056A" 0x0007 "TPMSKDFSchemeKDF1SP80056A"
      ∷ accessor "KDF2" 0x0007 "TPMSKDFSchemeKDF2"
      ∷ accessor "KDF1SP800108" 0x0007 "TPMSKDFSchemeKDF1SP800108"
      ∷ misplaced_accessors;
  built = "TPMUKDFScheme";
}

abbrev pub asym_scheme_union : UnionType
asym_scheme_union = record {
  name = "TPMUAsymScheme";
  created =
      (0x0014, "TPMSSigSchemeRSASSA")
      ∷ (0x0015, "TPMSEncSchemeRSAES")
      ∷ (0x0016, "TPMSSigSchemeRSAPSS")
      ∷ (0x0017, "TPMSEncSchemeOAEP")
      ∷ (0x0018, "TPMSSigSchemeECDSA")
      ∷ (0x0019, "TPMSKeySchemeECDH")
      ∷ (0x001a, "TPMSSchemeECDAA")
      ∷ [];
  got =
      (0x0014, "TPMSSigSchemeRSASSA")
      ∷ (0x0015, "TPMSEncSchemeRSAES")
      ∷ (0x0016, "TPMSSigSchemeRSAPSS")
      ∷ (0x0017, "TPMSEncSchemeOAEP")
      ∷ (0x0018, "TPMSSigSchemeECDSA")
      ∷ (0x0019, "TPMSKeySchemeECDH")
      ∷ (0x001a, "TPMSSchemeECDAA")
      ∷ [];
  accessors =
      accessor "RSASSA" 0x0014 "TPMSSigSchemeRSASSA"
      ∷ accessor "RSAES" 0x0015 "TPMSEncSchemeRSAES"
      ∷ accessor "RSAPSS" 0x0016 "TPMSSigSchemeRSAPSS"
      ∷ accessor "OAEP" 0x0017 "TPMSEncSchemeOAEP"
      ∷ accessor "ECDSA" 0x0018 "TPMSSigSchemeECDSA"
      ∷ accessor "ECDH" 0x0014 "TPMSKeySchemeECDH"
      ∷ accessor "ECDAA" 0x001a "TPMSSchemeECDAA"
      ∷ [];
  built = "TPMUAsymScheme";
}

abbrev pub signature_union : UnionType
signature_union = record {
  name = "TPMUSignature";
  created =
      (0x0005, "TPMTHA")
      ∷ (0x0014, "TPMSSignatureRSA")
      ∷ (0x0016, "TPMSSignatureRSA")
      ∷ (0x0018, "TPMSSignatureECC")
      ∷ (0x001a, "TPMSSignatureECC")
      ∷ [];
  got =
      (0x0005, "TPMTHA")
      ∷ (0x0014, "TPMSSignatureRSA")
      ∷ (0x0016, "TPMSSignatureRSA")
      ∷ (0x0018, "TPMSSignatureECC")
      ∷ (0x001a, "TPMSSignatureECC")
      ∷ [];
  accessors =
      accessor "HMAC" 0x0005 "TPMTHA"
      ∷ accessor "RSASSA" 0x0014 "TPMSSignatureRSA"
      ∷ accessor "RSAPSS" 0x0016 "TPMSSignatureRSA"
      ∷ accessor "ECDSA" 0x0018 "TPMSSignatureECC"
      ∷ accessor "ECDAA" 0x001a "TPMSSignatureECC"
      ∷ [];
  built = "TPMUSignature";
}

abbrev pub public_id_union : UnionType
public_id_union = record {
  name = "TPMUPublicID";
  created =
      (0x0008, "TPM2BDigest")
      ∷ (0x0025, "TPM2BDigest")
      ∷ (0x0001, "TPM2BPublicKeyRSA")
      ∷ (0x0023, "TPMSECCPoint")
      ∷ [];
  got =
      (0x0008, "TPM2BDigest")
      ∷ (0x0025, "TPM2BDigest")
      ∷ (0x0001, "TPM2BPublicKeyRSA")
      ∷ (0x0023, "TPMSECCPoint")
      ∷ [];
  accessors =
      accessor "KeyedHash" 0x0008 "TPM2BDigest"
      ∷ accessor "SymCipher" 0x0025 "TPM2BDigest"
      ∷ accessor "RSA" 0x0001 "TPM2BPublicKeyRSA"
      ∷ accessor "ECC" 0x0023 "TPMSECCPoint"
      ∷ [];
  built = "TPMUPublicID";
}

abbrev pub public_parms_union : UnionType
public_parms_union = record {
  name = "TPMUPublicParms";
  created =
      (0x0008, "TPMSKeyedHashParms")
      ∷ (0x0025, "TPMSSymCipherParms")
      ∷ (0x0001, "TPMSRSAParms")
      ∷ (0x0023, "TPMSECCParms")
      ∷ [];
  got =
      (0x0008, "TPMSKeyedHashParms")
      ∷ (0x0025, "TPMSSymCipherParms")
      ∷ (0x0001, "TPMSRSAParms")
      ∷ (0x0023, "TPMSECCParms")
      ∷ [];
  accessors =
      accessor "KeyedHashDetail" 0x0008 "TPMSKeyedHashParms"
      ∷ accessor "SymDetail" 0x0025 "TPMSSymCipherParms"
      ∷ accessor "RSADetail" 0x0001 "TPMSRSAParms"
      ∷ accessor "ECCDetail" 0x0023 "TPMSECCParms"
      ∷ [];
  built = "TPMUPublicParms";
}

abbrev pub sensitive_composite_union : UnionType
sensitive_composite_union = record {
  name = "TPMUSensitiveComposite";
  created =
      (0x0001, "TPM2BPrivateKeyRSA")
      ∷ (0x0023, "TPM2BECCParameter")
      ∷ (0x0008, "TPM2BSensitiveData")
      ∷ (0x0025, "TPM2BSymKey")
      ∷ [];
  got =
      (0x0001, "TPM2BPrivateKeyRSA")
      ∷ (0x0023, "TPM2BECCParameter")
      ∷ (0x0008, "TPM2BSensitiveData")
      ∷ (0x0025, "TPM2BSymKey")
      ∷ [];
  accessors = [];
  built = "TPMUSensitiveComposite";
}

abbrev pub unions : List UnionType
unions =
    capabilities_union ∷ attest_union ∷ sym_key_bits_union ∷ sym_mode_union ∷ sym_details_union
    ∷ scheme_keyed_hash_union ∷ sig_scheme_union ∷ kdf_scheme_union ∷ asym_scheme_union
    ∷ signature_union ∷ public_id_union ∷ public_parms_union ∷ sensitive_composite_union ∷ []
