-- ===== src/Tpm2/Commands/Primitives.antt =====
-- tpm2/tpm2.go: the commands for encryption, hashes and random numbers, with their responses.
use go_tpm.Base.{List, [], true, false, ◌∷◌}
use go_tpm.Tpm2.Command.{Command, ResponseField, handle_field, parm_field, parm_out}
use go_tpm.Tpm2.Reflect.Types.{plain, num, boolean, w16, w32}
use go_tpm.Tpm2.Structures.Tags.{nullable_tag, optional_tag}
use go_tpm.Tpm2.Structures.Asymmetric.{tpm2b_ecc_point, tpm2b_public_key_rsa, tpmt_rsa_decrypt}
use go_tpm.Tpm2.Structures.Basic.{
  tpm2b_data, tpm2b_digest, tpm2b_iv, tpm2b_max_buffer, tpmt_tk_hash_check,
}

abbrev pub encrypt_decrypt_2_response : List ResponseField
encrypt_decrypt_2_response =
    parm_out "OutData" plain tpm2b_max_buffer ∷ parm_out "IV" plain tpm2b_iv ∷ []

abbrev pub encrypt_decrypt_2_command : Command
encrypt_decrypt_2_command = record {
  code = 0x193;
  fields =
      handle_field "KeyHandle" true false
      ∷ parm_field "Message" plain tpm2b_max_buffer
      ∷ parm_field "Decrypt" plain boolean
      ∷ parm_field "Mode" nullable_tag (num w16)
      ∷ parm_field "IV" plain tpm2b_iv
      ∷ [];
  response = encrypt_decrypt_2_response;
}

abbrev pub rsa_encrypt_response : List ResponseField
rsa_encrypt_response = parm_out "OutData" plain tpm2b_public_key_rsa ∷ []

abbrev pub rsa_encrypt_command : Command
rsa_encrypt_command = record {
  code = 0x174;
  fields =
      handle_field "KeyHandle" false false
      ∷ parm_field "Message" plain tpm2b_public_key_rsa
      ∷ parm_field "InScheme" nullable_tag tpmt_rsa_decrypt
      ∷ parm_field "Label" optional_tag tpm2b_data
      ∷ [];
  response = rsa_encrypt_response;
}

abbrev pub rsa_decrypt_response : List ResponseField
rsa_decrypt_response = parm_out "Message" plain tpm2b_public_key_rsa ∷ []

abbrev pub rsa_decrypt_command : Command
rsa_decrypt_command = record {
  code = 0x159;
  fields =
      handle_field "KeyHandle" true false
      ∷ parm_field "CipherText" plain tpm2b_public_key_rsa
      ∷ parm_field "InScheme" nullable_tag tpmt_rsa_decrypt
      ∷ parm_field "Label" optional_tag tpm2b_data
      ∷ [];
  response = rsa_decrypt_response;
}

abbrev pub ecdhz_gen_response : List ResponseField
ecdhz_gen_response = parm_out "OutPoint" plain tpm2b_ecc_point ∷ []

abbrev pub ecdhz_gen_command : Command
ecdhz_gen_command = record {
  code = 0x154;
  fields = handle_field "KeyHandle" true false ∷ parm_field "InPoint" plain tpm2b_ecc_point ∷ [];
  response = ecdhz_gen_response;
}

abbrev pub hash_response : List ResponseField
hash_response =
    parm_out "OutHash" plain tpm2b_digest ∷ parm_out "Validation" plain tpmt_tk_hash_check ∷ []

abbrev pub hash_command : Command
hash_command = record {
  code = 0x17d;
  fields =
      parm_field "Data" plain tpm2b_max_buffer
      ∷ parm_field "HashAlg" plain (num w16)
      ∷ parm_field "Hierarchy" nullable_tag (num w32)
      ∷ [];
  response = hash_response;
}

abbrev pub get_random_response : List ResponseField
get_random_response = parm_out "RandomBytes" plain tpm2b_digest ∷ []

abbrev pub get_random_command : Command
get_random_command = record {
  code = 0x17b;
  fields = parm_field "BytesRequested" plain (num w16) ∷ [];
  response = get_random_response;
}
