-- ===== src/Tpm2/Constants.antt =====
-- tpm2/constants.go: the selectors of the unions.
use go_tpm.Base.{ℕ}

abbrev pub alg_rsa : ℕ
alg_rsa = 0x0001

abbrev pub alg_hmac : ℕ
alg_hmac = 0x0005

abbrev pub alg_aes : ℕ
alg_aes = 0x0006

abbrev pub alg_mgf_1 : ℕ
alg_mgf_1 = 0x0007

abbrev pub alg_keyed_hash : ℕ
alg_keyed_hash = 0x0008

abbrev pub alg_xor : ℕ
alg_xor = 0x000a

abbrev pub alg_rsassa : ℕ
alg_rsassa = 0x0014

abbrev pub alg_rsaes : ℕ
alg_rsaes = 0x0015

abbrev pub alg_rsapss : ℕ
alg_rsapss = 0x0016

abbrev pub alg_oaep : ℕ
alg_oaep = 0x0017

abbrev pub alg_ecdsa : ℕ
alg_ecdsa = 0x0018

abbrev pub alg_ecdh : ℕ
alg_ecdh = 0x0019

abbrev pub alg_ecdaa : ℕ
alg_ecdaa = 0x001a

abbrev pub alg_kdf_1_sp_80056_a : ℕ
alg_kdf_1_sp_80056_a = 0x0020

abbrev pub alg_kdf_2 : ℕ
alg_kdf_2 = 0x0021

abbrev pub alg_kdf_1_sp_800108 : ℕ
alg_kdf_1_sp_800108 = 0x0022

abbrev pub alg_ecc : ℕ
alg_ecc = 0x0023

abbrev pub alg_sym_cipher : ℕ
alg_sym_cipher = 0x0025

abbrev pub cap_algs : ℕ
cap_algs = 0x0000

abbrev pub cap_handles : ℕ
cap_handles = 0x0001

abbrev pub cap_commands : ℕ
cap_commands = 0x0002

abbrev pub cap_pp_commands : ℕ
cap_pp_commands = 0x0003

abbrev pub cap_audit_commands : ℕ
cap_audit_commands = 0x0004

abbrev pub cap_pc_rs : ℕ
cap_pc_rs = 0x0005

abbrev pub cap_tpm_properties : ℕ
cap_tpm_properties = 0x0006

abbrev pub cap_pcr_properties : ℕ
cap_pcr_properties = 0x0007

abbrev pub cap_ecc_curves : ℕ
cap_ecc_curves = 0x0008

abbrev pub cap_auth_policies : ℕ
cap_auth_policies = 0x0009

abbrev pub cap_act : ℕ
cap_act = 0x000a

abbrev pub st_attest_nv : ℕ
st_attest_nv = 0x8014

abbrev pub st_attest_command_audit : ℕ
st_attest_command_audit = 0x8015

abbrev pub st_attest_session_audit : ℕ
st_attest_session_audit = 0x8016

abbrev pub st_attest_certify : ℕ
st_attest_certify = 0x8017

abbrev pub st_attest_quote : ℕ
st_attest_quote = 0x8018

abbrev pub st_attest_time : ℕ
st_attest_time = 0x8019

abbrev pub st_attest_creation : ℕ
st_attest_creation = 0x801a

abbrev pub st_attest_nv_digest : ℕ
st_attest_nv_digest = 0x801c
