-- ===== src/Tests/Union.antt =====
-- The unions of tpm2/structures.go on concrete contents.
use go_tpm.Base.{ℕ, ◌≡◌, ◌≢◌, refl, inr, arith}
use go_tpm.Base.Outcome.{ok, err}
use go_tpm.Tpm2.Fault.{incorrect_union_tag}
use go_tpm.Tpm2.Union.{create, get, access, new_union}
use go_tpm.Tpm2.Union.Tables.{capabilities_union, sym_key_bits_union, accessor}
use go_tpm.Tpm2.Union.Accessors.{access-wrong}
use go_tpm.Tpm2.Union.Cases.{get-create}

-- AES with 128 bits
get-create_example :
    get {A = ℕ} sym_key_bits_union 0 (new_union 6 "boxed[TPMKeyBits]" 128) 10
    ≡ err incorrect_union_tag
unfolding create
get-create_example =
    get-create 2 6 10 sym_key_bits_union 0 128 (new_union 6 "boxed[TPMKeyBits]" 128) refl refl
      (inr (omega arith))

-- the ACT data, which a union for them does not give
access-wrong_example :
    access {A = ℕ} (accessor "ACTData" 9 "TPMLACTData") (new_union 10 "TPMLACTData" 3) ≢ ok 3
unfolding create
access-wrong_example =
    access-wrong 0 10 10 capabilities_union (accessor "ACTData" 9 "TPMLACTData") 3 3
      (new_union 10 "TPMLACTData" 3) refl refl refl refl
