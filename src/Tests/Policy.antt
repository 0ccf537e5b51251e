-- ===== src/Tests/Policy.antt =====
-- tpm2/policy.go with a small checksum in place of the hash function.
use go_tpm.Base.{◌+◌, ◌++◌, ℕ, ◌≡◌, refl, List, [], ◌∷◌, arith, replicate}
use go_tpm.Base.Bytes.{put_be}
use go_tpm.Base.Outcome.{ok}
use go_tpm.Tpm2.Reflect.Marshal.{marshal}
use go_tpm.Tpm2.Reflect.Types.{num, w32}
use go_tpm.Tpm2.Session.Crypto.{sha256}
use go_tpm.Tpm2.Policy.{PolicyCalculator, Datum, with_state, update, marshal_all}
use go_tpm.Tpm2.Policy.Commands.{
  PolicyCommand, policy_or, policy_command_code, policy_auth_value, joined, step, run_policy,
}
use go_tpm.Tpm2.Policy.Branches.{run_policy-or}
use go_tpm.Tpm2.Policy.Chain.{Marshalled, extend, run, run-extend}
use go_tpm.Tests.Toy.{toy}

abbrev fresh : PolicyCalculator
fresh = record { alg = 11; hash = sha256; state = replicate 32 0 }

-- TPM_CC_PolicyCommandCode with a command code
abbrev one_update : List Datum
one_update = (num w32, 0x16C) ∷ (num w32, 0x131) ∷ []

run-extend_example :
    (bs : List (List ℕ)) × Marshalled (one_update ∷ []) bs
    × (run toy fresh (one_update ∷ []) ≡ with_state fresh (extend (toy.sum sha256) fresh.state bs))
run-extend_example = run-extend toy fresh (one_update ∷ []) ((omega arith, (omega arith, tt)), tt)

-- A command code is demanded, and then one of two branches.
abbrev demand : List (PolicyCommand (Unit {0}))
demand = policy_command_code 0x131 ∷ []

abbrev branches : List (List ℕ)
branches = (1 ∷ 2 ∷ []) ∷ (3 ∷ []) ∷ []

abbrev demanded : PolicyCalculator
demanded = record { alg = 11; hash = sha256; state = replicate 32 (1 + 0x6c + 1 + 0x31) }

demand-ran : run_policy toy demand fresh ≡ (demanded, ok tt)
unfolding run_policy step update marshal_all marshal put_be
demand-ran = refl

run_policy-or_example :
    run_policy toy (demand ++ policy_or branches ∷ policy_auth_value ∷ []) fresh
    ≡ run_policy toy {S = Unit {0}}
        (policy_auth_value ∷ [])
        (with_state fresh (toy.sum sha256 (replicate 32 0 ++ (put_be 4 0x171 ++ joined branches))))
run_policy-or_example =
    run_policy-or toy demand (policy_auth_value ∷ []) branches fresh demanded
      (omega arith, (omega arith, (omega arith, tt))) demand-ran
