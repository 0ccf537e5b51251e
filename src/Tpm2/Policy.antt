-- ===== src/Tpm2/Policy.antt =====
-- tpm2/policy.go: the policy calculator. A method that changes the calculator returns the new one.
use go_tpm.Base.{ℕ, List, [], ◌∷◌, ◌++◌, replicate}
use go_tpm.Base.Outcome.{Result, ok, err, panic, ◌>>=◌}
use go_tpm.Tpm2.Fault.{Res}
use go_tpm.Tpm2.Reflect.Types.{Ty, El}
use go_tpm.Tpm2.Reflect.Marshal.{marshal}
use go_tpm.Tpm2.Session.Crypto.{Crypto, Hash, hash_of}
pub mod Chain
pub mod Commands
pub mod Branches

pub record PolicyCalculator : Type 0 where
  pub alg : ℕ
  pub hash : Hash
  pub state : List ℕ

-- A value of any described type.
abbrev pub Datum : Type 0
Datum = (t : Ty) × El t

unfoldable pub marshal_all : List Datum → Res (List ℕ)
marshal_all [] = ok []
marshal_all (d ∷ ds) = do b ← marshal d.0 d.1; bs ← marshal_all ds; ok (b ++ bs)

abbrev pub with_state : PolicyCalculator → List ℕ → PolicyCalculator
with_state p s = record { alg = p.alg; hash = p.hash; state = s }

-- `Hash`: a TPMTHA of the algorithm and a copy of the digest.
unfoldable pub calculator_hash : PolicyCalculator → ℕ × List ℕ
calculator_hash p = (p.alg, p.state)

module _ (crypto : Crypto) where
  unfoldable pub new_policy_calculator : ℕ → Res PolicyCalculator
  new_policy_calculator alg = do
    hash ← hash_of alg
    ok (record { alg = alg; hash = hash; state = replicate (crypto.size hash) 0 })

  unfoldable pub reset : PolicyCalculator → PolicyCalculator
  reset p = with_state p (replicate (crypto.size p.hash) 0)

  -- What `Update` does once the data are marshalled, or are not.
  abbrev pub absorb : PolicyCalculator → Res (List ℕ) → PolicyCalculator × Res (Unit {0})
  absorb p (ok b) = (with_state p (crypto.sum p.hash (p.state ++ b)), ok tt)
  absorb p (err e) = (p, err e)
  absorb p panic = (p, panic)

  unfoldable pub update : PolicyCalculator → List Datum → PolicyCalculator × Res (Unit {0})
  update p data_in = absorb p (marshal_all data_in)
