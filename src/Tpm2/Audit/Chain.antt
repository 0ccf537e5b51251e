-- ===== src/Tpm2/Audit/Chain.antt =====
-- tpm2/audit.go: the digest of an audited command.
use go_tpm.Base.{ℕ, ◌≡◌, true, List, [], ◌++◌, ap}
use go_tpm.Base.Bytes.{put_be}
use go_tpm.Base.Outcome.{ok}
use go_tpm.Tpm2.Session.Crypto.{Crypto, Hash, hash_of}
use go_tpm.Tpm2.Session.Hashes.{join, cp_hash, rp_hash}
use go_tpm.Tpm2.Command.Arguments.{Argument}
use go_tpm.Tpm2.Command.Order.{
  handles_first, marks, names_of, parms_of, marshal_each, cmd_names-names_of,
}
use go_tpm.Tpm2.Execute.Sessions.{Sessions}
use go_tpm.Tpm2.Execute.Request.Parameters.{cmd_parameters-plain}
use go_tpm.Tpm2.Execute.Response.{Slot}
use go_tpm.Tpm2.Audit.{
  CommandAudit, marshal_outs, audit_cp_hash, audit_rp_hash, extended, audit_command, keep_or,
}

module _ (crypto : Crypto) {W : Type 0} (ops : Sessions W) where
  open ops use {Session}

  -- In any state of the sessions, auditing a command whose handles come first extends the digest by
  -- the sum of the command code, the names and the parameters, and the sum of the code of success,
  -- the command code and the response's parameters.
  pub audit_command-digest :
      (w : W) (a : CommandAudit) (cc : ℕ) (args : List (Argument Session)) (rsp : List Slot)
      (h : Hash) (names : List (List ℕ)) (parms outs : List ℕ)
      → hash_of a.hash ≡ ok h
      → handles_first (marks args) ≡ true
      → names_of args ≡ ok names
      → marshal_each (parms_of args) ≡ ok parms
      → marshal_outs rsp ≡ ok outs
      → audit_command crypto ops w a cc args rsp ≡ (
        record {
          hash = a.hash;
          digest = crypto.sum h (
              a.digest
              ++ (crypto.sum h (put_be 4 cc ++ (join names ++ parms))
                  ++ crypto.sum h (put_be 4 0 ++ (put_be 4 cc ++ outs))));
        },
        ok tt,
      )
  unfolding audit_command extended audit_cp_hash audit_rp_hash cp_hash rp_hash
  audit_command-digest w a code args rsp h names parms outs known first named written answered =
      let digest : extended crypto ops w a code args rsp
          ≡ ok (
              crypto.sum h (
                a.digest
                ++ (crypto.sum h (put_be 4 code ++ (join names ++ parms))
                    ++ crypto.sum h (put_be 4 0 ++ (put_be 4 code ++ outs))))) =
        rw (
          cmd_names-names_of args first,
          named,
          cmd_parameters-plain ops args [] w first tt,
          written,
          known,
          answered,
        ) in
      ap (keep_or a) digest
