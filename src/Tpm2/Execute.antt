-- ===== src/Tpm2/Execute.antt =====
-- tpm2/reflect.go: the command's header, and the header and the parameters area of a response.
use go_tpm.Base.{
  ℕ, ◌%◌, ◌^◌, ◌-◌, Bool, List, [], Option, none, some, ◌==◌, ltb, if◌then◌else◌, length, take,
  drop,
}
use go_tpm.Base.Outcome.{ok, err, ◌>>=◌}
use go_tpm.Tpm2.Fault.{Res, too_few_parameters, invalid_length}
use go_tpm.Tpm2.Reflect.Types.{El}
use go_tpm.Tpm2.Reflect.Marshal.{marshal}
use go_tpm.Tpm2.Reflect.Unmarshal.{unmarshal, read_num}
use go_tpm.Tpm2.Structures.Auth.{tpm_cmd_header, tpm_rsp_header}
pub mod Framing
pub mod Step
pub mod Steps
pub mod Sessions
pub mod Request
pub mod Response
pub mod Run
pub mod Layout
pub mod Answers
pub mod Unready
pub mod Passwords

abbrev pub st_no_sessions : ℕ
st_no_sessions = 0x8001

abbrev pub st_sessions : ℕ
st_sessions = 0x8002

-- `cmdHeader`; the header's length is cut to 32 bits.
unfoldable pub cmd_header : Bool → ℕ → ℕ → Res (List ℕ)
cmd_header has_sessions n cc =
    marshal tpm_cmd_header
      (if has_sessions then st_sessions else st_no_sessions, (n % 2 ^ 32, (cc, tt)))

abbrev pub code_of : El tpm_rsp_header → ℕ
code_of (tag, (n, (code, end))) = code

-- `some` is the TPMRC that is returned as an error.
abbrev pub after_header : El tpm_rsp_header × List ℕ → Res (Option ℕ × List ℕ)
after_header (hdr, rest) = ok (if code_of hdr == 0 then none else some (code_of hdr), rest)

-- `rspHeader`
unfoldable pub rsp_header : List ℕ → Res (Option ℕ × List ℕ)
rsp_header rsp = unmarshal tpm_rsp_header rsp >>= after_header

-- The checks of `rspParametersArea` on a length, and the read of so many bytes.
unfoldable pub take_area : ℕ → List ℕ → Res (List ℕ × List ℕ)
take_area n rsp =
    if ltb (length rsp % 2 ^ 32) n
    then err too_few_parameters
    else if ltb (2 ^ 31 - 1) n
    then err invalid_length
    else ok (take n rsp, drop n rsp)

-- `rspParametersArea`
unfoldable pub rsp_parameters_area : Bool → List ℕ → Res (List ℕ × List ℕ)
rsp_parameters_area has_sessions rsp =
    if has_sessions
    then (do (n, rest) ← read_num 4 rsp; take_area n rest)
    else take_area (length rsp % 2 ^ 32) rsp
