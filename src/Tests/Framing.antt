-- ===== src/Tests/Framing.antt =====
-- tpm2/reflect.go and tpm2/names.go on a command and a response.
use go_tpm.Base.{◌≡◌, refl, [], ◌∷◌}
use go_tpm.Base.Bytes.{put_be}
use go_tpm.Base.Outcome.{ok}
use go_tpm.Tpm2.Reflect.Types.{num, w16}
use go_tpm.Tpm2.Reflect.Marshal.{marshal}

marshal-number : marshal (num w16) 0x1234 ≡ ok (0x12 ∷ 0x34 ∷ [])
unfolding marshal put_be
marshal-number = refl
