-- ===== src/Socks5/AuthMethod.antt =====
-- noxen-socks5/src/types.rs: the METHOD field.
use zc_splice_proxy.Base.{ℕ, ◌≡◌, ◌↔◌, Result, ok, err, arith, ◌==◌, if◌then◌else◌}
use zc_splice_proxy.Socks5.Error.{ProtocolError, invalid_auth_method}

pub data AuthMethod : Type 0 where
  no_authentication_required gssapi username_password no_acceptable_methods : AuthMethod

-- `self as u8`
unfoldable pub code : AuthMethod → ℕ
code no_authentication_required = 0x00
code gssapi = 0x01
code username_password = 0x02
code no_acceptable_methods = 0xff

unfoldable pub try_from : ℕ → Result AuthMethod ProtocolError
try_from value =
    if value == 0x00
    then ok no_authentication_required
    else if value == 0x01
    then ok gssapi
    else if value == 0x02
    then ok username_password
    else if value == 0xff
    then ok no_acceptable_methods
    else err invalid_auth_method

-- A byte is accepted exactly if it is the code of a variant, and stands for that variant.
pub auth_method_try_from_iff : (b : ℕ) (x : AuthMethod) → (try_from b ≡ ok x) ↔ (b ≡ code x)
unfolding try_from code
auth_method_try_from_iff b x = (λ h. ground arith, λ h. ground arith)

-- Every other byte is rejected with the error of its field.
pub try_from_err :
    (b : ℕ) → ((x : AuthMethod) → b ≡ code x → ⊥) → try_from b ≡ err invalid_auth_method
unfolding try_from code
try_from_err b h =
    ground
      (arith, h no_authentication_required, h gssapi, h username_password, h no_acceptable_methods)
