-- ===== src/Socks5/Reply.antt =====
-- noxen-socks5/src/types.rs: the REP field.
use zc_splice_proxy.Base.{ℕ, ◌≡◌, ◌↔◌, Result, ok, err, arith, ◌==◌, if◌then◌else◌}
use zc_splice_proxy.Socks5.Error.{ProtocolError, invalid_reply}

pub data Reply : Type 0 where
  succeeded general_failure connection_not_allowed network_unreachable host_unreachable
        connection_refused ttl_expired command_not_supported address_type_not_supported :
      Reply

-- `self as u8`
unfoldable pub code : Reply → ℕ
code succeeded = 0x00
code general_failure = 0x01
code connection_not_allowed = 0x02
code network_unreachable = 0x03
code host_unreachable = 0x04
code connection_refused = 0x05
code ttl_expired = 0x06
code command_not_supported = 0x07
code address_type_not_supported = 0x08

unfoldable pub try_from : ℕ → Result Reply ProtocolError
try_from value =
    if value == 0x00
    then ok succeeded
    else if value == 0x01
    then ok general_failure
    else if value == 0x02
    then ok connection_not_allowed
    else if value == 0x03
    then ok network_unreachable
    else if value == 0x04
    then ok host_unreachable
    else if value == 0x05
    then ok connection_refused
    else if value == 0x06
    then ok ttl_expired
    else if value == 0x07
    then ok command_not_supported
    else if value == 0x08
    then ok address_type_not_supported
    else err invalid_reply

-- A byte is accepted exactly if it is the code of a variant, and stands for that variant.
pub reply_try_from_iff : (b : ℕ) (x : Reply) → (try_from b ≡ ok x) ↔ (b ≡ code x)
unfolding try_from code
reply_try_from_iff b x = (λ h. ground arith, λ h. ground arith)

-- Every other byte is rejected with the error of its field.
pub try_from_err : (b : ℕ) → ((x : Reply) → b ≡ code x → ⊥) → try_from b ≡ err invalid_reply
unfolding try_from code
try_from_err b h = ground (
  arith,
  h succeeded,
  h general_failure,
  h connection_not_allowed,
  h network_unreachable,
  h host_unreachable,
  h connection_refused,
  h ttl_expired,
  h command_not_supported,
  h address_type_not_supported,
)
