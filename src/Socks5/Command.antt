-- ===== src/Socks5/Command.antt =====
-- noxen-socks5/src/types.rs: the CMD field.
use zc_splice_proxy.Base.{ℕ, ◌≡◌, ◌↔◌, Result, ok, err, arith, ◌==◌, if◌then◌else◌}
use zc_splice_proxy.Socks5.Error.{ProtocolError, invalid_command}

pub data Command : Type 0 where
  connect bind udp_associate : Command

-- `self as u8`
unfoldable pub code : Command → ℕ
code connect = 0x01
code bind = 0x02
code udp_associate = 0x03

unfoldable pub try_from : ℕ → Result Command ProtocolError
try_from value =
    if value == 0x01
    then ok connect
    else if value == 0x02
    then ok bind
    else if value == 0x03
    then ok udp_associate
    else err invalid_command

-- A byte is accepted exactly if it is the code of a variant, and stands for that variant.
pub command_try_from_iff : (b : ℕ) (x : Command) → (try_from b ≡ ok x) ↔ (b ≡ code x)
unfolding try_from code
command_try_from_iff b x = (λ h. ground arith, λ h. ground arith)

-- Every other byte is rejected with the error of its field.
pub try_from_err : (b : ℕ) → ((x : Command) → b ≡ code x → ⊥) → try_from b ≡ err invalid_command
unfolding try_from code
try_from_err b h = ground (arith, h connect, h bind, h udp_associate)
