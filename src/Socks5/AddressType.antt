-- ===== src/Socks5/AddressType.antt =====
-- noxen-socks5/src/types.rs: the ATYP field.
use zc_splice_proxy.Base.{ℕ, ◌≡◌, ◌↔◌, Result, ok, err, arith, ◌==◌, if◌then◌else◌}
use zc_splice_proxy.Socks5.Error.{ProtocolError, invalid_address_type}

pub data AddressType : Type 0 where
  ipv4 domain ipv6 : AddressType

-- `self as u8`
unfoldable pub code : AddressType → ℕ
code ipv4 = 0x01
code domain = 0x03
code ipv6 = 0x04

unfoldable pub try_from : ℕ → Result AddressType ProtocolError
try_from value =
    if value == 0x01
    then ok ipv4
    else if value == 0x03
    then ok domain
    else if value == 0x04
    then ok ipv6
    else err invalid_address_type

-- A byte is accepted exactly if it is the code of a variant, and stands for that variant.
pub address_type_try_from_iff : (b : ℕ) (x : AddressType) → (try_from b ≡ ok x) ↔ (b ≡ code x)
unfolding try_from code
address_type_try_from_iff b x = (λ h. ground arith, λ h. ground arith)

-- Every other byte is rejected with the error of its field.
pub try_from_err :
    (b : ℕ) → ((x : AddressType) → b ≡ code x → ⊥) → try_from b ≡ err invalid_address_type
unfolding try_from code
try_from_err b h = ground (arith, h ipv4, h domain, h ipv6)
