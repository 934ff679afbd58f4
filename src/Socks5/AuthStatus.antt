-- ===== src/Socks5/AuthStatus.antt =====
-- noxen-socks5/src/types.rs: the STATUS field of RFC 1929.
use zc_splice_proxy.Base.{ℕ, ◌≡◌, refl, ◌↔◌, arith, ◌==◌, if◌then◌else◌}

pub data AuthStatus : Type 0 where
  success failure : AuthStatus

-- `self as u8`
unfoldable pub code : AuthStatus → ℕ
code success = 0x00
code failure = 0x01

-- `From<u8>`: any byte but 0 is a failure.
unfoldable pub from : ℕ → AuthStatus
from value = if value == 0x00 then success else failure

-- Only the byte 0 reads as success.
pub from_success_iff : (b : ℕ) → (from b ≡ success) ↔ (b ≡ 0)
unfolding from
from_success_iff b = (λ h. ground arith, λ h. ground arith)

pub from-code : (s : AuthStatus) → from (code s) ≡ s
unfolding from code
from-code success = refl
from-code failure = refl
