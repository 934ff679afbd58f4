-- ===== src/Socks5/Codec/Request/Response.antt =====
-- What `RequestResponseCodec.encode` writes, read back by an independent client.
use zc_splice_proxy.Base.{
  Option, Result, [], arith, drop, drop_all, err, if◌then◌else◌, leb, length, length-append, le→leb,
  none, ok, refl, some, sym, take, take_all, ℕ, ◌%◌, ◌&&◌, ◌*◌, ◌++◌, ◌+◌, ◌<◌, ◌==◌, ◌∷◌, ◌≡◌,
}
use mathlib.Core.List.{append_assoc}
use zc_splice_proxy.Std.Utf8.{Bytes}
use zc_splice_proxy.Socks5.AddressType
use zc_splice_proxy.Socks5.AddressType.{AddressType}
use zc_splice_proxy.Socks5.Reply
use zc_splice_proxy.Socks5.Reply.{Reply}
use zc_splice_proxy.Socks5.Address
use zc_splice_proxy.Socks5.Address.{Address, ipv4, ipv6, domain}
use zc_splice_proxy.Socks5.Messages.{ServerResponse, socks5_ver, socks5_rsv}
use zc_splice_proxy.Socks5.Codec.Buffer.{be_bytes}
use zc_splice_proxy.Socks5.Codec.Request.{encode_address, encode}
use zc_splice_proxy.Socks5.Codec.Request.Frames.{as_read, IsWritable, port_bytes}

-- A client that reads the response of RFC 1928, section 6, from its stream.
infixl 5 ◌>>=?◌
abbrev ◌>>=?◌ {ℓ κ} : {A : Type ℓ} {B : Type κ} → Option A → (A → Option B) → Option B
none >>=? f = none
some a >>=? f = f a

abbrev or_none {ℓ κ} : {A : Type ℓ} {E : Type κ} → Result A E → Option A
or_none (ok a) = some a
or_none (err e) = none

read_exact : ℕ → Bytes → Option (Bytes × Bytes)
read_exact n bytes = if leb n (length bytes) then some (take n bytes, drop n bytes) else none

read_port : Bytes → Option (ℕ × Bytes)
read_port (hi ∷ lo ∷ rest) = some (hi * 256 + lo, rest)
read_port _ = none

read_domain : Bytes → Option (Address × Bytes)
read_domain [] = none
read_domain (d ∷ bytes) = read_exact d bytes >>=? λ (name, after).
    read_port after >>=? λ (port, rest). some (domain name port, rest)

read_address : AddressType → Bytes → Option (Address × Bytes)
read_address AddressType.ipv4 bytes = read_exact 4 bytes >>=? λ (ip, after).
    read_port after >>=? λ (port, rest). some (ipv4 (record { ip = ip; port = port }), rest)
read_address AddressType.ipv6 bytes = read_exact 16 bytes >>=? λ (ip, after).
    read_port after >>=? λ (port, rest).
    some (ipv6 (record { ip = ip; port = port; flowinfo = 0; scope_id = 0 }), rest)
read_address AddressType.domain bytes = read_domain bytes

read_body : ℕ → ℕ → Bytes → Option (ServerResponse × Bytes)
read_body rep atyp bytes = or_none (Reply.try_from rep) >>=? λ reply.
    or_none (AddressType.try_from atyp) >>=? λ ty. read_address ty bytes >>=? λ (address, rest).
    some (record { reply = reply; bnd_address = address }, rest)

pub read_response : Bytes → Option (ServerResponse × Bytes)
unfolding read_body
read_response (v ∷ rep ∷ rsv ∷ atyp ∷ bytes) =
    if v == socks5_ver && rsv == socks5_rsv then read_body rep atyp bytes else none
read_response _ = none

read_exact-append :
    (xs ys : Bytes) (n : ℕ) → n ≡ length xs → read_exact n (xs ++ ys) ≡ some (xs, ys)
unfolding read_exact
read_exact-append xs ys n e = rw (
  e,
  le→leb (length xs) (length (xs ++ ys)) (omega (arith, length-append xs ys)),
  take_all xs ys,
  drop_all xs ys,
)

-- The length byte holds the length of a domain name.
abbrev pub IsShort : Address → Type 0
IsShort (domain name port) = length name < 256
IsShort address = Unit {0}

read_address-encode :
    (address : Address) (rest : Bytes)
    → IsWritable address
    → IsShort address
    → read_address
        (Address.atyp address)
        ((encode_address address ++ be_bytes (Address.port address)) ++ rest)
      ≡ some (as_read address, rest)
unfolding read_address read_domain read_port encode_address Address.atyp Address.port
read_address-encode (ipv4 addr) rest w s = rw (
  append_assoc,
  read_exact-append addr.ip (be_bytes addr.port ++ rest) 4 (sym w.0),
  port_bytes addr.port w.1,
)
read_address-encode (ipv6 addr) rest w s = rw (
  append_assoc,
  read_exact-append addr.ip (be_bytes addr.port ++ rest) 16 (sym w.0),
  port_bytes addr.port w.1,
)
read_address-encode (domain name port) rest w s =
    let len : length name % 256 ≡ length name = omega arith in
    rw (
      append_assoc,
      len,
      read_exact-append name (be_bytes port ++ rest) (length name) refl,
      port_bytes port w.1,
    )

-- A client reads from what `encode` adds to the buffer the same reply and address, the flow label and
-- the scope of an IPv6 address being read as 0, and leaves what follows, for every address that has a
-- wire form with a domain name of at most 255 bytes.
pub read_response-encode :
    (item : ServerResponse) (rest : Bytes)
    → IsWritable item.bnd_address
    → IsShort item.bnd_address
    → ((buf : Bytes) → (encode item buf).1 ≡ buf ++ (encode item []).1)
      × (read_response ((encode item []).1 ++ rest)
          ≡ some (record item { bnd_address = as_read item.bnd_address }, rest))
unfolding read_response encode
read_response-encode item rest w s =
    let reply = (Reply.reply_try_from_iff (Reply.code item.reply) item.reply).1 refl in
    let atyp =
      (AddressType.address_type_try_from_iff (AddressType.code (Address.atyp item.bnd_address))
          (Address.atyp item.bnd_address)).1
        refl in
    (λ buf. refl, rw (reply, atyp, read_address-encode item.bnd_address rest w s))
