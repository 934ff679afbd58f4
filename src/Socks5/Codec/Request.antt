-- ===== src/Socks5/Codec/Request.antt =====
-- `RequestResponseCodec` of noxen-socks5/src/codecs/server.rs: requests and responses.
pub mod Shape
pub mod Frames
pub mod Contract
pub mod Streaming
pub mod Response
use zc_splice_proxy.Base.{
  Option, Result, Run, [], err, if◌then◌else◌, length, ltb, none, not, ok, returns, some, ℕ, ◌%◌,
  ◌++◌, ◌+◌, ◌==◌, ◌>>=◌, ◌∷◌,
}
use zc_splice_proxy.Std.Utf8.{Bytes, from_utf8}
use zc_splice_proxy.Socks5.Error.{
  ProtocolError, frame_too_large, invalid_version, invalid_reserved, invalid_domain_encoding,
}
use zc_splice_proxy.Socks5.AddressType
use zc_splice_proxy.Socks5.AddressType.{AddressType, ipv4, ipv6, domain}
use zc_splice_proxy.Socks5.Command
use zc_splice_proxy.Socks5.Command.{Command}
use zc_splice_proxy.Socks5.Reply
use zc_splice_proxy.Socks5.Address
use zc_splice_proxy.Socks5.Address.{Address}
use zc_splice_proxy.Socks5.Messages.{
  ClientRequest, ServerResponse, max_request_frame_size, socks5_ver, socks5_rsv,
}
use zc_splice_proxy.Socks5.Codec.Buffer.{
  Decoded, Encoded, index, slice, advance, expect_array, from_be_bytes, be_bytes, incomplete,
  reject, frame,
}

-- The length of the address field; `none` if the byte that holds it has not arrived.
unfoldable pub address_len : AddressType → Bytes → Run (Option ℕ)
unfolding index
address_len ipv4 buf = returns (some 4)
address_len ipv6 buf = returns (some 16)
address_len domain buf =
    if ltb (length buf) 5 then returns none else do dlen ← index buf 4; returns (some (1 + dlen))

unfoldable pub parse_address : AddressType → Bytes → ℕ → Run (Result Address ProtocolError)
unfolding index from_utf8
parse_address ipv4 address_data port = do
  ip_slice ← slice address_data 0 4
  ip_bytes ← expect_array 4 ip_slice
  returns (ok (Address.ipv4 (record { ip = ip_bytes; port = port })))
parse_address ipv6 address_data port = do
  ip_slice ← slice address_data 0 16
  ip_bytes ← expect_array 16 ip_slice
  returns (ok (Address.ipv6 (record { ip = ip_bytes; port = port; flowinfo = 0; scope_id = 0 })))
parse_address domain address_data port = do
  dlen ← index address_data 0
  name_bytes ← slice address_data 1 (1 + dlen)
  elim (from_utf8 name_bytes) [
    | none ↦ returns (err invalid_domain_encoding)
    | some name ↦ returns (ok (Address.domain name port))
  ]

-- The request is taken off the buffer once its address is parsed.
pub finish : Command → Bytes → ℕ → Result Address ProtocolError → Decoded ClientRequest
finish command buf total_len (err e) = reject e buf
finish command buf total_len (ok dst_address) = do
  rest ← advance buf total_len
  frame (record { command = command; dst_address = dst_address }) rest

-- The part of `decode` behind the length of the address.
unfoldable pub decode_target : Command → AddressType → ℕ → Bytes → Decoded ClientRequest
unfolding finish
decode_target command address_type len buf =
    let total_len = 4 + len + 2 in
    if ltb (length buf) total_len then incomplete buf else do
      address_data ← slice buf 4 (4 + len)
      port_slice ← slice buf (4 + len) total_len
      port_bytes ← expect_array 2 port_slice
      port ← from_be_bytes port_bytes
      parsed ← parse_address address_type address_data port
      finish command buf total_len parsed

-- The part of `decode` behind the address type.
unfoldable pub decode_typed :
    Command → Bytes → Result AddressType ProtocolError → Decoded ClientRequest
decode_typed command buf (err e) = reject e buf
decode_typed command buf (ok address_type) = do
  len ← address_len address_type buf
  elim len [ none ↦ incomplete buf | some n ↦ decode_target command address_type n buf ]

-- The part of `decode` behind the command.
unfoldable pub decode_command : Bytes → Result Command ProtocolError → Decoded ClientRequest
unfolding index
decode_command buf (err e) = reject e buf
decode_command buf (ok command) = do
  rsv ← index buf 2
  if not (rsv == socks5_rsv)
      then reject invalid_reserved buf
      else do atyp ← index buf 3; decode_typed command buf (AddressType.try_from atyp)

unfoldable pub decode : Bytes → Decoded ClientRequest
unfolding index
decode buf =
    if ltb max_request_frame_size (length buf)
    then reject frame_too_large buf
    else if ltb (length buf) 4
    then incomplete buf
    else do
      ver ← index buf 0
      if not (ver == socks5_ver)
          then reject invalid_version buf
          else do cmd ← index buf 1; decode_command buf (Command.try_from cmd)

-- BND.ADDR; the length of a domain name is cut to a byte.
pub encode_address : Address → Bytes
encode_address (Address.ipv4 addr) = addr.ip
encode_address (Address.ipv6 addr) = addr.ip
encode_address (Address.domain name port) = length name % 256 ∷ name

unfoldable pub encode : ServerResponse → Bytes → Encoded
unfolding encode_address
encode item buf = (
  ok tt,
  buf
      ++ ((socks5_ver
            ∷ Reply.code item.reply
            ∷ socks5_rsv
            ∷ AddressType.code (Address.atyp item.bnd_address)
            ∷ [])
          ++ (encode_address item.bnd_address ++ be_bytes (Address.port item.bnd_address))),
)
