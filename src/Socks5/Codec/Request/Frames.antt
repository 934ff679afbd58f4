-- ===== src/Socks5/Codec/Request/Frames.antt =====
-- What `RequestResponseCodec.decode` does with a whole request, a part of one, and any other bytes.
use zc_splice_proxy.Base.{
  [], arith, if◌then◌else◌, length, ltb, not, ok, refl, suc, true, ℕ, ◌%◌, ◌*◌, ◌++◌, ◌+◌, ◌/◌,
  ◌==◌, ◌∷◌, ◌≡◌, false, sym, ◌∙◌,
}
use mathlib.Core.List.{append_assoc}
use zc_splice_proxy.Std.Utf8.{Bytes, is_utf8}
use zc_splice_proxy.Std.Net.{IsPort}
use zc_splice_proxy.Socks5.Error.{frame_too_large, invalid_version, invalid_reserved}
use zc_splice_proxy.Socks5.AddressType
use zc_splice_proxy.Socks5.AddressType.{AddressType}
use zc_splice_proxy.Socks5.Command
use zc_splice_proxy.Socks5.Command.{Command}
use zc_splice_proxy.Socks5.Address
use zc_splice_proxy.Socks5.Address.{Address, ipv4, ipv6, domain}
use zc_splice_proxy.Socks5.Messages.{ClientRequest, max_request_frame_size, socks5_ver, socks5_rsv}
use zc_splice_proxy.Socks5.Codec.Buffer.{be_bytes, incomplete, reject, frame}
use zc_splice_proxy.Socks5.Codec.Answers.{refuse_if}
use zc_splice_proxy.Socks5.Codec.Request.{
  address_len, decode_target, decode_typed, decode_command, decode,
}
use zc_splice_proxy.Socks5.Codec.Request.Shape.{
  decode_target_laid_out, parse_ipv4, parse_ipv6, parse_domain,
}

-- DST.ADDR of RFC 1928, section 5.
abbrev pub field : Address → Bytes
field (ipv4 addr) = addr.ip
field (ipv6 addr) = addr.ip
field (domain name port) = length name ∷ name

-- The request of RFC 1928, section 4, for the given command and target.
abbrev pub wire : Command → Address → Bytes
wire command address =
    socks5_ver
    ∷ Command.code command
    ∷ socks5_rsv
    ∷ AddressType.code (Address.atyp address)
    ∷ (field address ++ be_bytes (Address.port address))

-- A target as the wire can carry it: it has no room for the flow label and the scope.
abbrev pub as_read : Address → Address
as_read (ipv6 addr) = ipv6 (record addr { flowinfo = 0; scope_id = 0 })
as_read address = address

abbrev pub IsWritable : Address → Type 0
IsWritable (ipv4 addr) = (length addr.ip ≡ 4) × IsPort addr.port
IsWritable (ipv6 addr) = (length addr.ip ≡ 16) × IsPort addr.port
IsWritable (domain name port) = (is_utf8 name ≡ true) × IsPort port

abbrev pub request : Command → Address → ClientRequest
request command address = record { command = command; dst_address = address }

pub port_bytes : (p : ℕ) → IsPort p → p / 256 % 256 * 256 + p % 256 ≡ p
port_bytes p h = omega arith

-- The tests on a buffer with a complete header, in their order.
module _ (v c r a : ℕ) (body : Bytes) where
  abbrev pub buf : Bytes
  buf = v ∷ c ∷ r ∷ a ∷ body

  pub decode_header :
      decode buf
      ≡ refuse_if (ltb max_request_frame_size (4 + length body)) frame_too_large buf (
          refuse_if
            (not (v == socks5_ver))
            invalid_version
            buf
            (decode_command buf (Command.try_from c)))
  unfolding decode refuse_if
  decode_header = ground arith

  pub decode_command_ok :
      (command : Command)
      → decode_command buf (ok command)
        ≡ refuse_if
            (not (r == socks5_rsv))
            invalid_reserved
            buf
            (decode_typed command buf (AddressType.try_from a))
  unfolding decode_command refuse_if
  decode_command_ok command = refl

  pub decode_typed_ipv4 :
      (command : Command)
      → decode_typed command buf (ok AddressType.ipv4)
        ≡ decode_target command AddressType.ipv4 4 buf
  unfolding decode_typed address_len
  decode_typed_ipv4 command = refl

  pub decode_typed_ipv6 :
      (command : Command)
      → decode_typed command buf (ok AddressType.ipv6)
        ≡ decode_target command AddressType.ipv6 16 buf
  unfolding decode_typed address_len
  decode_typed_ipv6 command = refl

pub decode_typed_domain :
    (v c r a d : ℕ) (body : Bytes) (command : Command)
    → decode_typed command (v ∷ c ∷ r ∷ a ∷ d ∷ body) (ok AddressType.domain)
      ≡ decode_target command AddressType.domain (suc d) (v ∷ c ∷ r ∷ a ∷ d ∷ body)
unfolding decode_typed address_len
decode_typed_domain v c r a d body command =
    let past : ltb (length (v ∷ c ∷ r ∷ a ∷ d ∷ body)) 5 ≡ false = ground arith in
    let next : 1 + d ≡ suc d = omega arith in rw (past, next)

pub decode_typed_no_length :
    (v c r a : ℕ) (command : Command)
    → decode_typed command (v ∷ c ∷ r ∷ a ∷ []) (ok AddressType.domain)
      ≡ incomplete (v ∷ c ∷ r ∷ a ∷ [])
unfolding decode_typed address_len
decode_typed_no_length v c r a command = refl

-- The target of a whole request.
decode_typed-wire :
    (command : Command) (address : Address) (rest : Bytes)
    → IsWritable address
    → decode_typed command (wire command address ++ rest) (ok (Address.atyp address))
      ≡ frame (request command (as_read address)) rest
unfolding Address.atyp Address.port
decode_typed-wire command (ipv4 addr) rest w =
    rw (append_assoc, decode_typed_ipv4)
      (decode_target_laid_out _ _ _ _ addr.ip (addr.port / 256 % 256) (addr.port % 256) rest command
        _ 4 (ok (as_read (ipv4 addr))) (sym w.0)
        (rw (port_bytes addr.port w.1) (parse_ipv4 addr.ip addr.port w.0)))
decode_typed-wire command (ipv6 addr) rest w =
    rw (append_assoc, decode_typed_ipv6)
      (decode_target_laid_out _ _ _ _ addr.ip (addr.port / 256 % 256) (addr.port % 256) rest command
        _ 16 (ok (as_read (ipv6 addr))) (sym w.0)
        (rw (port_bytes addr.port w.1) (parse_ipv6 addr.ip addr.port w.0)))
decode_typed-wire command (domain name port) rest w =
    rw (append_assoc, decode_typed_domain)
      (decode_target_laid_out _ _ _ _ (length name ∷ name) (port / 256 % 256) (port % 256) rest
        command _ _ (ok (domain name port)) refl
        (rw (port_bytes port w.1) (parse_domain name port ∙ rw w.0)))

pub try_from_command : (x : Command) → Command.try_from (Command.code x) ≡ ok x
try_from_command x = (Command.command_try_from_iff (Command.code x) x).1 refl

pub try_from_address_type : (x : AddressType) → AddressType.try_from (AddressType.code x) ≡ ok x
try_from_address_type x = (AddressType.address_type_try_from_iff (AddressType.code x) x).1 refl

-- A request that the wire can carry is decoded, without the flow label and the scope of an IPv6
-- address, and the bytes behind it stay in the buffer, if the buffer as a whole is within the limit;
-- else it is refused as too large.
pub decode-request-wire :
    (command : Command) (address : Address) (rest : Bytes)
    → IsWritable address
    → let buf = wire command address ++ rest in
      decode buf ≡ (
        if ltb max_request_frame_size (length buf)
        then reject frame_too_large buf
        else frame (request command (as_read address)) rest)
unfolding refuse_if
decode-request-wire command address rest w =
    rw
      (
        decode_header,
        try_from_command,
        decode_command_ok,
        try_from_address_type,
        decode_typed-wire command address rest w,
      )
      (ground arith)
