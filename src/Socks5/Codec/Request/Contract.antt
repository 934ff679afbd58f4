-- ===== src/Socks5/Codec/Request/Contract.antt =====
-- `RequestResponseCodec.decode` and the contract of the codecs.
use zc_splice_proxy.Base.{
  All, All-append_right, [], arith, inl, inr, length, length-append, refl, split_at, subst, sym, ℕ,
  ◌*◌, ◌++◌, ◌+◌, ◌<◌, ◌∷◌, ◌≡◌, ◌≤◌, ◌⊎◌, Bool-cases, Result, err, ok, suc,
}
use mathlib.Core.List.{append_assoc}
use zc_splice_proxy.Std.Utf8.{Bytes, IsByte, is_utf8}
use zc_splice_proxy.Socks5.Error.{ProtocolError, invalid_domain_encoding}
use zc_splice_proxy.Socks5.AddressType
use zc_splice_proxy.Socks5.AddressType.{AddressType}
use zc_splice_proxy.Socks5.Command
use zc_splice_proxy.Socks5.Command.{Command}
use zc_splice_proxy.Socks5.Address
use zc_splice_proxy.Socks5.Address.{Address, ipv4, ipv6, domain}
use zc_splice_proxy.Socks5.Messages.{ClientRequest, max_request_frame_size, socks5_ver, socks5_rsv}
use zc_splice_proxy.Socks5.Codec.Buffer.{be_bytes}
use zc_splice_proxy.Socks5.Codec.Answers.{Answers, waits, refuses, reads, Answers-refuse_if}
use zc_splice_proxy.Socks5.Codec.Request.{decode_target, decode_typed, decode_command, decode}
use zc_splice_proxy.Socks5.Codec.Request.Shape.{
  laid_out, decode_target_laid_out, decode_target_short, parse_ipv4, parse_ipv6, parse_domain,
}
use zc_splice_proxy.Socks5.Codec.Request.Frames.{
  field, as_read, wire, IsWritable, request, decode_header, decode_command_ok, decode_typed_ipv4,
  decode_typed_ipv6, decode_typed_domain, decode_typed_no_length,
}

-- The item's wire form stands at the front of the buffer.
pub record Whole (buf : Bytes) (item : ClientRequest) (rest : Bytes) : Type 0 where
  pub writable : IsWritable item.dst_address
  pub plain : as_read item.dst_address ≡ item.dst_address
  pub at_front : buf ≡ wire item.command item.dst_address ++ rest
  pub within_limit : length buf ≤ max_request_frame_size

-- A body that is too short for an address field of `n` bytes and a port, or holds both.
pub data Target (n : ℕ) : Bytes → Type 0 where
  short : (body : Bytes) → length body < n + 2 → Target n body
  full :
      (field : Bytes) (hi lo : ℕ) (rest : Bytes)
      → length field ≡ n
      → Target n (field ++ hi ∷ lo ∷ rest)

target_tail :
    (n : ℕ) (field : Bytes) (hi : ℕ) (tail : Bytes)
    → length field ≡ n
    → Target n (field ++ hi ∷ tail)
target_tail n field hi [] k = short _ (omega (arith, length-append field (hi ∷ [])))
target_tail n field hi (lo ∷ rest) k = full field hi lo rest k

pub target : (n : ℕ) (body : Bytes) → (length body ≤ n) ⊎ (n < length body) → Target n body
target n body (inl h) = short body (omega arith)
target n body (inr h) =
    let (field, hi, tail, e, k) = split_at n body h in
    subst (Target n) (sym e) (target_tail n field hi tail k)

be_bytes_pair : (hi lo : ℕ) → IsByte hi → IsByte lo → be_bytes (hi * 256 + lo) ≡ hi ∷ lo ∷ []
be_bytes_pair hi lo h k = ground arith

-- A header that passed its tests, for a command and an address type.
record IsHeader (v c r a : ℕ) (command : Command) (ty : AddressType) : Type 0 where
  version : v ≡ socks5_ver
  of_command : c ≡ Command.code command
  reserved : r ≡ socks5_rsv
  of_type : a ≡ AddressType.code ty

module _ (v c r a : ℕ) (command : Command) where
  -- An address whose field and port were found behind such a header.
  address_Whole :
      (address : Address) (hi lo : ℕ) (rest : Bytes)
      → IsHeader v c r a command (Address.atyp address)
      → IsWritable address
      → as_read address ≡ address
      → be_bytes (Address.port address) ≡ hi ∷ lo ∷ []
      → 4 + length (field address ++ hi ∷ lo ∷ rest) ≤ max_request_frame_size
      → Whole (laid_out v c r a (field address) hi lo rest) (request command address) rest
  address_Whole address hi lo rest hd w plain port small = record {
    writable = w;
    plain = plain;
    at_front = rw (hd.version, hd.of_command, hd.reserved, hd.of_type, port, append_assoc) refl;
    within_limit = omega arith;
  }

  ipv4_Answers :
      {body : Bytes}
      → IsHeader v c r a command AddressType.ipv4
      → 4 + length body ≤ max_request_frame_size
      → All IsByte body
      → Target 4 body
      → let buf = v ∷ c ∷ r ∷ a ∷ body in
        Answers (Whole buf) buf (decode_target command AddressType.ipv4 4 buf)
  unfolding Address.atyp Address.port
  ipv4_Answers hd small bytes (short body h) =
      rw (decode_target_short command AddressType.ipv4 4 (v ∷ c ∷ r ∷ a ∷ body) (omega arith)) waits
  ipv4_Answers hd small bytes (full ip hi lo rest k) =
      let pair = All-append_right IsByte ip (hi ∷ lo ∷ rest) bytes in
      let address : Address = ipv4 (record { ip = ip; port = hi * 256 + lo }) in
      let port : be_bytes (hi * 256 + lo) ≡ hi ∷ lo ∷ [] = be_bytes_pair hi lo pair.0 pair.1.0 in
      rw
        (decode_target_laid_out v c r a ip hi lo rest command AddressType.ipv4 4 _ (sym k)
          (parse_ipv4 ip (hi * 256 + lo) k))
        (reads (address_Whole address hi lo rest hd (k, omega arith) refl port small))

  ipv6_Answers :
      {body : Bytes}
      → IsHeader v c r a command AddressType.ipv6
      → 4 + length body ≤ max_request_frame_size
      → All IsByte body
      → Target 16 body
      → let buf = v ∷ c ∷ r ∷ a ∷ body in
        Answers (Whole buf) buf (decode_target command AddressType.ipv6 16 buf)
  unfolding Address.atyp Address.port
  ipv6_Answers hd small bytes (short body h) =
      rw (decode_target_short command AddressType.ipv6 16 (v ∷ c ∷ r ∷ a ∷ body) (omega arith))
        waits
  ipv6_Answers hd small bytes (full ip hi lo rest k) =
      let pair = All-append_right IsByte ip (hi ∷ lo ∷ rest) bytes in
      let address : Address =
        ipv6 (record { ip = ip; port = hi * 256 + lo; flowinfo = 0; scope_id = 0 }) in
      let port : be_bytes (hi * 256 + lo) ≡ hi ∷ lo ∷ [] = be_bytes_pair hi lo pair.0 pair.1.0 in
      rw
        (decode_target_laid_out v c r a ip hi lo rest command AddressType.ipv6 16 _ (sym k)
          (parse_ipv6 ip (hi * 256 + lo) k))
        (reads (address_Whole address hi lo rest hd (k, omega arith) refl port small))

  domain_Answers :
      (d : ℕ) {body : Bytes}
      → IsHeader v c r a command AddressType.domain
      → 5 + length body ≤ max_request_frame_size
      → All IsByte body
      → Target d body
      → let buf = v ∷ c ∷ r ∷ a ∷ d ∷ body in
        Answers (Whole buf) buf (decode_target command AddressType.domain (suc d) buf)
  unfolding Address.atyp Address.port
  domain_Answers d hd small bytes (short body h) =
      rw
        (decode_target_short command AddressType.domain (suc d) (v ∷ c ∷ r ∷ a ∷ d ∷ body)
          (omega arith))
        waits
  domain_Answers d hd small bytes (full name hi lo rest k) =
      let pair = All-append_right IsByte name (hi ∷ lo ∷ rest) bytes in
      let port : be_bytes (hi * 256 + lo) ≡ hi ∷ lo ∷ [] = be_bytes_pair hi lo pair.0 pair.1.0 in
      let parsed = parse_domain name (hi * 256 + lo) in
      let laid =
        decode_target_laid_out v c r a (length name ∷ name) hi lo rest command AddressType.domain
          (suc (length name)) _ refl parsed in
      rw (← k, laid)
        (elim (Bool-cases (is_utf8 name)) [
          | inl text ↦ rw text (
              reads (
                address_Whole (domain name (hi * 256 + lo)) hi lo rest hd (text, omega arith) refl
                  port (omega arith)))
          | inr other ↦ rw other (refuses invalid_domain_encoding)
        ])

  typed_Answers :
      (body : Bytes) (ty : Result AddressType ProtocolError)
      → AddressType.try_from a ≡ ty
      → v ≡ socks5_ver
      → c ≡ Command.code command
      → r ≡ socks5_rsv
      → 4 + length body ≤ max_request_frame_size
      → All IsByte body
      → let buf = v ∷ c ∷ r ∷ a ∷ body in Answers (Whole buf) buf (decode_typed command buf ty)
  typed_Answers body (err e) h hv hc hr small bytes = unfold decode_typed in refuses e
  typed_Answers body (ok AddressType.ipv4) h hv hc hr small bytes = rw decode_typed_ipv4 (
      ipv4_Answers
        (record {
          version = hv;
          of_command = hc;
          reserved = hr;
          of_type = (AddressType.address_type_try_from_iff a AddressType.ipv4).0 h;
        })
        small bytes (target 4 body (grind arith)))
  typed_Answers body (ok AddressType.ipv6) h hv hc hr small bytes = rw decode_typed_ipv6 (
      ipv6_Answers
        (record {
          version = hv;
          of_command = hc;
          reserved = hr;
          of_type = (AddressType.address_type_try_from_iff a AddressType.ipv6).0 h;
        })
        small bytes (target 16 body (grind arith)))
  typed_Answers [] (ok AddressType.domain) h hv hc hr small bytes = rw decode_typed_no_length waits
  typed_Answers (d ∷ body) (ok AddressType.domain) h hv hc hr small bytes = rw decode_typed_domain (
      domain_Answers d
        (record {
          version = hv;
          of_command = hc;
          reserved = hr;
          of_type = (AddressType.address_type_try_from_iff a AddressType.domain).0 h;
        })
        (omega arith) bytes.1 (target d body (grind arith)))

command_Answers :
    (v c r a : ℕ) (body : Bytes) (command : Result Command ProtocolError)
    → Command.try_from c ≡ command
    → v ≡ socks5_ver
    → 4 + length body ≤ max_request_frame_size
    → All IsByte body
    → let buf = v ∷ c ∷ r ∷ a ∷ body in Answers (Whole buf) buf (decode_command buf command)
command_Answers v c r a body (err e) h hv small bytes = unfold decode_command in refuses e
command_Answers v c r a body (ok command) h hv small bytes = rw decode_command_ok (
    Answers-refuse_if _ λ rsv.
      typed_Answers v c r a command body _ refl hv ((Command.command_try_from_iff c command).0 h)
        (ground arith) small bytes)

-- The codec keeps the contract of `Answers` on bytes: it never panics, leaves the buffer untouched
-- unless it reads a request, and takes exactly that request's wire form off the front.
pub decode_request-Answers : (buf : Bytes) → All IsByte buf → Answers (Whole buf) buf (decode buf)
unfolding decode
decode_request-Answers [] bytes = waits
decode_request-Answers (v ∷ []) bytes = waits
decode_request-Answers (v ∷ c ∷ []) bytes = waits
decode_request-Answers (v ∷ c ∷ r ∷ []) bytes = waits
decode_request-Answers (v ∷ c ∷ r ∷ a ∷ body) bytes = rw (decode_header v c r a body) (
    Answers-refuse_if _ λ small.
      Answers-refuse_if _
        λ ver. command_Answers v c r a body _ refl (ground arith) (ground arith) bytes.1.1.1.1)
