-- ===== src/Socks5/Codec/Request/Streaming.antt =====
-- `RequestResponseCodec.decode` on a request that arrives in parts, and with bytes behind it.
use zc_splice_proxy.Base.{
  All, [], ap, arith, false, length, length-append, ltb, ok, refl, suc, ℕ, ◌++◌, ◌+◌, ◌<◌, ◌∷◌, ◌≡◌,
  ◌≤◌, Result, err, le→not_ltb, not, ◌==◌, if◌then◌else◌, sym, ◌*◌, ◌≢◌,
}
use mathlib.Core.List.{append_assoc}
use zc_splice_proxy.Std.Utf8.{Bytes, IsByte, is_utf8}
use zc_splice_proxy.Socks5.Error.{ProtocolError, invalid_domain_encoding}
use zc_splice_proxy.Socks5.AddressType
use zc_splice_proxy.Socks5.AddressType.{AddressType}
use zc_splice_proxy.Socks5.Command
use zc_splice_proxy.Socks5.Command.{Command}
use zc_splice_proxy.Socks5.Address
use zc_splice_proxy.Socks5.Address.{Address, ipv4, ipv6, domain}
use zc_splice_proxy.Socks5.Messages.{ClientRequest, max_request_frame_size, socks5_ver, socks5_rsv}
use zc_splice_proxy.Socks5.Codec.Buffer.{be_bytes, Decoded, incomplete, reject, frame}
use zc_splice_proxy.Socks5.Codec.Answers.{Answers-frame, refuse_if}
use zc_splice_proxy.Socks5.Codec.Request.{decode_typed, decode_command, decode}
use zc_splice_proxy.Socks5.Codec.Request.Shape.{
  finished, decode_target_laid_out, decode_target_short, parse_ipv4, parse_ipv6, parse_domain,
}
use zc_splice_proxy.Socks5.Codec.Request.Frames.{
  field, wire, IsWritable, try_from_command, try_from_address_type, decode_header,
  decode_command_ok, decode_typed_ipv4, decode_typed_ipv6, decode_typed_domain,
  decode_typed_no_length, decode-request-wire,
}
use zc_splice_proxy.Socks5.Codec.Request.Contract.{
  Target, short, full, target, decode_request-Answers,
}

-- A request that was read off a buffer of bytes is read alike when more bytes arrive behind it, as
-- long as the buffer is within the limit; the new bytes stay in the buffer.
pub append_request_frame :
    (buf more : Bytes) (x : ClientRequest) (rest : Bytes)
    → All IsByte buf
    → length (buf ++ more) ≤ max_request_frame_size
    → decode buf ≡ frame x rest
    → decode (buf ++ more) ≡ frame x (rest ++ more)
append_request_frame buf more x rest bytes h e =
    let whole = Answers-frame (decode_request-Answers buf bytes) e in
    let front : buf ++ more ≡ wire x.command x.dst_address ++ (rest ++ more) =
      rw (whole.at_front, append_assoc) refl in
    let read = decode-request-wire x.command x.dst_address (rest ++ more) whole.writable in
    let small : ltb max_request_frame_size (length (wire x.command x.dst_address ++ (rest ++ more)))
        ≡ false =
      le→not_ltb _ _ (omega (arith, ap length front)) in
    rw (front, read, small, whole.plain) refl

-- The target of a part of a request is waited for.
typed_part :
    (command : Command) (address : Address) (v c r a : ℕ) (body missing : Bytes)
    → IsWritable address
    → body ++ missing ≡ field address ++ be_bytes (Address.port address)
    → 0 < length missing
    → decode_typed command (v ∷ c ∷ r ∷ a ∷ body) (ok (Address.atyp address))
      ≡ incomplete (v ∷ c ∷ r ∷ a ∷ body)
unfolding Address.atyp
typed_part command (ipv4 addr) v c r a body missing w e m = rw decode_typed_ipv4 (
    decode_target_short command AddressType.ipv4 4 (v ∷ c ∷ r ∷ a ∷ body) (
      omega (
        arith,
        ap length e,
        length-append body missing,
        length-append addr.ip (be_bytes (Address.port (ipv4 addr))),
        w.0,
      )))
typed_part command (ipv6 addr) v c r a body missing w e m = rw decode_typed_ipv6 (
    decode_target_short command AddressType.ipv6 16 (v ∷ c ∷ r ∷ a ∷ body) (
      omega (
        arith,
        ap length e,
        length-append body missing,
        length-append addr.ip (be_bytes (Address.port (ipv6 addr))),
        w.0,
      )))
typed_part command (domain name port) v c r a [] missing w e m = rw decode_typed_no_length refl
typed_part command (domain name port) v c r a (d ∷ body) missing w e m =
    let same : d ≡ length name = cc e in
    rw decode_typed_domain (
      decode_target_short command AddressType.domain (suc d) (v ∷ c ∷ r ∷ a ∷ d ∷ body) (
        omega (
          arith,
          same,
          ap length e,
          length-append body missing,
          length-append name (be_bytes (Address.port (domain name port))),
        )))

-- A proper part of a request within the limit is never an error: the codec waits for the rest.
pub decode_request_part :
    (command : Command) (address : Address) (part missing : Bytes)
    → IsWritable address
    → length (wire command address) ≤ max_request_frame_size
    → part ++ missing ≡ wire command address
    → 0 < length missing
    → decode part ≡ incomplete part
unfolding refuse_if
decode_request_part command address [] missing w h e m = unfold decode in refl
decode_request_part command address (v ∷ []) missing w h e m = unfold decode in refl
decode_request_part command address (v ∷ c ∷ []) missing w h e m = unfold decode in refl
decode_request_part command address (v ∷ c ∷ r ∷ []) missing w h e m = unfold decode in refl
decode_request_part command address (v ∷ c ∷ r ∷ a ∷ body) missing w h e m =
    let hv : v ≡ socks5_ver = cc e in
    let hc : c ≡ Command.code command = cc e in
    let hr : r ≡ socks5_rsv = cc e in
    let ha : a ≡ AddressType.code (Address.atyp address) = cc e in
    let hb : body ++ missing ≡ field address ++ be_bytes (Address.port address) = cc e in
    let small : ltb max_request_frame_size (4 + length body) ≡ false =
      ground (arith, ap length e, length-append body missing) in
    let waits = typed_part command address v c r a body missing w hb m in
    let cmd : Command.try_from c ≡ ok command = rw hc (try_from_command command) in
    let atyp : AddressType.try_from a ≡ ok (Address.atyp address) =
      rw ha (try_from_address_type _) in
    let ver : not (v == socks5_ver) ≡ false = ground arith in
    let rsv : not (r == socks5_rsv) ≡ false = ground arith in
    rw (decode_header, small, ver, cmd, decode_command_ok, rsv, atyp) waits

-- Only a domain name can be refused once the address type is known.
module _ (command : Command) (v c r a : ℕ) where
  abbrev typed : Bytes → AddressType → Decoded ClientRequest
  typed body ty = decode_typed command (v ∷ c ∷ r ∷ a ∷ body) (ok ty)

  ipv4_accepted :
      {body : Bytes} (e : ProtocolError)
      → Target 4 body
      → typed body AddressType.ipv4 ≢ reject e (v ∷ c ∷ r ∷ a ∷ body)
  ipv4_accepted e (short body k) h = cc (
    h,
    decode_typed_ipv4 v c r a body command,
    decode_target_short command AddressType.ipv4 4 (v ∷ c ∷ r ∷ a ∷ body) (omega arith),
  )
  ipv4_accepted e (full ip hi lo rest k) h = cc (
    h,
    decode_typed_ipv4 v c r a (ip ++ hi ∷ lo ∷ rest) command,
    decode_target_laid_out v c r a ip hi lo rest command AddressType.ipv4 4 _ (sym k)
        (parse_ipv4 ip (hi * 256 + lo) k),
  )

  ipv6_accepted :
      {body : Bytes} (e : ProtocolError)
      → Target 16 body
      → typed body AddressType.ipv6 ≢ reject e (v ∷ c ∷ r ∷ a ∷ body)
  ipv6_accepted e (short body k) h = cc (
    h,
    decode_typed_ipv6 v c r a body command,
    decode_target_short command AddressType.ipv6 16 (v ∷ c ∷ r ∷ a ∷ body) (omega arith),
  )
  ipv6_accepted e (full ip hi lo rest k) h = cc (
    h,
    decode_typed_ipv6 v c r a (ip ++ hi ∷ lo ∷ rest) command,
    decode_target_laid_out v c r a ip hi lo rest command AddressType.ipv6 16 _ (sym k)
        (parse_ipv6 ip (hi * 256 + lo) k),
  )

  -- The answer to a whole domain name and port, whatever stands behind them.
  domain_answer :
      (name : Bytes) (hi lo : ℕ) (rest : Bytes)
      → typed (length name ∷ (name ++ hi ∷ lo ∷ rest)) AddressType.domain
        ≡ finished v c r a
            (length name ∷ name)
            hi
            lo
            rest
            command
            (if is_utf8 name then ok (domain name (hi * 256 + lo)) else err invalid_domain_encoding)
  domain_answer name hi lo rest = rw decode_typed_domain (
      decode_target_laid_out v c r a (length name ∷ name) hi lo rest command AddressType.domain
        (suc (length name)) _ refl (parse_domain name (hi * 256 + lo)))

  domain_reject :
      (d : ℕ) {body : Bytes} (more : Bytes) (e : ProtocolError)
      → Target d body
      → typed (d ∷ body) AddressType.domain ≡ reject e (v ∷ c ∷ r ∷ a ∷ d ∷ body)
      → typed (d ∷ (body ++ more)) AddressType.domain
        ≡ reject e (v ∷ c ∷ r ∷ a ∷ d ∷ (body ++ more))
  domain_reject d more e (short body k) h = absurd (
      cc (
        h,
        decode_typed_domain v c r a d body command,
        decode_target_short command AddressType.domain (suc d) (v ∷ c ∷ r ∷ a ∷ d ∷ body)
            (omega arith),
      ))
  domain_reject d more e (full name hi lo rest k) h =
      rw append_assoc
        (ground (arith, domain_answer name hi lo rest, domain_answer name hi lo (rest ++ more)))

  typed_reject :
      (body more : Bytes) (ty : Result AddressType ProtocolError) (e : ProtocolError)
      → decode_typed command (v ∷ c ∷ r ∷ a ∷ body) ty ≡ reject e (v ∷ c ∷ r ∷ a ∷ body)
      → decode_typed command (v ∷ c ∷ r ∷ a ∷ (body ++ more)) ty
        ≡ reject e (v ∷ c ∷ r ∷ a ∷ (body ++ more))
  typed_reject body more (err x) e h = unfold decode_typed in ground (arith, h)
  typed_reject body more (ok AddressType.ipv4) e h =
      absurd (ipv4_accepted e (target 4 body (grind arith)) h)
  typed_reject body more (ok AddressType.ipv6) e h =
      absurd (ipv6_accepted e (target 16 body (grind arith)) h)
  typed_reject [] more (ok AddressType.domain) e h =
      absurd (cc (decode_typed_no_length v c r a command))
  typed_reject (d ∷ body) more (ok AddressType.domain) e h =
      domain_reject d more e (target d body (grind arith)) h

command_reject :
    (v c r a : ℕ) (body more : Bytes) (command : Result Command ProtocolError) (e : ProtocolError)
    → decode_command (v ∷ c ∷ r ∷ a ∷ body) command ≡ reject e (v ∷ c ∷ r ∷ a ∷ body)
    → decode_command (v ∷ c ∷ r ∷ a ∷ (body ++ more)) command
      ≡ reject e (v ∷ c ∷ r ∷ a ∷ (body ++ more))
unfolding refuse_if
command_reject v c r a body more (err x) e h = unfold decode_command in ground (arith, h)
command_reject v c r a body more (ok command) e h = rw decode_command_ok (
    ground (
      arith,
      decode_command_ok v c r a body command,
      typed_reject command v c r a body more (AddressType.try_from a) e,
    ))

-- An error stays the same error when more bytes arrive, as long as the buffer is within the limit.
pub append_request_reject :
    (buf more : Bytes) (e : ProtocolError)
    → length (buf ++ more) ≤ max_request_frame_size
    → decode buf ≡ reject e buf
    → decode (buf ++ more) ≡ reject e (buf ++ more)
unfolding refuse_if
append_request_reject [] more e h k = unfold decode in cc k
append_request_reject (v ∷ []) more e h k = unfold decode in cc k
append_request_reject (v ∷ c ∷ []) more e h k = unfold decode in cc k
append_request_reject (v ∷ c ∷ r ∷ []) more e h k = unfold decode in cc k
append_request_reject (v ∷ c ∷ r ∷ a ∷ body) more e h k = rw decode_header (
    ground (
      arith,
      decode_header v c r a body,
      length-append body more,
      command_reject v c r a body more (Command.try_from c) e,
    ))
