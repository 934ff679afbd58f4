-- ===== src/Socks5/Codec/Request/Shape.antt =====
-- The parts of `RequestResponseCodec.decode` on a buffer that is split into its fields.
use zc_splice_proxy.Base.{
  Result, [], arith, err, false, if◌then◌else◌, length, length-append, ltb, ok, refl, returns,
  take_all, ℕ, ◌*◌, ◌++◌, ◌+◌, ◌<◌, ◌∙◌, ◌∷◌, ◌≡◌, take_self,
}
use zc_splice_proxy.Std.Utf8.{Bytes, is_utf8, from_utf8}
use zc_splice_proxy.Socks5.Error.{ProtocolError, invalid_domain_encoding}
use zc_splice_proxy.Socks5.AddressType.{AddressType, ipv4, ipv6, domain}
use zc_splice_proxy.Socks5.Command.{Command}
use zc_splice_proxy.Socks5.Address.{Address}
use zc_splice_proxy.Socks5.Messages.{ClientRequest}
use zc_splice_proxy.Socks5.Codec.Buffer.{
  Decoded, slice, advance, expect_array, from_be_bytes, slice-append, advance-append, incomplete,
  reject, frame,
}
use zc_splice_proxy.Socks5.Codec.Request.{finish, parse_address, decode_target}

-- A request whose address field is complete and followed by a port.
abbrev pub laid_out : ℕ → ℕ → ℕ → ℕ → Bytes → ℕ → ℕ → Bytes → Bytes
laid_out v c r a field hi lo rest = v ∷ c ∷ r ∷ a ∷ (field ++ hi ∷ lo ∷ rest)

module _ (v c r a : ℕ) (field : Bytes) (hi lo : ℕ) (rest : Bytes) where
  abbrev pub buf : Bytes
  buf = laid_out v c r a field hi lo rest

  field-slice : slice buf 4 (4 + length field) ≡ returns field
  field-slice =
      slice-append (v ∷ c ∷ r ∷ a ∷ []) (field ++ hi ∷ lo ∷ rest) 4 _ (length field) refl refl
        (omega (arith, length-append field (hi ∷ lo ∷ rest)))
      ∙ rw (take_all field (hi ∷ lo ∷ rest))

  port_slice : slice buf (4 + length field) (4 + length field + 2) ≡ returns (hi ∷ lo ∷ [])
  port_slice =
      slice-append (v ∷ c ∷ r ∷ a ∷ field) (hi ∷ lo ∷ rest) (4 + length field) _ 2 (omega arith)
        refl (omega arith)

  rest_advance : advance buf (4 + length field + 2) ≡ returns rest
  rest_advance =
      advance-append (v ∷ c ∷ r ∷ a ∷ field) (hi ∷ lo ∷ rest) _ 2 (omega arith) (omega arith)

  -- What is done with the parsed address.
  abbrev pub finished : Command → Result Address ProtocolError → Decoded ClientRequest
  finished command (err e) = reject e buf
  finished command (ok address) = frame (record { command = command; dst_address = address }) rest

  finish_laid_out :
      (command : Command) (parsed : Result Address ProtocolError)
      → finish command buf (4 + length field + 2) parsed ≡ finished command parsed
  unfolding finish
  finish_laid_out command (err e) = refl
  finish_laid_out command (ok address) = rw rest_advance

  pub decode_target_laid_out :
      (command : Command) (ty : AddressType) (n : ℕ) (parsed : Result Address ProtocolError)
      → n ≡ length field
      → parse_address ty field (hi * 256 + lo) ≡ returns parsed
      → decode_target command ty n buf ≡ finished command parsed
  unfolding decode_target expect_array from_be_bytes
  decode_target_laid_out command ty n parsed k e =
      let long : ltb (length buf) (4 + length field + 2) ≡ false =
        ground (arith, length-append field (hi ∷ lo ∷ rest)) in
      rw (k, long, field-slice, port_slice, e) (finish_laid_out command parsed)

pub decode_target_short :
    (command : Command) (ty : AddressType) (n : ℕ) (buf : Bytes)
    → length buf < 4 + n + 2
    → decode_target command ty n buf ≡ incomplete buf
unfolding decode_target
decode_target_short command ty n buf h = ground arith

pub parse_ipv4 :
    (ip : Bytes) (port : ℕ)
    → length ip ≡ 4
    → parse_address ipv4 ip port ≡ returns (ok (Address.ipv4 (record { ip = ip; port = port })))
unfolding parse_address
parse_ipv4 ip port h =
    let whole : slice ip 0 4 ≡ returns ip =
      slice-append [] ip 0 4 4 refl refl (omega arith) ∙ rw (← h, take_self ip) in
    let sized : expect_array 4 ip ≡ returns ip = unfold expect_array in ground arith in
    rw (whole, sized)

pub parse_domain :
    (name : Bytes) (port : ℕ)
    → parse_address domain (length name ∷ name) port
      ≡ returns
          (if is_utf8 name then ok (Address.domain name port) else err invalid_domain_encoding)
unfolding parse_address from_utf8
parse_domain name port =
    let whole : slice (length name ∷ name) 1 (1 + length name) ≡ returns name =
      slice-append (length name ∷ []) name 1 _ (length name) refl refl (omega arith)
      ∙ rw (take_self name) in
    rw whole (ground arith)

pub parse_ipv6 :
    (ip : Bytes) (port : ℕ)
    → length ip ≡ 16
    → parse_address ipv6 ip port
      ≡ returns (ok (Address.ipv6 (record { ip = ip; port = port; flowinfo = 0; scope_id = 0 })))
unfolding parse_address
parse_ipv6 ip port h =
    let whole : slice ip 0 16 ≡ returns ip =
      slice-append [] ip 0 16 16 refl refl (omega arith) ∙ rw (← h, take_self ip) in
    let sized : expect_array 16 ip ≡ returns ip = unfold expect_array in ground arith in
    rw (whole, sized)
