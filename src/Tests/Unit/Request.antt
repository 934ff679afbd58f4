-- ===== src/Tests/Unit/Request.antt =====
-- The unit tests of noxen-socks5/src/codecs/server.rs for the decoder of `RequestResponseCodec`, run on the model.
use zc_splice_proxy.Base.{Bool, [], length, ltb, refl, replicate, true, ◌&&◌, ◌++◌, ◌==◌, ◌∷◌, ◌≡◌}
use zc_splice_proxy.Std.Utf8.{Bytes, is_utf8}
use zc_splice_proxy.Socks5.Codec.Buffer.{slice, advance, expect_array, from_be_bytes}
use zc_splice_proxy.Tests.Asserts.{
  all_pass, assert_frame, assert_decoded, assert_returned, is_protocol_error,
  ProtocolError-discrete, Command-discrete, AddressType-discrete, is_none, is_nil, same_bytes,
  is_command, is_address_type,
}
use zc_splice_proxy.Socks5.AddressType
use zc_splice_proxy.Socks5.Command
use zc_splice_proxy.Socks5.Address
use zc_splice_proxy.Socks5.Messages.{max_request_frame_size}
use zc_splice_proxy.Socks5.Codec.Request.{
  decode, decode_command, decode_typed, decode_target, address_len, parse_address,
}
use zc_splice_proxy.Socks5.Error.{
  frame_too_large, invalid_address_type, invalid_command, invalid_domain_encoding, invalid_reserved,
  invalid_version,
}

abbrev test_decoder_request_ipv4_connect : Bool
test_decoder_request_ipv4_connect =
    let message : Bytes = 0x05 ∷ 0x01 ∷ 0x00 ∷ 0x01 ∷ 127 ∷ 0 ∷ 0 ∷ 1 ∷ 0x1f ∷ 0x90 ∷ [] in
    assert_frame (decode message) (λ request buf.
      is_nil buf
      && is_command request.command Command.connect
      && is_address_type (Address.atyp request.dst_address) AddressType.ipv4
      && same_bytes (Address.addr request.dst_address) (127 ∷ 0 ∷ 0 ∷ 1 ∷ [])
      && (Address.port request.dst_address == 8080))

abbrev test_decoder_request_ipv6_bind : Bool
test_decoder_request_ipv6_bind =
    let message : Bytes =
      0x05 ∷ 0x02 ∷ 0x00 ∷ 0x04 ∷ 0x00 ∷ 0x00 ∷ 0x00 ∷ 0x00 ∷ 0x00 ∷ 0x00 ∷ 0x00 ∷ 0x00 ∷ 0x00
      ∷ 0x00 ∷ 0x00 ∷ 0x00 ∷ 0x00 ∷ 0x00 ∷ 0x00 ∷ 0x01 ∷ 0xff ∷ 0xff ∷ [] in
    assert_frame (decode message) (λ request buf.
      is_nil buf
      && is_command request.command Command.bind
      && is_address_type (Address.atyp request.dst_address) AddressType.ipv6
      && same_bytes (Address.addr request.dst_address) (replicate 15 0 ++ (1 ∷ []))
      && (Address.port request.dst_address == 65535))

abbrev test_decoder_request_domain_udp_associate : Bool
test_decoder_request_domain_udp_associate =
    let message : Bytes =
      0x05 ∷ 0x03 ∷ 0x00 ∷ 0x03 ∷ 0x0a ∷ 0x67 ∷ 0x6f ∷ 0x6f ∷ 0x67 ∷ 0x6c ∷ 0x65 ∷ 0x2e ∷ 0x63
      ∷ 0x6f ∷ 0x6d ∷ 0x01 ∷ 0xbb ∷ [] in
    assert_frame (decode message) (λ request buf.
      is_nil buf
      && is_command request.command Command.udp_associate
      && is_address_type (Address.atyp request.dst_address) AddressType.domain
      && same_bytes (Address.addr request.dst_address)
          (0x67 ∷ 0x6f ∷ 0x6f ∷ 0x67 ∷ 0x6c ∷ 0x65 ∷ 0x2e ∷ 0x63 ∷ 0x6f ∷ 0x6d ∷ [])
      && (Address.port request.dst_address == 443))

abbrev test_decoder_request_preserves_extra_data : Bool
test_decoder_request_preserves_extra_data =
    let message : Bytes =
      0x05 ∷ 0x01 ∷ 0x00 ∷ 0x01 ∷ 127 ∷ 0 ∷ 0 ∷ 1 ∷ 0x1f ∷ 0x90 ∷ 0x00 ∷ 0x01 ∷ 0x02 ∷ [] in
    assert_frame (decode message) (λ request buf.
      same_bytes buf (0x00 ∷ 0x01 ∷ 0x02 ∷ [])
      && is_command request.command Command.connect
      && is_address_type (Address.atyp request.dst_address) AddressType.ipv4
      && same_bytes (Address.addr request.dst_address) (127 ∷ 0 ∷ 0 ∷ 1 ∷ [])
      && (Address.port request.dst_address == 8080))

abbrev test_decoder_request_incomplete_domain_length : Bool
test_decoder_request_incomplete_domain_length =
    let message : Bytes = 0x05 ∷ 0x03 ∷ 0x00 ∷ 0x03 ∷ [] in
    assert_decoded (decode message) (λ request buf. same_bytes buf message && is_none request)

abbrev test_decoder_request_incomplete_domain : Bool
test_decoder_request_incomplete_domain =
    let message : Bytes =
      0x05 ∷ 0x03 ∷ 0x00 ∷ 0x03 ∷ 0x0a ∷ 0x67 ∷ 0x6f ∷ 0x6f ∷ 0x67 ∷ 0x6c ∷ 0x65 ∷ 0x2e ∷ 0x63
      ∷ 0x6f ∷ [] in
    assert_decoded (decode message) (λ request buf. same_bytes buf message && is_none request)

abbrev test_decoder_request_incomplete_port : Bool
test_decoder_request_incomplete_port =
    let message : Bytes = 0x05 ∷ 0x01 ∷ 0x00 ∷ 0x01 ∷ 127 ∷ 0 ∷ 0 ∷ 1 ∷ 0xfa ∷ [] in
    assert_decoded (decode message) (λ request buf. same_bytes buf message && is_none request)

abbrev test_decoder_request_buffer_overflow : Bool
test_decoder_request_buffer_overflow =
    let message : Bytes = 0x05 ∷ 0x01 ∷ 0x00 ∷ 0x03 ∷ 0xff ∷ [] in
    assert_returned (decode (message ++ replicate 258 0x00)) (λ request buf.
      ltb max_request_frame_size (length buf) && is_protocol_error frame_too_large request)

abbrev test_decoder_request_invalid_version : Bool
test_decoder_request_invalid_version =
    let message : Bytes = 0x01 ∷ 0x01 ∷ 0x00 ∷ 0x01 ∷ 127 ∷ 0 ∷ 0 ∷ 1 ∷ 0x1f ∷ 0x90 ∷ [] in
    assert_returned (decode message)
      (λ request buf. same_bytes buf message && is_protocol_error invalid_version request)

abbrev test_decoder_request_invalid_reserved : Bool
test_decoder_request_invalid_reserved =
    let message : Bytes = 0x05 ∷ 0x01 ∷ 0x01 ∷ 0x01 ∷ 127 ∷ 0 ∷ 0 ∷ 1 ∷ 0x1f ∷ 0x90 ∷ [] in
    assert_returned (decode message)
      (λ request buf. same_bytes buf message && is_protocol_error invalid_reserved request)

abbrev test_decoder_request_invalid_command : Bool
test_decoder_request_invalid_command =
    let message : Bytes = 0x05 ∷ 0x0a ∷ 0x00 ∷ 0x01 ∷ 127 ∷ 0 ∷ 0 ∷ 1 ∷ 0x1f ∷ 0x90 ∷ [] in
    assert_returned (decode message)
      (λ request buf. same_bytes buf message && is_protocol_error invalid_command request)

abbrev test_decoder_request_invalid_address_type : Bool
test_decoder_request_invalid_address_type =
    let message : Bytes = 0x05 ∷ 0x01 ∷ 0x00 ∷ 0x05 ∷ 127 ∷ 0 ∷ 0 ∷ 1 ∷ 0x1f ∷ 0x90 ∷ [] in
    assert_returned (decode message)
      (λ request buf. same_bytes buf message && is_protocol_error invalid_address_type request)

abbrev test_decoder_request_invalid_domain_encoding_utf8 : Bool
test_decoder_request_invalid_domain_encoding_utf8 =
    let message : Bytes =
      0x05 ∷ 0x01 ∷ 0x00 ∷ 0x03 ∷ 0x07 ∷ 0x66 ∷ 0x6f ∷ 0x80 ∷ 0x80 ∷ 0x67 ∷ 0x6c ∷ 0x65 ∷ 0x1f
      ∷ 0x90 ∷ [] in
    assert_returned (decode message)
      (λ request buf. same_bytes buf message && is_protocol_error invalid_domain_encoding request)

abbrev test_decoder_request_domain_max_length : Bool
test_decoder_request_domain_max_length =
    let message : Bytes = 0x05 ∷ 0x01 ∷ 0x00 ∷ 0x03 ∷ 0xff ∷ [] in
    assert_frame (decode (message ++ replicate 255 0x61 ++ (0x1f ∷ 0x90 ∷ []))) (λ request buf.
      is_nil buf
      && same_bytes (Address.addr request.dst_address) (replicate 255 0x61)
      && (Address.port request.dst_address == 8080))

-- All of them pass.
request_tests_pass :
    all_pass (
      test_decoder_request_ipv4_connect ∷ test_decoder_request_ipv6_bind
      ∷ test_decoder_request_domain_udp_associate ∷ test_decoder_request_preserves_extra_data
      ∷ test_decoder_request_incomplete_domain_length ∷ test_decoder_request_incomplete_domain
      ∷ test_decoder_request_incomplete_port ∷ test_decoder_request_buffer_overflow
      ∷ test_decoder_request_invalid_version ∷ test_decoder_request_invalid_reserved
      ∷ test_decoder_request_invalid_command ∷ test_decoder_request_invalid_address_type
      ∷ test_decoder_request_invalid_domain_encoding_utf8 ∷ test_decoder_request_domain_max_length
      ∷ [])
    ≡ true
unfolding decode decode_command decode_typed decode_target address_len parse_address
    Command.try_from AddressType.try_from slice advance expect_array from_be_bytes is_utf8
    Address.atyp Address.addr Address.port is_command is_address_type Command-discrete
    AddressType-discrete is_protocol_error ProtocolError-discrete
request_tests_pass = refl
