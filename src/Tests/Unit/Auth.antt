-- ===== src/Tests/Unit/Auth.antt =====
-- The unit tests of noxen-socks5/src/codecs/server.rs for `AuthCodec`, run on the model.
use zc_splice_proxy.Base.{Bool, [], length, ltb, refl, replicate, true, ◌&&◌, ◌++◌, ◌==◌, ◌∷◌, ◌≡◌}
use zc_splice_proxy.Std.Utf8.{Bytes, is_utf8}
use zc_splice_proxy.Socks5.Codec.Buffer.{slice, advance}
use zc_splice_proxy.Tests.Asserts.{
  all_pass, assert_frame, assert_decoded, assert_returned, assert_encoded, is_protocol_error,
  ProtocolError-discrete, is_none, is_nil, same_bytes,
}
use zc_splice_proxy.Socks5.AuthStatus
use zc_splice_proxy.Socks5.Messages.{max_auth_frame_size}
use zc_splice_proxy.Socks5.Codec.Auth.{decode, encode}
use zc_splice_proxy.Socks5.Error.{
  empty_password, empty_username, frame_too_large, invalid_auth_version, invalid_password_encoding,
  invalid_username_encoding,
}

abbrev test_decoder_auth_success : Bool
test_decoder_auth_success =
    let message : Bytes =
      0x01 ∷ 0x05 ∷ 0x75 ∷ 0x6e ∷ 0x61 ∷ 0x6d ∷ 0x65 ∷ 0x06 ∷ 0x70 ∷ 0x61 ∷ 0x73 ∷ 0x73 ∷ 0x77
      ∷ 0x64 ∷ [] in
    assert_frame (decode message) (λ auth buf.
      is_nil buf
      && same_bytes auth.username (0x75 ∷ 0x6e ∷ 0x61 ∷ 0x6d ∷ 0x65 ∷ [])
      && same_bytes auth.password (0x70 ∷ 0x61 ∷ 0x73 ∷ 0x73 ∷ 0x77 ∷ 0x64 ∷ []))

abbrev test_decoder_auth_preserves_extra_data : Bool
test_decoder_auth_preserves_extra_data =
    let message : Bytes =
      0x01 ∷ 0x05 ∷ 0x75 ∷ 0x6e ∷ 0x61 ∷ 0x6d ∷ 0x65 ∷ 0x06 ∷ 0x70 ∷ 0x61 ∷ 0x73 ∷ 0x73 ∷ 0x77
      ∷ 0x64 ∷ 0x01 ∷ 0x02 ∷ 0x03 ∷ [] in
    assert_frame (decode message) (λ auth buf.
      same_bytes buf (0x01 ∷ 0x02 ∷ 0x03 ∷ [])
      && same_bytes auth.username (0x75 ∷ 0x6e ∷ 0x61 ∷ 0x6d ∷ 0x65 ∷ [])
      && same_bytes auth.password (0x70 ∷ 0x61 ∷ 0x73 ∷ 0x73 ∷ 0x77 ∷ 0x64 ∷ []))

abbrev test_decoder_auth_incomplete_header : Bool
test_decoder_auth_incomplete_header =
    let message : Bytes = 0x01 ∷ [] in
    assert_decoded (decode message) (λ auth buf. same_bytes buf message && is_none auth)

abbrev test_decoder_auth_incomplete_username : Bool
test_decoder_auth_incomplete_username =
    let message : Bytes = 0x01 ∷ 0x06 ∷ 0x75 ∷ 0x6e ∷ 0x61 ∷ 0x6d ∷ 0x65 ∷ [] in
    assert_decoded (decode message) (λ auth buf. same_bytes buf message && is_none auth)

abbrev test_decoder_auth_incomplete_password_length : Bool
test_decoder_auth_incomplete_password_length =
    let message : Bytes = 0x01 ∷ 0x05 ∷ 0x75 ∷ 0x6e ∷ 0x61 ∷ 0x6d ∷ 0x65 ∷ [] in
    assert_decoded (decode message) (λ auth buf. same_bytes buf message && is_none auth)

abbrev test_decoder_auth_incomplete_password : Bool
test_decoder_auth_incomplete_password =
    let message : Bytes =
      0x01 ∷ 0x05 ∷ 0x75 ∷ 0x6e ∷ 0x61 ∷ 0x6d ∷ 0x65 ∷ 0x07 ∷ 0x70 ∷ 0x61 ∷ 0x73 ∷ 0x73 ∷ 0x77
      ∷ 0x64 ∷ [] in
    assert_decoded (decode message) (λ auth buf. same_bytes buf message && is_none auth)

abbrev test_decoder_auth_buffer_overflow : Bool
test_decoder_auth_buffer_overflow =
    let message : Bytes = 0x01 ∷ 0xff ∷ [] in
    assert_returned (decode (message ++ replicate 255 0x61 ++ (0xff ∷ []) ++ replicate 256 0x62))
      (λ auth buf. ltb max_auth_frame_size (length buf) && is_protocol_error frame_too_large auth)

abbrev test_decoder_auth_invalid_version : Bool
test_decoder_auth_invalid_version =
    let message : Bytes =
      0x02 ∷ 0x05 ∷ 0x75 ∷ 0x6e ∷ 0x61 ∷ 0x6d ∷ 0x65 ∷ 0x06 ∷ 0x70 ∷ 0x61 ∷ 0x73 ∷ 0x73 ∷ 0x77
      ∷ 0x64 ∷ [] in
    assert_returned (decode message)
      (λ auth buf. same_bytes buf message && is_protocol_error invalid_auth_version auth)

abbrev test_decoder_auth_invalid_username_encoding_utf8 : Bool
test_decoder_auth_invalid_username_encoding_utf8 =
    let message : Bytes =
      0x01 ∷ 0x03 ∷ 0x75 ∷ 0x73 ∷ 0xc3 ∷ 0x06 ∷ 0x70 ∷ 0x61 ∷ 0x73 ∷ 0x73 ∷ 0x77 ∷ 0x64 ∷ [] in
    assert_returned (decode message)
      (λ auth buf. same_bytes buf message && is_protocol_error invalid_username_encoding auth)

abbrev test_decoder_auth_invalid_password_encoding_utf8 : Bool
test_decoder_auth_invalid_password_encoding_utf8 =
    let message : Bytes =
      0x01 ∷ 0x05 ∷ 0x75 ∷ 0x6e ∷ 0x61 ∷ 0x6d ∷ 0x65 ∷ 0x03 ∷ 0x70 ∷ 0x77 ∷ 0xe2 ∷ [] in
    assert_returned (decode message)
      (λ auth buf. same_bytes buf message && is_protocol_error invalid_password_encoding auth)

abbrev test_decoder_auth_empty_username : Bool
test_decoder_auth_empty_username =
    let message : Bytes =
      0x01 ∷ 0x00 ∷ 0x75 ∷ 0x6e ∷ 0x61 ∷ 0x6d ∷ 0x65 ∷ 0x06 ∷ 0x70 ∷ 0x61 ∷ 0x73 ∷ 0x73 ∷ 0x77
      ∷ 0x64 ∷ [] in
    assert_returned (decode message)
      (λ auth buf. same_bytes buf message && is_protocol_error empty_username auth)

abbrev test_decoder_auth_empty_password : Bool
test_decoder_auth_empty_password =
    let message : Bytes =
      0x01 ∷ 0x05 ∷ 0x75 ∷ 0x6e ∷ 0x61 ∷ 0x6d ∷ 0x65 ∷ 0x00 ∷ 0x70 ∷ 0x61 ∷ 0x73 ∷ 0x73 ∷ 0x77
      ∷ 0x64 ∷ [] in
    assert_returned (decode message)
      (λ auth buf. same_bytes buf message && is_protocol_error empty_password auth)

abbrev test_decoder_auth_max_lengths : Bool
test_decoder_auth_max_lengths =
    let message : Bytes = 0x01 ∷ 0xff ∷ [] in
    assert_frame (decode (message ++ replicate 255 0x61 ++ (0xff ∷ []) ++ replicate 255 0x62))
      (λ auth buf. is_nil buf && (length auth.username == 255) && (length auth.password == 255))

abbrev test_encoder_auth_success : Bool
test_encoder_auth_success =
    let message : Bytes = 0x01 ∷ 0x00 ∷ [] in
    assert_encoded (encode (record { status = AuthStatus.success }) [])
      (λ buf. same_bytes buf message)

abbrev test_encoder_auth_failure : Bool
test_encoder_auth_failure =
    let message : Bytes = 0x01 ∷ 0x01 ∷ [] in
    assert_encoded (encode (record { status = AuthStatus.failure }) [])
      (λ buf. same_bytes buf message)

-- All of them pass.
auth_tests_pass :
    all_pass (
      test_decoder_auth_success ∷ test_decoder_auth_preserves_extra_data
      ∷ test_decoder_auth_incomplete_header ∷ test_decoder_auth_incomplete_username
      ∷ test_decoder_auth_incomplete_password_length ∷ test_decoder_auth_incomplete_password
      ∷ test_decoder_auth_buffer_overflow ∷ test_decoder_auth_invalid_version
      ∷ test_decoder_auth_invalid_username_encoding_utf8
      ∷ test_decoder_auth_invalid_password_encoding_utf8 ∷ test_decoder_auth_empty_username
      ∷ test_decoder_auth_empty_password ∷ test_decoder_auth_max_lengths ∷ test_encoder_auth_success
      ∷ test_encoder_auth_failure ∷ [])
    ≡ true
unfolding decode encode AuthStatus.code slice is_utf8 advance is_protocol_error
    ProtocolError-discrete
auth_tests_pass = refl
