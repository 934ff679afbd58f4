-- ===== src/Tests/Unit/Greeting.antt =====
-- The unit tests of noxen-socks5/src/codecs/server.rs for `GreetingCodec`, run on the model.
use zc_splice_proxy.Base.{Bool, [], length, ltb, refl, replicate, true, ◌&&◌, ◌++◌, ◌==◌, ◌∷◌, ◌≡◌}
use zc_splice_proxy.Std.Utf8.{Bytes}
use zc_splice_proxy.Tests.Asserts.{
  all_pass, assert_frame, assert_decoded, assert_returned, assert_encoded, is_protocol_error,
  ProtocolError-discrete, is_none, is_nil, same_bytes,
}
use mathlib.Core.List.{filter_map}
use zc_splice_proxy.Socks5.AuthMethod
use zc_splice_proxy.Socks5.Messages.{max_greeting_frame_size}
use zc_splice_proxy.Socks5.Codec.Greeting.{known_methods, decode, encode}
use zc_splice_proxy.Proxy.Handler.{contains}
use zc_splice_proxy.Socks5.Error.{empty_methods_list, frame_too_large, invalid_version}

abbrev test_decoder_greeting_success : Bool
test_decoder_greeting_success =
    let message : Bytes = 0x05 ∷ 0x02 ∷ 0x01 ∷ 0x02 ∷ [] in
    assert_frame (decode message) (λ greeting buf.
      is_nil buf
      && (length greeting.methods == 2)
      && contains greeting.methods AuthMethod.gssapi
      && contains greeting.methods AuthMethod.username_password)

abbrev test_decoder_greeting_preserves_extra_data : Bool
test_decoder_greeting_preserves_extra_data =
    let message : Bytes = 0x05 ∷ 0x01 ∷ 0x02 ∷ 0x05 ∷ 0x10 ∷ [] in
    assert_frame (decode message) (λ greeting buf.
      same_bytes buf (0x05 ∷ 0x10 ∷ [])
      && (length greeting.methods == 1)
      && contains greeting.methods AuthMethod.username_password)

abbrev test_decoder_greeting_incomplete_header : Bool
test_decoder_greeting_incomplete_header =
    let message : Bytes = 0x05 ∷ [] in
    assert_decoded (decode message) (λ greeting buf. same_bytes buf message && is_none greeting)

abbrev test_decoder_greeting_incomplete_methods : Bool
test_decoder_greeting_incomplete_methods =
    let message : Bytes = 0x05 ∷ 0x02 ∷ 0x01 ∷ [] in
    assert_decoded (decode message) (λ greeting buf. same_bytes buf message && is_none greeting)

abbrev test_decoder_greeting_buffer_overflow : Bool
test_decoder_greeting_buffer_overflow =
    let message : Bytes = 0x05 ∷ 0xff ∷ [] in
    assert_returned (decode (message ++ replicate 256 0x00)) (λ greeting buf.
      ltb max_greeting_frame_size (length buf) && is_protocol_error frame_too_large greeting)

abbrev test_decoder_greeting_invalid_version : Bool
test_decoder_greeting_invalid_version =
    let message : Bytes = 0x04 ∷ 0x01 ∷ 0x02 ∷ [] in
    assert_returned (decode message)
      (λ greeting buf. same_bytes buf message && is_protocol_error invalid_version greeting)

abbrev test_decoder_greeting_empty_methods_list : Bool
test_decoder_greeting_empty_methods_list =
    let message : Bytes = 0x05 ∷ 0x00 ∷ [] in
    assert_returned (decode message)
      (λ greeting buf. same_bytes buf message && is_protocol_error empty_methods_list greeting)

abbrev test_decoder_greeting_filters_unknown_methods : Bool
test_decoder_greeting_filters_unknown_methods =
    let message : Bytes = 0x05 ∷ 0x04 ∷ 0x02 ∷ 0x10 ∷ 0x2d ∷ 0x01 ∷ [] in
    assert_frame (decode message) (λ greeting buf.
      is_nil buf
      && (length greeting.methods == 2)
      && contains greeting.methods AuthMethod.username_password
      && contains greeting.methods AuthMethod.gssapi)

abbrev test_decoder_greeting_all_methods_unknown : Bool
test_decoder_greeting_all_methods_unknown =
    let message : Bytes = 0x05 ∷ 0x02 ∷ 0x10 ∷ 0x2d ∷ [] in
    assert_frame (decode message) (λ greeting buf. is_nil buf && is_nil greeting.methods)

abbrev test_encoder_greeting_username_password : Bool
test_encoder_greeting_username_password =
    let message : Bytes = 0x05 ∷ 0x02 ∷ [] in
    assert_encoded (encode (record { method = AuthMethod.username_password }) [])
      (λ buf. same_bytes buf message)

abbrev test_encoder_greeting_no_acceptable : Bool
test_encoder_greeting_no_acceptable =
    let message : Bytes = 0x05 ∷ 0xff ∷ [] in
    assert_encoded (encode (record { method = AuthMethod.no_acceptable_methods }) [])
      (λ buf. same_bytes buf message)

-- All of them pass.
greeting_tests_pass :
    all_pass (
      test_decoder_greeting_success ∷ test_decoder_greeting_preserves_extra_data
      ∷ test_decoder_greeting_incomplete_header ∷ test_decoder_greeting_incomplete_methods
      ∷ test_decoder_greeting_buffer_overflow ∷ test_decoder_greeting_invalid_version
      ∷ test_decoder_greeting_empty_methods_list ∷ test_decoder_greeting_filters_unknown_methods
      ∷ test_decoder_greeting_all_methods_unknown ∷ test_encoder_greeting_username_password
      ∷ test_encoder_greeting_no_acceptable ∷ [])
    ≡ true
unfolding decode encode AuthMethod.code known_methods AuthMethod.try_from filter_map
    is_protocol_error ProtocolError-discrete
greeting_tests_pass = refl
