-- ===== src/Tests/Unit/Response.antt =====
-- The unit tests of noxen-socks5/src/codecs/server.rs for the encoder of `RequestResponseCodec`, run on the model.
use zc_splice_proxy.Base.{Bool, [], refl, replicate, true, ◌++◌, ◌∷◌, ◌≡◌}
use zc_splice_proxy.Std.Utf8.{Bytes}
use zc_splice_proxy.Tests.Asserts.{all_pass, assert_encoded, same_bytes}
use zc_splice_proxy.Socks5.Address
use zc_splice_proxy.Socks5.AddressType
use zc_splice_proxy.Socks5.Reply
use zc_splice_proxy.Socks5.Codec.Request.{encode}

abbrev test_encoder_response_ipv4_succeeded : Bool
test_encoder_response_ipv4_succeeded =
    let message : Bytes =
      0x05 ∷ 0x00 ∷ 0x00 ∷ 0x01 ∷ 0x0a ∷ 0x00 ∷ 0x00 ∷ 0x01 ∷ 0x1f ∷ 0x90 ∷ [] in
    assert_encoded
      (encode
        (record {
          reply = Reply.succeeded;
          bnd_address = Address.ipv4 (record { ip = 10 ∷ 0 ∷ 0 ∷ 1 ∷ []; port = 8080 });
        })
        [])
      (λ buf. same_bytes buf message)

abbrev test_encoder_response_ipv6_connection_not_allowed : Bool
test_encoder_response_ipv6_connection_not_allowed =
    let message : Bytes =
      0x05 ∷ 0x02 ∷ 0x00 ∷ 0x04 ∷ 0x00 ∷ 0x00 ∷ 0x00 ∷ 0x00 ∷ 0x00 ∷ 0x00 ∷ 0x00 ∷ 0x00 ∷ 0x00
      ∷ 0x00 ∷ 0x00 ∷ 0x00 ∷ 0x00 ∷ 0x00 ∷ 0x00 ∷ 0x01 ∷ 0x1f ∷ 0x90 ∷ [] in
    assert_encoded
      (encode
        (record {
          reply = Reply.connection_not_allowed;
          bnd_address =
              Address.ipv6 (record {
                ip = replicate 15 0 ++ (1 ∷ []);
                port = 8080;
                flowinfo = 0;
                scope_id = 0;
              });
        })
        [])
      (λ buf. same_bytes buf message)

abbrev test_encoder_response_domain_general_failure : Bool
test_encoder_response_domain_general_failure =
    let message : Bytes =
      0x05 ∷ 0x01 ∷ 0x00 ∷ 0x03 ∷ 0x0a ∷ 0x67 ∷ 0x6f ∷ 0x6f ∷ 0x67 ∷ 0x6c ∷ 0x65 ∷ 0x2e ∷ 0x63
      ∷ 0x6f ∷ 0x6d ∷ 0x01 ∷ 0xbb ∷ [] in
    assert_encoded
      (encode
        (record {
          reply = Reply.general_failure;
          bnd_address =
              Address.domain
                (0x67 ∷ 0x6f ∷ 0x6f ∷ 0x67 ∷ 0x6c ∷ 0x65 ∷ 0x2e ∷ 0x63 ∷ 0x6f ∷ 0x6d ∷ []) 443;
        })
        [])
      (λ buf. same_bytes buf message)

-- All of them pass.
response_tests_pass :
    all_pass (
      test_encoder_response_ipv4_succeeded ∷ test_encoder_response_ipv6_connection_not_allowed
      ∷ test_encoder_response_domain_general_failure ∷ [])
    ≡ true
unfolding encode Reply.code AddressType.code Address.atyp Address.port
response_tests_pass = refl
