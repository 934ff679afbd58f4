-- ===== src/Tests/Unit/HappyEyeballs.antt =====
-- The unit tests of noxen-proxy/src/net/happy_eyeballs.rs, run on the model. An address is parsed to
-- its octets.
use zc_splice_proxy.Base.{
  Bool, List, Option, [], false, get_elem?, length, not, refl, some, true, ◌&&◌, ◌==◌, ◌∷◌, ◌≡◌,
}
use zc_splice_proxy.Std.Net.{IpAddr, ipv4, ipv6}
use zc_splice_proxy.HappyEyeballs.Addresses.{is_unique_local, is_link_local}
use zc_splice_proxy.HappyEyeballs.Interleave.{interleave, collect, next, new}
use zc_splice_proxy.Tests.Asserts.{all_pass}

abbrev is_ipv6 : Option IpAddr → Bool
is_ipv6 (some (ipv6 a)) = true
is_ipv6 _ = false

abbrev is_ipv4 : Option IpAddr → Bool
is_ipv4 (some (ipv4 a)) = true
is_ipv4 _ = false

abbrev all_of : (Option IpAddr → Bool) → List IpAddr → Bool
all_of test [] = true
all_of test (a ∷ rest) = test (some a) && all_of test rest

abbrev test_is_unique_local_detection_correct : Bool
test_is_unique_local_detection_correct =
    is_unique_local (
      0xfc ∷ 0x00 ∷ 0x00 ∷ 0x00 ∷ 0x00 ∷ 0x00 ∷ 0x00 ∷ 0x00 ∷ 0x00 ∷ 0x00 ∷ 0x00 ∷ 0x00 ∷ 0x00
      ∷ 0x00 ∷ 0x00 ∷ 0x01 ∷ [])
    && is_unique_local (
        0xfd ∷ 0x00 ∷ 0x00 ∷ 0x00 ∷ 0x00 ∷ 0x00 ∷ 0x00 ∷ 0x00 ∷ 0x00 ∷ 0x00 ∷ 0x00 ∷ 0x00 ∷ 0x00
        ∷ 0x00 ∷ 0x00 ∷ 0x01 ∷ [])
    && is_unique_local (
        0xfd ∷ 0xff ∷ 0xff ∷ 0xff ∷ 0xff ∷ 0xff ∷ 0xff ∷ 0xff ∷ 0xff ∷ 0xff ∷ 0xff ∷ 0xff ∷ 0xff
        ∷ 0xff ∷ 0xff ∷ 0xff ∷ [])
    && not (
        is_unique_local (
          0xfe ∷ 0x80 ∷ 0x00 ∷ 0x00 ∷ 0x00 ∷ 0x00 ∷ 0x00 ∷ 0x00 ∷ 0x00 ∷ 0x00 ∷ 0x00 ∷ 0x00 ∷ 0x00
          ∷ 0x00 ∷ 0x00 ∷ 0x01 ∷ []))
    && not (
        is_unique_local (
          0x20 ∷ 0x01 ∷ 0x0d ∷ 0xb8 ∷ 0x00 ∷ 0x00 ∷ 0x00 ∷ 0x00 ∷ 0x00 ∷ 0x00 ∷ 0x00 ∷ 0x00 ∷ 0x00
          ∷ 0x00 ∷ 0x00 ∷ 0x01 ∷ []))
    && not (
        is_unique_local (
          0x00 ∷ 0x00 ∷ 0x00 ∷ 0x00 ∷ 0x00 ∷ 0x00 ∷ 0x00 ∷ 0x00 ∷ 0x00 ∷ 0x00 ∷ 0x00 ∷ 0x00 ∷ 0x00
          ∷ 0x00 ∷ 0x00 ∷ 0x01 ∷ []))

abbrev test_is_link_local_detection_correct : Bool
test_is_link_local_detection_correct =
    is_link_local (
      0xfe ∷ 0x80 ∷ 0x00 ∷ 0x00 ∷ 0x00 ∷ 0x00 ∷ 0x00 ∷ 0x00 ∷ 0x00 ∷ 0x00 ∷ 0x00 ∷ 0x00 ∷ 0x00
      ∷ 0x00 ∷ 0x00 ∷ 0x01 ∷ [])
    && is_link_local (
        0xfe ∷ 0x80 ∷ 0x00 ∷ 0x00 ∷ 0x00 ∷ 0x00 ∷ 0x00 ∷ 0x00 ∷ 0x00 ∷ 0x00 ∷ 0x00 ∷ 0x00 ∷ 0xde
        ∷ 0xad ∷ 0xbe ∷ 0xef ∷ [])
    && is_link_local (
        0xfe ∷ 0xbf ∷ 0xff ∷ 0xff ∷ 0xff ∷ 0xff ∷ 0xff ∷ 0xff ∷ 0xff ∷ 0xff ∷ 0xff ∷ 0xff ∷ 0xff
        ∷ 0xff ∷ 0xff ∷ 0xff ∷ [])
    && not (
        is_link_local (
          0xfc ∷ 0x00 ∷ 0x00 ∷ 0x00 ∷ 0x00 ∷ 0x00 ∷ 0x00 ∷ 0x00 ∷ 0x00 ∷ 0x00 ∷ 0x00 ∷ 0x00 ∷ 0x00
          ∷ 0x00 ∷ 0x00 ∷ 0x01 ∷ []))
    && not (
        is_link_local (
          0x20 ∷ 0x01 ∷ 0x0d ∷ 0xb8 ∷ 0x00 ∷ 0x00 ∷ 0x00 ∷ 0x00 ∷ 0x00 ∷ 0x00 ∷ 0x00 ∷ 0x00 ∷ 0x00
          ∷ 0x00 ∷ 0x00 ∷ 0x01 ∷ []))
    && not (
        is_link_local (
          0x00 ∷ 0x00 ∷ 0x00 ∷ 0x00 ∷ 0x00 ∷ 0x00 ∷ 0x00 ∷ 0x00 ∷ 0x00 ∷ 0x00 ∷ 0x00 ∷ 0x00 ∷ 0x00
          ∷ 0x00 ∷ 0x00 ∷ 0x01 ∷ []))

abbrev test_resolved_addresses_interleave_correct_order : Bool
test_resolved_addresses_interleave_correct_order =
    let interleaved = collect 5 (
      interleave (record {
        ipv6 =
            ipv6 (
              0x20 ∷ 0x01 ∷ 0x0d ∷ 0xb8 ∷ 0x00 ∷ 0x00 ∷ 0x00 ∷ 0x00 ∷ 0x00 ∷ 0x00 ∷ 0x00 ∷ 0x00
              ∷ 0x00 ∷ 0x00 ∷ 0x00 ∷ 0x01 ∷ [])
            ∷ ipv6 (
                0x20 ∷ 0x01 ∷ 0x0d ∷ 0xb8 ∷ 0x00 ∷ 0x00 ∷ 0x00 ∷ 0x00 ∷ 0x00 ∷ 0x00 ∷ 0x00 ∷ 0x00
                ∷ 0x00 ∷ 0x00 ∷ 0x00 ∷ 0x02 ∷ [])
            ∷ [];
        ipv4 = ipv4 (192 ∷ 0 ∷ 2 ∷ 1 ∷ []) ∷ ipv4 (192 ∷ 0 ∷ 2 ∷ 2 ∷ []) ∷ [];
      })) in
    (length interleaved == 4)
    && is_ipv6 (get_elem? interleaved 0)
    && is_ipv4 (get_elem? interleaved 1)
    && is_ipv6 (get_elem? interleaved 2)
    && is_ipv4 (get_elem? interleaved 3)

abbrev test_resolved_addresses_interleave_unbalanced_correct_order : Bool
test_resolved_addresses_interleave_unbalanced_correct_order =
    let interleaved = collect 5 (
      interleave (record {
        ipv6 =
            ipv6 (
              0x20 ∷ 0x01 ∷ 0x0d ∷ 0xb8 ∷ 0x00 ∷ 0x00 ∷ 0x00 ∷ 0x00 ∷ 0x00 ∷ 0x00 ∷ 0x00 ∷ 0x00
              ∷ 0x00 ∷ 0x00 ∷ 0x00 ∷ 0x01 ∷ [])
            ∷ [];
        ipv4 =
            ipv4 (192 ∷ 0 ∷ 2 ∷ 1 ∷ [])
            ∷ ipv4 (192 ∷ 0 ∷ 2 ∷ 2 ∷ [])
            ∷ ipv4 (192 ∷ 0 ∷ 2 ∷ 3 ∷ [])
            ∷ [];
      })) in
    (length interleaved == 4)
    && is_ipv6 (get_elem? interleaved 0)
    && is_ipv4 (get_elem? interleaved 1)
    && is_ipv4 (get_elem? interleaved 2)
    && is_ipv4 (get_elem? interleaved 3)

abbrev test_resolved_addresses_interleave_ipv6_only : Bool
test_resolved_addresses_interleave_ipv6_only =
    let interleaved = collect 5 (
      interleave (record {
        ipv6 =
            ipv6 (
              0x20 ∷ 0x01 ∷ 0x0d ∷ 0xb8 ∷ 0x00 ∷ 0x00 ∷ 0x00 ∷ 0x00 ∷ 0x00 ∷ 0x00 ∷ 0x00 ∷ 0x00
              ∷ 0x00 ∷ 0x00 ∷ 0x00 ∷ 0x01 ∷ [])
            ∷ ipv6 (
                0x20 ∷ 0x01 ∷ 0x0d ∷ 0xb8 ∷ 0x00 ∷ 0x00 ∷ 0x00 ∷ 0x00 ∷ 0x00 ∷ 0x00 ∷ 0x00 ∷ 0x00
                ∷ 0x00 ∷ 0x00 ∷ 0x00 ∷ 0x02 ∷ [])
            ∷ [];
        ipv4 = [];
      })) in
    (length interleaved == 2) && all_of is_ipv6 interleaved

abbrev test_resolved_addresses_interleave_ipv4_only : Bool
test_resolved_addresses_interleave_ipv4_only =
    let interleaved = collect 5 (
      interleave (record {
        ipv6 = [];
        ipv4 = ipv4 (192 ∷ 0 ∷ 2 ∷ 1 ∷ []) ∷ ipv4 (192 ∷ 0 ∷ 2 ∷ 2 ∷ []) ∷ [];
      })) in
    (length interleaved == 2) && all_of is_ipv4 interleaved

-- All of them pass.
happy_eyeballs_tests_pass :
    all_pass (
      test_is_unique_local_detection_correct ∷ test_is_link_local_detection_correct
      ∷ test_resolved_addresses_interleave_correct_order
      ∷ test_resolved_addresses_interleave_unbalanced_correct_order
      ∷ test_resolved_addresses_interleave_ipv6_only ∷ test_resolved_addresses_interleave_ipv4_only
      ∷ [])
    ≡ true
unfolding is_unique_local is_link_local interleave new next collect
happy_eyeballs_tests_pass = refl
