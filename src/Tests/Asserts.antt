-- ===== src/Tests/Asserts.antt =====
-- What the unit tests of the repository assert, as Boolean tests. A panic fails a test.
use zc_splice_proxy.Base.{
  Bool, List, Option, Result, [], decide, err, false, none, ok, panics, returns, some, true, ◌&&◌,
  ◌==◌, ◌∷◌,
}
use zc_splice_proxy.Std.Utf8.{Bytes}
use zc_splice_proxy.Socks5.Error.{ProtocolError, CodecError, protocol}
use zc_splice_proxy.Socks5.AddressType.{AddressType}
use zc_splice_proxy.Socks5.Command.{Command}
use zc_splice_proxy.Socks5.Codec.Buffer.{Decoded, Encoded}

abbrev pub is_nil {ℓ} : {A : Type ℓ} → List A → Bool
is_nil [] = true
is_nil (x ∷ xs) = false

abbrev pub all_pass : List Bool → Bool
all_pass [] = true
all_pass (test ∷ tests) = test && all_pass tests

abbrev pub is_none {ℓ} : {A : Type ℓ} → Option A → Bool
is_none none = true
is_none (some a) = false

abbrev pub same_bytes : Bytes → Bytes → Bool
same_bytes [] [] = true
same_bytes [] (y ∷ ys) = false
same_bytes (x ∷ xs) [] = false
same_bytes (x ∷ xs) (y ∷ ys) = x == y && same_bytes xs ys

unfoldable pub ProtocolError-discrete : Discrete ProtocolError
ProtocolError-discrete = hlevel

unfoldable pub Command-discrete : Discrete Command
Command-discrete = hlevel

unfoldable pub AddressType-discrete : Discrete AddressType
AddressType-discrete = hlevel

-- `assert_eq!` on two commands, and on two address types.
unfoldable pub is_command : Command → Command → Bool
is_command c d = decide (Command-discrete c d)

unfoldable pub is_address_type : AddressType → AddressType → Bool
is_address_type a b = decide (AddressType-discrete a b)

module _ {Item : Type 0} where
  -- `.is_err_and(|e| matches!(e, CodecError::Protocol(error)))`
  unfoldable pub is_protocol_error : ProtocolError → Result (Option Item) CodecError → Bool
  is_protocol_error error (err (protocol e)) = decide (ProtocolError-discrete e error)
  is_protocol_error error _ = false

  -- A test of what `decode` returns and the buffer that it leaves.
  abbrev pub assert_returned :
      Decoded Item → (Result (Option Item) CodecError → Bytes → Bool) → Bool
  assert_returned (returns (result, buf)) test = test result buf
  assert_returned panics test = false

  -- `.expect("Decoder failed")`
  abbrev pub assert_decoded : Decoded Item → (Option Item → Bytes → Bool) → Bool
  assert_decoded (returns (ok item, buf)) test = test item buf
  assert_decoded _ test = false

  -- `.expect("Decoder failed").expect("Incomplete frame")`
  abbrev pub assert_frame : Decoded Item → (Item → Bytes → Bool) → Bool
  assert_frame (returns (ok (some item), buf)) test = test item buf
  assert_frame _ test = false

-- `.expect("Encoder failed")`
abbrev pub assert_encoded : Encoded → (Bytes → Bool) → Bool
assert_encoded (ok done, buf) test = test buf
assert_encoded (err e, buf) test = false
