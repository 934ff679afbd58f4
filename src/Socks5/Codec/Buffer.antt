-- ===== src/Socks5/Codec/Buffer.antt =====
-- `BytesMut` as the codecs use it: a list of bytes. Each access panics out of range, as in Rust.
use zc_splice_proxy.Base.{
  ℕ, ◌+◌, ◌-◌, ◌*◌, ◌/◌, ◌%◌, ◌&&◌, [], ◌∷◌, Option, none, some, Run, ◌>>=◌, returns, panics,
  or_panic, Result, ok, err, leb, ◌==◌, if◌then◌else◌, length, get_elem?, take, drop, arith,
  drop_all, length-append, true, ◌++◌, ◌≡◌, drop-drop, ◌≤◌,
}
use zc_splice_proxy.Std.Utf8.{Bytes}
use zc_splice_proxy.Socks5.Error.{ProtocolError, CodecError, protocol}

-- `buf[i]`
unfoldable pub index : Bytes → ℕ → Run ℕ
index buf i = or_panic (get_elem? buf i)

-- `&buf[from..to]`
unfoldable pub slice : Bytes → ℕ → ℕ → Run Bytes
slice buf from to =
    if leb from to && leb to (length buf)
    then returns (take (to - from) (drop from buf))
    else panics

-- `buf.advance(n)`
unfoldable pub advance : Bytes → ℕ → Run Bytes
advance buf n = if leb n (length buf) then returns (drop n buf) else panics

-- `bytes.try_into().expect(...)` to an array of `n` bytes.
unfoldable pub expect_array : ℕ → Bytes → Run Bytes
expect_array n bytes = if length bytes == n then returns bytes else panics

-- `u16::from_be_bytes`
unfoldable pub from_be_bytes : Bytes → Run ℕ
unfolding index
from_be_bytes bytes = do hi ← index bytes 0; lo ← index bytes 1; returns (hi * 256 + lo)

-- `buf.put_u16`
abbrev pub be_bytes : ℕ → Bytes
be_bytes p = p / 256 % 256 ∷ p % 256 ∷ []

-- The result of `decode(&mut self, buf)` and the buffer that it leaves.
abbrev pub Decoded : Type 0 → Type 0
Decoded Item = Run (Result (Option Item) CodecError × Bytes)

-- `Ok(None)`: more bytes are needed.
abbrev pub incomplete : {Item : Type 0} → Bytes → Decoded Item
incomplete buf = returns (ok none, buf)

-- `Err(error.into())`
abbrev pub reject : {Item : Type 0} → ProtocolError → Bytes → Decoded Item
reject error buf = returns (err (protocol error), buf)

-- `Ok(Some(item))`
abbrev pub frame : {Item : Type 0} → Item → Bytes → Decoded Item
frame item rest = returns (ok (some item), rest)

-- The result of `encode(&mut self, item, buf)` and the buffer that it leaves. No operation on the
-- buffer fails: it grows as needed.
abbrev pub Encoded : Type 0
Encoded = Result (Unit {0}) CodecError × Bytes

-- A slice of `n` bytes that begins behind a prefix.
pub slice-append :
    (pre post : Bytes) (from to n : ℕ)
    → from ≡ length pre
    → to ≡ from + n
    → n ≤ length post
    → slice (pre ++ post) from to ≡ returns (take n post)
unfolding slice
slice-append pre post from to n e k h =
    let eq : to - from ≡ n = omega arith in
    let fits : leb from to && leb to (length (pre ++ post)) ≡ true =
      ground (arith, length-append pre post) in
    rw (fits, eq, e, drop_all pre post)

pub advance-append :
    (pre post : Bytes) (n k : ℕ)
    → n ≡ length pre + k
    → k ≤ length post
    → advance (pre ++ post) n ≡ returns (drop k post)
unfolding advance
advance-append pre post n k e h =
    let fits : leb n (length (pre ++ post)) ≡ true = ground (arith, length-append pre post) in
    rw (fits, e, ← drop-drop (length pre) k, drop_all pre post)
