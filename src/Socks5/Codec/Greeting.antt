-- ===== src/Socks5/Codec/Greeting.antt =====
-- `GreetingCodec` of noxen-socks5/src/codecs/server.rs: the method selection messages.
pub mod Frames
use zc_splice_proxy.Base.{
  ◌+◌, not, List, [], ◌∷◌, ◌++◌, filter_map, Option, none, some, Result, ok, err, ◌>>=◌, ltb, ◌==◌,
  if◌then◌else◌, length,
}
use zc_splice_proxy.Std.Utf8.{Bytes}
use zc_splice_proxy.Socks5.Error.{
  ProtocolError, frame_too_large, invalid_version, empty_methods_list,
}
use zc_splice_proxy.Socks5.AuthMethod
use zc_splice_proxy.Socks5.AuthMethod.{AuthMethod}
use zc_splice_proxy.Socks5.Messages.{
  ClientGreeting, ServerGreeting, max_greeting_frame_size, socks5_ver,
}
use zc_splice_proxy.Socks5.Codec.Buffer.{
  Decoded, Encoded, index, slice, advance, incomplete, reject, frame,
}

-- `.ok()`
abbrev to_option : Result AuthMethod ProtocolError → Option AuthMethod
to_option (ok m) = some m
to_option (err e) = none

-- The methods that the bytes stand for; an unknown byte is left out.
unfoldable pub known_methods : Bytes → List AuthMethod
known_methods = filter_map (λ b. to_option (AuthMethod.try_from b))

unfoldable pub decode : Bytes → Decoded ClientGreeting
unfolding index slice advance
decode buf =
    if ltb max_greeting_frame_size (length buf)
    then reject frame_too_large buf
    else if ltb (length buf) 2
    then incomplete buf
    else do
      ver ← index buf 0
      if not (ver == socks5_ver) then reject invalid_version buf else do
        nmethods ← index buf 1
        if nmethods == 0
            then reject empty_methods_list buf
            else let total_len = 2 + nmethods in
              if ltb (length buf) total_len then incomplete buf else do
                method_bytes ← slice buf 2 total_len
                rest ← advance buf total_len
                frame (record { methods = known_methods method_bytes }) rest

unfoldable pub encode : ServerGreeting → Bytes → Encoded
encode item buf = (ok tt, buf ++ (socks5_ver ∷ AuthMethod.code item.method ∷ []))
