-- ===== src/Socks5/Codec/Auth.antt =====
-- `AuthCodec` of noxen-socks5/src/codecs/server.rs: username and password messages (RFC 1929).
pub mod Shape
pub mod Frames
use zc_splice_proxy.Base.{
  [], if◌then◌else◌, length, ltb, none, not, ok, some, ℕ, ◌++◌, ◌+◌, ◌==◌, ◌>>=◌, ◌∷◌,
}
use zc_splice_proxy.Std.Utf8.{Bytes, from_utf8}
use zc_splice_proxy.Socks5.Error.{
  frame_too_large, invalid_auth_version, empty_username, empty_password, invalid_username_encoding,
  invalid_password_encoding,
}
use zc_splice_proxy.Socks5.AuthStatus
use zc_splice_proxy.Socks5.Messages.{
  AuthRequest, AuthResponse, max_auth_frame_size, socks5_auth_ver,
}
use zc_splice_proxy.Socks5.Codec.Buffer.{
  Decoded, Encoded, index, slice, advance, incomplete, reject, frame,
}

-- The two fields are read as text, and only then is the frame taken off the buffer.
decode_fields : Bytes → ℕ → ℕ → Decoded AuthRequest
unfolding from_utf8
decode_fields buf plen_offset total_len = do
  username_bytes ← slice buf 2 plen_offset
  elim (from_utf8 username_bytes) [
    | none ↦ reject invalid_username_encoding buf
    | some username ↦ do
      password_bytes ← slice buf (plen_offset + 1) total_len
      elim (from_utf8 password_bytes) [
        | none ↦ reject invalid_password_encoding buf
        | some password ↦ do
          rest ← advance buf total_len
          frame (record { username = username; password = password }) rest
      ]
  ]

unfoldable pub decode : Bytes → Decoded AuthRequest
unfolding decode_fields index
decode buf =
    if ltb max_auth_frame_size (length buf)
    then reject frame_too_large buf
    else if ltb (length buf) 2
    then incomplete buf
    else do
      ver ← index buf 0
      if not (ver == socks5_auth_ver) then reject invalid_auth_version buf else do
        ulen ← index buf 1
        if ulen == 0
            then reject empty_username buf
            else let plen_offset = 2 + ulen in
              if ltb (length buf) (plen_offset + 1) then incomplete buf else do
                plen ← index buf plen_offset
                if plen == 0
                    then reject empty_password buf
                    else let total_len = plen_offset + 1 + plen in
                      if ltb (length buf) total_len
                      then incomplete buf
                      else decode_fields buf plen_offset total_len

unfoldable pub encode : AuthResponse → Bytes → Encoded
encode item buf = (ok tt, buf ++ (socks5_auth_ver ∷ AuthStatus.code item.status ∷ []))
