-- ===== src/Socks5/Codec/Auth/Frames.antt =====
-- What `AuthCodec.decode` does with a whole frame, a part of one, and any other bytes.
use zc_splice_proxy.Base.{
  arith, drop-append, drop_all, if◌then◌else◌, length, length-append, ltb, not, refl, take-append,
  take_all, true, ◌++◌, ◌<◌, ◌∷◌, ◌≡◌, ◌≤◌, drop, length-take, take, take-append-drop, ℕ, ◌+◌, ap,
  append-injective,
}
use mathlib.Core.List.{append_assoc}
use zc_splice_proxy.Std.Utf8.{Bytes, is_utf8}
use zc_splice_proxy.Socks5.Error.{
  ProtocolError, frame_too_large, invalid_username_encoding, invalid_password_encoding,
}
use zc_splice_proxy.Socks5.Messages.{AuthRequest, max_auth_frame_size, socks5_auth_ver}
use zc_splice_proxy.Socks5.Codec.Buffer.{incomplete, reject, frame}
use zc_splice_proxy.Socks5.Codec.Answers.{
  Answers, waits, reads, refuse_if, wait_if, Answers-refuse_if, Answers-wait_if,
}
use zc_splice_proxy.Socks5.Codec.Auth.{decode}
use zc_splice_proxy.Socks5.Codec.Auth.Shape.{
  credentials, laid_out, decode-laid_out, decode_short, View, empty, one, short, full, view,
}

-- The request of RFC 1929 with the given user name and password.
abbrev pub wire : Bytes → Bytes → Bytes
wire name password = socks5_auth_ver ∷ length name ∷ (name ++ length password ∷ password)

-- A request with nonempty fields is decoded if both are UTF-8 text, the user name being looked at
-- first, and the bytes behind it stay in the buffer; the whole buffer must be within the limit.
pub decode_auth-wire :
    (name password rest : Bytes)
    → 0 < length name
    → 0 < length password
    → let buf = wire name password ++ rest in
      decode buf ≡ (
        if ltb max_auth_frame_size (length buf)
        then reject frame_too_large buf
        else if not (is_utf8 name)
        then reject invalid_username_encoding buf
        else if not (is_utf8 password)
        then reject invalid_password_encoding buf
        else frame (credentials name password) rest)
unfolding refuse_if wait_if
decode_auth-wire name password rest h k =
    rw (append_assoc, decode-laid_out)
      (ground (
        arith,
        length-append name (length password ∷ (password ++ rest)),
        length-append password rest,
        take_all password rest,
        drop_all password rest,
      ))

-- The item is the UTF-8 text of a wire form that stands at the front of the buffer.
pub record Whole (buf : Bytes) (item : AuthRequest) (rest : Bytes) : Type 0 where
  pub name_given : 0 < length item.username
  pub password_given : 0 < length item.password
  pub name_text : is_utf8 item.username ≡ true
  pub password_text : is_utf8 item.password ≡ true
  pub at_front : buf ≡ wire item.username item.password ++ rest
  pub within_limit : length buf ≤ max_auth_frame_size

Whole-laid_out :
    (v : ℕ) (name : Bytes) (p : ℕ) (tail : Bytes)
    → v ≡ socks5_auth_ver
    → 3 + length name + length tail ≤ max_auth_frame_size
    → 0 < length name
    → 0 < p
    → p ≤ length tail
    → is_utf8 name ≡ true
    → is_utf8 (take p tail) ≡ true
    → Whole (laid_out v name p tail) (credentials name (take p tail)) (drop p tail)
Whole-laid_out v name p tail five small h k fits u w =
    let parts = length-take p tail fits in
    record {
      name_given = h;
      password_given = omega arith;
      name_text = u;
      password_text = w;
      at_front = rw (five, parts, append_assoc, take-append-drop p tail);
      within_limit = omega (arith, length-append name (p ∷ tail));
    }

Answers-View : {buf : Bytes} → View buf → Answers (Whole buf) buf (decode buf)
Answers-View empty = unfold decode in waits
Answers-View (one v) = unfold decode in waits
Answers-View (short v u body h) =
    rw (decode_short v u body h)
      (Answers-refuse_if _ λ _. Answers-refuse_if _ λ _. Answers-refuse_if _ λ _. waits)
Answers-View (full v name p tail) = rw (decode-laid_out v name p tail) (
    Answers-refuse_if _ λ small. Answers-refuse_if _ λ ver. Answers-refuse_if _ λ named.
      Answers-refuse_if _ λ given. Answers-wait_if λ fits. Answers-refuse_if _ λ u.
        Answers-refuse_if _ λ w. reads (
          Whole-laid_out v name p tail (ground arith) (ground arith) (ground arith) (ground arith)
            (ground arith) (ground arith) (ground arith)))

-- The codec keeps the contract of `Answers`: it never panics, leaves the buffer untouched unless
-- it reads a request, and takes exactly that request's wire form off the front.
pub decode_auth-Answers : (buf : Bytes) → Answers (Whole buf) buf (decode buf)
decode_auth-Answers buf = Answers-View (view buf)

append_frame-View :
    {buf : Bytes} (more : Bytes) (x : AuthRequest) (rest : Bytes)
    → View buf
    → length (buf ++ more) ≤ max_auth_frame_size
    → decode buf ≡ frame x rest
    → decode (buf ++ more) ≡ frame x (rest ++ more)
unfolding refuse_if wait_if
append_frame-View more x rest empty h e = unfold decode in cc e
append_frame-View more x rest (one v) h e = unfold decode in cc e
append_frame-View more x rest (short v u body k) h e = ground (arith, decode_short v u body)
append_frame-View more x rest (full v name p tail) h e =
    rw (append_assoc, decode-laid_out)
      (ground (
        arith,
        decode-laid_out v name p tail,
        length-append tail more,
        length-append name (p ∷ tail),
        length-append (name ++ p ∷ tail) more,
        length-append name (p ∷ (tail ++ more)),
        take-append p tail more,
        drop-append p tail more,
      ))

append_reject-View :
    {buf : Bytes} (more : Bytes) (e : ProtocolError)
    → View buf
    → length (buf ++ more) ≤ max_auth_frame_size
    → decode buf ≡ reject e buf
    → decode (buf ++ more) ≡ reject e (buf ++ more)
unfolding refuse_if wait_if
append_reject-View more x empty h e = unfold decode in cc e
append_reject-View more x (one v) h e = unfold decode in cc e
append_reject-View more x (short v u body k) h e =
    unfold decode in ground (arith, decode_short v u body, length-append body more)
append_reject-View more x (full v name p tail) h e =
    rw (append_assoc, decode-laid_out)
      (ground (
        arith,
        decode-laid_out v name p tail,
        length-append tail more,
        length-append name (p ∷ tail),
        length-append (name ++ p ∷ tail) more,
        take-append p tail more,
      ))

-- A request that was read is read alike when more bytes arrive behind it, as long as the buffer is
-- within the limit; the new bytes stay in the buffer.
pub append_auth_frame :
    (buf more : Bytes) (x : AuthRequest) (rest : Bytes)
    → length (buf ++ more) ≤ max_auth_frame_size
    → decode buf ≡ frame x rest
    → decode (buf ++ more) ≡ frame x (rest ++ more)
append_auth_frame buf more x rest h = append_frame-View more x rest (view buf) h

-- An error stays the same error when more bytes arrive, as long as the buffer is within the limit.
pub append_auth_reject :
    (buf more : Bytes) (e : ProtocolError)
    → length (buf ++ more) ≤ max_auth_frame_size
    → decode buf ≡ reject e buf
    → decode (buf ++ more) ≡ reject e (buf ++ more)
append_auth_reject buf more e h = append_reject-View more e (view buf) h

part-View :
    (name password : Bytes) {part : Bytes} (missing : Bytes)
    → View part
    → 0 < length name
    → 0 < length password
    → length (wire name password) ≤ max_auth_frame_size
    → part ++ missing ≡ wire name password
    → 0 < length missing
    → decode part ≡ incomplete part
unfolding refuse_if wait_if
part-View name password missing empty h k b e m = unfold decode in refl
part-View name password missing (one v) h k b e m = unfold decode in refl
part-View name password missing (short v u body s) h k b e m =
    ground (arith, decode_short v u body, length-append body missing, ap length e)
part-View name password missing (full v n p tail) h k b e m =
    let same : length n ≡ length name = cc e in
    let tails : (n ++ p ∷ tail) ++ missing ≡ name ++ length password ∷ password = cc e in
    let behind : n ++ p ∷ (tail ++ missing) ≡ name ++ length password ∷ password =
      rw append_assoc at tails in
    let bodies = append-injective n name same behind in
    ground (
      arith,
      decode-laid_out v n p tail,
      length-append tail missing,
      length-append name (length password ∷ password),
      ap length bodies.1,
    )

-- A proper part of a request with nonempty fields within the limit is never an error: the codec waits for the rest.
pub decode_auth_part :
    (name password part missing : Bytes)
    → 0 < length name
    → 0 < length password
    → length (wire name password) ≤ max_auth_frame_size
    → part ++ missing ≡ wire name password
    → 0 < length missing
    → decode part ≡ incomplete part
decode_auth_part name password part missing = part-View name password missing (view part)
