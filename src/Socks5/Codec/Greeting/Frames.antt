-- ===== src/Socks5/Codec/Greeting/Frames.antt =====
-- What `GreetingCodec.decode` does with a whole frame, a part of one, and any other bytes.
use zc_splice_proxy.Base.{
  ℕ, ◌≤◌, ◌<◌, ◌≡◌, refl, [], ◌∷◌, ◌++◌, arith, length, length-append, take_all, drop_all,
  take-append-drop, length-take, take-append, drop-append, if◌then◌else◌, leb, ap, drop, ltb, take,
  ◌+◌, ◌==◌, not,
}
use zc_splice_proxy.Std.Utf8.{Bytes}
use zc_splice_proxy.Socks5.Error.{
  ProtocolError, frame_too_large, invalid_version, empty_methods_list,
}
use zc_splice_proxy.Socks5.Messages.{ClientGreeting, max_greeting_frame_size, socks5_ver}
use zc_splice_proxy.Socks5.Codec.Buffer.{incomplete, reject, frame}
use zc_splice_proxy.Socks5.Codec.Answers.{
  Answers, waits, reads, refuse_if, wait_if, Answers-refuse_if, Answers-wait_if,
}
use zc_splice_proxy.Socks5.Codec.Greeting.{known_methods, decode}

-- The greeting of RFC 1928, section 3, that offers the given method bytes.
abbrev pub wire : Bytes → Bytes
wire methods = socks5_ver ∷ length methods ∷ methods

abbrev pub greeting : Bytes → ClientGreeting
greeting methods = record { methods = known_methods methods }

-- A greeting that offers a method at least is decoded to its known methods, and the bytes behind it
-- stay in the buffer, if the buffer as a whole is within the limit; else it is refused as too large.
pub decode-greeting-wire :
    (methods rest : Bytes)
    → 0 < length methods
    → decode (wire methods ++ rest) ≡ (
        if leb (length (wire methods ++ rest)) max_greeting_frame_size
        then frame (greeting methods) rest
        else reject frame_too_large (wire methods ++ rest))
unfolding decode
decode-greeting-wire methods rest h =
    ground (arith, length-append methods rest, take_all methods rest, drop_all methods rest)

-- The item is the known methods of a greeting that stands at the front of the buffer.
pub record Whole (buf : Bytes) (item : ClientGreeting) (rest : Bytes) : Type 0 where
  pub methods : Bytes
  pub offered : 0 < length methods
  pub known : item ≡ greeting methods
  pub at_front : buf ≡ wire methods ++ rest
  pub within_limit : length buf ≤ max_greeting_frame_size

Whole-body :
    (v n : ℕ) (body : Bytes)
    → v ≡ socks5_ver
    → 2 + length body ≤ max_greeting_frame_size
    → 0 < n
    → n ≤ length body
    → Whole (v ∷ n ∷ body) (greeting (take n body)) (drop n body)
Whole-body v n body five small h k =
    let parts = length-take n body k in
    record {
      methods = take n body;
      offered = omega arith;
      known = refl;
      at_front = rw (five, parts, take-append-drop n body);
      within_limit = omega arith;
    }

-- The tests on a buffer with a complete header, in their order.
decode_header :
    (v n : ℕ) (body : Bytes)
    → let buf = v ∷ n ∷ body in
      decode buf
      ≡ refuse_if (ltb max_greeting_frame_size (2 + length body)) frame_too_large buf (
          refuse_if (not (v == socks5_ver)) invalid_version buf (
            refuse_if
              (n == 0)
              empty_methods_list
              buf
              (wait_if (ltb (length body) n) buf (frame (greeting (take n body)) (drop n body)))))
unfolding decode refuse_if wait_if
decode_header v n body = ground arith

-- The codec keeps the contract of `Answers`: it never panics, leaves the buffer untouched unless
-- it reads a greeting, and takes exactly that greeting's wire form off the front.
pub decode_greeting-Answers : (buf : Bytes) → Answers (Whole buf) buf (decode buf)
unfolding decode
decode_greeting-Answers [] = waits
decode_greeting-Answers (v ∷ []) = waits
decode_greeting-Answers (v ∷ n ∷ body) = rw (decode_header v n body) (
    Answers-refuse_if _ λ small. Answers-refuse_if _ λ ver. Answers-refuse_if _ λ given.
      Answers-wait_if λ fits.
        reads (Whole-body v n body (ground arith) (ground arith) (ground arith) (ground arith)))

-- A greeting that was read is read alike when more bytes arrive behind it, as long as the buffer
-- is within the limit; the new bytes stay in the buffer.
pub append_greeting_frame :
    (buf more : Bytes) (x : ClientGreeting) (rest : Bytes)
    → length (buf ++ more) ≤ max_greeting_frame_size
    → decode buf ≡ frame x rest
    → decode (buf ++ more) ≡ frame x (rest ++ more)
unfolding decode
append_greeting_frame [] more x rest h e = cc
append_greeting_frame (v ∷ []) more x rest h e = cc
append_greeting_frame (v ∷ n ∷ body) more x rest h e =
    ground (arith, length-append body more, take-append n body more, drop-append n body more)

-- An error stays the same error when more bytes arrive, as long as the buffer is within the limit.
pub append_greeting_reject :
    (buf more : Bytes) (e : ProtocolError)
    → length (buf ++ more) ≤ max_greeting_frame_size
    → decode buf ≡ reject e buf
    → decode (buf ++ more) ≡ reject e (buf ++ more)
unfolding decode
append_greeting_reject [] more x h e = cc
append_greeting_reject (v ∷ []) more x h e = cc
append_greeting_reject (v ∷ n ∷ body) more x h e = ground (arith, length-append body more)

-- A proper part of a greeting with 1 to 255 methods is never an error: the codec waits for the rest.
pub decode_greeting_part :
    (methods part missing : Bytes)
    → 0 < length methods
    → length methods < 256
    → part ++ missing ≡ wire methods
    → 0 < length missing
    → decode part ≡ incomplete part
unfolding decode
decode_greeting_part methods [] missing h b e k = refl
decode_greeting_part methods (v ∷ []) missing h b e k = refl
decode_greeting_part methods (v ∷ n ∷ body) missing h b e k =
    ground (arith, ap length e, length-append body missing)
