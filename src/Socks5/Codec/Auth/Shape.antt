-- ===== src/Socks5/Codec/Auth/Shape.antt =====
-- `AuthCodec.decode` on a buffer that is split into its fields.
use zc_splice_proxy.Base.{
  arith, drop, get_elem?_here, if◌then◌else◌, length, length-append, ltb, not, take, ℕ, ◌++◌, ◌+◌,
  ◌==◌, ◌∷◌, ◌≡◌, ◌≤◌, [], refl, returns, sym, take_all, ◌∙◌, inl, inr, split_at, subst, ◌<◌, ◌⊎◌,
}
use mathlib.Core.List.{append_assoc}
use zc_splice_proxy.Std.Utf8.{Bytes, is_utf8}
use zc_splice_proxy.Socks5.Error.{
  frame_too_large, invalid_auth_version, empty_username, empty_password, invalid_username_encoding,
  invalid_password_encoding,
}
use zc_splice_proxy.Socks5.Messages.{AuthRequest, max_auth_frame_size, socks5_auth_ver}
use zc_splice_proxy.Socks5.Codec.Buffer.{
  slice, advance, slice-append, advance-append, Decoded, incomplete, reject, frame,
}
use zc_splice_proxy.Socks5.Codec.Answers.{refuse_if, wait_if}
use zc_splice_proxy.Socks5.Codec.Auth.{decode_fields, decode}

abbrev pub credentials : Bytes → Bytes → AuthRequest
credentials name password = record { username = name; password = password }

-- A buffer whose user name is complete and followed by the length of the password.
abbrev pub laid_out : ℕ → Bytes → ℕ → Bytes → Bytes
laid_out v name p tail = v ∷ length name ∷ (name ++ p ∷ tail)

-- The tests on such a buffer, in their order.
abbrev pub answer : ℕ → Bytes → ℕ → Bytes → Decoded AuthRequest
answer v name p tail =
    let buf = laid_out v name p tail in
    refuse_if (ltb max_auth_frame_size (3 + length name + length tail)) frame_too_large buf (
      refuse_if (not (v == socks5_auth_ver)) invalid_auth_version buf (
        refuse_if (length name == 0) empty_username buf (
          refuse_if (p == 0) empty_password buf (
            wait_if (ltb (length tail) p) buf (
              refuse_if (not (is_utf8 name)) invalid_username_encoding buf (
                refuse_if (not (is_utf8 (take p tail))) invalid_password_encoding buf
                  (frame (credentials name (take p tail)) (drop p tail))))))))

-- The same for a buffer that ends before the length of the password.
abbrev pub short_answer : ℕ → ℕ → Bytes → Decoded AuthRequest
short_answer v u body =
    let buf = v ∷ u ∷ body in
    refuse_if (ltb max_auth_frame_size (2 + length body)) frame_too_large buf (
      refuse_if (not (v == socks5_auth_ver)) invalid_auth_version buf
        (refuse_if (u == 0) empty_username buf (incomplete buf)))

module _ (v : ℕ) (name : Bytes) (p : ℕ) (tail : Bytes) (fits : p ≤ length tail) where
  name-slice : slice (laid_out v name p tail) 2 (2 + length name) ≡ returns name
  name-slice =
      slice-append (v ∷ length name ∷ []) (name ++ p ∷ tail) 2 _ (length name) refl refl
        (omega (arith, length-append name (p ∷ tail)))
      ∙ rw (take_all name (p ∷ tail))

  -- The frame up to the password.
  abbrev head : Bytes
  head = laid_out v name p []

  head-append : head ++ tail ≡ laid_out v name p tail
  head-append = rw append_assoc

  length-head : length head ≡ 2 + length name + 1
  length-head = omega (arith, length-append name (p ∷ []))

  password_slice :
      slice (laid_out v name p tail) (2 + length name + 1) (2 + length name + 1 + p)
      ≡ returns (take p tail)
  password_slice = rw (← head-append) (slice-append head tail _ _ p (sym length-head) refl fits)

  frame_advance : advance (laid_out v name p tail) (2 + length name + 1 + p) ≡ returns (drop p tail)
  frame_advance =
      rw (← head-append) (advance-append head tail _ p (omega (arith, length-head)) fits)

  decode_fields-laid_out :
      decode_fields (laid_out v name p tail) (2 + length name) (2 + length name + 1 + p) ≡ (
        if not (is_utf8 name)
        then reject invalid_username_encoding (laid_out v name p tail)
        else if not (is_utf8 (take p tail))
        then reject invalid_password_encoding (laid_out v name p tail)
        else frame (credentials name (take p tail)) (drop p tail))
  unfolding decode_fields
  decode_fields-laid_out = ground (arith, name-slice, password_slice, frame_advance)

pub decode-laid_out :
    (v : ℕ) (name : Bytes) (p : ℕ) (tail : Bytes)
    → decode (laid_out v name p tail) ≡ answer v name p tail
unfolding decode refuse_if wait_if
decode-laid_out v name p tail = ground (
  arith,
  length-append name (p ∷ tail),
  get_elem?_here name p tail,
  decode_fields-laid_out v name p tail,
)

pub decode_short :
    (v u : ℕ) (body : Bytes) → length body ≤ u → decode (v ∷ u ∷ body) ≡ short_answer v u body
unfolding decode refuse_if
decode_short v u body h = ground arith

-- Every buffer has one of these shapes.
pub data View : Bytes → Type 0 where
  empty : View []
  one : (v : ℕ) → View (v ∷ [])
  short : (v u : ℕ) (body : Bytes) → length body ≤ u → View (v ∷ u ∷ body)
  full : (v : ℕ) (name : Bytes) (p : ℕ) (tail : Bytes) → View (laid_out v name p tail)

View-body : (v u : ℕ) (body : Bytes) → (length body ≤ u) ⊎ (u < length body) → View (v ∷ u ∷ body)
View-body v u body (inl h) = short v u body h
View-body v u body (inr h) =
    let (name, p, tail, e, k) = split_at u body h in
    subst (λ b. View (v ∷ u ∷ b)) (sym e)
      (subst (λ n. View (v ∷ n ∷ (name ++ p ∷ tail))) k (full v name p tail))

pub view : (buf : Bytes) → View buf
view [] = empty
view (v ∷ []) = one v
view (v ∷ u ∷ body) = View-body v u body (grind arith)
