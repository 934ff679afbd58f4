-- ===== src/Proxy/Auth.antt =====
-- noxen-proxy/src/auth/auth_provider.rs. An operation that waits for the world outside takes it and
-- gives it back; strings are their bytes.
use zc_splice_proxy.Base.{
  refl, Bool, Result, [], err, false, if◌then◌else◌, ok, true, ◌&&◌, ◌==◌, ◌↔◌, ◌∷◌, ◌≡◌, ◌⊎◌,
  ==_iff, ==_refl, Bool-cases, inl, inr, and-true, ap, ◌∙◌, sym,
}
use zc_splice_proxy.Std.Utf8.{Bytes}
use zc_splice_proxy.Std.Io.{IoError, Text, literal}

-- `internal` holds what the boxed error displays.
pub data AuthError : Type 0 where
  invalid_credentials : AuthError
  io : IoError → AuthError
  internal : Text → AuthError

unfoldable pub display : AuthError → Text
display invalid_credentials = literal "Invalid credentials provided (username or password)"
display (io e) = literal "An underlying I/O error occurred during the authentication exchange"
display (internal e) = literal "Authentication service is temporarily unavailable"

-- The trait `AuthProvider`, with the provider's own data inside the operation.
pub record AuthProvider (World : Type 0) : Type 0 where
  pub authenticate : Bytes → Bytes → World → Result (Unit {0}) AuthError × World

pub record StaticAuthProvider : Type 0 where
  pub username : Bytes
  pub password : Bytes

unfoldable pub new : Bytes → Bytes → StaticAuthProvider
new username password = record { username = username; password = password }

-- Equality of strings, byte by byte.
abbrev same : Bytes → Bytes → Bool
same [] [] = true
same [] (y ∷ ys) = false
same (x ∷ xs) [] = false
same (x ∷ xs) (y ∷ ys) = x == y && same xs ys

unfoldable pub authenticate : StaticAuthProvider → Bytes → Bytes → Result (Unit {0}) AuthError
authenticate p username password =
    if same username p.username && same password p.password then ok tt else err invalid_credentials

-- The static provider as a provider: it waits for nothing.
unfoldable pub provider : {World : Type 0} → StaticAuthProvider → AuthProvider World
unfolding authenticate
provider p = record { authenticate = λ username password w. (authenticate p username password, w) }

same_refl : (xs : Bytes) → same xs xs ≡ true
same_refl [] = refl
same_refl (x ∷ xs) = rw (==_refl x) (same_refl xs)

same_eq : (xs ys : Bytes) → same xs ys ≡ true → xs ≡ ys
same_eq [] [] h = refl
same_eq [] (y ∷ ys) h = absurd cc
same_eq (x ∷ xs) [] h = absurd cc
same_eq (x ∷ xs) (y ∷ ys) h =
    let (here, there) = and-true (x == y) (same xs ys) h in
    ap (◌∷◌ x) (same_eq xs ys there) ∙ ap (λ z. z ∷ ys) ((==_iff x y).0 here)

ff-ne-tt : false ≡ true → ⊥
ff-ne-tt h = cc

refused :
    (p : StaticAuthProvider) (username password : Bytes)
    → (same username p.username && same password p.password) ≡ false
    → ((username ≡ p.username) × (password ≡ p.password))
    → ⊥
refused p username password e h =
    let name : same username p.username ≡ true = rw h.0 (same_refl p.username) in
    let word : same password p.password ≡ true = rw h.1 (same_refl p.password) in
    absurd (ff-ne-tt (sym e ∙ (rw (name, word) refl)))

-- The static provider accepts exactly its own username with its own password, and refuses every
-- other pair as invalid credentials.
pub authenticate_iff :
    (p : StaticAuthProvider) (username password : Bytes)
    → ((authenticate p username password ≡ ok tt)
        ↔ ((username ≡ p.username) × (password ≡ p.password)))
      × ((authenticate p username password ≡ ok tt)
          ⊎ (authenticate p username password ≡ err invalid_credentials))
unfolding authenticate
authenticate_iff p username password =
    elim (Bool-cases (same username p.username && same password p.password)) [
      | inl e ↦
          let (name, word) = and-true (same username p.username) (same password p.password) e in
          rw e (
            (
              (
                λ _. (same_eq username p.username name, same_eq password p.password word),
                λ _. refl,
              ),
              inl refl,
            ))
      | inr e ↦ rw e (((λ h. absurd cc, λ h. absurd (refused p username password e h)), inr refl))
    ]
