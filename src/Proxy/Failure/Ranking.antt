-- ===== src/Proxy/Failure/Ranking.antt =====
-- Which of the failures of all attempts stands for them, and what the client is told.
use zc_splice_proxy.Base.{
  arith, Bool, List, false, if◌then◌else◌, none, some, true, ℕ, ◌∷◌, ◌≡◌, ◌≤◌, Bool-cases, [], ap,
  inl, inr, refl, ◌∙◌, ◌⊎◌, length, All, subst, sym, decide,
}
use mathlib.Core.List.{Memᴰ}
use zc_splice_proxy.Std.Io.{
  IoError, all_failed, ErrorKind, ErrorKind-discrete, connection_refused, network_unreachable,
  timed_out,
}
use zc_splice_proxy.Socks5.Reply
use zc_splice_proxy.HappyEyeballs.Config.{all_attempts_failed}
use zc_splice_proxy.Proxy.Failure.{
  target_connection_failed, is_kind, find, representative_error, from_happy_eyeballs, to_reply,
  reply_of_kind,
}

-- Connection refused comes before network unreachable, before timed out, before all else.
unfoldable pub rank : IoError → ℕ
rank e =
    if is_kind connection_refused e
    then 0
    else if is_kind network_unreachable e
    then 1
    else if is_kind timed_out e
    then 2
    else 3

-- What `find` gives: the first element that passes, or nothing when none does.
abbrev Finds {ℓ} : {A : Type ℓ} → (A → Bool) → List A → Type ℓ
Finds p xs =
    ((x : _) × (find p xs ≡ some x) × Memᴰ x xs × (p x ≡ true))
    ⊎ ((find p xs ≡ none) × ((x : _) → Memᴰ x xs → p x ≡ false))

fails_on_cons {ℓ} :
    {A : Type ℓ} (p : A → Bool) (x : A) (xs : List A)
    → p x ≡ false
    → ((y : A) → Memᴰ y xs → p y ≡ false)
    → (y : A) → Memᴰ y (x ∷ xs)
    → p y ≡ false
fails_on_cons p x xs fails nos y (Memᴰ.head e) = ap p e ∙ fails
fails_on_cons p x xs fails nos y (Memᴰ.tail m) = nos y m

find-Finds {ℓ} : {A : Type ℓ} (p : A → Bool) (xs : List A) → Finds p xs
find-Finds p [] = inr (refl, λ x m. elim m [ ])
find-Finds p (x ∷ xs) = elim (Bool-cases (p x)) [
  | inl e ↦ inl (x, rw e refl, Memᴰ.head refl, e)
  | inr e ↦ elim (find-Finds p xs) [
    | inl (y, found, m, passes) ↦ inl (y, rw e found, Memᴰ.tail m, passes)
    | inr (none_found, nos) ↦ inr (rw e none_found, fails_on_cons p x xs e nos)
  ]
]

decided {ℓ} : {A : Type ℓ} (d : Dec A) → decide d ≡ true → A
decided (yes a) h = a
decided (no na) h = absurd cc

is_kind_kind : (kind : ErrorKind) (e : IoError) → is_kind kind e ≡ true → e.kind ≡ kind
unfolding is_kind
is_kind_kind kind e h = decided (ErrorKind-discrete e.kind kind) h

-- What is promised of the representative `r` of `errors`.
abbrev pub Represents : IoError → List IoError → Type 0
Represents r errors = Memᴰ r errors × All (λ x. rank r ≤ rank x) errors

All-of {ℓ κ} : {A : Type ℓ} (P : A → Type κ) (xs : List A) → ((x : A) → Memᴰ x xs → P x) → All P xs
All-of P [] h = tt
All-of P (x ∷ xs) h = (h x (Memᴰ.head refl), All-of P xs (λ y m. h y (Memᴰ.tail m)))

one_of {ℓ κ} : {A : Type ℓ} (P : A → Type κ) (xs : List A) → All P xs → (x : A) → Memᴰ x xs → P x
one_of P [] h x m = elim m [ ]
one_of P (y ∷ ys) h x (Memᴰ.head e) = subst P (sym e) h.0
one_of P (y ∷ ys) h x (Memᴰ.tail m) = one_of P ys h.1 x m

lowest :
    (e : IoError) (es : List IoError)
    → Memᴰ (representative_error e es) (e ∷ es)
      × ((x : IoError) → Memᴰ x (e ∷ es) → rank (representative_error e es) ≤ rank x)
unfolding representative_error rank
lowest e es = elim (find-Finds (is_kind connection_refused) (e ∷ es)) [
  | inl (x, found, m, is) ↦ rw (representative_error, found) (m, λ y n. ground (arith, is))
  | inr (none1, no1) ↦ elim (find-Finds (is_kind network_unreachable) (e ∷ es)) [
    | inl (x, found, m, is) ↦
        rw (representative_error, none1, found) (m, λ y n. ground (arith, is, no1 x m, no1 y n))
    | inr (none2, no2) ↦ elim (find-Finds (is_kind timed_out) (e ∷ es)) [
      | inl (x, found, m, is) ↦
          rw (representative_error, none1, none2, found)
            (m, λ y n. ground (arith, is, no1 x m, no1 y n, no2 x m, no2 y n))
      | inr (none3, no3) ↦
          rw (representative_error, none1, none2, none3)
            (Memᴰ.head refl, λ y n. ground (arith, no1 y n, no2 y n, no3 y n))
    ]
  ]
]

representative_error-Represents :
    (e : IoError) (es : List IoError) → Represents (representative_error e es) (e ∷ es)
representative_error-Represents e es = ((lowest e es).0, All-of _ (e ∷ es) (lowest e es).1)

-- When all attempts failed, the error of the connection has the kind of one of the failures, than
-- which no failure ranks higher, and its text counts the failures and ends in that one's text.
pub from_happy_eyeballs-Represents :
    (e : IoError) (es : List IoError)
    → (r : IoError) × Represents r (e ∷ es)
      × (from_happy_eyeballs (all_attempts_failed (e ∷ es))
          ≡ target_connection_failed
              (record { kind = r.kind; message = all_failed (length (e ∷ es)) r.message }))
unfolding from_happy_eyeballs
from_happy_eyeballs-Represents e es =
    (representative_error e es, representative_error-Represents e es, refl)

rank_refused : (e : IoError) → rank e ≡ 0 → e.kind ≡ connection_refused
unfolding rank
rank_refused e h = is_kind_kind connection_refused e ground arith

-- One refused connection among the failures is enough for the client to be told so.
pub to_reply_refused :
    (e : IoError) (es : List IoError) (x : IoError)
    → Memᴰ x (e ∷ es)
    → is_kind connection_refused x ≡ true
    → to_reply (from_happy_eyeballs (all_attempts_failed (e ∷ es))) ≡ Reply.connection_refused
unfolding to_reply reply_of_kind
to_reply_refused e es x m refused =
    let (r, best, is) = from_happy_eyeballs-Represents e es in
    let least : rank x ≡ 0 = unfold rank in ground (arith, refused) in
    let kind : r.kind ≡ connection_refused =
      rank_refused r (omega (arith, least, one_of (λ y. rank r ≤ rank y) (e ∷ es) best.1 x m)) in
    rw (is, kind) refl
