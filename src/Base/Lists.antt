-- ===== src/Base/Lists.antt =====
-- Lists measured and indexed by native numbers, under the library's names.
use Prim.Native.Nat.{ℕ, zero, suc, ◌+◌, ◌-◌, ◌≤◌, ◌<◌}
use mathlib.Core.Path.{◌≡◌, refl, sym, ap, subst, ◌∙◌}
use mathlib.Core.Logic.{∥∥₁_elim}
use mathlib.Core.List.{map, Memᴰ, Perm, Permᴰ, List, [], ◌∷◌, ◌++◌}
use mathlib.Core.Option.{Option, none, some}
use native.Mathlib.Omega.{arith}
use native.Mathlib.Nat.{zero-add, suc-add}

module _ {ℓ} {A : Type ℓ} where
  abbrev pub length : List A → ℕ
  length [] = 0
  length (x ∷ xs) = suc (length xs)

  abbrev pub get_elem? : List A → ℕ → Option A
  get_elem? [] i = none
  get_elem? (x ∷ xs) zero = some x
  get_elem? (x ∷ xs) (suc i) = get_elem? xs i

  abbrev pub take : ℕ → List A → List A
  take zero xs = []
  take (suc n) [] = []
  take (suc n) (x ∷ xs) = x ∷ take n xs

  abbrev pub drop : ℕ → List A → List A
  drop zero xs = xs
  drop (suc n) [] = []
  drop (suc n) (x ∷ xs) = drop n xs

  pub nil_of_length : (xs : List A) → length xs ≡ 0 → xs ≡ []
  nil_of_length [] h = refl
  nil_of_length (x ∷ xs) h = absurd (omega (arith, h))

  pub length-append : (xs ys : List A) → length (xs ++ ys) ≡ length xs + length ys
  length-append [] ys = omega arith
  length-append (x ∷ xs) ys = omega (arith, length-append xs ys)

  pub take-append-drop : (n : ℕ) (xs : List A) → take n xs ++ drop n xs ≡ xs
  take-append-drop zero xs = refl
  take-append-drop (suc n) [] = refl
  take-append-drop (suc n) (x ∷ xs) = rw (take-append-drop n xs)

  pub length-take : (n : ℕ) (xs : List A) → n ≤ length xs → length (take n xs) ≡ n
  length-take zero xs h = refl
  length-take (suc n) [] h = elim h [ ]
  length-take (suc n) (x ∷ xs) h = ap suc (length-take n xs (omega arith))

  pub length-drop : (n : ℕ) (xs : List A) → length (drop n xs) ≡ length xs - n
  length-drop zero xs = omega arith
  length-drop (suc n) [] = omega arith
  length-drop (suc n) (x ∷ xs) = omega (arith, length-drop n xs)

  -- What is taken or dropped of a list does not depend on what follows it.
  pub take-append : (n : ℕ) (xs ys : List A) → n ≤ length xs → take n (xs ++ ys) ≡ take n xs
  take-append zero xs ys h = refl
  take-append (suc n) [] ys h = elim h [ ]
  take-append (suc n) (x ∷ xs) ys h = ap (◌∷◌ x) (take-append n xs ys (omega arith))

  pub drop-append : (n : ℕ) (xs ys : List A) → n ≤ length xs → drop n (xs ++ ys) ≡ drop n xs ++ ys
  drop-append zero xs ys h = refl
  drop-append (suc n) [] ys h = elim h [ ]
  drop-append (suc n) (x ∷ xs) ys h = drop-append n xs ys (omega arith)

  pub take_all : (xs ys : List A) → take (length xs) (xs ++ ys) ≡ xs
  take_all [] ys = refl
  take_all (x ∷ xs) ys = ap (◌∷◌ x) (take_all xs ys)

  pub take_self : (xs : List A) → take (length xs) xs ≡ xs
  take_self [] = refl
  take_self (x ∷ xs) = ap (◌∷◌ x) (take_self xs)

  pub drop_all : (xs ys : List A) → drop (length xs) (xs ++ ys) ≡ ys
  drop_all [] ys = refl
  drop_all (x ∷ xs) ys = drop_all xs ys

  pub get_elem?-append :
      (i : ℕ) (xs ys : List A) → i < length xs → get_elem? (xs ++ ys) i ≡ get_elem? xs i
  get_elem?-append i [] ys h = elim h [ ]
  get_elem?-append zero (x ∷ xs) ys h = refl
  get_elem?-append (suc i) (x ∷ xs) ys h = get_elem?-append i xs ys (omega arith)

  pub get_elem?-some : (i : ℕ) (xs : List A) → i < length xs → (x : A) × (get_elem? xs i ≡ some x)
  get_elem?-some i [] h = elim h [ ]
  get_elem?-some zero (x ∷ xs) h = (x, refl)
  get_elem?-some (suc i) (x ∷ xs) h = get_elem?-some i xs (omega arith)

  drop-nil : (n : ℕ) → drop n [] ≡ []
  drop-nil zero = refl
  drop-nil (suc n) = refl

  pub drop-drop : (m n : ℕ) (xs : List A) → drop n (drop m xs) ≡ drop (m + n) xs
  drop-drop zero n xs = rw zero-add
  drop-drop (suc m) n [] = rw suc-add (drop-nil n)
  drop-drop (suc m) n (x ∷ xs) = rw suc-add (drop-drop m n xs)

  -- What stands behind a prefix and one more element.
  pub drop_past :
      (xs : List A) (y : A) (ys : List A) (n : ℕ)
      → drop (length xs + 1 + n) (xs ++ y ∷ ys) ≡ drop n ys
  drop_past xs y ys n =
      sym (rw (← drop-drop (length xs + 1) n, ← drop-drop (length xs) 1, drop_all xs (y ∷ ys)) refl)

  -- The element behind a prefix.
  pub get_elem?_here :
      (xs : List A) (y : A) (ys : List A) → get_elem? (xs ++ y ∷ ys) (length xs) ≡ some y
  get_elem?_here [] y ys = refl
  get_elem?_here (x ∷ xs) y ys = get_elem?_here xs y ys

  -- A list split at one of its positions.
  pub split_at :
      (i : ℕ) (xs : List A)
      → i < length xs
      → (ys : List A) × (y : A) × (zs : List A) × (xs ≡ ys ++ y ∷ zs) × (length ys ≡ i)
  split_at i [] h = elim h [ ]
  split_at zero (x ∷ xs) h = ([], x, xs, refl, refl)
  split_at (suc i) (x ∷ xs) h =
      let (ys, y, zs, e, k) = split_at i xs (omega arith) in (x ∷ ys, y, zs, ap (◌∷◌ x) e, ap suc k)

  -- Equal lists with prefixes of one length.
  pub append-injective :
      (xs zs : List A) {ys ws : List A}
      → length xs ≡ length zs
      → xs ++ ys ≡ zs ++ ws
      → (xs ≡ zs) × (ys ≡ ws)
  append-injective [] [] h e = (refl, e)
  append-injective [] (z ∷ zs) h e = absurd (omega arith)
  append-injective (x ∷ xs) [] h e = absurd (omega arith)
  append-injective (x ∷ xs) (z ∷ zs) {ys} {ws} h e =
      let behind : xs ++ ys ≡ zs ++ ws = cc e in
      let tails : (xs ≡ zs) × (ys ≡ ws) = append-injective xs zs (omega arith) behind in
      let heads : x ≡ z = cc e in (rw (heads, tails.0), tails.1)

-- A predicate on every element, as a tuple.
abbrev pub All {ℓ κ} : {A : Type ℓ} → (A → Type κ) → List A → Type κ
All P [] = Unit
All P (x ∷ xs) = P x × All P xs

pub All-append_left {ℓ κ} :
    {A : Type ℓ} (P : A → Type κ) (xs ys : List A) → All P (xs ++ ys) → All P xs
All-append_left P [] ys h = tt
All-append_left P (x ∷ xs) ys h = (h.0, All-append_left P xs ys h.1)

pub All-Memᴰ {ℓ κ} :
    {A : Type ℓ} (P : A → Type κ) (a : A) (xs : List A) → Memᴰ a xs → All P xs → P a
All-Memᴰ P a [] m h = elim m [ ]
All-Memᴰ P a (x ∷ xs) (Memᴰ.head e) h = subst P (sym e) h.0
All-Memᴰ P a (x ∷ xs) (Memᴰ.tail m) h = All-Memᴰ P a xs m h.1

pub All-append_right {ℓ κ} :
    {A : Type ℓ} (P : A → Type κ) (xs ys : List A) → All P (xs ++ ys) → All P ys
All-append_right P [] ys h = h
All-append_right P (x ∷ xs) ys h = All-append_right P xs ys h.1

length-Permᴰ {ℓ} : {A : Type ℓ} {xs ys : List A} → Permᴰ xs ys → length xs ≡ length ys
length-Permᴰ Permᴰ.nil = refl
length-Permᴰ (Permᴰ.cons e h) = ap suc (length-Permᴰ h)
length-Permᴰ (Permᴰ.swap e e') = refl
length-Permᴰ (Permᴰ.trans h h') = length-Permᴰ h ∙ length-Permᴰ h'

-- A rearrangement has as many elements.
pub length-Perm {ℓ} : {A : Type ℓ} {xs ys : List A} → Perm xs ys → length xs ≡ length ys
length-Perm h = ∥∥₁_elim h (hlevel) length-Permᴰ

-- The list without what stands at an index; all of it if nothing does.
abbrev pub remove_at {ℓ} : {A : Type ℓ} → ℕ → List A → List A
remove_at n [] = []
remove_at zero (x ∷ xs) = xs
remove_at (suc n) (x ∷ xs) = x ∷ remove_at n xs

pub length-remove_at {ℓ} :
    {A : Type ℓ} (i : ℕ) (xs : List A) → i < length xs → suc (length (remove_at i xs)) ≡ length xs
length-remove_at i [] h = elim h [ ]
length-remove_at zero (x ∷ xs) h = refl
length-remove_at (suc i) (x ∷ xs) h = omega (arith, length-remove_at i xs)

abbrev pub set {ℓ} : {A : Type ℓ} → List A → ℕ → A → List A
set [] n a = []
set (x ∷ xs) zero a = a ∷ xs
set (x ∷ xs) (suc n) a = x ∷ set xs n a

pub length-set {ℓ} : {A : Type ℓ} (xs : List A) (n : ℕ) (a : A) → length (set xs n a) ≡ length xs
length-set [] n a = refl
length-set (x ∷ xs) zero a = refl
length-set (x ∷ xs) (suc n) a = ap suc (length-set xs n a)

pub get_elem?-set {ℓ} :
    {A : Type ℓ} (xs : List A) (n : ℕ) (a b : A)
    → get_elem? xs n ≡ some a
    → get_elem? (set xs n b) n ≡ some b
get_elem?-set [] n a b h = absurd cc
get_elem?-set (x ∷ xs) zero a b h = refl
get_elem?-set (x ∷ xs) (suc n) a b h = get_elem?-set xs n a b h

pub remove_at-set {ℓ} :
    {A : Type ℓ} (xs : List A) (n : ℕ) (a : A) → remove_at n (set xs n a) ≡ remove_at n xs
remove_at-set [] n a = refl
remove_at-set (x ∷ xs) zero a = refl
remove_at-set (x ∷ xs) (suc n) a = ap (◌∷◌ x) (remove_at-set xs n a)

pub get_elem?-lt-length {ℓ} :
    {A : Type ℓ} (xs : List A) (n : ℕ) (a : A) → get_elem? xs n ≡ some a → n < length xs
get_elem?-lt-length [] n a h = absurd cc
get_elem?-lt-length (x ∷ xs) zero a h = omega arith
get_elem?-lt-length (x ∷ xs) (suc n) a h = omega (arith, get_elem?-lt-length xs n a h)

-- A predicate on all elements holds of the one at an index, and is kept by these changes.
module _ {ℓ κ} {A : Type ℓ} (P : A → Type κ) where
  pub All-get_elem? : (xs : List A) (n : ℕ) (a : A) → All P xs → get_elem? xs n ≡ some a → P a
  All-get_elem? [] n a h e = absurd cc
  All-get_elem? (x ∷ xs) zero a h e = subst P (cc e) h.0
  All-get_elem? (x ∷ xs) (suc n) a h e = All-get_elem? xs n a h.1 e

  pub All-remove_at : (xs : List A) (n : ℕ) → All P xs → All P (remove_at n xs)
  All-remove_at [] n h = tt
  All-remove_at (x ∷ xs) zero h = h.1
  All-remove_at (x ∷ xs) (suc n) h = (h.0, All-remove_at xs n h.1)

  pub All-set : (xs : List A) (n : ℕ) (a : A) → P a → All P xs → All P (set xs n a)
  All-set [] n a p h = tt
  All-set (x ∷ xs) zero a p h = (p, h.1)
  All-set (x ∷ xs) (suc n) a p h = (h.0, All-set xs n a p h.1)

  pub All-append : (xs ys : List A) → All P xs → All P ys → All P (xs ++ ys)
  All-append [] ys h k = k
  All-append (x ∷ xs) ys h k = (h.0, All-append xs ys h.1 k)

abbrev pub replicate {ℓ} : {A : Type ℓ} → ℕ → A → List A
replicate zero a = []
replicate (suc n) a = a ∷ replicate n a

pub length-map {ℓ κ} :
    {A : Type ℓ} {B : Type κ} (f : A → B) (xs : List A) → length (map f xs) ≡ length xs
length-map f [] = refl
length-map f (x ∷ xs) = ap suc (length-map f xs)
