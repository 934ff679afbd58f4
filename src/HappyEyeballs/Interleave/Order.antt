-- ===== src/HappyEyeballs/Interleave/Order.antt =====
-- In what order the iterator yields the addresses.
use zc_splice_proxy.Base.{
  Bool, List, [], ap, arith, false, length, none, refl, some, subst, suc, sym, true, zero, ℕ, ◌++◌,
  ◌+◌, ◌<◌, ◌∙◌, ◌∷◌, ◌≡◌, ◌⊎◌, inl, inr,
}
use mathlib.Core.List.{Perm, append-nil, perm_middle}
use mathlib.Core.List.Perm
use zc_splice_proxy.Std.Net.{IpAddr}
use zc_splice_proxy.HappyEyeballs.Interleave.{
  InterleavedAddressesIter, new, next, len, size_hint, collect,
}

-- One element of each list in turn, and then what is left of the longer one.
abbrev pub alternate {ℓ} : {A : Type ℓ} → List A → List A → List A
alternate [] ys = ys
alternate (x ∷ xs) [] = x ∷ xs
alternate (x ∷ xs) (y ∷ ys) = x ∷ y ∷ alternate xs ys

-- What is still to come, by whose turn it is.
abbrev to_come : Bool → List IpAddr → List IpAddr → List IpAddr
to_come true v6 v4 = alternate v6 v4
to_come false v6 v4 = alternate v4 v6

alternate-nil {ℓ} : {A : Type ℓ} (xs : List A) → alternate xs [] ≡ xs
alternate-nil [] = refl
alternate-nil (x ∷ xs) = refl

alternate-cons {ℓ} :
    {A : Type ℓ} (x : A) (xs ys : List A) → alternate (x ∷ xs) ys ≡ x ∷ alternate ys xs
alternate-cons x xs [] = refl
alternate-cons x [] (y ∷ ys) = ap (◌∷◌ x) (ap (◌∷◌ y) refl)
alternate-cons x (z ∷ zs) (y ∷ ys) = ap (◌∷◌ x) (ap (◌∷◌ y) (alternate-cons z zs ys))

collect_of :
    (fuel : ℕ) (turn : Bool) (v6 v4 : List IpAddr)
    → length v6 + length v4 < fuel
    → collect fuel (record { ipv6 = v6; ipv4 = v4; ipv6_turn = turn }) ≡ to_come turn v6 v4
unfolding collect next
collect_of zero turn v6 v4 h = absurd (omega arith)
collect_of (suc f) true [] [] h = refl
collect_of (suc f) true [] (y ∷ v4) h = ap (◌∷◌ y) (collect_of f true [] v4 (omega arith))
collect_of (suc f) true (x ∷ v6) v4 h =
    ap (◌∷◌ x) (collect_of f false v6 v4 (omega arith)) ∙ sym (alternate-cons x v6 v4)
collect_of (suc f) false [] [] h = refl
collect_of (suc f) false (x ∷ v6) [] h = ap (◌∷◌ x) (collect_of f false v6 [] (omega arith))
collect_of (suc f) false [] (y ∷ v4) h =
    ap (◌∷◌ y) (collect_of f true [] v4 (omega arith)) ∙ sym (alternate-cons y v4 [])
collect_of (suc f) false (x ∷ v6) (y ∷ v4) h =
    ap (◌∷◌ y) (collect_of f true (x ∷ v6) v4 (omega arith)) ∙ sym (alternate-cons y v4 (x ∷ v6))

alternate-perm {ℓ} : {A : Type ℓ} (xs ys : List A) → Perm (alternate xs ys) (xs ++ ys)
alternate-perm [] ys = Perm.refl ys
alternate-perm (x ∷ xs) [] = subst (Perm (x ∷ xs)) (sym (append-nil (x ∷ xs))) (Perm.refl _)
alternate-perm (x ∷ xs) (y ∷ ys) =
    Perm.cons x (Perm.trans (Perm.cons y (alternate-perm xs ys)) (Perm.symm (perm_middle xs ys)))

length-alternate {ℓ} :
    {A : Type ℓ} (xs ys : List A) → length (alternate xs ys) ≡ length xs + length ys
length-alternate [] ys = omega arith
length-alternate (x ∷ xs) [] = omega arith
length-alternate (x ∷ xs) (y ∷ ys) = omega (arith, length-alternate xs ys)

-- The iterator ends after `len` addresses, which are those of both families: an IPv6 and an IPv4
-- address in turns, IPv6 first, then the rest of the longer list, each family in its own order.
pub collect-new :
    (v6 v4 : List IpAddr) (fuel : ℕ)
    → len (new v6 v4) < fuel
    → (collect fuel (new v6 v4) ≡ alternate v6 v4)
      × (length (collect fuel (new v6 v4)) ≡ len (new v6 v4))
      × Perm (collect fuel (new v6 v4)) (v6 ++ v4)
unfolding new len
collect-new v6 v4 fuel h =
    let order : collect fuel (new v6 v4) ≡ alternate v6 v4 = collect_of fuel true v6 v4 h in
    (
      order,
      rw order (length-alternate v6 v4),
      subst (λ l. Perm l (v6 ++ v4)) (sym order) (alternate-perm v6 v4),
    )

abbrev Counts : InterleavedAddressesIter → Type 0
Counts it =
    ((addr : IpAddr) × ((next it).0 ≡ some addr) × (len it ≡ suc (len (next it).1)))
    ⊎ (((next it).0 ≡ none) × (len it ≡ 0) × (len (next it).1 ≡ 0))

Counts-of :
    (turn : Bool) (v6 v4 : List IpAddr) → Counts (record { ipv6 = v6; ipv4 = v4; ipv6_turn = turn })
unfolding next len
Counts-of true (x ∷ v6) v4 = inl (x, refl, omega arith)
Counts-of true [] (y ∷ v4) = inl (y, refl, omega arith)
Counts-of true [] [] = inr (refl, refl, refl)
Counts-of false v6 (y ∷ v4) = inl (y, refl, omega arith)
Counts-of false (x ∷ v6) [] = inl (x, refl, omega arith)
Counts-of false [] [] = inr (refl, refl, refl)

-- Each address that is yielded lowers `len`, and both bounds of `size_hint`, by one; nothing is
-- yielded exactly when they are 0.
pub len-next :
    (it : InterleavedAddressesIter)
    → (size_hint it ≡ (len it, some (len it)))
      × (((addr : IpAddr) × ((next it).0 ≡ some addr) × (len it ≡ suc (len (next it).1)))
          ⊎ (((next it).0 ≡ none) × (len it ≡ 0) × (len (next it).1 ≡ 0)))
unfolding size_hint len
len-next it = (refl, Counts-of it.ipv6_turn it.ipv6 it.ipv4)
