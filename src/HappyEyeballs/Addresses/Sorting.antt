-- ===== src/HappyEyeballs/Addresses/Sorting.antt =====
-- `sort_by_key` and `sort_by_preference` of noxen-proxy/src/net/happy_eyeballs.rs, by their keys.
use zc_splice_proxy.Base.{
  Bool-cases, List, [], arith, if◌then◌else◌, inl, inr, leb, map, refl, ℕ, ◌==◌, ◌∙◌, ◌∷◌, ◌≡◌, ◌≤◌,
  All, Run, ap, returns, subst,
}
use mathlib.Core.List.{Perm}
use mathlib.Core.List.Perm
use zc_splice_proxy.Std.Net.{IpAddr, ipv4, ipv6}
use zc_splice_proxy.HappyEyeballs.Addresses.{
  ResolvedAddresses, ipv6_key, ipv4_key, keyed, insert_keyed, sort_keyed, sort_by_key,
  sort_by_preference,
}

-- No key falls along the list.
abbrev pub IsAscending : List ℕ → Type 0
IsAscending [] = Unit {0}
IsAscending (k ∷ []) = Unit {0}
IsAscending (k ∷ j ∷ ks) = (k ≤ j) × IsAscending (j ∷ ks)

module _ {ℓ} {A : Type ℓ} where
  abbrev keys : List (ℕ × A) → List ℕ
  keys = map (λ p. p.0)

  -- The elements with a given key, in their order.
  abbrev pub with_key : ℕ → List (ℕ × A) → List (ℕ × A)
  with_key k [] = []
  with_key k (x ∷ xs) = if x.0 == k then x ∷ with_key k xs else with_key k xs

  insert_keyed-perm : (x : ℕ × A) (ys : List (ℕ × A)) → Perm (insert_keyed x ys) (x ∷ ys)
  unfolding insert_keyed
  insert_keyed-perm x [] = Perm.refl _
  insert_keyed-perm x (y ∷ ys) = elim (Bool-cases (leb x.0 y.0)) [
    | inl le ↦ rw le (Perm.refl _)
    | inr gt ↦ rw gt (Perm.trans (Perm.cons y (insert_keyed-perm x ys)) (Perm.swap x y ys))
  ]

  sort_keyed-perm : (xs : List (ℕ × A)) → Perm (sort_keyed xs) xs
  unfolding sort_keyed
  sort_keyed-perm [] = Perm.refl _
  sort_keyed-perm (x ∷ xs) =
      Perm.trans (insert_keyed-perm x (sort_keyed xs)) (Perm.cons x (sort_keyed-perm xs))

  insert_keyed-IsAscending :
      (x : ℕ × A) (ys : List (ℕ × A))
      → IsAscending (keys ys)
      → IsAscending (keys (insert_keyed x ys))
  unfolding insert_keyed
  insert_keyed-IsAscending x [] h = tt
  insert_keyed-IsAscending x (y ∷ []) h = ground arith
  insert_keyed-IsAscending x (y ∷ z ∷ zs) h =
      ground (arith, insert_keyed-IsAscending x (z ∷ zs) h.1)

  sort_keyed-IsAscending : (xs : List (ℕ × A)) → IsAscending (keys (sort_keyed xs))
  unfolding sort_keyed
  sort_keyed-IsAscending [] = tt
  sort_keyed-IsAscending (x ∷ xs) =
      insert_keyed-IsAscending x (sort_keyed xs) (sort_keyed-IsAscending xs)

  insert_keyed-with_key :
      (k : ℕ) (x : ℕ × A) (ys : List (ℕ × A)) → with_key k (insert_keyed x ys) ≡ with_key k (x ∷ ys)
  unfolding insert_keyed
  insert_keyed-with_key k x [] = refl
  insert_keyed-with_key k x (y ∷ ys) = ground (arith, insert_keyed-with_key k x ys)

  sort_keyed-with_key : (k : ℕ) (xs : List (ℕ × A)) → with_key k (sort_keyed xs) ≡ with_key k xs
  unfolding sort_keyed
  sort_keyed-with_key k [] = refl
  sort_keyed-with_key k (x ∷ xs) =
      insert_keyed-with_key k x (sort_keyed xs) ∙ ground (arith, sort_keyed-with_key k xs)

module _ {ℓ} {A : Type ℓ} (P : ℕ × A → Type 0) where
  insert_keyed-All : (x : ℕ × A) (ys : List (ℕ × A)) → P x → All P ys → All P (insert_keyed x ys)
  unfolding insert_keyed
  insert_keyed-All x [] h hs = (h, tt)
  insert_keyed-All x (y ∷ ys) h hs = elim (Bool-cases (leb x.0 y.0)) [
    | inl le ↦ rw le (h, hs)
    | inr gt ↦ rw gt (hs.0, insert_keyed-All x ys h hs.1)
  ]

  sort_keyed-All : (xs : List (ℕ × A)) → All P xs → All P (sort_keyed xs)
  unfolding sort_keyed
  sort_keyed-All [] h = tt
  sort_keyed-All (x ∷ xs) h = insert_keyed-All x (sort_keyed xs) h.0 (sort_keyed-All xs h.1)

-- The sort of a list with its keys, for a key function that may panic.
module _ {ℓ} {A : Type ℓ} (key : A → Run ℕ) where
  abbrev pub HasKey : ℕ × A → Type 0
  HasKey p = key p.1 ≡ returns p.0

  keyed_of_HasKey : (ps : List (ℕ × A)) → All HasKey ps → keyed key (map (λ p. p.1) ps) ≡ returns ps
  unfolding keyed
  keyed_of_HasKey [] h = refl
  keyed_of_HasKey (p ∷ ps) h = rw (h.0, keyed_of_HasKey ps h.1)

  -- `after` is `before` with the elements moved so that no key falls and equal keys keep their order.
  pub record IsSortOf (before after : List A) : Type (1 ⊔ ℓ) where
    pub ranked : List (ℕ × A)
    pub sorted : List (ℕ × A)
    pub of_before : map (λ p. p.1) ranked ≡ before
    pub of_after : map (λ p. p.1) sorted ≡ after
    pub keys_before : All HasKey ranked
    pub kept : (P : ℕ × A → Type 0) → All P ranked → All P sorted
    pub same : Perm after before
    pub ascending : IsAscending (map (λ p. p.0) sorted)
    pub stable : (k : ℕ) → with_key k sorted ≡ with_key k ranked

  abbrev HasSomeKey : A → Type 0
  HasSomeKey x = (k : ℕ) × (key x ≡ returns k)

  -- The list with its keys.
  rank : (xs : List A) → All HasSomeKey xs → List (ℕ × A)
  rank [] h = []
  rank (x ∷ xs) h = (h.0.0, x) ∷ rank xs h.1

  rank-HasKey : (xs : List A) (h : All HasSomeKey xs) → All HasKey (rank xs h)
  unfolding rank
  rank-HasKey [] h = tt
  rank-HasKey (x ∷ xs) h = (h.0.1, rank-HasKey xs h.1)

  map-rank : (xs : List A) (h : All HasSomeKey xs) → map (λ p. p.1) (rank xs h) ≡ xs
  unfolding rank
  map-rank [] h = refl
  map-rank (x ∷ xs) h = ap (◌∷◌ x) (map-rank xs h.1)

  sort_keyed-IsSortOf :
      (xs : List A) (h : All HasSomeKey xs) → IsSortOf xs (map (λ p. p.1) (sort_keyed (rank xs h)))
  sort_keyed-IsSortOf xs h =
      let pairs = rank xs h in
      let has = rank-HasKey xs h in
      record {
        ranked = pairs;
        sorted = sort_keyed pairs;
        of_before = map-rank xs h;
        of_after = refl;
        keys_before = has;
        kept = λ P held. sort_keyed-All P pairs held;
        same = subst (Perm _) (map-rank xs h) (Perm.map (λ p. p.1) (sort_keyed-perm pairs));
        ascending = sort_keyed-IsAscending pairs;
        stable = λ k. sort_keyed-with_key k pairs;
      }

  keyed-rank : (xs : List A) (h : All HasSomeKey xs) → keyed key xs ≡ returns (rank xs h)
  keyed-rank xs h = rw map-rank at (keyed_of_HasKey (rank xs h) (rank-HasKey xs h))

  pub sort_by_key-IsSortOf :
      (xs : List A)
      → All HasSomeKey xs
      → (ys : List A) × (sort_by_key key xs ≡ returns ys) × IsSortOf xs ys
  unfolding sort_by_key sort_keyed-IsSortOf
  sort_by_key-IsSortOf [] h = ([], refl, unfold sort_keyed rank in sort_keyed-IsSortOf [] h)
  sort_by_key-IsSortOf (x ∷ []) h =
      (x ∷ [], refl, unfold sort_keyed rank in sort_keyed-IsSortOf (x ∷ []) h)
  sort_by_key-IsSortOf (x ∷ y ∷ xs) h =
      let sorts = sort_keyed-IsSortOf (x ∷ y ∷ xs) h in
      (map (λ p. p.1) (sort_keyed (rank (x ∷ y ∷ xs) h)), rw (keyed-rank (x ∷ y ∷ xs) h), sorts)

abbrev pub IsIpv6 : IpAddr → Type 0
IsIpv6 (ipv6 a) = Unit {0}
IsIpv6 (ipv4 a) = ⊥

abbrev pub IsIpv4 : IpAddr → Type 0
IsIpv4 (ipv4 a) = Unit {0}
IsIpv4 (ipv6 a) = ⊥

-- Each vector holds addresses of its own family.
pub record IsSplit (a : ResolvedAddresses) : Type 0 where
  pub v6 : All IsIpv6 a.ipv6
  pub v4 : All IsIpv4 a.ipv4

ipv6_keys : (xs : List IpAddr) → All IsIpv6 xs → All (HasSomeKey ipv6_key) xs
unfolding ipv6_key
ipv6_keys [] h = tt
ipv6_keys (ipv6 a ∷ xs) h = ((_, refl), ipv6_keys xs h.1)
ipv6_keys (ipv4 a ∷ xs) h = absurd h.0

ipv4_keys : (xs : List IpAddr) → All IsIpv4 xs → All (HasSomeKey ipv4_key) xs
unfolding ipv4_key
ipv4_keys [] h = tt
ipv4_keys (ipv4 a ∷ xs) h = ((_, refl), ipv4_keys xs h.1)
ipv4_keys (ipv6 a ∷ xs) h = absurd h.0

-- On addresses split by family the sort does not panic, and each family is a rearrangement of
-- itself in ascending order of its keys, in which addresses of one key keep their order.
pub sort_by_preference-IsSortOf :
    (a : ResolvedAddresses)
    → IsSplit a
    → (r : ResolvedAddresses) × (sort_by_preference a ≡ returns r)
      × IsSortOf ipv6_key a.ipv6 r.ipv6
      × IsSortOf ipv4_key a.ipv4 r.ipv4
unfolding sort_by_preference
sort_by_preference-IsSortOf a h =
    let (v6, e6, s6) = sort_by_key-IsSortOf ipv6_key a.ipv6 (ipv6_keys a.ipv6 h.v6) in
    let (v4, e4, s4) = sort_by_key-IsSortOf ipv4_key a.ipv4 (ipv4_keys a.ipv4 h.v4) in
    (record { ipv6 = v6; ipv4 = v4 }, rw (e6, e4), s6, s4)
