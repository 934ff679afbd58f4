-- ===== src/HappyEyeballs/Addresses/Preference.antt =====
-- The preferences that `sort_by_preference` of noxen-proxy/src/net/happy_eyeballs.rs sorts by, in terms
-- of the octets of an address.
use zc_splice_proxy.HappyEyeballs.Addresses.Masks.{
  loopback, unique_local_mask, link_local_mask, is_loopback, not_loopback, segment_bound,
}
use zc_splice_proxy.Base.{
  ℕ, [], arith, inl, inr, leb, ltb, refl, subst, sym, ◌&&◌, ◌*◌, ◌+◌, ◌<◌, ◌==◌, ◌∷◌, ◌≡◌, ◌≢◌, ◌≤◌,
  ◌⊎◌, Bool-cases, if◌then◌else◌, All, List, Run, map, not, returns, returns-injective,
}
use mathlib.Core.List.{Perm}
use zc_splice_proxy.Std.Utf8.{Bytes}
use zc_splice_proxy.Std.Net.{IpAddr, ipv4, ipv6, IsOctets}
use zc_splice_proxy.HappyEyeballs.Addresses.{
  ResolvedAddresses, ipv6_key, ipv4_key, is_unique_local, is_link_local, all_zero_but_last,
  is_private_v4, sort_by_preference,
}
use zc_splice_proxy.HappyEyeballs.Addresses.Sorting.{
  HasKey, IsAscending, with_key, IsSortOf, IsIpv6, IsIpv4, sort_by_preference-IsSortOf,
}

-- The lower, the better. IPv6: ::1, then fc00::/7, then fe80::/10, then the rest. IPv4: 127/8, then
-- 10/8, 172.16/12 and 192.168/16, then the rest.
pub data Preference : IpAddr → ℕ → Type 0 where
  loopback_v6 : Preference (ipv6 loopback) 0
  unique_local : (b : ℕ) (rest : Bytes) → 0xfc ≤ b → b ≤ 0xfd → Preference (ipv6 (b ∷ rest)) 1
  link_local : (c : ℕ) (rest : Bytes) → 0x80 ≤ c → c ≤ 0xbf → Preference (ipv6 (0xfe ∷ c ∷ rest)) 2
  other_v6 :
      (b c : ℕ) (rest : Bytes)
      → (b ∷ c ∷ rest) ≢ loopback
      → (b < 0xfc) ⊎ (0xfd < b)
      → (b ≢ 0xfe) ⊎ ((c < 0x80) ⊎ (0xbf < c))
      → Preference (ipv6 (b ∷ c ∷ rest)) 3
  loopback_v4 : (rest : Bytes) → Preference (ipv4 (127 ∷ rest)) 0
  ten : (rest : Bytes) → Preference (ipv4 (10 ∷ rest)) 1
  sixteen : (b : ℕ) (rest : Bytes) → 16 ≤ b → b ≤ 31 → Preference (ipv4 (172 ∷ b ∷ rest)) 1
  home : (rest : Bytes) → Preference (ipv4 (192 ∷ 168 ∷ rest)) 1
  other_v4 :
      (a b : ℕ) (rest : Bytes)
      → a ≢ 127
      → a ≢ 10
      → (a ≢ 172) ⊎ ((b < 16) ⊎ (31 < b))
      → (a ≢ 192) ⊎ (b ≢ 168)
      → Preference (ipv4 (a ∷ b ∷ rest)) 2

-- The key of an IPv6 address that is not ::1, by its first two octets.
ranked_v6 :
    (b c : ℕ) (rest : Bytes)
    → b < 256
    → c < 256
    → (b ∷ c ∷ rest) ≢ loopback
    → Preference (ipv6 (b ∷ c ∷ rest)) (
        if is_unique_local (b ∷ c ∷ rest) then 1 else if is_link_local (b ∷ c ∷ rest) then 2 else 3)
unfolding is_unique_local is_link_local
ranked_v6 b c rest hb hc other =
    rw
      (
        unique_local_mask (b * 256 + c) (segment_bound b c hb hc),
        link_local_mask (b * 256 + c) (segment_bound b c hb hc),
      )
      (by_range (b * 256 + c) refl)
  where
    by_range :
        (n : ℕ)
        → n ≡ b * 256 + c
        → Preference (ipv6 (b ∷ c ∷ rest)) (
            if leb 0xfc00 n && ltb n 0xfe00
            then 1
            else if leb 0xfe80 n && ltb n 0xfec0
            then 2
            else 3)
    by_range n e = elim (Bool-cases (leb 0xfc00 n && ltb n 0xfe00)) [
      | inl unique ↦
          rw unique
            (unique_local b (c ∷ rest) (ground (arith, unique, e)) (ground (arith, unique, e)))
      | inr not_unique ↦ elim (Bool-cases (leb 0xfe80 n && ltb n 0xfec0)) [
        | inl linked ↦
            rw (not_unique, linked)
              (subst (λ x. Preference (ipv6 (x ∷ c ∷ rest)) 2) (ground (arith, linked, e))
                (link_local c rest (ground (arith, linked, e)) (ground (arith, linked, e))))
        | inr not_linked ↦
            rw (not_unique, not_linked)
              (other_v6 b c rest other (ground (arith, not_unique, e))
                (ground (arith, not_linked, e)))
      ]
    ]

ipv6_key-Preference :
    (a : Bytes) (k : ℕ) → IsOctets 16 a → ipv6_key (ipv6 a) ≡ returns k → Preference (ipv6 a) k
unfolding ipv6_key
ipv6_key-Preference [] k o e = absurd (cc o.sized)
ipv6_key-Preference (b ∷ []) k o e = absurd (omega (arith, o.sized))
ipv6_key-Preference (b ∷ c ∷ rest) k o e = elim (Bool-cases (all_zero_but_last 1 (b ∷ c ∷ rest))) [
  | inl is ↦
      subst (Preference _) (returns-injective (rw is at e))
        (subst (λ a. Preference (ipv6 a) 0) (sym (is_loopback _ o.sized is)) loopback_v6)
  | inr other ↦
      subst (Preference _) (returns-injective (rw other at e))
        (ranked_v6 b c rest o.bounded.0 o.bounded.1.0 (not_loopback _ other))
]

-- The key of an IPv4 address that is not of 127/8.
ranked_v4 :
    (a b : ℕ) (rest : Bytes)
    → a ≢ 127
    → Preference (ipv4 (a ∷ b ∷ rest)) (if is_private_v4 (a ∷ b ∷ rest) then 1 else 2)
ranked_v4 a b rest other = elim (Bool-cases (a == 10)) [
  | inl is_ten ↦
      rw is_ten
        (subst (λ x. Preference (ipv4 (x ∷ b ∷ rest)) 1) (ground (arith, is_ten)) (ten (b ∷ rest)))
  | inr not_ten ↦ elim (Bool-cases (a == 172 && leb 16 b && leb b 31)) [
    | inl is ↦
        rw (not_ten, is)
          (subst (λ x. Preference (ipv4 (x ∷ b ∷ rest)) 1) (ground (arith, is))
            (sixteen b rest (ground (arith, is)) (ground (arith, is))))
    | inr not ↦ elim (Bool-cases (a == 192 && b == 168)) [
      | inl is ↦
          rw (not_ten, not, is)
            (subst (λ x. Preference (ipv4 (x ∷ b ∷ rest)) 1) (ground (arith, is))
              (subst (λ y. Preference (ipv4 (192 ∷ y ∷ rest)) 1) (ground (arith, is)) (home rest)))
      | inr away ↦
          rw (not_ten, not, away)
            (other_v4 a b rest other (ground (arith, not_ten)) (ground (arith, not))
              (ground (arith, away)))
    ]
  ]
]

ipv4_key-Preference :
    (a : Bytes) (k : ℕ) → IsOctets 4 a → ipv4_key (ipv4 a) ≡ returns k → Preference (ipv4 a) k
unfolding ipv4_key
ipv4_key-Preference [] k o e = absurd (cc o.sized)
ipv4_key-Preference (a ∷ []) k o e = absurd (omega (arith, o.sized))
ipv4_key-Preference (a ∷ b ∷ rest) k o e = elim (Bool-cases (a == 127)) [
  | inl is ↦ subst (Preference _) (returns-injective (rw is at e)) (
      subst (λ x. Preference (ipv4 (x ∷ b ∷ rest)) 0) (ground (arith, is)) (loopback_v4 (b ∷ rest)))
  | inr other ↦
      subst (Preference _) (returns-injective (rw other at e))
        (ranked_v4 a b rest (ground (arith, other)))
]

-- `after` is `before` with the addresses moved so that the preference never gets worse along it and
-- addresses of one preference keep their order.
pub record IsPreferred (before after : List IpAddr) : Type 0 where
  pub ranked : List (ℕ × IpAddr)
  pub sorted : List (ℕ × IpAddr)
  pub of_before : map (λ p. p.1) ranked ≡ before
  pub of_after : map (λ p. p.1) sorted ≡ after
  pub ranks_before : All (λ p. Preference p.1 p.0) ranked
  pub ranks_after : All (λ p. Preference p.1 p.0) sorted
  pub same : Perm after before
  pub ascending : IsAscending (map (λ p. p.0) sorted)
  pub stable : (k : ℕ) → with_key k sorted ≡ with_key k ranked

-- Sixteen octets, or four.
abbrev pub IsOf6 : IpAddr → Type 0
IsOf6 (ipv6 a) = IsOctets 16 a
IsOf6 (ipv4 a) = ⊥

abbrev pub IsOf4 : IpAddr → Type 0
IsOf4 (ipv4 a) = IsOctets 4 a
IsOf4 (ipv6 a) = ⊥

module _ (key : IpAddr → Run ℕ) (Fits : IpAddr → Type 0)
    (ranks : (a : IpAddr) (k : ℕ) → Fits a → key a ≡ returns k → Preference a k) where
  ranked_All :
      (ps : List (ℕ × IpAddr))
      → All (HasKey key) ps
      → All Fits (map (λ p. p.1) ps)
      → All (λ p. Preference p.1 p.0) ps
  ranked_All [] h fits = tt
  ranked_All (p ∷ ps) h fits = (ranks p.1 p.0 fits.0 h.0, ranked_All ps h.1 fits.1)

  IsSortOf-IsPreferred :
      (before after : List IpAddr)
      → All Fits before
      → IsSortOf key before after
      → IsPreferred before after
  IsSortOf-IsPreferred before after fits h =
      let ranks_all = ranked_All h.ranked h.keys_before (subst (All Fits) (sym h.of_before) fits) in
      record {
        ranked = h.ranked;
        sorted = h.sorted;
        of_before = h.of_before;
        of_after = h.of_after;
        ranks_before = ranks_all;
        ranks_after = h.kept (λ p. Preference p.1 p.0) ranks_all;
        same = h.same;
        ascending = h.ascending;
        stable = h.stable;
      }

ranks_v6 : (a : IpAddr) (k : ℕ) → IsOf6 a → ipv6_key a ≡ returns k → Preference a k
ranks_v6 (ipv6 a) k o e = ipv6_key-Preference a k o e
ranks_v6 (ipv4 a) k o e = absurd o

ranks_v4 : (a : IpAddr) (k : ℕ) → IsOf4 a → ipv4_key a ≡ returns k → Preference a k
ranks_v4 (ipv4 a) k o e = ipv4_key-Preference a k o e
ranks_v4 (ipv6 a) k o e = absurd o

is_v6 : (xs : List IpAddr) → All IsOf6 xs → All IsIpv6 xs
is_v6 [] h = tt
is_v6 (ipv6 a ∷ xs) h = (tt, is_v6 xs h.1)
is_v6 (ipv4 a ∷ xs) h = absurd h.0

is_v4 : (xs : List IpAddr) → All IsOf4 xs → All IsIpv4 xs
is_v4 [] h = tt
is_v4 (ipv4 a ∷ xs) h = (tt, is_v4 xs h.1)
is_v4 (ipv6 a ∷ xs) h = absurd h.0

-- On IPv6 addresses of sixteen octets and IPv4 addresses of four, each in its vector, the sort does
-- not panic, and each family is rearranged so that ::1 comes before fc00::/7, that before fe80::/10
-- and that before other IPv6 addresses, and 127/8 before 10/8, 172.16/12 and 192.168/16 and these
-- before other IPv4 addresses; addresses of one preference keep their order.
pub sort_by_preference-IsPreferred :
    (a : ResolvedAddresses)
    → All IsOf6 a.ipv6
    → All IsOf4 a.ipv4
    → (r : ResolvedAddresses) × (sort_by_preference a ≡ returns r)
      × IsPreferred a.ipv6 r.ipv6
      × IsPreferred a.ipv4 r.ipv4
sort_by_preference-IsPreferred a six four =
    let (r, sorts, s6, s4) =
      sort_by_preference-IsSortOf a (record { v6 = is_v6 a.ipv6 six; v4 = is_v4 a.ipv4 four }) in
    (
      r,
      sorts,
      IsSortOf-IsPreferred ipv6_key IsOf6 ranks_v6 a.ipv6 r.ipv6 six s6,
      IsSortOf-IsPreferred ipv4_key IsOf4 ranks_v4 a.ipv4 r.ipv4 four s4,
    )
