-- ===== src/HappyEyeballs/Addresses/Masks.antt =====
-- The masks and the loopback test of noxen-proxy/src/net/happy_eyeballs.rs on numbers of 16 bits and on
-- octets.
use zc_splice_proxy.Base.{
  ℕ, Bool, [], arith, false, inl, inr, leb, ltb, refl, subst, suc, sym, true, zero, ◌&&◌, ◌*◌, ◌+◌,
  ◌/◌, ◌<◌, ◌==◌, ◌∷◌, ◌≡◌, ◌≢◌, ◌⊎◌, Bool-cases, ap, length, ◌∙◌,
}
use Prim.Native.Nat.{bit_and}
use zc_splice_proxy.Std.Utf8.{Bytes}
use zc_splice_proxy.HappyEyeballs.Addresses.{all_zero_but_last}

-- ::1.
abbrev pub loopback : Bytes
loopback = 0 ∷ 0 ∷ 0 ∷ 0 ∷ 0 ∷ 0 ∷ 0 ∷ 0 ∷ 0 ∷ 0 ∷ 0 ∷ 0 ∷ 0 ∷ 0 ∷ 0 ∷ 1 ∷ []

-- A test on every number of `d` binary digits behind those of `start`.
unfoldable all_from : ℕ → ℕ → (ℕ → Bool) → Bool
all_from zero start p = p start
all_from (suc d) start p = all_from d (start * 2) p && all_from d (start * 2 + 1) p

-- A number without its last `d` binary digits.
abbrev shifted : ℕ → ℕ → ℕ
shifted zero n = n
shifted (suc d) n = shifted d n / 2

all_from_lem :
    (d start : ℕ) (p : ℕ → Bool) (n : ℕ)
    → all_from d start p ≡ true
    → shifted d n ≡ start
    → p n ≡ true
unfolding all_from
all_from_lem zero start p n h e = subst (λ m. p m ≡ true) (sym e) h
all_from_lem (suc d) start p n h e = elim (even_or_odd (shifted d n) start e) [
  | inl even ↦ all_from_lem d (start * 2) p n (and-left _ _ h) even
  | inr odd ↦ all_from_lem d (start * 2 + 1) p n (and-right _ _ h) odd
]
  where
    even_or_odd : (m s : ℕ) → m / 2 ≡ s → (m ≡ s * 2) ⊎ (m ≡ s * 2 + 1)
    even_or_odd m s e = ground arith

    and-left : (a b : Bool) → (a && b) ≡ true → a ≡ true
    and-left true b h = refl
    and-left false b h = absurd cc

    and-right : (a b : Bool) → (a && b) ≡ true → b ≡ true
    and-right true b h = h
    and-right false b h = absurd cc

abbrev same : Bool → Bool → Bool
same true b = b
same false true = false
same false false = true

same_lem : (a b : Bool) → same a b ≡ true → a ≡ b
same_lem true b h = sym h
same_lem false false h = refl
same_lem false true h = absurd cc

shifted-u16 : (n : ℕ) → n < 65536 → shifted 16 n ≡ 0
shifted-u16 n h = omega arith

-- The two masks, on 16 bits.
pub unique_local_mask :
    (n : ℕ) → n < 65536 → (bit_and n 0xfe00 == 0xfc00) ≡ (leb 0xfc00 n && ltb n 0xfe00)
unfolding all_from
unique_local_mask n h = same_lem _ _ (
    all_from_lem 16 0 (λ n. same (bit_and n 0xfe00 == 0xfc00) (leb 0xfc00 n && ltb n 0xfe00)) n refl
      (shifted-u16 n h))

pub link_local_mask :
    (n : ℕ) → n < 65536 → (bit_and n 0xffc0 == 0xfe80) ≡ (leb 0xfe80 n && ltb n 0xfec0)
unfolding all_from
link_local_mask n h = same_lem _ _ (
    all_from_lem 16 0 (λ n. same (bit_and n 0xffc0 == 0xfe80) (leb 0xfe80 n && ltb n 0xfec0)) n refl
      (shifted-u16 n h))

-- ::1 among the addresses of as many octets.
abbrev one_of : ℕ → Bytes
one_of zero = []
one_of (suc zero) = 1 ∷ []
one_of (suc (suc n)) = 0 ∷ one_of (suc n)

all_zero_but_last-one_of : (bs : Bytes) → all_zero_but_last 1 bs ≡ true → bs ≡ one_of (length bs)
all_zero_but_last-one_of [] h = absurd cc
all_zero_but_last-one_of (b ∷ []) h = ap (λ x. x ∷ []) (ground (arith, h))
all_zero_but_last-one_of (b ∷ c ∷ bs) h = elim (Bool-cases (b == 0)) [
  | inl is ↦
      let rest = all_zero_but_last-one_of (c ∷ bs) (rw is at h) in
      ap (λ x. x ∷ c ∷ bs) (ground (arith, is)) ∙ ap (◌∷◌ 0) rest
  | inr other ↦ absurd (cc (rw other at h))
]

pub is_loopback : (bs : Bytes) → length bs ≡ 16 → all_zero_but_last 1 bs ≡ true → bs ≡ loopback
is_loopback bs sized h = all_zero_but_last-one_of bs h ∙ ap one_of sized

pub not_loopback : (bs : Bytes) → all_zero_but_last 1 bs ≡ false → bs ≢ loopback
not_loopback bs h e = absurd (cc (subst (λ x. all_zero_but_last 1 x ≡ false) e h))

pub segment_bound : (b c : ℕ) → b < 256 → c < 256 → b * 256 + c < 65536
segment_bound b c hb hc = omega arith
