-- ===== src/HappyEyeballs/Addresses.antt =====
-- `ResolvedAddresses`: the addresses of both families, and their order of preference.
pub mod Masks
pub mod Preference
pub mod Sorting
use zc_splice_proxy.Base.{
  Bool, List, Run, [], false, if◌then◌else◌, leb, length, map, panics, returns, true, ℕ, ◌&&◌, ◌*◌,
  ◌+◌, ◌==◌, ◌>>=◌, ◌||◌, ◌∷◌,
}
use Prim.Native.Nat.{bit_and}
use zc_splice_proxy.Std.Utf8.{Bytes}
use zc_splice_proxy.Std.Net.{IpAddr, ipv4, ipv6}

pub record ResolvedAddresses : Type 0 where
  pub ipv6 : List IpAddr
  pub ipv4 : List IpAddr

unfoldable pub len : ResolvedAddresses → ℕ
len a = length a.ipv4 + length a.ipv6

abbrev is_nil : List IpAddr → Bool
is_nil [] = true
is_nil (x ∷ xs) = false

unfoldable pub is_empty : ResolvedAddresses → Bool
is_empty a = is_nil a.ipv6 && is_nil a.ipv4

-- `addr.segments()[0]`: the first two octets of the sixteen.
abbrev first_segment : Bytes → ℕ
first_segment (hi ∷ lo ∷ rest) = hi * 256 + lo
first_segment _ = 0

unfoldable pub is_unique_local : Bytes → Bool
is_unique_local addr = bit_and (first_segment addr) 0xfe00 == 0xfc00

unfoldable pub is_link_local : Bytes → Bool
is_link_local addr = bit_and (first_segment addr) 0xffc0 == 0xfe80

-- `Ipv6Addr::is_loopback`: the address ::1.
abbrev all_zero_but_last : ℕ → Bytes → Bool
all_zero_but_last last [] = false
all_zero_but_last last (b ∷ []) = b == last
all_zero_but_last last (b ∷ c ∷ bs) = b == 0 && all_zero_but_last last (c ∷ bs)

abbrev is_loopback_v6 : Bytes → Bool
is_loopback_v6 = all_zero_but_last 1

-- `Ipv4Addr::is_loopback`: 127.0.0.0/8. `Ipv4Addr::is_private`: 10/8, 172.16/12 and 192.168/16.
abbrev is_loopback_v4 : Bytes → Bool
is_loopback_v4 [] = false
is_loopback_v4 (a ∷ rest) = a == 127

abbrev is_private_v4 : Bytes → Bool
is_private_v4 (a ∷ b ∷ rest) =
    a == 10 || (a == 172 && leb 16 b && leb b 31) || (a == 192 && b == 168)
is_private_v4 _ = false

-- The keys of the two sorts; `unreachable!` panics.
unfoldable pub ipv6_key : IpAddr → Run ℕ
unfolding is_unique_local is_link_local
ipv6_key (ipv6 a) = returns (
    if is_loopback_v6 a
    then 0
    else if is_unique_local a
    then 1
    else if is_link_local a
    then 2
    else 3)
ipv6_key (ipv4 a) = panics

unfoldable pub ipv4_key : IpAddr → Run ℕ
ipv4_key (ipv4 a) = returns (if is_loopback_v4 a then 0 else if is_private_v4 a then 1 else 2)
ipv4_key (ipv6 a) = panics

-- `slice::sort_by_key`, the stable sort. It reads no key of a list of at most one element.
module _ {ℓ} {A : Type ℓ} where
  unfoldable pub keyed : (A → Run ℕ) → List A → Run (List (ℕ × A))
  keyed key [] = returns []
  keyed key (x ∷ xs) = do k ← key x; rest ← keyed key xs; returns ((k, x) ∷ rest)

  unfoldable pub insert_keyed : ℕ × A → List (ℕ × A) → List (ℕ × A)
  insert_keyed x [] = x ∷ []
  insert_keyed x (y ∷ ys) = if leb x.0 y.0 then x ∷ y ∷ ys else y ∷ insert_keyed x ys

  unfoldable pub sort_keyed : List (ℕ × A) → List (ℕ × A)
  unfolding insert_keyed
  sort_keyed [] = []
  sort_keyed (x ∷ xs) = insert_keyed x (sort_keyed xs)

  unfoldable pub sort_by_key : (A → Run ℕ) → List A → Run (List A)
  sort_by_key key [] = returns []
  sort_by_key key (x ∷ []) = returns (x ∷ [])
  sort_by_key key (x ∷ y ∷ xs) = do
    pairs ← keyed key (x ∷ y ∷ xs)
    returns (map (λ p. p.1) (sort_keyed pairs))

unfoldable pub sort_by_preference : ResolvedAddresses → Run ResolvedAddresses
sort_by_preference a = do
  v6 ← sort_by_key ipv6_key a.ipv6
  v4 ← sort_by_key ipv4_key a.ipv4
  returns (record { ipv6 = v6; ipv4 = v4 })
