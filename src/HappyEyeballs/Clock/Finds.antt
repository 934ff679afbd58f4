-- ===== src/HappyEyeballs/Clock/Finds.antt =====
-- `HappyEyeballsConnector::connect` by the clock, to a host of which an address can be reached.
use zc_splice_proxy.Base.{
  List, Result, [], arith, err, false, inl, inr, length, length-append, ok, ok-injective, ok_ne_err,
  refl, returns, returns-injective, subst, sym, true, ℕ, ◌++◌, ◌+◌, ◌<◌, ◌∙◌, ◌∷◌, ◌≡◌, ◌≤◌,
}
use mathlib.Core.List.{Memᴰ, Mem}
use mathlib.Core.List.Perm
use mathlib.Core.Logic.{∥∥₁_elim}
use zc_splice_proxy.Std.Utf8.{Bytes}
use zc_splice_proxy.Std.Net.{IpAddr, ipv4, ipv6}
use zc_splice_proxy.HappyEyeballs.Config.{HappyEyeballsConfig, HappyEyeballsError}
use zc_splice_proxy.HappyEyeballs.Addresses
use zc_splice_proxy.HappyEyeballs.Addresses.{ResolvedAddresses, is_empty}
use zc_splice_proxy.HappyEyeballs.Addresses.Sorting.{IsSplit}
use zc_splice_proxy.HappyEyeballs.Resolve.{
  Dns, found, resolve_with_delay, resolve_with_delay-IsSplit,
}
use zc_splice_proxy.HappyEyeballs.Race.{Event}
use zc_splice_proxy.HappyEyeballs.Race.Timed.{Answer}
use zc_splice_proxy.HappyEyeballs.Race.Reaches.{Connects, Course-Connects}
use zc_splice_proxy.HappyEyeballs.Connect.{order, order-IsOrderOf, empty_or_not}
use zc_splice_proxy.HappyEyeballs.Clock.{
  TimedLookup, Resolves, one_by_one, ipv4_late, together, one_late, Connecting, none_found, races,
}

abbrev both_found : TimedLookup → TimedLookup → ResolvedAddresses
both_found v6 v4 = record { ipv6 = found ipv6 v6.result; ipv4 = found ipv4 v4.result }

-- Lookups that are in time are not lost.
resolve_with_delay-both_found :
    (config : HappyEyeballsConfig) (v6 v4 : TimedLookup) {dns : Dns} {time : ℕ}
    → v6.after ≤ config.resolution_delay + config.first_address_family_timeout
    → v4.after ≤ config.first_address_family_timeout
    → Resolves config v6 v4 dns time
    → resolve_with_delay dns ≡ ok (both_found v6 v4)
unfolding resolve_with_delay
resolve_with_delay-both_found config v6 v4 soon6 soon4 (one_by_one early soon) = refl
resolve_with_delay-both_found config v6 v4 soon6 soon4 (ipv4_late early late) =
    absurd (omega (arith, soon4, late))
resolve_with_delay-both_found config v6 v4 soon6 soon4 (together pending s6 s4) = refl
resolve_with_delay-both_found config v6 v4 soon6 soon4 (one_late pending (inl late)) =
    absurd (omega (arith, soon6, late))
resolve_with_delay-both_found config v6 v4 soon6 soon4 (one_late pending (inr late)) =
    absurd (omega (arith, soon4, late))

some_member {ℓ} : {A : Type ℓ} (a : A) (xs : List A) → Memᴰ a xs → 0 < length xs
some_member a [] m = elim m [ ]
some_member a (x ∷ xs) m = omega arith

true_ne_false : true ≡ false → ⊥
true_ne_false h = cc

module _ {Stream : Type 0} (config : HappyEyeballsConfig) (v6 v4 : TimedLookup)
    (network : IpAddr → ℕ → Answer Stream) (hostname : Bytes) (port : ℕ) where
  -- An address that the lookups find.
  abbrev pub Finds : IpAddr → Type 0
  Finds addr = Memᴰ addr (found ipv6 v6.result ++ found ipv4 v4.result)

  not_empty : (addr : IpAddr) → Finds addr → is_empty (both_found v6 v4) ≡ true → ⊥
  unfolding Addresses.len
  not_empty addr m e = elim (empty_or_not (found ipv6 v6.result) (found ipv4 v4.result)) [
    | inl (empty, none_left) ↦ omega (
      arith,
      none_left,
      some_member addr _ m,
      length-append (found ipv6 v6.result) (found ipv4 v4.result),
    )
    | inr (more, some_left) ↦ true_ne_false (sym e ∙ more)
  ]

  -- Every address that was found is tried.
  tries :
      (addrs : ResolvedAddresses) (tried : List IpAddr) (addr : IpAddr)
      → addrs ≡ both_found v6 v4
      → order addrs ≡ returns tried
      → IsSplit addrs
      → Finds addr
      → Mem addr tried
  tries addrs tried addr same ordered split m =
      let (tried', ordered', in_order) = order-IsOrderOf addrs split in
      subst (Mem addr) (returns-injective (sym ordered' ∙ ordered)) (
        (Perm.mem_iff in_order.same).1
          (subst (λ (a : ResolvedAddresses). Mem addr (a.ipv6 ++ a.ipv4)) (sym same) ∣ m ∣₁))

  not_failed :
      (r : Result Stream HappyEyeballsError)
      → ((e : HappyEyeballsError) → r ≡ err e → ⊥)
      → (x : Stream) × (r ≡ ok x)
  not_failed (ok x) h = (x, refl)
  not_failed (err e) h = absurd (h e refl)

  -- If both lookups are in time and a connection to one of the addresses that they find is made within
  -- the timeout, then `connect` by the clock gives a connection, whatever the other addresses do.
  pub Connecting-Connects :
      (events : List (Event Stream)) (time : ℕ) (r : Result Stream HappyEyeballsError)
      (addr : IpAddr)
      → v6.after ≤ config.resolution_delay + config.first_address_family_timeout
      → v4.after ≤ config.first_address_family_timeout
      → Finds addr
      → Connects network config.connect_timeout addr port
      → Connecting config v6 v4 network hostname port events time r
      → (x : Stream) × (r ≡ ok x)
  Connecting-Connects events time r addr soon6 soon4 m c h = go h
    where
      same :
          {dns : Dns} {t : ℕ} (addrs : ResolvedAddresses)
          → Resolves config v6 v4 dns t
          → resolve_with_delay dns ≡ ok addrs
          → addrs ≡ both_found v6 v4
      same addrs resolves found_some =
          ok-injective {E = HappyEyeballsError}
            (sym found_some ∙ resolve_with_delay-both_found config v6 v4 soon6 soon4 resolves)

      go :
          {events : List (Event Stream)} {time : ℕ} {r : Result Stream HappyEyeballsError}
          → Connecting config v6 v4 network hostname port events time r
          → (x : Stream) × (r ≡ ok x)
      go (none_found dns addrs t resolves found_some empty) =
          absurd (
            not_empty addr m
              (subst (λ a. is_empty a ≡ true) (same addrs resolves found_some) empty))
      go (races dns addrs t first rest events race_time r resolves found_some more ordered course) =
          let (addrs', found', split) = resolve_with_delay-IsSplit dns in
          let splits : IsSplit addrs =
            subst IsSplit (ok-injective {E = HappyEyeballsError} (sym found' ∙ found_some)) split in
          not_failed r (λ e failed.
            ∥∥₁_elim
              (tries addrs (first ∷ rest) addr (same addrs resolves found_some) ordered splits m)
              (hlevel)
              (λ d.
                let (x, won) =
                  Course-Connects network config.connect_timeout config.connection_attempt_delay
                    first rest port addr events race_time r d c course in
                ok_ne_err {A = Stream} (sym failed ∙ won)))
