-- ===== src/HappyEyeballs/Connect.antt =====
-- `HappyEyeballsConnector::connect`.
use zc_splice_proxy.Base.{
  arith, List, Run, err, if◌then◌else◌, ok, returns, suc, ℕ, ◌>>=◌, ◌<◌, ◌≡◌, ◌⊎◌, [], false, inl,
  inr, refl, true, ◌∷◌, length, length-Perm, subst, ◌++◌,
}
use zc_splice_proxy.Std.Utf8.{Bytes}
use zc_splice_proxy.Std.Net.{IpAddr}
use zc_splice_proxy.HappyEyeballs.Config.{no_addresses_resolved}
use zc_splice_proxy.HappyEyeballs.Addresses.{ResolvedAddresses, is_empty, sort_by_preference}
use zc_splice_proxy.HappyEyeballs.Addresses
use mathlib.Core.List.{Perm}
use mathlib.Core.List.Perm
use zc_splice_proxy.HappyEyeballs.Addresses.Sorting.{IsSplit, sort_by_preference-IsSortOf}
use zc_splice_proxy.HappyEyeballs.Interleave.{interleave, collect, new}
use zc_splice_proxy.HappyEyeballs.Interleave
use zc_splice_proxy.HappyEyeballs.Interleave.Order.{collect-new}
use zc_splice_proxy.HappyEyeballs.Resolve.{Dns, resolve_with_delay, resolve_with_delay-IsSplit}
use zc_splice_proxy.HappyEyeballs.Race.{Event, Outcome, returned, connect_to_addresses}
use zc_splice_proxy.HappyEyeballs.Race.Accounts.{Accounts, connect_to_addresses-Accounts}

pub empty_or_not :
    (v6 v4 : List IpAddr)
    → let addrs : ResolvedAddresses = record { ipv6 = v6; ipv4 = v4 } in
      ((is_empty addrs ≡ true) × (Addresses.len addrs ≡ 0))
      ⊎ ((is_empty addrs ≡ false) × (0 < Addresses.len addrs))
unfolding is_empty Addresses.len
empty_or_not [] [] = inl (refl, refl)
empty_or_not (x ∷ v6) v4 = inr (refl, omega arith)
empty_or_not [] (x ∷ v4) = inr (refl, omega arith)

-- The addresses in the order in which they are tried.
unfoldable pub order : ResolvedAddresses → Run (List IpAddr)
order addrs = do
  sorted ← sort_by_preference addrs
  let interleaved = interleave sorted
  returns (collect (suc (Interleave.len interleaved)) interleaved)

-- The order is one of the same addresses.
pub record IsOrderOf (addrs : ResolvedAddresses) (tried : List IpAddr) : Type 0 where
  pub sized : length tried ≡ Addresses.len addrs
  pub same : Perm tried (addrs.ipv6 ++ addrs.ipv4)

pub order-IsOrderOf :
    (addrs : ResolvedAddresses)
    → IsSplit addrs
    → (tried : List IpAddr) × (order addrs ≡ returns tried) × IsOrderOf addrs tried
unfolding order interleave new Addresses.len Interleave.len
order-IsOrderOf addrs split =
    let (sorted, sorts, v6, v4) = sort_by_preference-IsSortOf addrs split in
    let it = new sorted.ipv6 sorted.ipv4 in
    let (turns, count, perm) =
      collect-new sorted.ipv6 sorted.ipv4 (suc (Interleave.len it)) (omega arith) in
    (
      collect (suc (Interleave.len it)) it,
      rw sorts refl,
      record {
        sized = omega (arith, count, length-Perm v6.same, length-Perm v4.same);
        same = Perm.trans perm (Perm.append v6.same v4.same);
      },
    )

module _ {Stream : Type 0} where
  unfoldable pub connect : Dns → Bytes → ℕ → List (Event Stream) → Run (Outcome Stream)
  connect dns hostname port events = elim (resolve_with_delay dns) [
    | err e ↦ returns (returned (err e))
    | ok addrs ↦
        let race : Run (Outcome Stream) = (do
          interleaved ← order addrs
          returns (connect_to_addresses interleaved port events)) in
        if is_empty addrs then returns (returned (err (no_addresses_resolved hostname))) else race
  ]

  -- What `connect` promises, by the addresses that were resolved.
  abbrev pub Promises : Bytes → ResolvedAddresses → Outcome Stream → Type 0
  Promises hostname addrs o =
      ((Addresses.len addrs ≡ 0) × (o ≡ returned (err (no_addresses_resolved hostname))))
      ⊎ ((0 < Addresses.len addrs) × Accounts (Addresses.len addrs) o)

  -- A host without addresses gives `NoAddressesResolved`. Otherwise the sort does not panic, and the
  -- race is over exactly as many addresses as were resolved: a failure holds one error for each.
  pub connect-Promises :
      (dns : Dns) (hostname : Bytes) (port : ℕ) (events : List (Event Stream))
      → (addrs : ResolvedAddresses) × (resolve_with_delay dns ≡ ok addrs)
        × (o : Outcome Stream) × (connect dns hostname port events ≡ returns o)
        × Promises hostname addrs o
  unfolding connect is_empty Addresses.len
  connect-Promises dns hostname port events =
      let (addrs, resolved, split) = resolve_with_delay-IsSplit dns in
      let (tried, ordered, in_order) = order-IsOrderOf addrs split in
      elim (empty_or_not addrs.ipv6 addrs.ipv4) [
        | inl (empty, none_found) ↦
            (addrs, resolved, _, rw (connect, resolved, empty) refl, inl (none_found, refl))
        | inr (more, some_found) ↦ (
          addrs,
          resolved,
          connect_to_addresses tried port events,
          rw (connect, resolved, more, ordered) refl,
          inr (
            some_found,
            subst (λ n. Accounts n (connect_to_addresses {Stream = Stream} tried port events))
                in_order.sized (connect_to_addresses-Accounts tried port events),
          ),
        )
      ]
