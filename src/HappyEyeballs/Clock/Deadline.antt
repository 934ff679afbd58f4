-- ===== src/HappyEyeballs/Clock/Deadline.antt =====
-- `HappyEyeballsConnector::connect` by the clock: its courses and the time that they take.
use zc_splice_proxy.Base.{
  arith, inl, inr, le-or-lt, length, ℕ, ◌+◌, ◌≤◌, List, Result, err, ok, ok-injective, refl,
  returns, subst, suc, ◌*◌, ◌≡◌, List-cases, ap, length-map, returns-injective, sym, ◌∙◌, ◌∷◌,
}
use native.Mathlib.Nat.{mul-le-mul_right}
use zc_splice_proxy.Std.Utf8.{Bytes}
use zc_splice_proxy.Std.Net.{IpAddr, ipv4, ipv6}
use zc_splice_proxy.HappyEyeballs.Config.{HappyEyeballsConfig, HappyEyeballsError}
use zc_splice_proxy.HappyEyeballs.Addresses
use zc_splice_proxy.HappyEyeballs.Addresses.{ResolvedAddresses}
use zc_splice_proxy.HappyEyeballs.Addresses.Sorting.{IsSplit}
use zc_splice_proxy.HappyEyeballs.Resolve.{
  Lookup, Dns, found, resolve_with_delay, resolve_with_delay-IsSplit,
}
use zc_splice_proxy.HappyEyeballs.Race.{Event, returned}
use zc_splice_proxy.HappyEyeballs.Race.Timed.{Answer}
use zc_splice_proxy.HappyEyeballs.Race.Schedule.{Course-run}
use zc_splice_proxy.HappyEyeballs.Race.Deadline.{Course-bound}
use zc_splice_proxy.HappyEyeballs.Race.Progress.{Course-exists}
use zc_splice_proxy.HappyEyeballs.Connect.{order-IsOrderOf, connect, empty_or_not}
use zc_splice_proxy.HappyEyeballs.Clock.{
  TimedLookup, Resolves, one_by_one, ipv4_late, together, one_late, Connecting, none_found, races,
}

-- The addresses that a lookup finds.
abbrev pub count : Lookup → ℕ
count (ok ips) = length ips
count (err e) = 0

length-found :
    (family : Bytes → IpAddr) (lookup : Lookup) → length (found family lookup) ≡ count lookup
length-found family (ok ips) = length-map family ips
length-found family (err e) = refl

-- Resolution takes no longer than its delay and its timeout.
Resolves-bound :
    (config : HappyEyeballsConfig) (v6 v4 : TimedLookup) {dns : Dns} {time : ℕ}
    → Resolves config v6 v4 dns time
    → time ≤ config.resolution_delay + config.first_address_family_timeout
Resolves-bound config v6 v4 (one_by_one early soon) = omega (arith, early, soon)
Resolves-bound config v6 v4 (ipv4_late early late) = omega (arith, early)
Resolves-bound config v6 v4 (together pending soon6 soon4) = ground (arith, soon6, soon4)
Resolves-bound config v6 v4 (one_late pending late) = omega arith

Resolves-exists :
    (config : HappyEyeballsConfig) (v6 v4 : TimedLookup)
    → (dns : Dns) × (time : ℕ) × Resolves config v6 v4 dns time
Resolves-exists config v6 v4 = elim (le-or-lt v6.after config.resolution_delay) [
  | inl early ↦ elim (le-or-lt v4.after config.first_address_family_timeout) [
    | inl soon ↦ (_, _, one_by_one early soon)
    | inr late ↦ (_, _, ipv4_late early late)
  ]
  | inr pending ↦ elim (le-or-lt v4.after config.first_address_family_timeout) [
    | inr late ↦ (_, _, one_late (omega (arith, pending)) (inr late))
    | inl soon ↦
        elim (le-or-lt v6.after (config.resolution_delay + config.first_address_family_timeout)) [
          | inl soon6 ↦ (_, _, together (omega (arith, pending)) soon6 soon)
          | inr late ↦ (_, _, one_late (omega (arith, pending)) (inl late))
        ]
  ]
]

-- What is resolved is no more than what the lookups find.
len-bound :
    (config : HappyEyeballsConfig) (v6 v4 : TimedLookup) {dns : Dns} {time : ℕ}
    (addrs : ResolvedAddresses)
    → Resolves config v6 v4 dns time
    → resolve_with_delay dns ≡ ok addrs
    → Addresses.len addrs ≤ count v6.result + count v4.result
unfolding resolve_with_delay Addresses.len
len-bound config v6 v4 addrs (one_by_one early soon) e =
    subst (λ a. Addresses.len a ≤ count v6.result + count v4.result)
      (ok-injective {E = HappyEyeballsError} e)
      (omega (arith, length-found ipv6 v6.result, length-found ipv4 v4.result))
len-bound config v6 v4 addrs (ipv4_late early late) e =
    subst (λ a. Addresses.len a ≤ count v6.result + count v4.result)
      (ok-injective {E = HappyEyeballsError} e) (omega (arith, length-found ipv6 v6.result))
len-bound config v6 v4 addrs (together pending soon6 soon4) e =
    subst (λ a. Addresses.len a ≤ count v6.result + count v4.result)
      (ok-injective {E = HappyEyeballsError} e)
      (omega (arith, length-found ipv6 v6.result, length-found ipv4 v4.result))
len-bound config v6 v4 addrs (one_late pending late) e =
    subst (λ a. Addresses.len a ≤ count v6.result + count v4.result)
      (ok-injective {E = HappyEyeballsError} e) (omega arith)

more_attempts :
    (rest n delay timeout time : ℕ)
    → suc rest ≤ n
    → time ≤ (rest + rest) * delay + timeout
    → time ≤ (n + n) * delay + timeout
more_attempts rest n delay timeout time h k =
    omega (arith, k, mul-le-mul_right delay (below rest n h))
  where
    below : (rest n : ℕ) → suc rest ≤ n → rest + rest ≤ n + n
    below rest n h = omega (arith, h)

module _ {Stream : Type 0} (config : HappyEyeballsConfig) (v6 v4 : TimedLookup)
    (network : IpAddr → ℕ → Answer Stream) (hostname : Bytes) (port : ℕ) where
  -- The deadline of `connect`: for the lookups, for the start of an attempt at each address that they
  -- find, and for the last attempt.
  abbrev pub deadline : ℕ
  deadline =
      config.resolution_delay
      + config.first_address_family_timeout
      + (count v6.result + count v4.result + (count v6.result + count v4.result))
        * config.connection_attempt_delay
      + config.connect_timeout

  runs :
      {events : List (Event Stream)} {time : ℕ} {r : Result Stream HappyEyeballsError}
      → Connecting config v6 v4 network hostname port events time r
      → (dns : Dns) × (connect dns hostname port events ≡ returns (returned r))
  unfolding connect
  runs (none_found dns addrs time resolves found_some empty) =
      (dns, rw (connect, found_some, empty) refl)
  runs (races dns addrs t addr rest events race_time r resolves found_some more ordered course) =
      let result =
        (Course-run network config.connect_timeout config.connection_attempt_delay addr rest port
          events race_time r course).1 in
      (dns, rw (connect, found_some, more, ordered, result) refl)

  in_time :
      {events : List (Event Stream)} {time : ℕ} {r : Result Stream HappyEyeballsError}
      → Connecting config v6 v4 network hostname port events time r
      → time ≤ deadline
  in_time (none_found dns addrs time resolves found_some empty) =
      omega (arith, Resolves-bound config v6 v4 resolves)
  in_time (races dns addrs t addr rest events race_time r resolves found_some more ordered course) =
      let (split_addrs, same, split) = resolve_with_delay-IsSplit dns in
      let (tried, ordered', in_order) =
        order-IsOrderOf addrs
          (subst IsSplit (ok-injective {E = HappyEyeballsError} (sym same ∙ found_some)) split) in
      let tries : addr ∷ rest ≡ tried = returns-injective (sym ordered ∙ ordered') in
      let few : suc (length rest) ≤ count v6.result + count v4.result = omega (
        arith,
        ap length tries,
        in_order.sized,
        len-bound config v6 v4 addrs resolves found_some,
      ) in
      omega (
        arith,
        Resolves-bound config v6 v4 resolves,
        more_attempts (length rest) (count v6.result + count v4.result)
            config.connection_attempt_delay config.connect_timeout race_time few
            (Course-bound network config.connect_timeout config.connection_attempt_delay addr rest
              port events race_time r course),
      )

  -- Whatever the resolver and the network do, `connect` by the clock returns what `connect` does on
  -- some answers of the resolver and on its events, and returns by the deadline.
  pub Connecting-connect :
      (events : List (Event Stream)) (time : ℕ) (r : Result Stream HappyEyeballsError)
      → Connecting config v6 v4 network hostname port events time r
      → ((dns : Dns) × (connect dns hostname port events ≡ returns (returned r)))
        × (time ≤ deadline)
  Connecting-connect events time r h = (runs h, in_time h)

  -- There is always a way for `connect` to go until it returns.
  pub Connecting-exists :
      (events : List (Event Stream)) × (time : ℕ) × (r : Result Stream HappyEyeballsError)
      × Connecting config v6 v4 network hostname port events time r
  unfolding Addresses.len
  Connecting-exists =
      let (dns, t, resolves) = Resolves-exists config v6 v4 in
      let (addrs, found_some, split) = resolve_with_delay-IsSplit dns in
      let (tried, ordered, in_order) = order-IsOrderOf addrs split in
      elim (empty_or_not addrs.ipv6 addrs.ipv4) [
        | inl (empty, none_left) ↦ (_, _, _, none_found dns addrs t resolves found_some empty)
        | inr (more, some_left) ↦ elim (List-cases tried) [
          | inl none_tried ↦ absurd (omega (arith, ap length none_tried, in_order.sized, some_left))
          | inr (addr, rest, some_tried) ↦
              let (events, time, r, course) =
                Course-exists network config.connect_timeout config.connection_attempt_delay addr
                  rest port in
              (
                _,
                _,
                _,
                races dns addrs t addr rest events time r resolves found_some more
                    (ordered ∙ ap returns some_tried) course,
              )
        ]
      ]
