-- ===== src/HappyEyeballs/Race/Ends.antt =====
-- The end of the race of `connect_to_addresses`, and what it returns.
use zc_splice_proxy.Base.{
  arith, List, Result, [], err, inl, inr, length, lt→ltb, ok, refl, ℕ, ◌*◌, ◌++◌, ◌+◌, ◌<◌, ◌∷◌,
  ◌≡◌, ◌≤◌, length-remove_at, remove_at,
}
use zc_splice_proxy.Std.Net.{IpAddr}
use zc_splice_proxy.HappyEyeballs.Config.{HappyEyeballsError}
use zc_splice_proxy.HappyEyeballs.Race.{
  Event, attempt_ended, delay_passed, Race, Outcome, waiting, returned, settle, handle, run,
  connect_to_addresses, start_next,
}
use zc_splice_proxy.HappyEyeballs.Race.Accounts.{over_or_more, started}

module _ {Stream : Type 0} where
  -- An event that the loop can see.
  abbrev pub IsEnabled : Race → Event Stream → Type 0
  IsEnabled s (attempt_ended i r) = i < length s.futures
  IsEnabled s delay_passed = 0 < length s.addrs

  -- Events each of which the loop can see when it comes.
  abbrev pub AreEnabled : Outcome Stream → List (Event Stream) → Type 0
  AreEnabled (returned r) events = Unit {0}
  AreEnabled (waiting s) [] = Unit {0}
  AreEnabled (waiting s) (event ∷ events) =
      IsEnabled s event × AreEnabled (settle (handle s event)) events

  -- The rounds that are left: each address starts once and each attempt ends once.
  abbrev rounds : Outcome Stream → ℕ
  rounds (returned r) = 0
  rounds (waiting s) = length s.addrs + length s.addrs + length s.futures

  abbrev IsLive : Outcome Stream → Type 0
  IsLive (returned r) = Unit {0}
  IsLive (waiting s) = 0 < length s.addrs + length s.futures

module _ (Stream : Type 0) where
  settled :
      (s : Race)
      → IsLive (settle {Stream = Stream} (waiting s))
        × (rounds (settle {Stream = Stream} (waiting s)) ≤ rounds {Stream = Stream} (waiting s))
  settled s = elim (over_or_more s.futures s.addrs) [
    | inl (over, no_futures, no_addrs) ↦ rw over (tt, omega arith)
    | inr (more, some_left) ↦ rw more (some_left, omega arith)
  ]

module _ {Stream : Type 0} where
  fewer :
      (s : Race) (event : Event Stream)
      → IsEnabled s event
      → IsLive (settle (handle s event))
        × (rounds (settle (handle s event)) < rounds {Stream = Stream} (waiting s))
  unfolding handle
  fewer s (attempt_ended i (ok stream)) h = rw (lt→ltb i (length s.futures) h) (tt, omega arith)
  fewer s (attempt_ended i (err e)) h =
      let left =
        settled Stream
          (record s { futures = remove_at i s.futures; errors = s.errors ++ (e ∷ []) }) in
      rw (lt→ltb i (length s.futures) h)
        (left.0, omega (arith, left.1, length-remove_at i s.futures h))
  fewer s delay_passed h =
      let left = settled Stream (start_next s) in
      (left.0, omega (arith, left.1, (started s).0, (started s).1 h, (started s).2))

  run_ends :
      (o : Outcome Stream) (events : List (Event Stream))
      → IsLive o
      → AreEnabled o events
      → rounds o ≤ length events
      → (r : Result Stream HappyEyeballsError) × (run o events ≡ returned r)
  unfolding run
  run_ends (returned r) events live able enough = (r, refl)
  run_ends (waiting s) [] live able enough = absurd (omega arith)
  run_ends (waiting s) (event ∷ events) live able enough =
      let next = fewer s event able.0 in
      run_ends (settle (handle s event)) events next.0 able.1 (omega (arith, next.1))

  -- The state in which the loop starts.
  abbrev pub first : IpAddr → List IpAddr → ℕ → Outcome Stream
  first addr addrs port = waiting (record {
    addrs = addrs;
    futures = record { addr = addr; port = port } ∷ [];
    errors = [];
    port = port;
  })

  -- The race over `addr ∷ addrs` returns within twice as many rounds as there are addresses, when
  -- each event is one that the loop can see.
  pub connect_to_addresses_ends :
      (addr : IpAddr) (addrs : List IpAddr) (port : ℕ) (events : List (Event Stream))
      → AreEnabled (first addr addrs port) events
      → 2 * length (addr ∷ addrs) ≤ length events
      → (r : Result Stream HappyEyeballsError) × (connect_to_addresses (addr ∷ addrs) port events
          ≡ returned r)
  unfolding connect_to_addresses
  connect_to_addresses_ends addr addrs port events able enough =
      run_ends (first addr addrs port) events (omega arith) able (omega arith)

  -- That a race from `s` on is still under way after some events, that the next one is the success of
  -- an attempt then in flight, and that this attempt made the connection.
  pub record IsWonBy (s : Race) (events : List (Event Stream)) (stream : Stream) : Type 0 where
    pub before : List (Event Stream)
    pub after : List (Event Stream)
    pub index : ℕ
    pub under_way : Race
    pub in_order : events ≡ before ++ (attempt_ended index (ok stream) ∷ after)
    pub waits : run (waiting s) before ≡ waiting under_way
    pub in_flight : index < length under_way.futures
