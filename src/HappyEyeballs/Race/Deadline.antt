-- ===== src/HappyEyeballs/Race/Deadline.antt =====
-- The time that the race of `connect_to_addresses` takes.
use zc_splice_proxy.Base.{
  All-append, All, All-get_elem?, All-remove_at, List, Result, [], ap, arith, get_elem?,
  get_elem?-lt-length, inl, inr, length, length-remove_at, refl, remove_at, some, suc, zero, ℕ, ◌*◌,
  ◌+◌, ◌-◌, ◌<◌, ◌∷◌, ◌≡◌, ◌≤◌, length-append,
}
use zc_splice_proxy.Std.Net.{IpAddr}
use zc_splice_proxy.HappyEyeballs.Config.{HappyEyeballsError}
use zc_splice_proxy.HappyEyeballs.Race.{Event}
use zc_splice_proxy.HappyEyeballs.Race.Timed.{
  Answer, connect_with_timeout, Ongoing, Timed, Course, wins, loses, waits, fails, IsDue, pass,
  begin, start, next,
}

module _ {Stream : Type 0} where
  abbrev AreWithin : ℕ → List (Ongoing Stream) → Type 0
  AreWithin bound os = All (λ (o : Ongoing Stream). o.left ≤ bound) os

  AreWithin-pass :
      (d bound : ℕ) (os : List (Ongoing Stream))
      → AreWithin bound os
      → AreWithin (bound - d) (pass d os)
  AreWithin-pass d bound [] h = tt
  AreWithin-pass d bound (o ∷ os) h = (omega (arith, h.0), AreWithin-pass d bound os h.1)

  AreWithin-weaken :
      (a b : ℕ) (os : List (Ongoing Stream)) → a ≤ b → AreWithin a os → AreWithin b os
  AreWithin-weaken a b [] le h = tt
  AreWithin-weaken a b (o ∷ os) le h = (omega (arith, h.0, le), AreWithin-weaken a b os le h.1)

  pub length-pass : (d : ℕ) (os : List (Ongoing Stream)) → length (pass d os) ≡ length os
  length-pass d [] = refl
  length-pass d (o ∷ os) = ap suc (length-pass d os)

  connect_with_timeout-le :
      (answer : Answer Stream) (timeout : ℕ) → (connect_with_timeout answer timeout).after ≤ timeout
  unfolding connect_with_timeout
  connect_with_timeout-le answer timeout = ground arith

  within :
      (bound i : ℕ) (o : Ongoing Stream) (os : List (Ongoing Stream))
      → get_elem? os i ≡ some o
      → AreWithin bound os
      → o.left ≤ bound
  within bound i o os found h =
      All-get_elem? (λ (p : Ongoing Stream). p.left ≤ bound) os i o h found

  AreWithin-lost :
      (bound i : ℕ) (o : Ongoing Stream) (os : List (Ongoing Stream))
      → AreWithin bound os
      → AreWithin (bound - o.left) (pass o.left (remove_at i os))
  AreWithin-lost bound i o os h =
      AreWithin-pass o.left bound (remove_at i os)
        (All-remove_at (λ (p : Ongoing Stream). p.left ≤ bound) os i h)

  due_by :
      (delay : ℕ) (s : Timed Stream) (o : Ongoing Stream)
      → 0 < length s.addrs
      → IsDue delay s o
      → o.left ≤ delay
  due_by delay s o more due = elim due.1 [
    | inl no_addrs ↦ absurd (omega (arith, ap length no_addrs, more))
    | inr soon ↦ soon
  ]

-- One more delay.
more_time :
    (k j time delay timeout : ℕ)
    → k ≡ suc j
    → time ≤ j * delay + timeout
    → delay + time ≤ k * delay + timeout
more_time k j time delay timeout e h = rw e (grind arith)

module _ {Stream : Type 0} (network : IpAddr → ℕ → Answer Stream) (connect_timeout delay : ℕ) where
  AreWithin-next :
      (addr : IpAddr) (addrs : List IpAddr) (s : Timed Stream)
      → AreWithin connect_timeout s.running
      → AreWithin connect_timeout (next network connect_timeout delay addr addrs s).running
  AreWithin-next addr addrs s h =
      All-append (λ (p : Ongoing Stream). p.left ≤ connect_timeout) (pass delay s.running) _
        (AreWithin-weaken (connect_timeout - delay) connect_timeout _ (omega arith)
          (AreWithin-pass delay connect_timeout s.running h))
        (connect_with_timeout-le (network addr s.port) connect_timeout, tt)

  -- When no address is left, the attempts under way decide.
  last_attempts :
      {s : Timed Stream} {events : List (Event Stream)} {time : ℕ}
      {r : Result Stream HappyEyeballsError} (bound : ℕ)
      → Course network connect_timeout delay s events time r
      → s.addrs ≡ []
      → AreWithin bound s.running
      → time ≤ bound
  last_attempts bound (wins s i o stream found due e) none_left h =
      within bound i o s.running found h
  last_attempts bound (loses s i o e events time r found due x h) none_left k = omega (
    arith,
    last_attempts (bound - o.left) h none_left (AreWithin-lost bound i o s.running k),
    within bound i o s.running found k,
  )
  last_attempts bound (waits s addr addrs events time r more late h) none_left k =
      absurd (cc (more, none_left))
  last_attempts bound (fails s no_addrs none_running) none_left k = omega arith

  -- Twice the addresses left and the attempts under way bound the delays to come.
  by_rounds :
      {s : Timed Stream} {events : List (Event Stream)} {time : ℕ}
      {r : Result Stream HappyEyeballsError} (k : ℕ)
      → Course network connect_timeout delay s events time r
      → 0 < length s.addrs
      → length s.addrs + length s.addrs + length s.running ≤ suc k
      → AreWithin connect_timeout s.running
      → time ≤ k * delay + connect_timeout
  by_rounds k (wins s i o stream found due e) more count h =
      omega (arith, within connect_timeout i o s.running found h)
  by_rounds zero (loses s i o e events time r found due x h) more count k =
      absurd (omega (arith, more, count))
  by_rounds (suc k) (loses s i o e events time r found due x h) more count inv = omega (
    arith,
    due_by delay s o more due,
    more_time (suc k) k time delay connect_timeout refl (
        by_rounds k h more
          (omega (
            arith,
            length-pass o.left (remove_at i s.running),
            length-remove_at i s.running,
            get_elem?-lt-length s.running i o found,
          ))
          (AreWithin-weaken (connect_timeout - o.left) connect_timeout _ (omega arith)
            (AreWithin-lost connect_timeout i o s.running inv))),
  )
  by_rounds zero (waits s addr addrs events time r found late h) more count inv =
      absurd (omega (arith, more, count))
  by_rounds (suc k) (waits s addr [] events time r found late h) more count inv =
      more_time (suc k) k time delay connect_timeout refl
        (omega (arith, last_attempts connect_timeout h refl (AreWithin-next addr [] s inv)))
  by_rounds (suc k) (waits s addr (a ∷ addrs) events time r found late h) more count inv =
      more_time (suc k) k time delay connect_timeout refl (
        by_rounds k h (omega arith)
          (omega (
            arith,
            count,
            ap length found,
            length-pass delay s.running,
            length-append (pass delay s.running) (begin network connect_timeout addr s.port ∷ []),
          ))
          (AreWithin-next addr (a ∷ addrs) s inv))
  by_rounds k (fails s no_addrs none_running) more count h =
      absurd (omega (arith, ap length no_addrs, more))

  -- Every race returns by the time that two delays for each further address and one timeout take.
  pub Course-bound :
      (addr : IpAddr) (addrs : List IpAddr) (port : ℕ) (events : List (Event Stream)) (time : ℕ)
      (r : Result Stream HappyEyeballsError)
      → Course network connect_timeout delay
          (start network connect_timeout addr addrs port)
          events
          time
          r
      → time ≤ (length addrs + length addrs) * delay + connect_timeout
  Course-bound addr [] port events time r h = omega (
    arith,
    last_attempts connect_timeout h refl
        (connect_with_timeout-le (network addr port) connect_timeout, tt),
  )
  Course-bound addr (a ∷ addrs) port events time r h =
      by_rounds (length (a ∷ addrs) + length (a ∷ addrs)) h (omega arith) (omega arith)
        (connect_with_timeout-le (network addr port) connect_timeout, tt)
