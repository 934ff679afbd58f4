-- ===== src/HappyEyeballs/Race/Schedule.antt =====
-- The race of `connect_to_addresses` by the clock, and its events.
use zc_splice_proxy.Base.{
  List, Result, [], ap, arith, inl, inr, length, lt→ltb, ok, refl, remove_at, suc, zero, ℕ, ◌++◌,
  ◌+◌, ◌<◌, ◌∷◌, ◌≡◌, err, get_elem?, get_elem?-lt-length, some, subst, sym,
}
use zc_splice_proxy.Std.Io.{IoError}
use zc_splice_proxy.Std.Net.{IpAddr}
use zc_splice_proxy.HappyEyeballs.Config.{HappyEyeballsError}
use zc_splice_proxy.HappyEyeballs.Race.{
  Event, attempt_ended, delay_passed, Race, Outcome, waiting, returned, settle, handle, run,
  connect_to_addresses, start_next,
}
use zc_splice_proxy.HappyEyeballs.Race.Accounts.{over_or_more}
use zc_splice_proxy.HappyEyeballs.Race.Ends.{IsEnabled, AreEnabled, first}
use zc_splice_proxy.HappyEyeballs.Race.Timed.{
  Answer, Ongoing, Timed, Course, wins, loses, waits, fails, attempts, race_of, pass, lost, begin,
  start, next,
}

module _ {Stream : Type 0} where
  attempts-pass : (d : ℕ) (os : List (Ongoing Stream)) → attempts (pass d os) ≡ attempts os
  attempts-pass d [] = refl
  attempts-pass d (o ∷ os) = ap (◌∷◌ o.attempt) (attempts-pass d os)

  attempts-remove_at :
      (i : ℕ) (os : List (Ongoing Stream)) → attempts (remove_at i os) ≡ remove_at i (attempts os)
  attempts-remove_at i [] = refl
  attempts-remove_at zero (o ∷ os) = refl
  attempts-remove_at (suc i) (o ∷ os) = ap (◌∷◌ o.attempt) (attempts-remove_at i os)

  attempts-append :
      (os ps : List (Ongoing Stream)) → attempts (os ++ ps) ≡ attempts os ++ attempts ps
  attempts-append [] ps = refl
  attempts-append (o ∷ os) ps = ap (◌∷◌ o.attempt) (attempts-append os ps)

  length-attempts : (os : List (Ongoing Stream)) → length (attempts os) ≡ length os
  length-attempts [] = refl
  length-attempts (o ∷ os) = ap suc (length-attempts os)

-- The events are seen one after the other, and the result is theirs.
abbrev Follows :
    {Stream : Type 0}
    → Outcome Stream
    → List (Event Stream)
    → Result Stream HappyEyeballsError
    → Type 0
Follows o events r = AreEnabled o events × (run o events ≡ returned r)

-- What the end of an attempt under way makes of the race.
abbrev ended : {Stream : Type 0} → Race → ℕ → Result Stream IoError → Outcome Stream
ended s i (ok stream) = returned (ok stream)
ended s i (err e) =
    waiting (record s { futures = remove_at i s.futures; errors = s.errors ++ (e ∷ []) })

module _ {Stream : Type 0} where
  stays :
      (s : Race)
      → 0 < length s.addrs + length s.futures
      → settle {Stream = Stream} (waiting s) ≡ waiting s
  stays s some_left = elim (over_or_more s.futures s.addrs) [
    | inl over ↦ absurd (omega (arith, over.1))
    | inr more ↦ rw more.0 refl
  ]

  Follows-event :
      (s : Race) (event : Event Stream) (events : List (Event Stream))
      (r : Result Stream HappyEyeballsError)
      → 0 < length s.addrs + length s.futures
      → IsEnabled s event
      → Follows (settle (handle s event)) events r
      → Follows (settle (waiting s)) (event ∷ events) r
  unfolding run
  Follows-event s event events r some_left able h =
      subst (λ o. Follows o (event ∷ events) r) (sym (stays s some_left)) ((able, h.0), h.1)

  Follows-ended :
      (s : Race) (i : ℕ) (x : Result Stream IoError) (events : List (Event Stream))
      (r : Result Stream HappyEyeballsError)
      → i < length s.futures
      → Follows (settle (ended s i x)) events r
      → Follows (settle (waiting s)) (attempt_ended i x ∷ events) r
  unfolding handle
  Follows-ended s i (ok stream) events r h k =
      Follows-event s (attempt_ended i (ok stream)) events r (omega (arith, h)) h
        (rw (lt→ltb i (length s.futures) h) k)
  Follows-ended s i (err e) events r h k =
      Follows-event s (attempt_ended i (err e)) events r (omega (arith, h)) h
        (rw (lt→ltb i (length s.futures) h) k)

  running-lt :
      (s : Timed Stream) (i : ℕ) (o : Ongoing Stream)
      → get_elem? s.running i ≡ some o
      → i < length (attempts s.running)
  running-lt s i o found =
      omega (arith, length-attempts s.running, get_elem?-lt-length s.running i o found)

module _ {Stream : Type 0} (network : IpAddr → ℕ → Answer Stream) (connect_timeout delay : ℕ) where
  race_of-lost :
      (s : Timed Stream) (i : ℕ) (o : Ongoing Stream) (e : IoError)
      → race_of (lost i o e s) ≡ record (race_of s) {
        futures = remove_at i (attempts s.running);
        errors = s.errors ++ (e ∷ []);
      }
  race_of-lost s i o e =
      rw (attempts-pass o.left (remove_at i s.running), attempts-remove_at i s.running) refl

  race_of-next :
      (s : Timed Stream) (addr : IpAddr) (addrs : List IpAddr)
      → s.addrs ≡ addr ∷ addrs
      → race_of (next network connect_timeout delay addr addrs s) ≡ start_next (race_of s)
  race_of-next s addr addrs more =
      rw
        (
          more,
          attempts-append (pass delay s.running) (begin network connect_timeout addr s.port ∷ []),
          attempts-pass delay s.running,
        )
        refl

  Course-Follows :
      {s : Timed Stream} {events : List (Event Stream)} {time : ℕ}
      {r : Result Stream HappyEyeballsError}
      → Course network connect_timeout delay s events time r
      → Follows (settle (waiting (race_of s))) events r
  unfolding run handle
  Course-Follows (wins s i o stream found due e) =
      Follows-ended (race_of s) i (ok stream) [] (ok stream) (running-lt s i o found) (tt, refl)
  Course-Follows (loses s i o e events time r found due x h) =
      Follows-ended (race_of s) i (err e) events r (running-lt s i o found) (
        subst (λ t. Follows (settle (waiting t)) events r) (race_of-lost s i o e)
          (Course-Follows h))
  Course-Follows (waits s addr addrs events time r more late h) =
      Follows-event (race_of s) delay_passed events r (rw more (omega arith))
        (rw more (omega arith))
        (subst (λ t. Follows (settle (waiting t)) events r) (race_of-next s addr addrs more)
          (Course-Follows h))
  Course-Follows (fails s no_addrs none_running) = rw (no_addrs, none_running) (tt, refl)

  -- A race by the clock is one of the races of `connect_to_addresses`: its events are ones that the
  -- loop can see, and it returns what that returns on them.
  pub Course-run :
      (addr : IpAddr) (addrs : List IpAddr) (port : ℕ) (events : List (Event Stream)) (time : ℕ)
      (r : Result Stream HappyEyeballsError)
      → Course network connect_timeout delay
          (start network connect_timeout addr addrs port)
          events
          time
          r
      → AreEnabled (first addr addrs port) events
        × (connect_to_addresses (addr ∷ addrs) port events ≡ returned r)
  unfolding connect_to_addresses
  Course-run addr addrs port events time r h = Course-Follows h
