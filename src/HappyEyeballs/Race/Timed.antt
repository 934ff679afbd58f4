-- ===== src/HappyEyeballs/Race/Timed.antt =====
-- The race by the clock: `connect_with_timeout`, and the loop of `connect_to_addresses` with the
-- times at which its branches become ready. Times are in milliseconds. What a connection to an
-- address comes to, and after what time, is an argument.
use zc_splice_proxy.Base.{
  All, List, Result, [], err, get_elem?, if◌then◌else◌, leb, ok, remove_at, some, ℕ, ◌++◌, ◌+◌, ◌-◌,
  ◌<◌, ◌∷◌, ◌≡◌, ◌≤◌, ◌⊎◌,
}
use zc_splice_proxy.Std.Io.{IoError, literal, timed_out}
use zc_splice_proxy.Std.Net.{IpAddr}
use zc_splice_proxy.HappyEyeballs.Config.{HappyEyeballsError, all_attempts_failed}
use zc_splice_proxy.HappyEyeballs.Race.{Attempt, Event, attempt_ended, delay_passed, Race}

-- What becomes of a connection, and how long after it was started.
pub record Answer (Stream : Type 0) : Type 0 where
  pub after : ℕ
  pub result : Result Stream IoError

-- `timeout` looks at the connection first, so one that is ready just in time counts.
unfoldable pub connect_with_timeout : {Stream : Type 0} → Answer Stream → ℕ → Answer Stream
connect_with_timeout answer timeout = if leb answer.after timeout then answer else record {
  after = timeout;
  result = err (record { kind = timed_out; message = literal "Connection timed out" });
}

-- An attempt under way, the time it still takes, and what it will come to.
pub record Ongoing (Stream : Type 0) : Type 0 where
  pub attempt : Attempt
  pub left : ℕ
  pub result : Result Stream IoError

pub record Timed (Stream : Type 0) : Type 0 where
  pub addrs : List IpAddr
  pub running : List (Ongoing Stream)
  pub errors : List IoError
  pub port : ℕ

module _ {Stream : Type 0} where
  abbrev pub attempts : List (Ongoing Stream) → List Attempt
  attempts [] = []
  attempts (o ∷ os) = o.attempt ∷ attempts os

  -- The variables of the loop, without the times.
  abbrev pub race_of : Timed Stream → Race
  race_of s = record {
    addrs = s.addrs;
    futures = attempts s.running;
    errors = s.errors;
    port = s.port;
  }

  -- Time passes for all attempts alike.
  abbrev pub pass : ℕ → List (Ongoing Stream) → List (Ongoing Stream)
  pass d [] = []
  pass d (o ∷ os) = record o { left = o.left - d } ∷ pass d os

  -- The attempt ends first, and no later than the delay, which runs while there are addresses; the
  -- select is biased to it.
  abbrev pub IsDue : ℕ → Timed Stream → Ongoing Stream → Type 0
  IsDue delay s o =
      All (λ (p : Ongoing Stream). o.left ≤ p.left) s.running × ((s.addrs ≡ []) ⊎ (o.left ≤ delay))

  -- The attempt has failed, and time has passed for the others.
  abbrev pub lost : ℕ → Ongoing Stream → IoError → Timed Stream → Timed Stream
  lost i o e s = record s {
    running = pass o.left (remove_at i s.running);
    errors = s.errors ++ (e ∷ []);
  }

module _ {Stream : Type 0} (network : IpAddr → ℕ → Answer Stream) (connect_timeout : ℕ) where
  abbrev pub begin : IpAddr → ℕ → Ongoing Stream
  begin addr port =
      let answer = connect_with_timeout (network addr port) connect_timeout in
      record {
        attempt = record { addr = addr; port = port };
        left = answer.after;
        result = answer.result;
      }

  abbrev pub start : IpAddr → List IpAddr → ℕ → Timed Stream
  start addr addrs port = record {
    addrs = addrs;
    running = begin addr port ∷ [];
    errors = [];
    port = port;
  }

  -- The next address is tried, after the delay.
  abbrev pub next : ℕ → IpAddr → List IpAddr → Timed Stream → Timed Stream
  next delay addr addrs s = record s {
    addrs = addrs;
    running = pass delay s.running ++ (begin addr s.port ∷ []);
  }

-- A course of the race from a state: the events that the loop sees, the time until it returns, and
-- its result. The delay starts anew in each round.
pub data Course {Stream : Type 0} (network : IpAddr → ℕ → Answer Stream) (connect_timeout : ℕ)
    (delay : ℕ)
    : Timed Stream → List (Event Stream) → ℕ → Result Stream HappyEyeballsError → Type 0 where
  wins :
      (s : Timed Stream) (i : ℕ) (o : Ongoing Stream) (stream : Stream)
      → get_elem? s.running i ≡ some o
      → IsDue delay s o
      → o.result ≡ ok stream
      → Course network connect_timeout delay s (attempt_ended i (ok stream) ∷ []) o.left (ok stream)
  loses :
      (s : Timed Stream) (i : ℕ) (o : Ongoing Stream) (e : IoError) (events : List (Event Stream))
      (time : ℕ) (r : Result Stream HappyEyeballsError)
      → get_elem? s.running i ≡ some o
      → IsDue delay s o
      → o.result ≡ err e
      → Course network connect_timeout delay (lost i o e s) events time r
      → Course network connect_timeout delay s (attempt_ended i (err e) ∷ events) (o.left + time) r
  waits :
      (s : Timed Stream) (addr : IpAddr) (addrs : List IpAddr) (events : List (Event Stream))
      (time : ℕ) (r : Result Stream HappyEyeballsError)
      → s.addrs ≡ addr ∷ addrs
      → All (λ (p : Ongoing Stream). delay < p.left) s.running
      → Course network connect_timeout delay
          (next network connect_timeout delay addr addrs s)
          events
          time
          r
      → Course network connect_timeout delay s (delay_passed ∷ events) (delay + time) r
  fails :
      (s : Timed Stream)
      → s.addrs ≡ []
      → s.running ≡ []
      → Course network connect_timeout delay s [] 0 (err (all_attempts_failed s.errors))
