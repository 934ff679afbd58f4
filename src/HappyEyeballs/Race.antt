-- ===== src/HappyEyeballs/Race.antt =====
-- `HappyEyeballsConnector::connect_to_addresses`: staggered connection attempts, of which the first
-- success wins. What the network and the clock do is a list of events.
pub mod Accounts
pub mod Deadline
pub mod Ends
pub mod Progress
pub mod Reaches
pub mod Schedule
pub mod Timed
use zc_splice_proxy.Base.{
  Bool, List, Result, [], err, false, if◌then◌else◌, length, ltb, ok, true, ℕ, ◌&&◌, ◌++◌, ◌∷◌,
  remove_at,
}
use zc_splice_proxy.Std.Io.{IoError}
use zc_splice_proxy.Std.Net.{IpAddr}
use zc_splice_proxy.HappyEyeballs.Config.{HappyEyeballsError, all_attempts_failed}

-- A connection attempt that has been started: `connect_with_timeout` to an address and a port.
pub record Attempt : Type 0 where
  pub addr : IpAddr
  pub port : ℕ

-- What `select!` may see next: the attempt at a place of the collection of futures has ended, or
-- the delay has passed.
pub data Event (Stream : Type 0) : Type 0 where
  attempt_ended : ℕ → Result Stream IoError → Event Stream
  delay_passed : Event Stream

-- The variables of the loop: the addresses not yet tried, the attempts under way, the errors.
pub record Race : Type 0 where
  pub addrs : List IpAddr
  pub futures : List Attempt
  pub errors : List IoError
  pub port : ℕ

-- The loop goes on, or returns. `waiting` is a race whose next event is yet to come.
pub data Outcome (Stream : Type 0) : Type 0 where
  waiting : Race → Outcome Stream
  returned : Result Stream HappyEyeballsError → Outcome Stream

abbrev is_nil {ℓ} : {A : Type ℓ} → List A → Bool
is_nil [] = true
is_nil (x ∷ xs) = false

abbrev start_next : Race → Race
start_next s = elim s.addrs [
  | [] ↦ s
  | addr ∷ rest ↦ record s {
    addrs = rest;
    futures = s.futures ++ (record { addr = addr; port = s.port } ∷ []);
  }
]

module _ {Stream : Type 0} where
  abbrev finish : Race → Outcome Stream
  finish s = returned (err (all_attempts_failed s.errors))

  -- One round of `select!`. A branch whose guard fails is disabled, so its event is not seen.
  unfoldable pub handle : Race → Event Stream → Outcome Stream
  handle s (attempt_ended i (ok stream)) =
      if ltb i (length s.futures) then returned (ok stream) else waiting s
  handle s (attempt_ended i (err e)) =
      if ltb i (length s.futures)
      then waiting (record s { futures = remove_at i s.futures; errors = s.errors ++ (e ∷ []) })
      else waiting s
  handle s delay_passed = waiting (start_next s)

  -- With no attempt under way and no address left both branches are disabled: the loop ends.
  abbrev settle : Outcome Stream → Outcome Stream
  settle (returned r) = returned r
  settle (waiting s) = if is_nil s.futures && is_nil s.addrs then finish s else waiting s

  -- The loop, which stops at its result.
  unfoldable pub run : Outcome Stream → List (Event Stream) → Outcome Stream
  unfolding handle
  run (returned r) events = returned r
  run (waiting s) [] = waiting s
  run (waiting s) (event ∷ events) = run (settle (handle s event)) events

  unfoldable pub connect_to_addresses : List IpAddr → ℕ → List (Event Stream) → Outcome Stream
  unfolding run
  connect_to_addresses [] port events = returned (err (all_attempts_failed []))
  connect_to_addresses (addr ∷ addrs) port events =
      run
        (waiting (record {
          addrs = addrs;
          futures = record { addr = addr; port = port } ∷ [];
          errors = [];
          port = port;
        }))
        events
