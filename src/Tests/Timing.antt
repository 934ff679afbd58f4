-- ===== src/Tests/Timing.antt =====
-- A race, and a connection to a host, by the clock.
use zc_splice_proxy.Base.{
  List, Result, [], arith, err, if◌then◌else◌, inl, ok, refl, returns, ℕ, ◌==◌, ◌∷◌, ◌≡◌, ◌≤◌,
}
use mathlib.Core.List.{Memᴰ}
use zc_splice_proxy.Std.Io.{connection_refused, literal}
use zc_splice_proxy.Std.Net.{IpAddr, ipv4}
use zc_splice_proxy.HappyEyeballs.Config.{default}
use zc_splice_proxy.HappyEyeballs.Addresses.{
  ResolvedAddresses, sort_by_preference, is_empty, ipv4_key, ipv6_key, sort_by_key, sort_keyed,
  keyed, insert_keyed,
}
use zc_splice_proxy.HappyEyeballs.Interleave.{interleave, collect, len, next, new}
use zc_splice_proxy.HappyEyeballs.Resolve.{Dns, resolve_with_delay}
use zc_splice_proxy.HappyEyeballs.Connect.{order, connect}
use zc_splice_proxy.HappyEyeballs.Clock.{TimedLookup, one_by_one, Connecting, races}
use zc_splice_proxy.HappyEyeballs.Clock.Deadline.{deadline, Connecting-connect, Connecting-exists}
use zc_splice_proxy.HappyEyeballs.Clock.Finds.{Connecting-Connects}
use zc_splice_proxy.HappyEyeballs.Race
use zc_splice_proxy.HappyEyeballs.Race.{returned, connect_to_addresses}
use zc_splice_proxy.HappyEyeballs.Race.Ends.{AreEnabled, first}
use zc_splice_proxy.HappyEyeballs.Race.Timed.{
  Answer, connect_with_timeout, Timed, Course, wins, waits,
}
use zc_splice_proxy.HappyEyeballs.Race.Timed
use zc_splice_proxy.HappyEyeballs.Race.Schedule.{Course-run}
use zc_splice_proxy.HappyEyeballs.Config.{HappyEyeballsError}

-- 127.0.0.1 refuses after a while, 8.8.8.8 answers soon with the stream 7.
abbrev four : IpAddr
four = ipv4 (8 ∷ 8 ∷ 8 ∷ 8 ∷ [])

abbrev local : IpAddr
local = ipv4 (127 ∷ 0 ∷ 0 ∷ 1 ∷ [])

abbrev refuses : Answer ℕ
refuses = record {
  after = 400;
  result = err (record { kind = connection_refused; message = literal "refused" });
}

abbrev network : IpAddr → ℕ → Answer ℕ
network (ipv4 (x ∷ rest)) port = if x == 127 then refuses else record { after = 30; result = ok 7 }
network addr port = refuses

abbrev seen : List (Race.Event ℕ)
seen = Race.delay_passed ∷ Race.attempt_ended 1 (ok 7) ∷ []

-- The second attempt starts after 250 milliseconds and wins 30 later.
course : Course network 10000 250 (Timed.start network 10000 local (four ∷ []) 80) seen 280 (ok 7)
unfolding connect_with_timeout
course =
    waits _ four [] _ 30 _ refl (omega arith, tt)
      (wins _ 1 _ 7 refl ((omega arith, (omega arith, tt)), inl refl) refl)

Course-run_example :
    AreEnabled (first local (four ∷ []) 80) seen
    × (connect_to_addresses (local ∷ four ∷ []) 80 seen ≡ returned (ok 7))
Course-run_example = Course-run network 10000 250 local (four ∷ []) 80 seen 280 (ok 7) course

-- There is no IPv6 address; both IPv4 addresses come after 50 milliseconds.
abbrev v6 : TimedLookup
v6 = record { after = 20; result = err (literal "no AAAA record") }

abbrev v4 : TimedLookup
v4 = record { after = 30; result = ok ((8 ∷ 8 ∷ 8 ∷ 8 ∷ []) ∷ (127 ∷ 0 ∷ 0 ∷ 1 ∷ []) ∷ []) }

abbrev resolved : ResolvedAddresses
resolved = record { ipv6 = []; ipv4 = four ∷ local ∷ [] }

connecting : Connecting default v6 v4 network (97 ∷ []) 80 seen 330 (ok 7)
unfolding default
connecting =
    races _ resolved 50 local (four ∷ []) seen 280 (ok 7) (one_by_one (omega arith) (omega arith))
      (unfold resolve_with_delay in refl) (unfold is_empty in refl)
      (unfold order sort_by_preference ipv4_key ipv6_key sort_by_key sort_keyed keyed insert_keyed
          interleave new collect next len in
        refl)
      course

Connecting-connect_example :
    ((dns : Dns) × (connect dns (97 ∷ []) 80 seen ≡ returns (returned (ok 7))))
    × (330 ≤ deadline default v6 v4 network (97 ∷ []) 80)
Connecting-connect_example =
    Connecting-connect default v6 v4 network (97 ∷ []) 80 seen 330 (ok 7) connecting

Connecting-exists_example :
    (events : List (Race.Event ℕ)) × (time : ℕ) × (r : Result ℕ HappyEyeballsError) × Connecting
      default v6 v4 network
      (97 ∷ [])
      80
      events
      time
      r
Connecting-exists_example = Connecting-exists default v6 v4 network (97 ∷ []) 80

Connecting-Connects_example : (x : ℕ) × (Path (Result ℕ HappyEyeballsError) (ok 7) (ok x))
Connecting-Connects_example =
    Connecting-Connects default v6 v4 network (97 ∷ []) 80 seen 330 (ok 7) four
      (unfold default in omega arith) (unfold default in omega arith) (Memᴰ.head refl)
      ((7, refl), unfold default in omega arith) connecting
