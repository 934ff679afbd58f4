-- ===== src/HappyEyeballs/Race/Progress.antt =====
-- The courses of the race of `connect_to_addresses` by the clock.
use zc_splice_proxy.Base.{
  All, Bool-cases, List, List-cases, Result, [], ap, arith, err, get_elem?, get_elem?-lt-length,
  inl, inr, leb, length, length-append, length-remove_at, ok, refl, remove_at, some, subst, suc,
  sym, zero, ℕ, ◌+◌, ◌<◌, ◌∷◌, ◌≡◌, ◌≤◌, ◌⊎◌,
}
use zc_splice_proxy.Std.Io.{IoError}
use zc_splice_proxy.Std.Net.{IpAddr}
use zc_splice_proxy.HappyEyeballs.Config.{HappyEyeballsError}
use zc_splice_proxy.HappyEyeballs.Race.{Event}
use zc_splice_proxy.HappyEyeballs.Race.Timed.{
  Answer, Ongoing, Timed, Course, wins, loses, waits, fails, IsDue, pass, lost, begin, start, next,
}
use zc_splice_proxy.HappyEyeballs.Race.Deadline.{length-pass}

-- The first of the attempts to end.
abbrev Soonest : {Stream : Type 0} → List (Ongoing Stream) → Type 0
Soonest {Stream} os =
    (i : ℕ) × (o : Ongoing Stream) × (get_elem? os i ≡ some o)
    × All (λ (p : Ongoing Stream). o.left ≤ p.left) os

All-later :
    {Stream : Type 0} (a b : ℕ) (os : List (Ongoing Stream))
    → a ≤ b
    → All (λ (p : Ongoing Stream). b ≤ p.left) os
    → All (λ (p : Ongoing Stream). a ≤ p.left) os
All-later a b [] le h = tt
All-later a b (o ∷ os) le h = (omega (arith, le, h.0), All-later a b os le h.1)

soonest : {Stream : Type 0} (o : Ongoing Stream) (os : List (Ongoing Stream)) → Soonest (o ∷ os)
soonest o [] = (0, o, refl, (omega arith, tt))
soonest o (p ∷ os) =
    let (i, q, found, later) = soonest p os in
    elim (Bool-cases (leb o.left q.left)) [
      | inl le ↦
          (0, o, refl, (omega arith, All-later o.left q.left (p ∷ os) (ground (arith, le)) later))
      | inr gt ↦ (suc i, q, found, (ground (arith, gt), later))
    ]

module _ {Stream : Type 0} (network : IpAddr → ℕ → Answer Stream) (connect_timeout delay : ℕ) where
  abbrev pub Ends : Timed Stream → Type 0
  Ends s =
      (events : List (Event Stream)) × (time : ℕ) × (r : Result Stream HappyEyeballsError) × Course
        network connect_timeout delay s events time r

  -- What is left to do: each address is tried, and each attempt ends.
  abbrev work : Timed Stream → ℕ
  work s = length s.addrs + length s.addrs + length s.running

  Ends-here :
      (s : Timed Stream) (i : ℕ) (o : Ongoing Stream) (result : Result Stream IoError)
      → get_elem? s.running i ≡ some o
      → IsDue delay s o
      → o.result ≡ result
      → ((e : IoError) → Ends (lost i o e s))
      → Ends s
  Ends-here s i o (ok stream) found due e rest = (_, _, _, wins s i o stream found due e)
  Ends-here s i o (err x) found due e rest =
      let (events, time, r, h) = rest x in (_, _, _, loses s i o x events time r found due e h)

  fewer :
      (s : Timed Stream) (i : ℕ) (o : Ongoing Stream) (e : IoError) (n : ℕ)
      → get_elem? s.running i ≡ some o
      → work s < suc n
      → work (lost i o e s) < n
  fewer s i o e n found h = omega (
    arith,
    h,
    length-pass o.left (remove_at i s.running),
    length-remove_at i s.running,
    get_elem?-lt-length s.running i o found,
  )

  started :
      (s : Timed Stream) (addr : IpAddr) (addrs : List IpAddr) (n : ℕ)
      → s.addrs ≡ addr ∷ addrs
      → work s < suc n
      → work (next network connect_timeout delay addr addrs s) < n
  started s addr addrs n found h = omega (
    arith,
    h,
    ap length found,
    length-pass delay s.running,
    length-append (pass delay s.running) (begin network connect_timeout addr s.port ∷ []),
  )

  waits_here :
      (s : Timed Stream) (addr : IpAddr) (addrs : List IpAddr)
      → s.addrs ≡ addr ∷ addrs
      → All (λ (p : Ongoing Stream). suc delay ≤ p.left) s.running
      → Ends (next network connect_timeout delay addr addrs s)
      → Ends s
  waits_here s addr addrs found late (events, time, r, h) =
      (_, _, _, waits s addr addrs events time r found late h)

  -- A race from a state that has attempts under way.
  running-Ends :
      (n : ℕ) (s : Timed Stream) (o : Ongoing Stream) (os : List (Ongoing Stream))
      → s.running ≡ o ∷ os
      → work s < suc n
      → ((t : Timed Stream) → work t < n → Ends t)
      → Ends s
  running-Ends n s o os some_running h rest =
      let (i, p, found, first_of) : Soonest s.running =
        subst Soonest (sym some_running) (soonest o os) in
      let ends : (s.addrs ≡ []) ⊎ (p.left ≤ delay) → Ends s = λ due.
        Ends-here s i p p.result found (first_of, due) refl
          (λ e. rest (lost i p e s) (fewer s i p e n found h)) in
      elim (List-cases s.addrs) [
        | inl none_left ↦ ends (inl none_left)
        | inr (addr, addrs, more) ↦ elim (Bool-cases (leb p.left delay)) [
          | inl soon ↦ ends (inr (ground (arith, soon)))
          | inr late ↦
              waits_here s addr addrs more
                (All-later (suc delay) p.left s.running (ground (arith, late)) first_of)
                (rest (next network connect_timeout delay addr addrs s)
                  (started s addr addrs n more h))
        ]
      ]

  course-Ends : (n : ℕ) (s : Timed Stream) → work s < n → Ends s
  course-Ends zero s h = absurd (omega (arith, h))
  course-Ends (suc n) s h = elim (List-cases s.running) [
    | inr (o, os, some_running) ↦ running-Ends n s o os some_running h (course-Ends n)
    | inl none_running ↦ elim (List-cases s.addrs) [
      | inl none_left ↦ (_, _, _, fails s none_left none_running)
      | inr (addr, addrs, more) ↦
          waits_here s addr addrs more
            (subst (All (λ (p : Ongoing Stream). suc delay ≤ p.left)) (sym none_running) tt)
            (course-Ends n (next network connect_timeout delay addr addrs s)
              (started s addr addrs n more h))
    ]
  ]

  -- Whatever the connections come to, the race by the clock has a course in which it returns.
  pub Course-exists :
      (addr : IpAddr) (addrs : List IpAddr) (port : ℕ)
      → Ends (start network connect_timeout addr addrs port)
  Course-exists addr addrs port =
      course-Ends (suc (work (start network connect_timeout addr addrs port)))
        (start network connect_timeout addr addrs port) (omega arith)
