-- ===== src/HappyEyeballs/Race/Reaches.antt =====
-- The race of `connect_to_addresses` by the clock, over addresses of which one can be connected to.
use zc_splice_proxy.Base.{
  List, Result, [], err, get_elem?, inl, inr, le→leb, ok, refl, remove_at, some, some-injective,
  subst, suc, sym, zero, ℕ, ◌++◌, ◌∷◌, ◌≡◌, ◌≤◌, ◌⊎◌, ok_ne_err, ◌∙◌,
}
use mathlib.Core.List.{Memᴰ}
use mathlib.Core.List.Memᴰ
use zc_splice_proxy.Std.Io.{IoError}
use zc_splice_proxy.Std.Net.{IpAddr}
use zc_splice_proxy.HappyEyeballs.Config.{HappyEyeballsError}
use zc_splice_proxy.HappyEyeballs.Race.{Event}
use zc_splice_proxy.HappyEyeballs.Race.Timed.{
  Answer, connect_with_timeout, Ongoing, Timed, Course, wins, loses, waits, fails, pass, begin,
  start,
}

module _ {Stream : Type 0} where
  -- One of the attempts will make a connection.
  abbrev HasHope : List (Ongoing Stream) → Type 0
  HasHope [] = ⊥
  HasHope (o ∷ os) = ((x : Stream) × (o.result ≡ ok x)) ⊎ HasHope os

  HasHope-pass : (d : ℕ) (os : List (Ongoing Stream)) → HasHope os → HasHope (pass d os)
  HasHope-pass d [] h = h
  HasHope-pass d (o ∷ os) (inl good) = inl good
  HasHope-pass d (o ∷ os) (inr h) = inr (HasHope-pass d os h)

  HasHope-last :
      (os : List (Ongoing Stream)) (o : Ongoing Stream) (x : Stream)
      → o.result ≡ ok x
      → HasHope (os ++ (o ∷ []))
  HasHope-last [] o x good = inl (x, good)
  HasHope-last (p ∷ os) o x good = inr (HasHope-last os o x good)

  HasHope-before : (os ps : List (Ongoing Stream)) → HasHope os → HasHope (os ++ ps)
  HasHope-before [] ps h = absurd h
  HasHope-before (o ∷ os) ps (inl good) = inl good
  HasHope-before (o ∷ os) ps (inr h) = inr (HasHope-before os ps h)

  -- A failed attempt was not the one.
  HasHope-remove_at :
      (i : ℕ) (os : List (Ongoing Stream)) (o : Ongoing Stream) (e : IoError)
      → get_elem? os i ≡ some o
      → o.result ≡ err e
      → HasHope os
      → HasHope (remove_at i os)
  HasHope-remove_at i [] o e found bad h = absurd h
  HasHope-remove_at zero (p ∷ os) o e found bad (inl (x, good)) = absurd (
      ok_ne_err (
        sym (subst (λ (q : Ongoing Stream). q.result ≡ err e) (sym (some-injective found)) bad)
        ∙ good))
  HasHope-remove_at zero (p ∷ os) o e found bad (inr h) = h
  HasHope-remove_at (suc i) (p ∷ os) o e found bad (inl good) = inl good
  HasHope-remove_at (suc i) (p ∷ os) o e found bad (inr h) =
      inr (HasHope-remove_at i os o e found bad h)

module _ {Stream : Type 0} (network : IpAddr → ℕ → Answer Stream) (connect_timeout : ℕ) where
  -- A connection to this address is made in time.
  abbrev pub Connects : IpAddr → ℕ → Type 0
  Connects addr port =
      ((x : Stream) × ((network addr port).result ≡ ok x))
      × ((network addr port).after ≤ connect_timeout)

module _ {Stream : Type 0} (network : IpAddr → ℕ → Answer Stream) (connect_timeout delay : ℕ) where
  -- An address, or an attempt, will do.
  abbrev Hopeful : IpAddr → ℕ → Timed Stream → Type 0
  Hopeful addr port s = (s.port ≡ port) × (Memᴰ addr s.addrs ⊎ HasHope s.running)

  Connects-begin :
      (addr : IpAddr) (port : ℕ)
      → Connects network connect_timeout addr port
      → (x : Stream) × ((begin network connect_timeout addr port).result ≡ ok x)
  unfolding connect_with_timeout
  Connects-begin addr port ((x, good), in_time) =
      (x, rw (le→leb (network addr port).after connect_timeout in_time) good)

  Course-Hopeful :
      {s : Timed Stream} {events : List (Event Stream)} {time : ℕ}
      {r : Result Stream HappyEyeballsError} (addr : IpAddr) (port : ℕ)
      → Connects network connect_timeout addr port
      → Course network connect_timeout delay s events time r
      → Hopeful addr port s
      → (x : Stream) × (r ≡ ok x)
  Course-Hopeful addr port c (wins s i o stream found due e) h = (stream, refl)
  Course-Hopeful addr port c (loses s i o e events time r found due bad rest) (p, inl m) =
      Course-Hopeful addr port c rest (p, inl m)
  Course-Hopeful addr port c (loses s i o e events time r found due bad rest) (p, inr h) =
      Course-Hopeful addr port c rest (
        p,
        inr (
            HasHope-pass o.left (remove_at i s.running)
              (HasHope-remove_at i s.running o e found bad h)),
      )
  Course-Hopeful addr port c (waits s a addrs events time r more late rest) (p, inr h) =
      Course-Hopeful addr port c rest (p, inr (HasHope-before _ _ (HasHope-pass delay s.running h)))
  Course-Hopeful addr port c (waits s a addrs events time r more late rest) (p, inl m) =
      elim (Memᴰ.cases_cons (subst (Memᴰ addr) more m)) [
        | inl here ↦
            let good =
              subst (λ q. (x : Stream) × ((begin network connect_timeout a q).result ≡ ok x))
                (sym p)
                (Connects-begin a port
                  (subst (λ b. Connects network connect_timeout b port) here c)) in
            Course-Hopeful addr port c rest (
              p,
              inr (
                  HasHope-last (pass delay s.running) (begin network connect_timeout a s.port)
                    good.0 good.1),
            )
        | inr there ↦ Course-Hopeful addr port c rest (p, inl there)
      ]
  Course-Hopeful addr port c (fails s no_addrs none_running) (p, inl m) =
      absurd (Memᴰ.not-nil (subst (Memᴰ addr) no_addrs m))
  Course-Hopeful addr port c (fails s no_addrs none_running) (p, inr h) =
      absurd (subst HasHope none_running h)

  -- If a connection to one of the addresses is made within the timeout, whatever the others do, the
  -- race does not fail.
  pub Course-Connects :
      (first_addr : IpAddr) (addrs : List IpAddr) (port : ℕ) (addr : IpAddr)
      (events : List (Event Stream)) (time : ℕ) (r : Result Stream HappyEyeballsError)
      → Memᴰ addr (first_addr ∷ addrs)
      → Connects network connect_timeout addr port
      → Course network connect_timeout delay
          (start network connect_timeout first_addr addrs port)
          events
          time
          r
      → (x : Stream) × (r ≡ ok x)
  Course-Connects first_addr addrs port addr events time r m c h = elim (Memᴰ.cases_cons m) [
    | inl here ↦ Course-Hopeful addr port c h (
      refl,
      inr (
          inl (
            Connects-begin first_addr port
              (subst (λ b. Connects network connect_timeout b port) here c))),
    )
    | inr there ↦ Course-Hopeful addr port c h (refl, inl there)
  ]
