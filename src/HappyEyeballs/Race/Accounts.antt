-- ===== src/HappyEyeballs/Race/Accounts.antt =====
-- What becomes of each address in the race of `connect_to_addresses`.
use zc_splice_proxy.Base.{
  ◌⊎◌, false, true, Bool-cases, List, [], arith, err, inl, inr, length, length-append, ltb, ltb→lt,
  ok, refl, suc, ℕ, ◌&&◌, ◌+◌, ◌<◌, ◌∷◌, ◌≡◌, false, true, ◌∙◌, ◌⊎◌, length-remove_at,
}
use zc_splice_proxy.Std.Io.{IoError}
use zc_splice_proxy.Std.Net.{IpAddr}
use zc_splice_proxy.HappyEyeballs.Config.{all_attempts_failed}
use zc_splice_proxy.HappyEyeballs.Race.{
  Attempt, Event, attempt_ended, delay_passed, Race, Outcome, waiting, returned, is_nil, settle,
  handle, run, connect_to_addresses, start_next,
}

-- Every address is still to be tried, under way, or failed with an error of its own.
abbrev pub tally : Race → ℕ
tally s = length s.addrs + length s.futures + length s.errors

-- Whether a race has something to wait for.
pub over_or_more {ℓ₁ ℓ₂} :
    {A : Type ℓ₁} {B : Type ℓ₂} (fs : List A) (bs : List B)
    → ((is_nil fs && is_nil bs) ≡ true) × (length fs ≡ 0) × (length bs ≡ 0)
      ⊎ ((is_nil fs && is_nil bs) ≡ false) × (0 < length bs + length fs)
over_or_more [] [] = inl (refl, refl, refl)
over_or_more [] (x ∷ xs) = inr (refl, omega arith)
over_or_more (f ∷ fs) bs = inr (refl, omega arith)

-- In a race over `n` addresses: while it goes on, there is something to wait for; a failure means
-- that each address has failed.
abbrev pub Accounts : {Stream : Type 0} → ℕ → Outcome Stream → Type 0
Accounts n (waiting s) = (tally s ≡ n) × (0 < length s.addrs + length s.futures)
Accounts n (returned (ok stream)) = Unit {0}
Accounts n (returned (err (all_attempts_failed errors))) = length errors ≡ n
Accounts n (returned (err _)) = ⊥

settle-Accounts :
    (Stream : Type 0) (n : ℕ) (s : Race)
    → tally s ≡ n
    → Accounts n (settle {Stream = Stream} (waiting s))
settle-Accounts Stream n s e = elim (over_or_more s.futures s.addrs) [
  | inl (over, no_futures, no_addrs) ↦ rw over (omega arith)
  | inr (more, some_left) ↦ rw more (e, some_left)
]

-- What starting the next attempt changes.
abbrev pub Started : Race → Race → Type 0
Started s s' =
    (tally s' ≡ tally s)
    × (0 < length s.addrs → length s'.addrs + tally s' < length s.addrs + tally s)
    × (length s'.errors ≡ length s.errors)

Started-from :
    (addrs : List IpAddr) (futures : List Attempt) (errors : List IoError) (port : ℕ)
    → let s : Race = record { addrs = addrs; futures = futures; errors = errors; port = port } in
      Started s (start_next s)
Started-from [] futures errors port = (refl, λ h. elim h [ ], refl)
Started-from (addr ∷ addrs) futures errors port =
    let count = length-append futures (record { addr = addr; port = port } ∷ []) in
    (omega (arith, count), λ h. omega (arith, count), refl)

pub started : (s : Race) → Started s (start_next s)
started s = Started-from s.addrs s.futures s.errors s.port

module _ {Stream : Type 0} where
  handle-Accounts :
      (n : ℕ) (s : Race) (event : Event Stream)
      → Accounts {Stream = Stream} n (waiting s)
      → Accounts n (settle (handle s event))
  unfolding handle
  handle-Accounts n s (attempt_ended i (ok stream)) h =
      elim (Bool-cases (ltb i (length s.futures))) [
        | inl in_flight ↦ rw in_flight tt
        | inr other ↦ rw other (settle-Accounts Stream n s h.0)
      ]
  handle-Accounts n s (attempt_ended i (err e)) h = elim (Bool-cases (ltb i (length s.futures))) [
    | inl in_flight ↦ rw in_flight (
        settle-Accounts Stream n _ (
          omega (
            arith,
            ltb→lt i _ in_flight,
            length-remove_at i s.futures,
            length-append s.errors (e ∷ []),
          )))
    | inr other ↦ rw other (settle-Accounts Stream n s h.0)
  ]
  handle-Accounts n s delay_passed h = settle-Accounts Stream n (start_next s) ((started s).0 ∙ h.0)

  run-Accounts :
      (n : ℕ) (o : Outcome Stream) (events : List (Event Stream))
      → Accounts n o
      → Accounts n (run o events)
  unfolding run
  run-Accounts n (returned r) events h = h
  run-Accounts n (waiting s) [] h = h
  run-Accounts n (waiting s) (event ∷ events) h =
      run-Accounts n (settle (handle s event)) events (handle-Accounts n s event h)

  -- Whatever happens, no address is forgotten: while the race goes on each one is to be tried, under
  -- way or failed, and some are not failed; `AllAttemptsFailed` carries one error for each address.
  pub connect_to_addresses-Accounts :
      (addrs : List IpAddr) (port : ℕ) (events : List (Event Stream))
      → Accounts (length addrs) (connect_to_addresses addrs port events)
  unfolding connect_to_addresses
  connect_to_addresses-Accounts [] port events = refl
  connect_to_addresses-Accounts (addr ∷ addrs) port events =
      run-Accounts (suc (length addrs))
        (waiting (record {
          addrs = addrs;
          futures = record { addr = addr; port = port } ∷ [];
          errors = [];
          port = port;
        }))
        events (omega arith, omega arith)
