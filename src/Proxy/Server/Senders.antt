-- ===== src/Proxy/Server/Senders.antt =====
-- The senders of `shutdown_complete_tx` of noxen-proxy/src/server/mod.rs: who owns one.
use zc_splice_proxy.Base.{
  List, ℕ, Option, [], arith, false, get_elem?-lt-length, length, length-append, length-remove_at,
  length-set, refl, some, suc, sym, true, zero, ◌<◌, ◌∷◌, ◌≡◌,
}
use zc_splice_proxy.Proxy.Config.{ServerConfig}
use zc_splice_proxy.Proxy.Server.Semaphore.{Semaphore}
use zc_splice_proxy.Proxy.Server.Moves.{
  IsOpen, Move, takes, accepts, leaves_waiting, leaves_accepting, fails_to_accept, goes_on, ends,
  completes, times_out, run_ind,
}
use zc_splice_proxy.Proxy.Server.Listener.{
  negotiating, Connection, Stage, acquiring, accepting, draining, closed, Event, Server, start, run,
  drop_sender,
}

-- Each spawned task owns one, and the loop one more; the end is graceful when there is none.
abbrev pub Owned : Stage → List Connection → ℕ → Type 0
Owned acquiring cs senders = senders ≡ suc (length cs)
Owned (accepting permit) cs senders = senders ≡ suc (length cs)
Owned draining cs senders = senders ≡ length cs
Owned (closed true) cs senders = (senders ≡ 0) × (length cs ≡ 0)
Owned (closed false) cs senders = senders ≡ length cs

-- Another phase is no other owner.
set-Owned :
    (stage : Stage) (cs cs' : List Connection) (senders : ℕ)
    → IsOpen stage
    → length cs' ≡ length cs
    → Owned stage cs senders
    → Owned stage cs' senders
set-Owned acquiring cs cs' senders o same h = omega arith
set-Owned (accepting permit) cs cs' senders o same h = omega arith
set-Owned draining cs cs' senders o same h = omega arith
set-Owned (closed graceful) cs cs' senders o same h = absurd o

pub drop_sender_lem : (senders : ℕ) → 0 < senders → suc (drop_sender senders) ≡ senders
drop_sender_lem zero h = absurd (omega (arith, h))
drop_sender_lem (suc senders) h = refl

-- A task that ends takes its sender along.
remove_at-Owned :
    (stage : Stage) (cs cs' : List Connection) (senders : ℕ)
    → IsOpen stage
    → suc (length cs') ≡ length cs
    → Owned stage cs senders
    → Owned stage cs' (drop_sender senders)
remove_at-Owned acquiring cs cs' senders o same h = omega (arith, drop_sender_lem senders)
remove_at-Owned (accepting permit) cs cs' senders o same h = omega (arith, drop_sender_lem senders)
remove_at-Owned draining cs cs' senders o same h = omega (arith, drop_sender_lem senders)
remove_at-Owned (closed graceful) cs cs' senders o same h = absurd o

leave-Owned :
    (cs : List Connection) (senders : ℕ)
    → senders ≡ suc (length cs)
    → drop_sender senders ≡ length cs
leave-Owned cs senders h = omega (arith, drop_sender_lem senders)

module _ (sem : Semaphore) where
  pub Move-Owned :
      {event : Event} {limiter limiter' : Option sem.State} {stage stage' : Stage}
      {cs cs' : List Connection} {senders senders' : ℕ}
      → Move sem event limiter stage cs senders limiter' stage' cs' senders'
      → Owned stage cs senders
      → Owned stage' cs' senders'
  Move-Owned (takes g) h = h
  Move-Owned (accepts {cs} {permit}) h =
      omega (arith, h, length-append cs (record { phase = negotiating; permit = permit } ∷ []))
  Move-Owned (leaves_waiting {cs} {n}) h = leave-Owned cs n h
  Move-Owned (leaves_accepting {cs} {n}) h = leave-Owned cs n h
  Move-Owned (fails_to_accept {cs} {n}) h = leave-Owned cs n h
  Move-Owned (goes_on {stage} {cs} {n} i c phase o found) h =
      set-Owned stage cs _ n o (length-set cs i (record c { phase = phase })) h
  Move-Owned (ends {stage} {cs} {n} i c o found how) h =
      remove_at-Owned stage cs _ n o (length-remove_at i cs (get_elem?-lt-length cs i c found)) h
  Move-Owned (completes {cs}) h = (refl, sym h)
  Move-Owned times_out h = h

  pub run-Owned :
      (config : ServerConfig) (events : List Event) (s : Server sem)
      → run sem (start sem config) events ≡ some s
      → Owned s.stage s.connections s.shutdown_complete
  run-Owned config events s e =
      run_ind sem (λ s. Owned s.stage s.connections s.shutdown_complete)
        (λ event s t m. Move-Owned m) (start sem config) s events e (unfold start in refl)
