-- ===== src/Proxy/Server.antt =====
-- noxen-proxy/src/server/mod.rs: `Handler::run`, one connection from its first byte to the end of
-- the relay, which the shutdown of the server may cut short. The loop that spawns it is
-- `Listener`.
pub mod Semaphore
pub mod Senders
pub mod Listener
pub mod Moves
pub mod Permits
pub mod Promise
pub mod Draining
pub mod Tasks
use zc_splice_proxy.Base.{
  List, Option, none, some, Result, ok, err, [], ◌∷◌, ◌++◌, ◌≡◌, ◌⊎◌, inl, inr, refl,
}
use zc_splice_proxy.Std.Io.{IoError}
use zc_splice_proxy.Proxy.Relay.{Traffic}
use zc_splice_proxy.Proxy.Failure.{Socks5Error, to_io}
use zc_splice_proxy.Proxy.Handler.{
  Os, Task, done, ask, Call, Answer, Action, Socks5Context, Socks5Handler, request_processing, new,
}
use zc_splice_proxy.Proxy.Handler.Phases.{negotiate}
use zc_splice_proxy.Proxy.Handler.Requests.{handle}
use zc_splice_proxy.Proxy.Handler.Courses.{Always, Admits, negotiate-Admits}

-- `select!` between a task and `shutdown.recv()`: the calls that were made, and the result of the
-- task, or `none` where the shutdown came before the next answer.
pub data Selected {os : Os} {A : Type 0} : Task os A → List (Action os) → Option A → Type 0 where
  finished : (a : A) → Selected (done a) [] (some a)
  shut_down : (task : Task os A) → Selected task [] none
  answered :
      (call : Call os) (k : Answer os call → Task os A) (x : Answer os call) (acts : _) (r : _)
      → Selected (k x) acts r
      → Selected (ask call k) ((call, x) ∷ acts) r

-- `?` on the relay's result; the traffic is only logged.
abbrev pub relayed_result : Result Traffic IoError → Result (Unit {0}) IoError
relayed_result (ok traffic) = ok tt
relayed_result (err e) = err e

module _ {os : Os} {TR UR : Type 0} where
  -- How `Handler::run` may go, with the calls of its first two phases. The relay is the tunnel's
  -- strategy, which gives any result.
  pub data Served (ctx : Socks5Context os TR UR)
      : List (Action os) → Result (Unit {0}) IoError → Type 0 where
    negotiation_shut_down :
        (acts : _) → Selected (negotiate (new ctx)) acts none → Served ctx acts (ok tt)
    negotiation_failed :
        (acts : _) (e : Socks5Error)
        → Selected (negotiate (new ctx)) acts (some (err e))
        → Served ctx acts (err (to_io e))
    request_shut_down :
        (before acts : _) (h : _)
        → Selected (negotiate (new ctx)) before (some (ok h))
        → Selected (handle h) acts none
        → Served ctx (before ++ acts) (ok tt)
    request_failed :
        (before acts : _) (h : _) (e : Socks5Error)
        → Selected (negotiate (new ctx)) before (some (ok h))
        → Selected (handle h) acts (some (err e))
        → Served ctx (before ++ acts) (err (to_io e))
    relayed :
        (before acts : _) (h : _) (tunnel : _) (traffic : Result Traffic IoError)
        → Selected (negotiate (new ctx)) before (some (ok h))
        → Selected (handle h) acts (some (ok tunnel))
        → Served ctx (before ++ acts) (relayed_result traffic)

-- What a task always gives, it gives when it is not shut down.
pub Selected-Always :
    {os : Os} {A : Type 0} (task : Task os A) (P : List (Action os) → A → Type 0)
    (acts : List (Action os)) (a : A)
    → Selected task acts (some a)
    → Always task P
    → P acts a
Selected-Always _ P _ _ (finished a) h = h
Selected-Always _ P _ a (answered call k x acts _ s) h =
    Selected-Always (k x) (λ acts a. P ((call, x) ∷ acts) a) acts a s (h x)

module _ {os : Os} {TR UR : Type 0} (ctx : Socks5Context os TR UR) where
  -- A connection that was closed, or cut short, before method selection came to a handler.
  pub data NotAdmitted : List (Action os) → Result (Unit {0}) IoError → Type 0 where
    cut_short :
        (acts : _)
        → Selected (negotiate {TR = TR} {UR = UR} (new ctx)) acts none
        → NotAdmitted acts (ok tt)
    rejected :
        (acts : _) (e : Socks5Error)
        → Selected (negotiate {TR = TR} {UR = UR} (new ctx)) acts (some (err e))
        → NotAdmitted acts (err (to_io e))

  -- A connection whose requests are handled after the calls `before` admitted it.
  pub record Admitted (acts : List (Action os)) : Type 0 where
    pub before : List (Action os)
    pub after : List (Action os)
    pub handler : Socks5Handler os TR UR request_processing
    pub in_order : acts ≡ before ++ after
    pub admitted : Admits (new ctx) before (ok handler)

  admit :
      (before acts : List (Action os)) (h : Socks5Handler os TR UR request_processing)
      → Selected (negotiate (new ctx)) before (some (ok h))
      → Admitted (before ++ acts)
  admit before acts h s = record {
    before = before;
    after = acts;
    handler = h;
    in_order = refl;
    admitted =
        Selected-Always (negotiate (new ctx)) (Admits (new ctx)) before (ok h) s
          (negotiate-Admits (new ctx));
  }

  -- Whatever is answered and whenever the server shuts down, a connection ends before its requests
  -- are handled, or the calls before that admitted it: approved credentials, or a configuration that
  -- needs none and a client that asked for that.
  pub Served-Admitted :
      (acts : List (Action os)) (r : Result (Unit {0}) IoError)
      → Served ctx acts r
      → NotAdmitted acts r ⊎ Admitted acts
  Served-Admitted _ _ (negotiation_shut_down acts s) = inl (cut_short acts s)
  Served-Admitted _ _ (negotiation_failed acts e s) = inl (rejected acts e s)
  Served-Admitted _ _ (request_shut_down before acts h s s') = inr (admit before acts h s)
  Served-Admitted _ _ (request_failed before acts h e s s') = inr (admit before acts h s)
  Served-Admitted _ _ (relayed before acts h tunnel traffic s s') = inr (admit before acts h s)
