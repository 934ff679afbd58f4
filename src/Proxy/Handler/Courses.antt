-- ===== src/Proxy/Handler/Courses.antt =====
-- The courses that method selection and authentication can take, whatever the answers are.
use zc_splice_proxy.Base.{
  Bool, List, Result, [], err, false, none, ok, refl, some, true, ◌&&◌, ◌∷◌, ◌≡◌, Bool-cases, inl,
  inr, and-true, ◌⊎◌,
}
use mathlib.Core.List.{Memᴰ}
use zc_splice_proxy.Socks5.Error.{CodecError}
use zc_splice_proxy.Socks5.AuthMethod.{
  AuthMethod, no_authentication_required, username_password, no_acceptable_methods,
}
use zc_splice_proxy.Socks5.AuthStatus.{success, failure}
use zc_splice_proxy.Socks5.Messages.{ClientGreeting, AuthRequest}
use zc_splice_proxy.Proxy.Auth.{AuthError}
use zc_splice_proxy.Proxy.Failure.{
  Socks5Error, from_codec, authentication_failed, no_acceptable_method,
}
use zc_splice_proxy.Proxy.Handler.{
  Os, Task, done, ask, ◌>>=◌, Call, Answer, Action, next, send, shutdown, authenticate,
  greeting_codec, auth_codec, auth, contains, codec, method_selection, authentication,
  request_processing, Socks5Handler, into_state, received, send_message,
}
use zc_splice_proxy.Proxy.Handler.Phases.{
  greet_with, settle_auth, authenticate_client, select_method, negotiate,
}

-- A task has a property of what it did and what it gave, whatever the answers to its calls.
abbrev pub Always : {os : Os} {A : Type 0} → Task os A → (List (Action os) → A → Type 0) → Type 0
Always (done a) P = P [] a
Always (ask call k) P = (x : _) → Always (k x) (λ acts a. P ((call, x) ∷ acts) a)

-- A property that follows from another one, whatever the answers.
pub Always-map :
    {os : Os} {A : Type 0} (task : Task os A) (P Q : List (Action os) → A → Type 0)
    → ((acts : List (Action os)) (a : A) → P acts a → Q acts a)
    → Always task P
    → Always task Q
Always-map (done a) P Q f h = f [] a h
Always-map (ask call k) P Q f h = λ x.
    Always-map (k x) (λ acts a. P ((call, x) ∷ acts) a) (λ acts a. Q ((call, x) ∷ acts) a)
      (λ acts a. f _ a) (h x)

-- What answers the calls, with a state of its own.
pub record Runtime (os : Os) : Type 1 where
  pub World : Type 0
  pub answer : (call : Call os) → World → Answer os call × World

unfoldable pub execute :
    {os : Os} {A : Type 0} (rt : Runtime os)
    → Task os A
    → rt.World
    → List (Action os) × A × rt.World
execute rt (done a) w = ([], a, w)
execute rt (ask call k) w =
    let (x, w') = rt.answer call w in
    let (acts, a, w'') = execute rt (k x) w' in ((call, x) ∷ acts, a, w'')

-- What holds whatever the answers are holds of the calls that were made, and of the result, when a
-- runtime with a state of its own answers.
pub execute-Always :
    {os : Os} {A : Type 0} (rt : Runtime os) (task : Task os A) (P : List (Action os) → A → Type 0)
    (w : rt.World)
    → Always task P
    → P (execute rt task w).0 (execute rt task w).1
unfolding execute
execute-Always rt (done a) P w h = h
execute-Always rt (ask call k) P w h =
    execute-Always rt (k (rt.answer call w).0) _ (rt.answer call w).1 (h (rt.answer call w).0)

-- The method that the server answers with, by the client's methods and the configuration.
pub data Chosen (allow_no_auth : Bool) (methods : List AuthMethod) : AuthMethod → Type 0 where
  password :
      contains methods username_password ≡ true → Chosen allow_no_auth methods username_password
  no_password :
      contains methods username_password ≡ false
      → allow_no_auth ≡ true
      → contains methods no_authentication_required ≡ true
      → Chosen allow_no_auth methods no_authentication_required
  nothing :
      contains methods username_password ≡ false
      → (allow_no_auth && contains methods no_authentication_required) ≡ false
      → Chosen allow_no_auth methods no_acceptable_methods

module _ {os : Os} {TR UR : Type 0} where
  -- What may follow the choice of a password.
  pub data Authentication (h : Socks5Handler os TR UR authentication)
      : List (Action os)
        → Result (Socks5Handler os TR UR request_processing) Socks5Error
        → Type 0 where
    no_credentials :
        (x : _) (e : Socks5Error)
        → received x ≡ err e
        → Authentication h ((next auth_codec, x) ∷ []) (err e)
    approved :
        (request : AuthRequest)
        → Authentication h
            ((next auth_codec, some (ok request))
              ∷ (authenticate h.ctx.auth_provider request.username request.password, ok tt)
              ∷ (send (auth (record { status = success })), ok tt)
              ∷ [])
            (ok (into_state h))
    approved_unsent :
        (request : AuthRequest) (e : CodecError)
        → Authentication h
            ((next auth_codec, some (ok request))
              ∷ (authenticate h.ctx.auth_provider request.username request.password, ok tt)
              ∷ (send (auth (record { status = success })), err e)
              ∷ [])
            (err (from_codec e))
    denied :
        (request : AuthRequest) (e : AuthError) (r : _) (r' : _)
        → Authentication h
            ((next auth_codec, some (ok request))
              ∷ (authenticate h.ctx.auth_provider request.username request.password, err e)
              ∷ (send (auth (record { status = failure })), r)
              ∷ (shutdown, r')
              ∷ [])
            (err (authentication_failed e))

  authenticate_client-Authentication :
      (h : Socks5Handler os TR UR authentication)
      → Always (authenticate_client h) (Authentication h)
  unfolding authenticate_client codec
  authenticate_client-Authentication h none = no_credentials none _ refl
  authenticate_client-Authentication h (some (err e)) = no_credentials (some (err e)) _ refl
  authenticate_client-Authentication h (some (ok request)) = settled
    where
      approval : Always (settle_auth h (ok tt)) (λ acts r.
          Authentication h
            ((next auth_codec, some (ok request))
              ∷ (authenticate h.ctx.auth_provider request.username request.password, ok tt)
              ∷ acts)
            r)
      approval (ok u) = approved request
      approval (err e) = approved_unsent request e

      settled :
          (x : Result (Unit {0}) AuthError)
          → Always (settle_auth h x) (λ acts r.
            Authentication h
              ((next auth_codec, some (ok request))
                ∷ (authenticate h.ctx.auth_provider request.username request.password, x)
                ∷ acts)
              r)
      settled (ok u) = approval
      settled (err e) = λ r r'. denied request e r r'

  -- What method selection may do, from the client's greeting on.
  pub data Negotiation (h : Socks5Handler os TR UR method_selection)
      : List (Action os)
        → Result (Socks5Handler os TR UR request_processing) Socks5Error
        → Type 0 where
    no_greeting :
        (x : _) (e : Socks5Error)
        → received x ≡ err e
        → Negotiation h ((next greeting_codec, x) ∷ []) (err e)
    choice_unsent :
        (hello : ClientGreeting) (m : AuthMethod) (e : CodecError)
        → Chosen h.ctx.config.allow_no_auth hello.methods m
        → Negotiation h
            ((next greeting_codec, some (ok hello)) ∷ (send (greet_with m), err e) ∷ [])
            (err (from_codec e))
    with_password :
        (hello : ClientGreeting) (acts : _) (r : _)
        → Chosen h.ctx.config.allow_no_auth hello.methods username_password
        → Authentication (into_state h) acts r
        → Negotiation h
            ((next greeting_codec, some (ok hello))
              ∷ (send (greet_with username_password), ok tt)
              ∷ acts)
            r
    without_password :
        (hello : ClientGreeting)
        → Chosen h.ctx.config.allow_no_auth hello.methods no_authentication_required
        → Negotiation h
            ((next greeting_codec, some (ok hello))
              ∷ (send (greet_with no_authentication_required), ok tt)
              ∷ [])
            (ok (into_state h))
    turned_away :
        (hello : ClientGreeting) (r : _) (r' : _)
        → Chosen h.ctx.config.allow_no_auth hello.methods no_acceptable_methods
        → Negotiation h
            ((next greeting_codec, some (ok hello))
              ∷ (send (greet_with no_acceptable_methods), r)
              ∷ (shutdown, r')
              ∷ [])
            (err no_acceptable_method)

  password_course :
      (h : Socks5Handler os TR UR method_selection) (hello : ClientGreeting)
      → Chosen h.ctx.config.allow_no_auth hello.methods username_password
      → Always
          (send_message (greet_with username_password) >>= λ sent.
            authenticate_client {os = os} {TR = TR} {UR = UR} (into_state h))
          (λ acts r. Negotiation h ((next greeting_codec, some (ok hello)) ∷ acts) r)
  password_course h hello c (ok u) =
      Always-map (authenticate_client (into_state h)) (Authentication (into_state h)) _
        (λ acts r. with_password hello acts r c) (authenticate_client-Authentication (into_state h))
  password_course h hello c (err e) = choice_unsent hello username_password e c

  open_course :
      (h : Socks5Handler os TR UR method_selection) (hello : ClientGreeting)
      → Chosen h.ctx.config.allow_no_auth hello.methods no_authentication_required
      → Always
          (send_message {os = os} (greet_with no_authentication_required) >>= λ sent.
            done (ok (into_state {next_phase = request_processing} h)))
          (λ acts r. Negotiation h ((next greeting_codec, some (ok hello)) ∷ acts) r)
  open_course h hello c (ok u) = without_password hello c
  open_course h hello c (err e) = choice_unsent hello no_authentication_required e c

  -- Whatever the client, the provider and the connection answer, method selection takes one of the
  -- courses of `Negotiation`.
  pub negotiate-Negotiation :
      (h : Socks5Handler os TR UR method_selection) → Always (negotiate h) (Negotiation h)
  unfolding negotiate codec select_method
  negotiate-Negotiation h none = no_greeting none _ refl
  negotiate-Negotiation h (some (err e)) = no_greeting (some (err e)) _ refl
  negotiate-Negotiation h (some (ok hello)) =
      elim (Bool-cases (contains hello.methods username_password)) [
        | inl offered ↦ rw offered (password_course h hello (password offered))
        | inr missing ↦
            elim (Bool-cases
              (h.ctx.config.allow_no_auth && contains hello.methods no_authentication_required)) [
                | inl allowed ↦
                    let (allow, offered) = and-true h.ctx.config.allow_no_auth _ allowed in
                    rw (missing, allowed) (open_course h hello (no_password missing allow offered))
                | inr closed ↦
                    rw (missing, closed) (λ r r'. turned_away hello r r' (nothing missing closed))
              ]
      ]

  abbrev Approved : Socks5Handler os TR UR method_selection → List (Action os) → Type 0
  Approved h acts =
      (request : AuthRequest) × Memᴰ (next auth_codec, some (ok request)) acts
      × Memᴰ (authenticate h.ctx.auth_provider request.username request.password, ok tt) acts

  abbrev AskedForNone : Socks5Handler os TR UR method_selection → List (Action os) → Type 0
  AskedForNone h acts =
      (hello : ClientGreeting) × Memᴰ (next greeting_codec, some (ok hello)) acts
      × (h.ctx.config.allow_no_auth ≡ true)
      × (contains hello.methods no_authentication_required ≡ true)
      × (contains hello.methods username_password ≡ false)

  -- What stands behind a handler that processes requests.
  abbrev pub Admits :
      Socks5Handler os TR UR method_selection
      → List (Action os)
      → Result (Socks5Handler os TR UR request_processing) Socks5Error
      → Type 0
  Admits h acts (ok h') = (h'.ctx ≡ h.ctx) × (Approved h acts ⊎ AskedForNone h acts)
  Admits h acts (err e) = Unit {0}

  admitted :
      (h : Socks5Handler os TR UR method_selection) (acts : List (Action os)) (r : _)
      → Negotiation h acts r
      → Admits h acts r
  admitted h _ _ (no_greeting x e i) = tt
  admitted h _ _ (choice_unsent hello m e c) = tt
  admitted h _ _ (turned_away hello r r' c) = tt
  admitted h _ _ (without_password hello (no_password no_word allow offered)) =
      (refl, inr (hello, Memᴰ.head refl, allow, offered, no_word))
  admitted h _ _ (with_password hello acts r c (no_credentials x e i)) = tt
  admitted h _ _ (with_password hello acts r c (approved_unsent request e)) = tt
  admitted h _ _ (with_password hello acts r c (denied request e r' r'')) = tt
  admitted h _ _ (with_password hello acts r c (approved request)) = (
    refl,
    inl (
      request,
      Memᴰ.tail (Memᴰ.tail (Memᴰ.head refl)),
      Memᴰ.tail (Memᴰ.tail (Memᴰ.tail (Memᴰ.head refl))),
    ),
  )

  -- Whatever is answered, whoever gets as far as the requests was approved by the provider, with
  -- credentials that were received; or the configuration allows no authentication and the client
  -- offered that and no password. The context is unchanged.
  pub negotiate-Admits :
      (h : Socks5Handler os TR UR method_selection) → Always (negotiate h) (Admits h)
  negotiate-Admits h =
      Always-map (negotiate h) (Negotiation h) (Admits h) (admitted h) (negotiate-Negotiation h)
