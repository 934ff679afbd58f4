-- ===== src/Proxy/Handler.antt =====
-- noxen-proxy/src/handler/socks5: the phases of one connection. The world outside (the client's
-- framed stream, sockets, the clock, the authentication provider) is what answers calls, so the
-- handler is a tree of calls; any answer is possible. A call that runs under `time::timeout` is
-- answered `none` when the time passes first.
pub mod Phases
pub mod Requests
pub mod Courses
pub mod Handling
pub mod Outcomes
use zc_splice_proxy.Base.{
  Bool, List, Option, Result, [], false, ℕ, ◌||◌, ◌∷◌, err, none, ok, some, ◌==◌,
}
use zc_splice_proxy.Std.Utf8.{Bytes}
use zc_splice_proxy.Std.Io.{IoError, literal, unexpected_eof}
use zc_splice_proxy.Std.Net.{SocketAddr}
use zc_splice_proxy.Socks5.Error.{CodecError}
use zc_splice_proxy.Socks5.AuthMethod.{AuthMethod}
use zc_splice_proxy.Socks5.AuthMethod
use zc_splice_proxy.Socks5.AuthStatus
use zc_splice_proxy.Socks5.Reply
use zc_splice_proxy.Socks5.Address.{Address}
use zc_splice_proxy.Socks5.Address
use zc_splice_proxy.Socks5.Messages.{
  ClientGreeting, ServerGreeting, AuthRequest, AuthResponse, ClientRequest, ServerResponse,
}
use zc_splice_proxy.Socks5.Codec.Greeting
use zc_splice_proxy.Socks5.Codec.Auth
use zc_splice_proxy.Socks5.Codec.Request
use zc_splice_proxy.HappyEyeballs.Config.{HappyEyeballsError}
use zc_splice_proxy.Proxy.Auth.{AuthError}
use zc_splice_proxy.Proxy.Config.{Socks5Config}
use zc_splice_proxy.Proxy.Failure.{Socks5Error, from_codec}
use zc_splice_proxy.Proxy.Failure

-- `AuthMethod::eq`, for `contains`.
abbrev is_method : AuthMethod → AuthMethod → Bool
is_method m x = AuthMethod.code m == AuthMethod.code x

abbrev pub contains : List AuthMethod → AuthMethod → Bool
contains [] m = false
contains (x ∷ xs) m = is_method x m || contains xs m

-- The types that the libraries and the provider give.
pub record Os : Type 1 where
  pub Stream : Type 0
  pub Socket : Type 0
  pub Listener : Type 0
  pub Provider : Type 0

pub data Codec : Type 0 where
  greeting_codec auth_codec request_response_codec : Codec

abbrev pub Item : Codec → Type 0
Item greeting_codec = ClientGreeting
Item auth_codec = AuthRequest
Item request_response_codec = ClientRequest

pub data Message : Type 0 where
  greeting : ServerGreeting → Message
  auth : AuthResponse → Message
  response : ServerResponse → Message

module _ (os : Os) where
  -- `next` and `send` are those of the framed stream, with the codec in use. A number that comes
  -- first is the timeout that the call runs under.
  pub data Call : Type 0 where
    next : Codec → Call
    send : Message → Call
    shutdown : Call
    into_inner : Call
    authenticate : os.Provider → Bytes → Bytes → Call
    tcp_connect : ℕ → SocketAddr → Call
    happy_eyeballs_connect : ℕ → Bytes → ℕ → Call
    local_addr : os.Stream → Call
    listen : Call
    listener_addr : os.Listener → Call
    accept : ℕ → os.Listener → Call
    close : os.Listener → Call

  abbrev pub Answer : Call → Type 0
  Answer (next codec) = Option (Result (Item codec) CodecError)
  Answer (send message) = Result (Unit {0}) CodecError
  Answer shutdown = Result (Unit {0}) IoError
  Answer into_inner = os.Stream
  Answer (authenticate provider username password) = Result (Unit {0}) AuthError
  Answer (tcp_connect time addr) = Option (Result os.Stream IoError)
  Answer (happy_eyeballs_connect time host port) = Option (Result os.Stream HappyEyeballsError)
  Answer (local_addr stream) = Result SocketAddr IoError
  Answer listen = Result os.Listener IoError
  Answer (listener_addr listener) = Result SocketAddr IoError
  Answer (accept time listener) = Option (Result (os.Stream × SocketAddr) IoError)
  Answer (close listener) = Unit {0}

  -- A call with its answer.
  abbrev pub Action : Type 0
  Action = (call : Call) × Answer call

  -- What is left to do: nothing, or a call and what follows each answer.
  pub data Task (A : Type 0) : Type 0 where
    done : A → Task A
    ask : (call : Call) → (Answer call → Task A) → Task A

-- `?` and `.await`: a failure ends the task.
infixl 5 ◌>>=◌
abbrev pub ◌>>=◌ :
    {os : Os} {A B E : Type 0}
    → Task os (Result A E)
    → (A → Task os (Result B E))
    → Task os (Result B E)
done (ok a) >>= f = f a
done (err e) >>= f = done (err e)
ask call k >>= f = ask call (λ x. k x >>= f)

-- 0.0.0.0:0
unfoldable pub unspecified_address : Address
unspecified_address = Address.ipv4 (record { ip = 0 ∷ 0 ∷ 0 ∷ 0 ∷ []; port = 0 })

pub data Phase : Type 0 where
  method_selection authentication request_processing : Phase

-- The codec of a phase.
unfoldable pub codec : Phase → Codec
codec method_selection = greeting_codec
codec authentication = auth_codec
codec request_processing = request_response_codec

pub record Socks5Context (os : Os) (TR UR : Type 0) : Type 0 where
  pub tcp_relay_strategy : TR
  pub udp_relay_strategy : UR
  pub auth_provider : os.Provider
  pub config : Socks5Config

pub record Socks5Handler (os : Os) (TR UR : Type 0) (phase : Phase) : Type 0 where
  pub ctx : Socks5Context os TR UR

module _ {os : Os} {TR UR : Type 0} where
  abbrev pub into_state :
      {phase next_phase : Phase} → Socks5Handler os TR UR phase → Socks5Handler os TR UR next_phase
  into_state h = record { ctx = h.ctx }

  unfoldable pub new : Socks5Context os TR UR → Socks5Handler os TR UR method_selection
  new ctx = record { ctx = ctx }

-- `ok_or_else(UnexpectedEof)?.map_err(Into::into)`
abbrev pub received : {A : Type 0} → Option (Result A CodecError) → Result A Socks5Error
received none =
    err (Failure.io (record { kind = unexpected_eof; message = literal "unexpected end of file" }))
received (some (ok item)) = ok item
received (some (err e)) = err (from_codec e)

abbrev pub map_codec_err : Result (Unit {0}) CodecError → Result (Unit {0}) Socks5Error
map_codec_err (ok u) = ok u
map_codec_err (err e) = err (from_codec e)

module _ {os : Os} where
  abbrev pub recv : (phase : Phase) → Task os (Result (Item (codec phase)) Socks5Error)
  recv phase = ask (next (codec phase)) (λ x. done (received x))

  abbrev pub send_message : Message → Task os (Result (Unit {0}) Socks5Error)
  send_message m = ask (send m) (λ r. done (map_codec_err r))

  -- The connection is closed, and then the task ends with the error, whatever the answers.
  abbrev pub send_and_shutdown :
      {A : Type 0} → Message → Socks5Error → Task os (Result A Socks5Error)
  send_and_shutdown m e = ask (send m) (λ r. ask shutdown (λ r. done (err e)))
