-- ===== src/Tests/Codecs.antt =====
-- The codecs on concrete frames.
use zc_splice_proxy.Base.{
  arith, All, [], if◌then◌else◌, leb, length, ltb, not, refl, true, ◌++◌, ◌∙◌, ◌∷◌, ◌≡◌, some,
}
use zc_splice_proxy.Std.Utf8.{Bytes, IsByte, is_utf8}
use zc_splice_proxy.Socks5.Error.{
  frame_too_large, invalid_version, invalid_auth_version, invalid_username_encoding,
  invalid_password_encoding, invalid_command,
}
use zc_splice_proxy.Socks5.Command
use zc_splice_proxy.Socks5.Reply
use zc_splice_proxy.Socks5.AddressType
use zc_splice_proxy.Socks5.Address.{Address}
use zc_splice_proxy.Socks5.Address
use zc_splice_proxy.Socks5.Messages.{
  ServerResponse, max_greeting_frame_size, max_auth_frame_size, max_request_frame_size,
}
use zc_splice_proxy.Socks5.Codec.Buffer.{frame, reject, incomplete}
use zc_splice_proxy.Socks5.Codec.Answers.{Answers}
use zc_splice_proxy.Socks5.Codec.Greeting
use zc_splice_proxy.Socks5.Codec.Greeting.Frames as GreetingFrames
use zc_splice_proxy.Socks5.Codec.Auth
use zc_splice_proxy.Socks5.Codec.Auth.Shape as AuthShape
use zc_splice_proxy.Socks5.Codec.Auth.Frames as AuthFrames
use zc_splice_proxy.Socks5.Codec.Request
use zc_splice_proxy.Socks5.Codec.Request.Frames as RequestFrames
use zc_splice_proxy.Socks5.Codec.Request.Contract
use zc_splice_proxy.Socks5.Codec.Request.Streaming
use zc_splice_proxy.Socks5.Codec.Request.Response

-- Method bytes, with two that are known.
abbrev offers : Bytes
offers = 0 ∷ 2 ∷ []

abbrev hello : Bytes
hello = GreetingFrames.wire offers

abbrev more : Bytes
more = 1 ∷ 3 ∷ []

decode-greeting-wire_example : Greeting.decode (hello ++ more) ≡ (
    if leb (length (hello ++ more)) max_greeting_frame_size
    then frame (GreetingFrames.greeting offers) more
    else reject frame_too_large (hello ++ more))
decode-greeting-wire_example = GreetingFrames.decode-greeting-wire offers more (omega arith)

decode_greeting-Answers_example : Answers (GreetingFrames.Whole hello) hello (Greeting.decode hello)
decode_greeting-Answers_example = GreetingFrames.decode_greeting-Answers hello

-- A greeting is read.
hello_read : Greeting.decode hello ≡ frame (GreetingFrames.greeting offers) []
hello_read = unfold Greeting.decode in ground arith

append_greeting_frame_example :
    Greeting.decode (hello ++ more) ≡ frame (GreetingFrames.greeting offers) ([] ++ more)
append_greeting_frame_example =
    GreetingFrames.append_greeting_frame hello more (GreetingFrames.greeting offers) []
      (omega arith) hello_read

abbrev socks4 : Bytes
socks4 = 4 ∷ 1 ∷ 0 ∷ []

socks4_refused : Greeting.decode socks4 ≡ reject invalid_version socks4
socks4_refused = unfold Greeting.decode in ground arith

decode_greeting_part_example : Greeting.decode (5 ∷ 2 ∷ 0 ∷ []) ≡ incomplete (5 ∷ 2 ∷ 0 ∷ [])
decode_greeting_part_example =
    GreetingFrames.decode_greeting_part offers (5 ∷ 2 ∷ 0 ∷ []) (2 ∷ []) (omega arith) (omega arith)
      refl (omega arith)

-- "ab" and "c".
abbrev name : Bytes
name = 97 ∷ 98 ∷ []

abbrev password : Bytes
password = 99 ∷ []

abbrev login : Bytes
login = AuthFrames.wire name password

decode_auth-wire_example : Auth.decode (login ++ more) ≡ (
    if ltb max_auth_frame_size (length (login ++ more))
    then reject frame_too_large (login ++ more)
    else if not (is_utf8 name)
    then reject invalid_username_encoding (login ++ more)
    else if not (is_utf8 password)
    then reject invalid_password_encoding (login ++ more)
    else frame (AuthShape.credentials name password) more)
decode_auth-wire_example =
    AuthFrames.decode_auth-wire name password more (omega arith) (omega arith)

decode_auth-Answers_example : Answers (AuthFrames.Whole login) login (Auth.decode login)
decode_auth-Answers_example = AuthFrames.decode_auth-Answers login

login_read : Auth.decode (login ++ []) ≡ frame (AuthShape.credentials name password) []
login_read =
    AuthFrames.decode_auth-wire name password [] (omega arith) (omega arith)
    ∙ unfold is_utf8 in refl

append_auth_frame_example :
    Auth.decode (login ++ more) ≡ frame (AuthShape.credentials name password) ([] ++ more)
append_auth_frame_example =
    AuthFrames.append_auth_frame login more (AuthShape.credentials name password) [] (omega arith)
      login_read

abbrev wrong : Bytes
wrong = 5 ∷ 1 ∷ 97 ∷ 1 ∷ 99 ∷ []

wrong_refused : Auth.decode wrong ≡ reject invalid_auth_version wrong
wrong_refused = unfold Auth.decode in ground arith

append_auth_reject_example :
    Auth.decode (wrong ++ more) ≡ reject invalid_auth_version (wrong ++ more)
append_auth_reject_example =
    AuthFrames.append_auth_reject wrong more invalid_auth_version (omega arith) wrong_refused

decode_auth_part_example : Auth.decode (1 ∷ 2 ∷ 97 ∷ []) ≡ incomplete (1 ∷ 2 ∷ 97 ∷ [])
decode_auth_part_example =
    AuthFrames.decode_auth_part name password (1 ∷ 2 ∷ 97 ∷ []) (98 ∷ 1 ∷ 99 ∷ []) (omega arith)
      (omega arith) (omega arith) refl (omega arith)

-- ab:80
abbrev target : Address
target = Address.domain name 80

abbrev visit : Bytes
visit = RequestFrames.wire Command.connect target

target_text : is_utf8 name ≡ true
target_text = unfold is_utf8 in refl

decode-request-wire_example : Request.decode (visit ++ more) ≡ (
    if ltb max_request_frame_size (length (visit ++ more))
    then reject frame_too_large (visit ++ more)
    else frame (RequestFrames.request Command.connect (RequestFrames.as_read target)) more)
decode-request-wire_example =
    RequestFrames.decode-request-wire Command.connect target more (target_text, omega arith)

visit_bytes : All IsByte visit
visit_bytes = unfold Command.code AddressType.code Address.atyp Address.port in ground arith

decode_request-Answers_example : Answers (Contract.Whole visit) visit (Request.decode visit)
decode_request-Answers_example = Contract.decode_request-Answers visit visit_bytes

visit_read : Request.decode visit ≡ frame (RequestFrames.request Command.connect target) []
visit_read = RequestFrames.decode-request-wire Command.connect target [] (target_text, omega arith)

append_request_frame_example :
    Request.decode (visit ++ more)
    ≡ frame (RequestFrames.request Command.connect target) ([] ++ more)
append_request_frame_example =
    Streaming.append_request_frame visit more (RequestFrames.request Command.connect target) []
      visit_bytes (unfold Command.code AddressType.code Address.atyp Address.port in omega arith)
      visit_read

-- A request with the command 9.
abbrev odd : Bytes
odd = 5 ∷ 9 ∷ 0 ∷ 1 ∷ []

odd_refused : Request.decode odd ≡ reject invalid_command odd
odd_refused = unfold Request.decode Command.try_from Request.decode_command in ground arith

append_request_reject_example : Request.decode (odd ++ more) ≡ reject invalid_command (odd ++ more)
append_request_reject_example =
    Streaming.append_request_reject odd more invalid_command (omega arith) odd_refused

decode_request_part_example : Request.decode (5 ∷ 1 ∷ 0 ∷ []) ≡ incomplete (5 ∷ 1 ∷ 0 ∷ [])
decode_request_part_example =
    Streaming.decode_request_part Command.connect target (5 ∷ 1 ∷ 0 ∷ [])
      (3 ∷ 2 ∷ 97 ∷ 98 ∷ 0 ∷ 80 ∷ []) (target_text, omega arith)
      (unfold Command.code AddressType.code Address.atyp Address.port in omega arith)
      (unfold Command.code AddressType.code Address.atyp Address.port in refl) (omega arith)

abbrev granted : ServerResponse
granted = record { reply = Reply.succeeded; bnd_address = target }

read_response-encode_example :
    ((buf : Bytes) → (Request.encode granted buf).1 ≡ buf ++ (Request.encode granted []).1)
    × (Response.read_response ((Request.encode granted []).1 ++ more)
        ≡ some (record granted { bnd_address = RequestFrames.as_read target }, more))
read_response-encode_example =
    Response.read_response-encode granted more (target_text, omega arith) (omega arith)
