-- ===== src/Mail.antt =====
-- mailsender.h and mailsender.cpp: the state of `MailSender`, and its parts as modules. `Socket` is
-- what the sender asks of Qt's sockets, `Send` the dialogue with the server, and `Text` the text of a
-- mail, with the parts in `Mime`.
pub mod Socket
pub mod Send
pub mod Notify
pub mod Mime
pub mod Text
use rssani.Base.{Bool, false, List, [], ◌∷◌, ◌++◌, ℤ, pos, QString, codes}

pub data Priority : Type 0 where
  high normal low : Priority

pub data ContentType : Type 0 where
  text_content html_content : ContentType

pub data Encoding : Type 0 where
  encoding_7bit encoding_8bit encoding_base64 : Encoding

-- The members of `MailSender` but the socket and the authenticator of its proxy.
pub record Mailer : Type 0 where
  pub smtp_server : QString
  pub port : ℤ
  pub timeout : ℤ
  pub login : QString
  pub password : QString
  pub ssl : Bool
  pub last_error : QString
  pub last_cmd : QString
  pub last_response : QString
  pub from : QString
  pub to : List QString
  pub subject : QString
  pub body : QString
  pub cc : List QString
  pub bcc : List QString
  pub attachments : List QString
  pub from_name : QString
  pub reply_to : QString
  pub priority : Priority
  pub content_type : ContentType
  pub encoding : QString
  pub charset : QString
  pub body_codec : QString
  pub confirm_to : QString

-- `setEncoding`: the name that it keeps.
abbrev pub encoding_name : Encoding → QString
encoding_name encoding_7bit = codes "7bit"
encoding_name encoding_8bit = codes "8bit"
encoding_name encoding_base64 = codes "base64"

abbrev pub set_smtp_server : QString → Mailer → Mailer
set_smtp_server a m = record m { smtp_server = a }

abbrev pub set_port : ℤ → Mailer → Mailer
set_port a m = record m { port = a }

abbrev pub set_timeout : ℤ → Mailer → Mailer
set_timeout a m = record m { timeout = a }

abbrev pub set_ssl : Bool → Mailer → Mailer
set_ssl a m = record m { ssl = a }

abbrev pub set_cc : List QString → Mailer → Mailer
set_cc a m = record m { cc = a }

abbrev pub set_bcc : List QString → Mailer → Mailer
set_bcc a m = record m { bcc = a }

abbrev pub set_attachments : List QString → Mailer → Mailer
set_attachments a m = record m { attachments = a }

abbrev pub set_reply_to : QString → Mailer → Mailer
set_reply_to a m = record m { reply_to = a }

abbrev pub set_priority : Priority → Mailer → Mailer
set_priority a m = record m { priority = a }

abbrev pub set_to : List QString → Mailer → Mailer
set_to a m = record m { to = a }

abbrev pub set_subject : QString → Mailer → Mailer
set_subject a m = record m { subject = a }

abbrev pub set_body : QString → Mailer → Mailer
set_body a m = record m { body = a }

abbrev pub set_from_name : QString → Mailer → Mailer
set_from_name a m = record m { from_name = a }

abbrev pub set_content_type : ContentType → Mailer → Mailer
set_content_type a m = record m { content_type = a }

abbrev pub set_login : QString → QString → Mailer → Mailer
set_login login password m = record m { login = login; password = password }

abbrev pub set_from : QString → Mailer → Mailer
set_from from m = record m { from = from; from_name = from; reply_to = from }

abbrev pub set_encoding : Encoding → Mailer → Mailer
set_encoding e m = record m { encoding = encoding_name e }

-- The members before the body of the constructor, which sets the two numbers, the flag and the kinds.
abbrev pub first_mailer : Mailer
first_mailer = record {
  smtp_server = [];
  port = pos 0;
  timeout = pos 0;
  login = [];
  password = [];
  ssl = false;
  last_error = [];
  last_cmd = [];
  last_response = [];
  from = [];
  to = [];
  subject = [];
  body = [];
  cc = [];
  bcc = [];
  attachments = [];
  from_name = [];
  reply_to = [];
  priority = normal;
  content_type = text_content;
  encoding = [];
  charset = [];
  body_codec = [];
  confirm_to = [];
}

abbrev set_charsets : QString → QString → Mailer → Mailer
set_charsets charset body_codec m = record m { charset = charset; body_codec = body_codec }

-- The constructor.
unfoldable pub mail_sender : QString → QString → List QString → Mailer
mail_sender smtp_server from to =
    let m =
      set_timeout (pos 30000) (set_port (pos 25) (set_smtp_server smtp_server first_mailer)) in
    let m = set_subject (codes "(no subject)") (set_to to (set_from from m)) in
    let m = set_encoding encoding_7bit (set_content_type text_content (set_priority normal m)) in
    set_ssl false (set_charsets (codes "utf-8") (codes "UTF-8") m)

-- `error`.
abbrev pub set_error : QString → Mailer → Mailer
set_error msg m = record m { last_error = msg }

-- The errors of a socket that `errorReceived` names, and all others.
pub data SocketError : Type 0 where
  connection_refused remote_host_closed host_not_found socket_access : SocketError
  socket_resource socket_timeout datagram_too_large network : SocketError
  address_in_use socket_address_not_available unsupported_socket_operation : SocketError
  proxy_authentication_required other_error : SocketError

pub socket_error_name : SocketError → QString
socket_error_name connection_refused = codes "ConnectionRefusedError"
socket_error_name remote_host_closed = codes "RemoteHostClosedError"
socket_error_name host_not_found = codes "HostNotFoundError"
socket_error_name socket_access = codes "SocketAccessError"
socket_error_name socket_resource = codes "SocketResourceError"
socket_error_name socket_timeout = codes "SocketTimeoutError"
socket_error_name datagram_too_large = codes "DatagramTooLargeError"
socket_error_name network = codes "NetworkError"
socket_error_name address_in_use = codes "AddressInUseError"
socket_error_name socket_address_not_available = codes "SocketAddressNotAvailableError"
socket_error_name unsupported_socket_operation = codes "UnsupportedSocketOperationError"
socket_error_name proxy_authentication_required = codes "ProxyAuthenticationRequiredError"
socket_error_name other_error = codes "Unknown Error"

-- `errorReceived`.
pub error_received : SocketError → Mailer → Mailer
error_received e = set_error (codes "Socket error [" ++ (socket_error_name e ++ codes "]"))

-- The member `m_authenticator`, of the type `A` of Qt, beside the others.
abbrev set_proxy_authenticator : {A : Type 0} → A → Mailer × A → Mailer × A
set_proxy_authenticator authenticator (m, a) = (m, authenticator)

-- `proxyAuthentication`: what it stores behind the pointer.
abbrev proxy_authentication : {A : Type 0} → Mailer × A → A
proxy_authentication (m, a) = a
