-- ===== src/Mail/Send.antt =====
-- `MailSender::send`, `sendCommand` and `read`. A run keeps the events of the dialogue in order.
-- `errorReceived` runs inside the waits and writes only the last error; a run leaves it out.
pub mod Rules
pub mod Retry
pub mod Script
pub mod Secure
pub mod Total
pub mod Answers
mod Tests
use rssani.Base.{
  ℕ, zero, suc, Bool, true, false, not, Option, none, some, List, [], ◌∷◌, ◌++◌, ◌==◌,
  if◌then◌else◌, get_elem?, take, QString, codes, text_eq, is_empty,
}
use rssani.Mail.{Mailer, set_error}
use rssani.Mail.Socket.{Socket}

-- A command written, a reply read that had the expected code, and the switch to TLS.
pub data Event : Type 0 where
  command accepted : QString → Event
  starts_tls : Event

abbrev pub rcpt : QString → QString
rcpt recipient = codes "RCPT TO:<" ++ (recipient ++ codes ">")

abbrev pub waiting : QString → QString → QString
waiting waitfor prefix = codes "waiting for " ++ (waitfor ++ (codes ", received " ++ prefix))

abbrev pub mail_from : Mailer → QString
mail_from m = codes "MAIL FROM:<" ++ (m.from ++ codes ">")

abbrev pub recipients : Mailer → List QString
recipients m = m.to ++ (m.cc ++ m.bcc)

module _ (k : Socket) where
  open k use {
    Wire, connect_to_host, is_connected, wait_for_connected, wait_for_ready_read, can_read_line,
    read_line, write, start_client_encryption, disconnect_from_host, pending,
  }

  pub record Session : Type 0 where
    pub mailer : Mailer
    pub wire : Wire
    pub events : List Event

  -- A step returns whether it went well. `none` is a character read out of range.
  abbrev pub Act : Type 0
  Act = Session → Option (Bool × Session)

  -- `if ( !a ) return false; b`.
  infixr 5 ◌>>◌
  abbrev pub ◌>>◌ : Act → Act → Act
  ◌>>◌ a b s = elim (a s) [
    | none ↦ none
    | some (went, s') ↦ elim went [ true ↦ b s' | false ↦ some (false, s') ]
  ]

  -- `if ( !a ) if ( !b ) return false;`.
  abbrev pub or_else : Act → Act → Act
  or_else a b s = elim (a s) [
    | none ↦ none
    | some (went, s') ↦ elim went [ true ↦ some (true, s') | false ↦ b s' ]
  ]

  abbrev pub skip : Act
  skip s = some (true, s)

  abbrev pub only_if : Bool → Act → Act
  only_if b a s = elim b [ true ↦ a s | false ↦ some (true, s) ]

  abbrev pub fail_with : QString → Act
  fail_with msg s = some (false, record s { mailer = set_error msg m })
    where
      open s use {mailer as m}

  -- `do { line = readLine(); } while ( canReadLine() && line[3] != ' ' );` on fuel.
  pub read_lines : ℕ → Wire → Option (QString × Wire)
  read_lines zero w = none
  read_lines (suc fuel) w =
      let (line, w') = read_line w in
      elim (can_read_line w') [
        | false ↦ some (line, w')
        | true ↦ elim (get_elem? line 3) [
          | none ↦ none
          | some c ↦ elim (c == b' ') [ true ↦ some (line, w') | false ↦ read_lines fuel w' ]
        ]
      ]

  -- The reply at hand is compared by its first three characters.
  pub check_reply : QString → QString → Act
  check_reply waitfor line s =
      let m = record m0 { last_response = line } in
      if text_eq (take 3 line) waitfor
      then some (true, record s { mailer = m; events = s.events ++ accepted waitfor ∷ [] })
      else some (false, record s { mailer = set_error (waiting waitfor (take 3 line)) m })
    where
      open s use {mailer as m0}

  -- The lines that are there; the fuel is their number.
  pub read_reply : QString → Act
  read_reply waitfor s = elim (read_lines (suc (pending s.wire)) s.wire) [
    | none ↦ none
    | some (line, w) ↦ check_reply waitfor line (record s { wire = w })
  ]

  -- `MailSender::read`.
  unfoldable pub read : QString → Act
  unfolding read_reply check_reply
  read waitfor s =
      let (ready, w) = wait_for_ready_read s.mailer.timeout s.wire in
      if not (is_connected s.wire)
      then some (false, s)
      else if not ready
      then fail_with (codes "Read timeout") (record s { wire = w })
      else if not (can_read_line w)
      then fail_with (codes "Can't read") (record s { wire = w })
      else read_reply waitfor (record s { wire = w })

  abbrev pub written : QString → Session → Session
  written cmd s = record s {
    wire = write (cmd ++ codes "\r\n") s.wire;
    mailer = record m { last_cmd = cmd };
    events = s.events ++ command cmd ∷ [];
  }
    where
      open s use {mailer as m}

  unfoldable pub send_command : QString → QString → Act
  send_command cmd waitfor s =
      if not (is_connected s.wire) then some (false, s) else read waitfor (written cmd s)

  abbrev pub start_tls : Act
  start_tls s = some (
    true,
    record s { wire = start_client_encryption s.wire; events = s.events ++ starts_tls ∷ [] },
  )

  -- `waitForConnected`.
  pub connect : Act
  connect s =
      let (up, w) = wait_for_connected m.timeout s.wire in
      if not up
      then fail_with (codes "Time out connecting host") (record s { wire = w })
      else some (true, record s { wire = w })
    where
      open s use {mailer as m}

  pub send_recipients : List QString → Act
  send_recipients [] = skip
  send_recipients (r ∷ rs) = send_command (rcpt r) (codes "250") >> send_recipients rs

  pub quit : Act
  quit s = some (true, record s { wire = disconnect_from_host s.wire })

  pub hello : Act
  hello =
      or_else (send_command (codes "EHLO there") (codes "250"))
        (send_command (codes "HELO there") (codes "250"))

  -- The socket is a `QSslSocket` whenever `m_ssl` holds, so its cast before the encryption does not
  -- fail.
  pub secure : Mailer → Act
  secure m = only_if m.ssl (send_command (codes "STARTTLS") (codes "220") >> start_tls)

  pub log_in : (QString → QString) → Mailer → Act
  log_in encode_base64 m = only_if (not (is_empty m.login)) (
      send_command (codes "AUTH LOGIN") (codes "334")
      >> send_command (encode_base64 m.login) (codes "334")
      >> send_command (encode_base64 m.password) (codes "235"))

  pub deliver : QString → Mailer → Act
  deliver mail_data m =
      send_command (mail_from m) (codes "250")
      >> send_recipients (recipients m)
      >> send_command (codes "DATA") (codes "354")
      >> send_command (mail_data ++ codes "\r\n.") (codes "250")
      >> send_command (codes "QUIT") (codes "221")
      >> quit

  abbrev pub opened : Mailer → Session
  opened m0 = record {
    mailer = record m0 { last_error = [] };
    wire = connect_to_host m0.smtp_server m0.port;
    events = [];
  }

  -- `send`, with `encodeBase64` and the text that `mailData` builds as arguments.
  unfoldable pub send : (QString → QString) → QString → Mailer → Option (Bool × Session)
  send encode_base64 mail_data m =
      (connect
          >> read (codes "220")
          >> hello
          >> secure m
          >> log_in encode_base64 m
          >> deliver mail_data m)
        (opened m)
