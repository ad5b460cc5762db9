-- ===== src/Mail/Send/Tests.antt =====
-- Runs of `send` against a server that answers by a fixed list of lines.
use rssani.Base.{
  ◌⊎◌, ℤ, pos, negsuc, length, arith, negsuc, ◌≡◌, ◌≤◌, refl, Bool, true, false, some, none, Option,
  List, [], ◌∷◌, QString, codes, length, length-append, arith, All, text_eq,
}
use rssani.Mail.{Mailer, mail_sender}
use rssani.Mail.Socket.{Socket}
use rssani.Mail.Send.{
  Event, command, accepted, starts_tls, Session, send, opened, connect, read, read_reply,
  read_lines, check_reply, send_command, hello, secure, log_in, deliver, send_recipients, quit,
}
use rssani.Mail.Send.Script.{ehlo, helo, script, send-Follows}
use rssani.Mail.Send.Retry.{Follows}
use rssani.Mail.Send.Secure.{IsHandshake, in_clear, send-in_clear}
use rssani.Mail.Send.Total.{send-Returns}
use rssani.Mail.Notify.{mailer_of, send_mail}
use rssani.Mail.Socket.{Socket}
use rssani.Rss.Match.{World, verdict, scan, parse_title, asunto, mensaje}
use rssani.Rss.Match.Mailed.{parse_title-send_mail}
use rssani.Mail.Send.Answers.{next_line, server, willing}
use rssani.Model.{Regexp, Values, default_values}

-- It refuses `STARTTLS`.
abbrev unwilling : Socket
unwilling = server (codes "220" ∷ codes "500" ∷ codes "250" ∷ codes "454" ∷ [])

abbrev mailer : Mailer
mailer = record (mail_sender (codes "smtp.x") (codes "a@x") (codes "b@x" ∷ [])) {
  ssl = true;
  login = codes "a";
  password = codes "p";
}

abbrev same : QString → QString
same t = t

abbrev commands : List Event → List QString
commands [] = []
commands (command c ∷ l) = c ∷ commands l
commands (accepted c ∷ l) = commands l
commands (starts_tls ∷ l) = codes "(TLS)" ∷ commands l

abbrev outcome : {k : Socket} → Option (Bool × Session k) → Option (Bool × List QString)
outcome none = none
outcome (some (went, s)) = some (went, commands s.events)

sends_all :
    outcome (send willing same (codes "text") mailer)
    ≡ some (
      true,
      codes "EHLO there"
          ∷ codes "STARTTLS"
          ∷ codes "(TLS)"
          ∷ codes "AUTH LOGIN"
          ∷ codes "a"
          ∷ codes "p"
          ∷ codes "MAIL FROM:<a@x>"
          ∷ codes "RCPT TO:<b@x>"
          ∷ codes "DATA"
          ∷ codes "text\r\n."
          ∷ codes "QUIT"
          ∷ [],
    )
unfolding mail_sender send connect read read_reply read_lines check_reply send_command hello secure
    log_in deliver send_recipients quit text_eq
sends_all = refl

stops_without_tls :
    outcome (send unwilling same (codes "text") mailer)
    ≡ some (false, codes "EHLO there" ∷ codes "HELO there" ∷ codes "STARTTLS" ∷ [])
unfolding mail_sender send connect read read_reply read_lines check_reply send_command hello secure
    log_in deliver send_recipients quit text_eq
stops_without_tls = refl

send-Follows_example :
    Follows willing
      (opened willing mailer)
      (script ehlo same (codes "text") mailer)
      (script helo same (codes "text") mailer)
      (send willing same (codes "text") mailer)
send-Follows_example = send-Follows willing same (codes "text") mailer

abbrev refused : Session unwilling
refused = record {
  mailer = record mailer {
    last_error = codes "waiting for 220, received 454";
    last_cmd = codes "STARTTLS";
    last_response = codes "454 done";
  };
  wire = [];
  events =
      accepted (codes "220")
      ∷ command (codes "EHLO there")
      ∷ command (codes "HELO there")
      ∷ accepted (codes "250")
      ∷ command (codes "STARTTLS")
      ∷ [];
}

send-in_clear_example : All IsHandshake (in_clear refused.events)
unfolding mail_sender send connect read read_reply read_lines check_reply send_command hello secure
    log_in deliver send_recipients quit text_eq
send-in_clear_example = send-in_clear unwilling same (codes "text") mailer false refused refl refl

replies_are_long : (w : List QString) → willing.can_read_line w ≡ true → 4 ≤ length (next_line w).0
replies_are_long [] h = cc
replies_are_long (c ∷ cs) h = omega (arith, length-append c (codes " done"))

send-Returns_example :
    (r : Bool × Session willing) × (send willing same (codes "text") mailer ≡ some r)
send-Returns_example = send-Returns willing replies_are_long same (codes "text") mailer

abbrev opciones : Values
opciones = record default_values {
  from_mail = codes "a@x";
  to_mail = codes "b@x";
  smtp_login = codes "a";
}

-- A world in which every rule matches, and the mail goes out.
abbrev mundo : World
mundo = record {
  today = pos 100;
  now = 1000;
  date_from_string = λ s. negsuc 0;
  days_to = λ a b. pos 0;
  search = λ pattern text. true;
  url_host = λ u. u;
  matches_opens = true;
  send_mail_result = λ a m. pos 0;
  stamp = codes "host";
}

abbrev avisa : Regexp
avisa = record {
  nombre = codes "Uno";
  vencimiento = [];
  mail = true;
  tracker = [];
  dias_descarga = pos 1;
  fecha_descarga = none;
  activa = true;
}

abbrev text_of : Mailer → QString
text_of m = m.body

abbrev or_opened : Option (ℤ × Session willing) → Session willing
or_opened none = opened willing (mailer_of opciones [] [])
or_opened (some (n, s)) = s

abbrev asunto_uno : QString
asunto_uno = asunto mundo [] (codes "Uno") (codes "l")

abbrev mensaje_uno : QString
mensaje_uno = mensaje mundo [] (codes "Uno") (codes "l")

abbrev enviado : Session willing
enviado = or_opened (send_mail willing same text_of opciones asunto_uno mensaje_uno)

parse_title-send_mail_example :
    let m = mailer_of opciones asunto_uno mensaje_uno in
    (enviado.events ≡ script ehlo same (text_of m) m)
    ⊎ (enviado.events ≡ script helo same (text_of m) m)
unfolding mailer_of mail_sender send_mail send connect read read_reply read_lines check_reply
    send_command hello secure log_in deliver send_recipients quit text_eq parse_title scan verdict
parse_title-send_mail_example =
    parse_title-send_mail mundo [] (codes "Uno") (codes "l") willing same text_of opciones []
      (avisa ∷ []) enviado refl refl
