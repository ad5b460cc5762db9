-- ===== src/Mail/Notify.antt =====
-- rss_lite.cpp: `Rss_lite::sendMail`, which sets up a `MailSender` from the options and sends.
use rssani.Base.{
  ◌≡◌, refl, Bool, true, false, Option, none, some, [], ◌∷◌, All, ℤ, pos, negsuc, QString,
}
use rssani.Model.{Values}
use rssani.Mail.{
  Mailer, mail_sender, text_content, set_subject, set_body, set_content_type, set_login, set_ssl,
  set_port,
}
use rssani.Mail.Socket.{Socket}
use rssani.Mail.Send.{Session, send}
use rssani.Mail.Send.Secure.{IsHandshake, in_clear, send-in_clear}

unfoldable pub mailer_of : Values → QString → QString → Mailer
mailer_of v asunto mensaje =
    let m =
      set_body mensaje
        (set_subject asunto (mail_sender v.smtp_server v.from_mail (v.to_mail ∷ []))) in
    set_port v.smtp_port
      (set_ssl true (set_login v.smtp_login v.smtp_pass (set_content_type text_content m)))

module _ (k : Socket) (encode_base64 : QString → QString) (mail_data : Mailer → QString) where
  -- 0 for a mail that went out and -1 for one that did not.
  abbrev exito : Option (Bool × Session k) → Option (ℤ × Session k)
  exito none = none
  exito (some (true, s)) = some (pos 0, s)
  exito (some (false, s)) = some (negsuc 0, s)

  unfoldable pub send_mail : Values → QString → QString → Option (ℤ × Session k)
  unfolding mailer_of
  send_mail v asunto mensaje =
      let m = mailer_of v asunto mensaje in exito (send k encode_base64 (mail_data m) m)

  exito_of :
      (r : Option (Bool × Session k)) (code : ℤ) (s : Session k)
      → exito r ≡ some (code, s)
      → (went : Bool) × (r ≡ some (went, s))
  exito_of none code s e = cc
  exito_of (some (true, t)) code s e = (true, cc)
  exito_of (some (false, t)) code s e = (false, cc)

  pub exito_zero :
      (r : Option (Bool × Session k)) (s : Session k)
      → exito r ≡ some (pos 0, s)
      → r ≡ some (true, s)
  exito_zero none s e = cc
  exito_zero (some (true, t)) s e = cc
  exito_zero (some (false, t)) s e = cc

  -- Whatever the options are and however the server answers, `sendMail` writes nothing before the
  -- switch to TLS but `EHLO`, `HELO` and `STARTTLS`: the account, the addresses and the text of a mail
  -- go out encrypted or not at all.
  pub send_mail-in_clear :
      (v : Values) (asunto mensaje : QString) (code : ℤ) (s : Session k)
      → send_mail v asunto mensaje ≡ some (code, s)
      → All IsHandshake (in_clear s.events)
  unfolding send_mail mailer_of
  send_mail-in_clear v asunto mensaje code s e =
      let m = mailer_of v asunto mensaje in
      let (went, f) = exito_of (send k encode_base64 (mail_data m) m) code s e in
      send-in_clear k encode_base64 (mail_data m) m went s refl f
