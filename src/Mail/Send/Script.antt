-- ===== src/Mail/Send/Script.antt =====
-- The whole dialogue: which events it has, in which order, and what goes out before TLS.
use mathlib.Core.Path.{subst}
use rssani.Base.{
  ◌≡◌, refl, sym, ap, ◌∙◌, inl, inr, true, false, not, some, List, [], ◌∷◌, ◌++◌, Bool-cases,
  QString, codes, is_empty,
}
use rssani.Mail.{Mailer}
use rssani.Mail.Socket.{Socket}
use rssani.Mail.Send.{
  Event, command, accepted, starts_tls, Session, Act, read, written, send_command, hello, secure,
  log_in, deliver, mail_from, recipients, opened, send,
}
use rssani.Mail.Send.Rules.{
  if_events, recipient_events, Ran, Emits, >>-Emits, only_if-Emits, read-Emits, send_command-Emits,
  start_tls-Emits, quit-Emits, connect-Emits, send_recipients-Emits,
}
use rssani.Mail.Send.Retry.{
  read-Quiet, Follows, otherwise, retry-Follows, then-Follows, Follows-then,
}

abbrev pub exchange : QString → QString → List Event
exchange cmd code = command cmd ∷ accepted code ∷ []

abbrev pub ehlo : List Event
ehlo = exchange (codes "EHLO there") (codes "250")

-- `HELO` behind an `EHLO` that was refused.
abbrev pub helo : List Event
helo = command (codes "EHLO there") ∷ exchange (codes "HELO there") (codes "250")

abbrev pub secure_events : Mailer → List Event
secure_events m = if_events m.ssl (exchange (codes "STARTTLS") (codes "220") ++ starts_tls ∷ [])

abbrev pub log_in_events : (QString → QString) → Mailer → List Event
log_in_events encode_base64 m = if_events (not (is_empty m.login)) (
    exchange (codes "AUTH LOGIN") (codes "334")
    ++ (exchange (encode_base64 m.login) (codes "334")
        ++ exchange (encode_base64 m.password) (codes "235")))

abbrev pub deliver_events : QString → Mailer → List Event
deliver_events mail_data m =
    exchange (mail_from m) (codes "250")
    ++ (recipient_events (recipients m)
        ++ (exchange (codes "DATA") (codes "354")
            ++ (exchange (mail_data ++ codes "\r\n.") (codes "250")
                ++ (exchange (codes "QUIT") (codes "221") ++ []))))

-- The dialogue of a mail, with a greeting.
abbrev pub script : List Event → (QString → QString) → QString → Mailer → List Event
script greeting encode_base64 mail_data m =
    accepted (codes "220")
    ∷ (greeting
        ++ (secure_events m ++ (log_in_events encode_base64 m ++ deliver_events mail_data m)))

module _ (k : Socket) where
  open k use {Wire, is_connected, wait_for_ready_read, can_read_line, pending}

  send_command_up :
      (cmd waitfor : QString) (s : Session k)
      → is_connected s.wire ≡ true
      → send_command k cmd waitfor s ≡ read k waitfor (written k cmd s)
  unfolding send_command
  send_command_up cmd waitfor s h = rw h

  send_command_down :
      (cmd waitfor : QString) (s : Session k)
      → is_connected s.wire ≡ false
      → send_command k cmd waitfor s ≡ some (false, s)
  unfolding send_command
  send_command_down cmd waitfor s h = rw h

  hello-Follows : (s : Session k) → Follows k s ehlo helo (hello k s)
  unfolding hello
  hello-Follows s = elim (Bool-cases (is_connected s.wire)) [
    | inl up ↦
        let e = send_command_up (codes "EHLO there") (codes "250") s up in
        subst (Follows k s ehlo helo) (sym (ap (otherwise k second) e)) (
          retry-Follows k (codes "EHLO there") ehlo (exchange (codes "HELO there") (codes "250"))
            second s (read k (codes "250") (written k (codes "EHLO there") s))
            (subst (Ran k s ehlo) e (send_command-Emits k (codes "EHLO there") (codes "250") s))
            (read-Quiet k _ _) (send_command-Emits k (codes "HELO there") (codes "250")))
    | inr down ↦
        let e = send_command_down (codes "EHLO there") (codes "250") s down in
        let f = send_command_down (codes "HELO there") (codes "250") s down in
        subst (Follows k s ehlo helo) (sym (ap (otherwise k second) e ∙ f))
          (inl (ehlo, refl, inl refl))
  ]
    where
      second : Act k
      second = send_command k (codes "HELO there") (codes "250")

  secure-Emits : (m : Mailer) → Emits k (secure k m) (secure_events m)
  unfolding secure
  secure-Emits m = only_if-Emits k m.ssl _ _ (
      >>-Emits k _ _ _ _ (send_command-Emits k (codes "STARTTLS") (codes "220"))
        (start_tls-Emits k))

  log_in-Emits :
      (encode_base64 : QString → QString) (m : Mailer)
      → Emits k (log_in k encode_base64 m) (log_in_events encode_base64 m)
  unfolding log_in
  log_in-Emits encode_base64 m = only_if-Emits k (not (is_empty m.login)) _ _ (
      >>-Emits k _ _ _ _ (send_command-Emits k _ _)
        (>>-Emits k _ _ _ _ (send_command-Emits k _ _) (send_command-Emits k _ _)))

  deliver-Emits :
      (mail_data : QString) (m : Mailer)
      → Emits k (deliver k mail_data m) (deliver_events mail_data m)
  unfolding deliver
  deliver-Emits mail_data m = >>-Emits k _ _ _ _ (send_command-Emits k _ _) (
      >>-Emits k _ _ _ _ (send_recipients-Emits k (recipients m)) (
        >>-Emits k _ _ _ _ (send_command-Emits k _ _) (
          >>-Emits k _ _ _ _ (send_command-Emits k _ _)
            (>>-Emits k _ _ _ _ (send_command-Emits k _ _) (quit-Emits k)))))

  -- The events of `send` are those of the script, with `EHLO` or with `HELO` behind it, all of them
  -- if it returns true and a part from the beginning if it returns false.
  pub send-Follows :
      (encode_base64 : QString → QString) (mail_data : QString) (m : Mailer)
      → Follows k
          (opened k m)
          (script ehlo encode_base64 mail_data m)
          (script helo encode_base64 mail_data m)
          (send k encode_base64 mail_data m)
  unfolding send
  send-Follows encode_base64 mail_data m =
      then-Follows k _ [] _ _ (opened k m) _ (connect-Emits k (opened k m)) λ s.
        then-Follows k _ (accepted (codes "220") ∷ []) _ _ s _ (read-Emits k (codes "220") s) λ t.
          Follows-then k _ ehlo helo _ t (hello k t) (hello-Follows t) (
            >>-Emits k _ _ _ _ (secure-Emits m)
              (>>-Emits k _ _ _ _ (log_in-Emits encode_base64 m) (deliver-Emits mail_data m)))
