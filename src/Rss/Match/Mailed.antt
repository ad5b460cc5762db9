-- ===== src/Rss/Match/Mailed.antt =====
-- Proofs about `Rss_lite::parseTitle` and `Rss_lite::sendMail` of rss_lite.cpp.
-- `AlreadyNotified` is the answer only for a mail that the server has taken.
use rssani.Base.{
  ◌≡◌, ◌⊎◌, inl, inr, refl, sym, ap, ◌∙◌, Bool, true, Option, some, List, [], ◌∷◌, ◌++◌, arith, ℤ,
  pos, QString,
}
use mathlib.Core.Path.{subst}
use mathlib.Core.List.{append-nil}
use rssani.Model.{Regexp, Values}
use rssani.Mail.Socket.{Socket}
use rssani.Mail.{Mailer}
use rssani.Mail.Send.{Event, Session, send, opened}
use rssani.Mail.Send.Rules.{Ran, settled}
use rssani.Mail.Send.Retry.{Follows}
use rssani.Mail.Send.Script.{ehlo, helo, script, send-Follows}
use rssani.Mail.Notify.{mailer_of, send_mail, exito_zero}
use rssani.Rss.Types.{already_notified}
use rssani.Rss.Match.{World, scan, asunto, mensaje, mail_result, parse_title}

module _ (w : World) (seccion titulo enlace : QString) where
  abbrev code : ℤ
  code = w.send_mail_result (asunto w seccion titulo enlace) (mensaje w seccion titulo enlace)

  mail_result_zero : (n : ℤ) → mail_result w seccion titulo enlace n ≡ already_notified → n ≡ pos 0
  mail_result_zero n h = ground (arith, h)

  scan_notified :
      (lista : List Regexp)
      → (scan w seccion titulo enlace lista).0 ≡ already_notified
      → code ≡ pos 0
  unfolding scan
  scan_notified [] h = cc
  scan_notified (r ∷ rs) h = ground (arith, h, scan_notified rs, mail_result_zero code)

  parse_title_notified :
      (recientes : List QString) (lista : List Regexp)
      → (parse_title w seccion titulo enlace recientes lista).0 ≡ already_notified
      → code ≡ pos 0
  unfolding parse_title
  parse_title_notified recientes lista h = ground (arith, h, scan_notified lista)

  whole :
      (k : Socket) (s0 s : Session k) (l : List Event)
      → s0.events ≡ []
      → Ran k s0 l (some (true, s))
      → s.events ≡ l
  whole k s0 s l e (rest, q, done) =
      sym (append-nil s.events)
      ∙ ap (λ t. s.events ++ t) (sym (settled done))
      ∙ q
      ∙ ap (λ t. t ++ l) e

  followed :
      (k : Socket) (s0 s : Session k) (l l' : List Event) (r : Option (Bool × Session k))
      → s0.events ≡ []
      → r ≡ some (true, s)
      → Follows k s0 l l' r
      → (s.events ≡ l) ⊎ (s.events ≡ l')
  followed k s0 s l l' r e q (inl ran) = inl (whole k s0 s l e (subst (Ran k s0 l) q ran))
  followed k s0 s l l' r e q (inr ran) = inr (whole k s0 s l' e (subst (Ran k s0 l') q ran))

  -- Where the result of `sendMail` for the mail about this title is that of its run: the title is
  -- answered by `AlreadyNotified` only if the run is the whole dialogue, with `EHLO` or with `HELO`
  -- behind it, in which the server has taken every command and the text of the mail.
  pub parse_title-send_mail :
      (k : Socket) (encode_base64 : QString → QString) (mail_data : Mailer → QString) (v : Values)
      (recientes : List QString) (lista : List Regexp) (s : Session k)
      → send_mail k encode_base64 mail_data v
          (asunto w seccion titulo enlace)
          (mensaje w seccion titulo enlace)
        ≡ some (code, s)
      → (parse_title w seccion titulo enlace recientes lista).0 ≡ already_notified
      → let m = mailer_of v (asunto w seccion titulo enlace) (mensaje w seccion titulo enlace) in
        (s.events ≡ script ehlo encode_base64 (mail_data m) m)
        ⊎ (s.events ≡ script helo encode_base64 (mail_data m) m)
  unfolding send_mail
  parse_title-send_mail k encode_base64 mail_data v recientes lista s run h =
      let m = mailer_of v (asunto w seccion titulo enlace) (mensaje w seccion titulo enlace) in
      let r = send k encode_base64 (mail_data m) m in
      let zero = parse_title_notified recientes lista h in
      let went = exito_zero k encode_base64 mail_data r s (run ∙ ap (λ n. some (n, s)) zero) in
      followed k (opened k m) s _ _ r refl went (send-Follows k encode_base64 (mail_data m) m)
