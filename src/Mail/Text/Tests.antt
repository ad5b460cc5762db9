-- ===== src/Mail/Text/Tests.antt =====
-- Texts of small mails.
use rssani.Base.{
  ◌≡◌, refl, true, none, some, [], ◌∷◌, ◌++◌, QString, codes, contains, starts_with, text_eq,
}
use rssani.Mail.{Mailer, mail_sender}
use rssani.Mail.Mime.{Letterhead, add_mime_body, body_front, content_type_name}
use rssani.Mail.Text.{
  mail_data, mail_header, commas, time_stamp, month_name, month_names, boundary, priority_string,
  mail_parts,
}
use rssani.Mail.Text.Fields.{fields_of}
use rssani.Mail.Text.Header.{header_fields, fields_of-mail_data}
use rssani.Mail.Text.Ended.{split_data, mail_data_cut}

abbrev papel : Letterhead
papel = record {
  id_hash = codes "0a1b";
  boundary_hash = codes "2c3d";
  local_host = codes "casa";
  day = codes "5";
  month = 3;
  year = codes "2024";
  time = codes "10:00:00";
  base64_of = λ path. none;
  file_name = λ path. path;
  suffix = λ path. [];
}

abbrev correo : QString → Mailer
correo body = record (mail_sender (codes "smtp") (codes "yo") (codes "tu" ∷ [])) {
  body = body;
  bcc = codes "oculto" ∷ [];
}

fields_of-mail_data_example : fields_of (mail_data papel (correo (codes "hola\nBcc: x"))) ≡ (
    codes "Message-ID: 0a1b@casa"
    ∷ codes "From: \"yo\" <yo>"
    ∷ codes "To: <tu>"
    ∷ codes "Subject: (no subject)"
    ∷ codes "Date: 5 Mar 2024 10:00:00"
    ∷ codes "MIME-Version: 1.0"
    ∷ codes "Content-Type: Multipart/Mixed; boundary=\"----=_NextPart_2c3d\""
    ∷ codes "X-Priority: 3    X-MSMail-Priority: Normal"
    ∷ codes "X-Mailer: QT4\r"
    ∷ codes "Reply-to: yo"
    ∷ codes "Return-Path: <yo>"
    ∷ [])
unfolding header_fields mail_sender commas time_stamp month_name month_names boundary text_eq
fields_of-mail_data_example =
    fields_of-mail_data papel (correo (codes "hola\nBcc: x"))
      (refl, (refl, (refl, (refl, (refl, (refl, (refl, (refl, (refl, (refl, (refl, tt)))))))))))

mail_data_cut_example :
    let m = correo (codes "a\r\n.\r\nQUIT") in
    (t x y : QString) × (split_data ((mail_data papel m ++ codes "\r\n.") ++ codes "\r\n")
      ≡ some (t, x ++ (codes "QUIT" ++ y)))
mail_data_cut_example =
    mail_data_cut papel (correo (codes "a\r\n.\r\nQUIT")) (codes "a") (codes "QUIT") refl

-- A body with such a line cuts the mail short.
body_with_dot :
    contains
      (mail_data papel (correo (codes "a\r\n.\r\nQUIT")) ++ codes "\r\n.\r")
      (codes "\r\n.\r\n")
    ≡ true
unfolding mail_data contains starts_with mail_header mail_sender commas time_stamp month_name
    month_names boundary priority_string text_eq mail_parts add_mime_body body_front
    content_type_name
body_with_dot = refl
