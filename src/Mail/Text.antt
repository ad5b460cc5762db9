-- ===== src/Mail/Text.antt =====
-- `MailSender::mailData` and what it calls, but for the parts of Mail/Mime.antt. The trace of a file that
-- is attached is left out.
pub mod Fields
pub mod Header
pub mod Ended
mod Tests
use rssani.Base.{
  ℕ, Bool, true, false, not, ◌&&◌, Option, none, some, List, [], ◌∷◌, ◌++◌, ◌-◌, get_elem?,
  if◌then◌else◌, take, QString, codes, text_eq, is_empty, QHash, lookup,
}
use rssani.Mail.{Mailer, Priority, high, normal, low, ContentType, text_content, html_content}
use rssani.Mail.Mime.{
  Letterhead, line, crlf, content_type_name, get_mime_type, add_mime_attachment, body_front,
  add_mime_body,
}

-- `monthList.value( month - 1 )`.
pub month_names : List QString
month_names =
    codes "Jan"
    ∷ codes "Feb"
    ∷ codes "Mar"
    ∷ codes "Apr"
    ∷ codes "May"
    ∷ codes "Jun"
    ∷ codes "Jul"
    ∷ codes "Aug"
    ∷ codes "Sep"
    ∷ codes "Oct"
    ∷ codes "Nov"
    ∷ codes "Dec"
    ∷ []

pub month_name : ℕ → QString
month_name month = elim (get_elem? month_names (month - 1)) [ none ↦ [] | some name ↦ name ]

-- `timeStamp`.
pub time_stamp : Letterhead → QString
time_stamp w =
    codes "Date: "
    ++ (w.day ++ (b' ' ∷ (month_name w.month ++ (b' ' ∷ (w.year ++ (b' ' ∷ w.time))))))

-- `createBoundary`.
pub boundary : Letterhead → QString
boundary w = codes "----=_NextPart_" ++ take 26 w.boundary_hash

-- `priorityString`.
unfoldable pub priority_string : Priority → QString
priority_string low =
    line (codes "X-Priority: 5")
    ++ (line (codes "Priority: Non-Urgent")
        ++ (line (codes "X-MSMail-Priority: Low") ++ line (codes "Importance: low")))
priority_string high =
    line (codes "X-Priority: 1")
    ++ (line (codes "Priority: Urgent")
        ++ (line (codes "X-MSMail-Priority: High") ++ line (codes "Importance: high")))
priority_string normal =
    line (codes "X-Priority: 3") ++ line (codes "    X-MSMail-Priority: Normal")

-- The loops over `m_to` and `m_cc`, with their commas.
pub commas : Bool → List QString → QString
commas first [] = []
commas first (x ∷ xs) =
    let rest = commas false xs in (if first then [] else b',' ∷ []) ++ (x ++ rest)

abbrev in_brackets : List QString → List QString
in_brackets [] = []
in_brackets (x ∷ xs) = (b'<' ∷ (x ++ (b'>' ∷ []))) ∷ in_brackets xs

abbrev pub is_nil : List QString → Bool
is_nil [] = true
is_nil (x ∷ xs) = false

-- The lines of the header, without their ends.
abbrev pub message_id_field : Letterhead → QString
message_id_field w = codes "Message-ID: " ++ (w.id_hash ++ (b'@' ∷ w.local_host))

abbrev pub from_field : Mailer → QString
from_field m = codes "From: \"" ++ (m.from ++ (codes "\" <" ++ (m.from_name ++ codes ">")))

abbrev pub to_field : Mailer → QString
to_field m = codes "To: " ++ commas true (in_brackets m.to)

abbrev pub cc_field : Mailer → QString
cc_field m = codes "Cc: " ++ commas true m.cc

abbrev pub content_type_field : Letterhead → QString
content_type_field w =
    codes "Content-Type: Multipart/Mixed; boundary=\"" ++ (boundary w ++ codes "\"")

abbrev pub replies : Mailer → Bool
replies m = not (is_empty m.reply_to) && not (text_eq m.confirm_to m.from)

-- The header and the empty line in front of the rest.
unfoldable pub mail_header : Letterhead → Mailer → QString → QString
mail_header w m rest =
    line (message_id_field w)
    ++ (line (from_field m)
        ++ ((if is_nil m.to then [] else line (to_field m))
            ++ ((if is_nil m.cc then [] else line (cc_field m))
                ++ (line (codes "Subject: " ++ m.subject)
                    ++ (line (time_stamp w)
                        ++ (line (codes "MIME-Version: 1.0")
                            ++ (line (content_type_field w)
                                ++ (priority_string m.priority
                                    ++ (line (codes "X-Mailer: QT4\r")
                                        ++ ((if is_empty m.confirm_to
                                              then []
                                              else line (
                                                  codes "Disposition-Notification-To: "
                                                  ++ m.confirm_to))
                                            ++ ((if replies m
                                                  then line (codes "Reply-to: " ++ m.reply_to)
                                                  else [])
                                                ++ ((if replies m
                                                      then line (
                                                          codes "Return-Path: <"
                                                          ++ (m.reply_to ++ codes ">"))
                                                      else [])
                                                    ++ (line [] ++ rest)))))))))))))

-- The delimiter of a part.
abbrev pub delimiter : Letterhead → QString
delimiter w = line (codes "--" ++ boundary w)

pub attached : Letterhead → List QString → QString
attached w [] = []
attached w (path ∷ paths) = delimiter w ++ (add_mime_attachment w path ++ attached w paths)

pub mail_parts : Letterhead → Mailer → QString
mail_parts w m =
    codes "This is a multi-part message in MIME format.\r\n\n"
    ++ (delimiter w
        ++ (add_mime_body m
            ++ (attached w m.attachments ++ (codes "--" ++ (boundary w ++ codes "--\r\n\n")))))

unfoldable pub mail_data : Letterhead → Mailer → QString
mail_data w m = mail_header w m (mail_parts w m)
