-- ===== src/Mail/Text/Header.antt =====
-- Proofs about mailsender.cpp.
-- The header of a mail, as its reader sees it.
use mathlib.Core.List.{append-nil}
use mathlib.Core.Path.{subst}
use rssani.Base.{
  ◌≡◌, refl, sym, ap, ◌∙◌, Bool, true, false, List, [], ◌∷◌, ◌++◌, if◌then◌else◌, QString, codes,
  is_empty, All, text_eq, not, ◌&&◌, map, take,
}
use rssani.Mail.{Mailer, Priority, high, normal, low}
use rssani.Mail.Mime.{Letterhead, line}
use rssani.Mail.Text.{
  time_stamp, priority_string, message_id_field, from_field, to_field, cc_field, content_type_field,
  replies, mail_header, mail_data, is_nil, commas, in_brackets, month_name, boundary,
}
use rssani.Mail.Text.Fields.{
  fields_of, unfolded, has_feed, begins_blank, attach, Reads, header_lines-line, line-fields,
  line-Reads, line_unless, line_if, end-Reads,
}

-- The fields of the priority. The normal one has one: its second line begins with blanks.
abbrev pub priority_fields : Priority → List QString
priority_fields low =
    codes "X-Priority: 5"
    ∷ codes "Priority: Non-Urgent"
    ∷ codes "X-MSMail-Priority: Low"
    ∷ codes "Importance: low"
    ∷ []
priority_fields high =
    codes "X-Priority: 1"
    ∷ codes "Priority: Urgent"
    ∷ codes "X-MSMail-Priority: High"
    ∷ codes "Importance: high"
    ∷ []
priority_fields normal = codes "X-Priority: 3    X-MSMail-Priority: Normal" ∷ []

folded-Reads :
    (s : QString) (fs : List QString)
    → Reads s fs
    → Reads
        (line (codes "X-Priority: 3") ++ (line (codes "    X-MSMail-Priority: Normal") ++ s))
        (codes "X-Priority: 3    X-MSMail-Priority: Normal" ∷ fs)
unfolding unfolded
folded-Reads s fs g = record {
  reads = λ hs.
      let second = codes "    X-MSMail-Priority: Normal" in
      ap unfolded (header_lines-line (codes "X-Priority: 3") (line second ++ s) refl refl)
      ∙ ap (attach (codes "X-Priority: 3"))
          (line-fields second s fs refl refl g.front (g.reads hs.1));
  front = refl;
}

priority_string-Reads :
    (p : Priority) (s : QString) (fs : List QString)
    → Reads s fs
    → Reads (priority_string p ++ s) (priority_fields p ++ fs)
unfolding priority_string
priority_string-Reads low s fs g = line-Reads (codes "X-Priority: 5") _ _ refl refl (
    line-Reads (codes "Priority: Non-Urgent") _ _ refl refl (
      line-Reads (codes "X-MSMail-Priority: Low") _ _ refl refl
        (line-Reads (codes "Importance: low") s fs refl refl g)))
priority_string-Reads high s fs g = line-Reads (codes "X-Priority: 1") _ _ refl refl (
    line-Reads (codes "Priority: Urgent") _ _ refl refl (
      line-Reads (codes "X-MSMail-Priority: High") _ _ refl refl
        (line-Reads (codes "Importance: high") s fs refl refl g)))
priority_string-Reads normal s fs g = folded-Reads s fs g

-- Addresses with a comma between each and the next.
abbrev pub joined : List QString → QString
joined [] = []
joined (x ∷ []) = x
joined (x ∷ y ∷ ys) = x ++ (b',' ∷ joined (y ∷ ys))

commas-joined : (xs : List QString) → commas true xs ≡ joined xs
unfolding commas
commas-joined [] = refl
commas-joined (x ∷ []) = append-nil x
commas-joined (x ∷ y ∷ ys) = ap (λ l. x ++ (b',' ∷ l)) (commas-joined (y ∷ ys))

brackets-map : (xs : List QString) → in_brackets xs ≡ map (λ x. b'<' ∷ (x ++ codes ">")) xs
brackets-map [] = refl
brackets-map (x ∷ xs) = ap (◌∷◌ (b'<' ∷ (x ++ codes ">"))) (brackets-map xs)

-- The header of a mail, field by field. The sender's address stands where a name does, and the name in
-- the place of the address.
unfoldable pub header_fields : Letterhead → Mailer → List QString
header_fields w m =
    let asks = not (is_empty m.reply_to) && not (text_eq m.confirm_to m.from) in
    (codes "Message-ID: " ++ (w.id_hash ++ (codes "@" ++ w.local_host)))
    ∷ (codes "From: \"" ++ (m.from ++ (codes "\" <" ++ (m.from_name ++ codes ">"))))
    ∷ ((if is_nil m.to
          then []
          else (codes "To: " ++ joined (map (λ x. b'<' ∷ (x ++ codes ">")) m.to)) ∷ [])
        ++ ((if is_nil m.cc then [] else (codes "Cc: " ++ joined m.cc) ∷ [])
            ++ ((codes "Subject: " ++ m.subject)
                ∷ (codes "Date: "
                    ++ (w.day
                        ++ (codes " "
                            ++ (month_name w.month
                                ++ (codes " " ++ (w.year ++ (codes " " ++ w.time)))))))
                ∷ codes "MIME-Version: 1.0"
                ∷ (codes "Content-Type: Multipart/Mixed; boundary=\"----=_NextPart_"
                    ++ (take 26 w.boundary_hash ++ codes "\""))
                ∷ (priority_fields m.priority
                    ++ (codes "X-Mailer: QT4\r"
                        ∷ ((if is_empty m.confirm_to
                              then []
                              else (codes "Disposition-Notification-To: " ++ m.confirm_to) ∷ [])
                            ++ ((if asks then (codes "Reply-to: " ++ m.reply_to) ∷ [] else [])
                                ++ ((if asks
                                      then (codes "Return-Path: <" ++ (m.reply_to ++ codes ">"))
                                        ∷ []
                                      else [])
                                    ++ []))))))))

to_field-joined :
    (m : Mailer) → to_field m ≡ codes "To: " ++ joined (map (λ x. b'<' ∷ (x ++ codes ">")) m.to)
to_field-joined m =
    ap (◌++◌ (codes "To: ")) (commas-joined (in_brackets m.to) ∙ ap joined (brackets-map m.to))

cc_field-joined : (m : Mailer) → cc_field m ≡ codes "Cc: " ++ joined m.cc
cc_field-joined m = ap (◌++◌ (codes "Cc: ")) (commas-joined m.cc)

-- The lines of recipients, as they are written and as they read.
unless_nil :
    (c : Bool) (t t' s : QString) (fs : List QString)
    → t ≡ t'
    → is_empty t' ≡ false
    → begins_blank t' ≡ false
    → Reads s fs
    → Reads ((if c then [] else line t) ++ s) ((if c then [] else t' ∷ []) ++ fs)
unless_nil c t t' s fs same e b g =
    subst (λ x. Reads ((if c then [] else line x) ++ s) ((if c then [] else t' ∷ []) ++ fs))
      (sym same) (line_unless c t' s fs e b g)

mail_data-Reads : (w : Letterhead) (m : Mailer) → Reads (mail_data w m) (header_fields w m)
unfolding mail_data mail_header header_fields time_stamp boundary
mail_data-Reads w m = line-Reads (message_id_field w) _ _ refl refl (
    line-Reads (from_field m) _ _ refl refl (
      unless_nil (is_nil m.to) (to_field m) _ _ _ (to_field-joined m) refl refl (
        unless_nil (is_nil m.cc) (cc_field m) _ _ _ (cc_field-joined m) refl refl (
          line-Reads (codes "Subject: " ++ m.subject) _ _ refl refl (
            line-Reads (time_stamp w) _ _ refl refl (
              line-Reads (codes "MIME-Version: 1.0") _ _ refl refl (
                line-Reads (content_type_field w) _ _ refl refl (
                  priority_string-Reads m.priority _ _ (
                    line-Reads (codes "X-Mailer: QT4\r") _ _ refl refl (
                      line_unless (is_empty m.confirm_to)
                        (codes "Disposition-Notification-To: " ++ m.confirm_to) _ _ refl refl
                        (line_if (replies m) (codes "Reply-to: " ++ m.reply_to) _ _ refl refl (
                          line_if (replies m) (codes "Return-Path: <" ++ (m.reply_to ++ codes ">"))
                            _ _ refl refl (end-Reads _)))))))))))))

-- Where no field has the end of a line in it, a reader of the mail's text, which takes LF as the end of
-- a line and unfolds lines that begin with a blank, finds exactly these fields up to the first empty
-- line, in this order: the addresses with commas between them, none for the blind copies, none without
-- recipients, one for the normal priority, and none from the body or an attachment, whatever they hold.
pub fields_of-mail_data :
    (w : Letterhead) (m : Mailer)
    → All (λ t. has_feed t ≡ false) (header_fields w m)
    → fields_of (mail_data w m) ≡ header_fields w m
fields_of-mail_data w m = (mail_data-Reads w m).reads
