-- ===== src/Mail/Text/Ended.antt =====
-- Proofs about mailsender.cpp.
-- Where the server takes the mail's text to end: RFC 5321 ends it with a line of one dot.
use mathlib.Core.List.{append_assoc}
use rssani.Base.{
  ℕ, zero, suc, ◌≡◌, ◌≤◌, refl, sym, ap, ◌∙◌, false, Option, none, some, [], ◌∷◌, ◌++◌, arith,
  if◌then◌else◌, QString, codes, starts_with, starts_with-append, starts_with-split, length, drop,
  length-append, Bool-cases, inl, inr, is_empty,
}
use rssani.Mail.{Mailer}
use rssani.Mail.Mime.{Letterhead, line, body_front, body_back, add_mime_body}
use rssani.Mail.Text.{
  time_stamp, priority_string, message_id_field, from_field, to_field, cc_field, content_type_field,
  replies, mail_header, mail_parts, mail_data, is_nil, delimiter, boundary, attached,
}

-- CR LF, a dot, CR LF.
abbrev pub terminator : QString
terminator = codes "\r\n.\r\n"

abbrev in_front : ℕ → Option (QString × QString) → Option (QString × QString)
in_front c none = none
in_front c (some (t, rest)) = some (c ∷ t, rest)

-- What the server takes as the text of the mail, up to the first terminator, and what it then reads as
-- commands.
unfoldable pub split_data : QString → Option (QString × QString)
split_data [] = none
split_data (c ∷ s) =
    let rest = split_data s in
    if starts_with (c ∷ s) terminator then some ([], drop 5 (c ∷ s)) else in_front c rest

drop-front : (n : ℕ) (s z : QString) → n ≤ length s → drop n (s ++ z) ≡ drop n s ++ z
drop-front zero s z h = refl
drop-front (suc n) [] z h = absurd (omega (arith, h))
drop-front (suc n) (c ∷ s) z h = drop-front n s z (omega arith)

-- The first terminator ends no later than any other.
Cut : QString → QString → Type 0
Cut s z = (t x : QString) × (split_data s ≡ some (t, x ++ z)) × (s ≡ t ++ (terminator ++ (x ++ z)))

in_front-Cut :
    (c : ℕ) (s z : QString) → starts_with (c ∷ s) terminator ≡ false → Cut s z → Cut (c ∷ s) z
unfolding Cut split_data
in_front-Cut c s z h (t, x, e, g) = (c ∷ t, x, ground (arith, h, e), ap (◌∷◌ c) g)

split_data-Cut : (a z : QString) → Cut (a ++ (terminator ++ z)) z
unfolding Cut split_data
split_data-Cut [] z = ([], [], ground (arith, starts_with-append terminator z), refl)
split_data-Cut (c ∷ a) z =
    let s = a ++ (terminator ++ z) in
    elim (Bool-cases (starts_with (c ∷ s) terminator)) [
      | inr later ↦ in_front-Cut c s z later (split_data-Cut a z)
      | inl found ↦
          let x = drop 5 (c ∷ (a ++ terminator)) in
          let left : drop 5 (c ∷ s) ≡ x ++ z =
            ap (λ l. drop 5 (c ∷ l)) (sym (append_assoc a terminator z))
            ∙ drop-front 5 (c ∷ (a ++ terminator)) z (omega (arith, length-append a terminator)) in
          (
            [],
            x,
            ground (arith, found, left),
            starts_with-split (c ∷ s) terminator found ∙ ap (λ l. terminator ++ l) left,
          )
    ]

-- A text that ends in another.
abbrev EndsIn : QString → QString → Type 0
EndsIn rest s = (front : QString) × (s ≡ front ++ rest)

behind : (a s rest : QString) → EndsIn rest s → EndsIn rest (a ++ s)
behind a s rest (front, e) = (a ++ front, ap (◌++◌ a) e ∙ sym (append_assoc a front rest))

mail_header-EndsIn :
    (w : Letterhead) (m : Mailer) (rest : QString) → EndsIn rest (mail_header w m rest)
unfolding mail_header
mail_header-EndsIn w m rest = behind (line (message_id_field w)) _ rest (
    behind (line (from_field m)) _ rest (
      behind (if is_nil m.to then [] else line (to_field m)) _ rest (
        behind (if is_nil m.cc then [] else line (cc_field m)) _ rest (
          behind (line (codes "Subject: " ++ m.subject)) _ rest (
            behind (line (time_stamp w)) _ rest (
              behind (line (codes "MIME-Version: 1.0")) _ rest (
                behind (line (content_type_field w)) _ rest (
                  behind (priority_string m.priority) _ rest (
                    behind (line (codes "X-Mailer: QT4\r")) _ rest (
                      behind
                        (if is_empty m.confirm_to
                          then []
                          else line (codes "Disposition-Notification-To: " ++ m.confirm_to))
                        _ rest
                        (behind (if replies m then line (codes "Reply-to: " ++ m.reply_to) else [])
                          _ rest
                          (behind
                            (if replies m
                              then line (codes "Return-Path: <" ++ (m.reply_to ++ codes ">"))
                              else [])
                            _ rest (behind (line []) rest rest ([], refl))))))))))))))

-- The body stands in the text as it is.
mail_data-body :
    (w : Letterhead) (m : Mailer)
    → (front back : QString) × (mail_data w m ≡ front ++ (m.body ++ back))
unfolding mail_data mail_parts add_mime_body
mail_data-body w m =
    let rest = attached w m.attachments ++ (codes "--" ++ (boundary w ++ codes "--\r\n\n")) in
    let back = body_back m ++ rest in
    let part : EndsIn (m.body ++ back) (add_mime_body m ++ rest) = (
      body_front m,
      append_assoc (body_front m) (m.body ++ body_back m) rest
          ∙ ap (◌++◌ (body_front m)) (append_assoc m.body (body_back m) rest),
    ) in
    let (f, e) = mail_header-EndsIn w m (mail_parts w m) in
    let (g, h) =
      behind (codes "This is a multi-part message in MIME format.\r\n\n") _ (m.body ++ back)
        (behind (delimiter w) _ (m.body ++ back) part) in
    (f ++ g, back, e ∙ ap (◌++◌ f) h ∙ sym (append_assoc f g (m.body ++ back)))

regroup :
    (front a t b back x y : QString)
    → ((front ++ ((a ++ (t ++ b)) ++ back)) ++ x) ++ y
      ≡ (front ++ a) ++ (t ++ (b ++ (back ++ (x ++ y))))
regroup front a t b back x y = simp append_assoc

-- A body with CR LF dot CR LF in it. Of the text that `send` writes behind DATA, with the dot and the
-- end of the line, the server takes only what is in front of the first of these; what stands behind
-- one in the body is in what it reads as commands.
pub mail_data_cut :
    (w : Letterhead) (m : Mailer) (a b : QString)
    → m.body ≡ a ++ (codes "\r\n.\r\n" ++ b)
    → (t x y : QString) × (split_data ((mail_data w m ++ codes "\r\n.") ++ codes "\r\n")
        ≡ some (t, x ++ (b ++ y)))
unfolding Cut
mail_data_cut w m a b h =
    let (front, back, e) = mail_data-body w m in
    let y = back ++ (codes "\r\n." ++ codes "\r\n") in
    let (t, x, cut, parts) = split_data-Cut (front ++ a) (b ++ y) in
    let text : (mail_data w m ++ codes "\r\n.") ++ codes "\r\n"
        ≡ (front ++ a) ++ (terminator ++ (b ++ y)) =
      ap (λ s. (s ++ codes "\r\n.") ++ codes "\r\n") (e ∙ ap (λ s. front ++ (s ++ back)) h)
      ∙ regroup front a terminator b back (codes "\r\n.") (codes "\r\n") in
    (t, x, y, ap split_data text ∙ cut)
