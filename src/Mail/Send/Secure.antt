-- ===== src/Mail/Send/Secure.antt =====
-- What the sender writes before the connection is encrypted.
use rssani.Base.{
  ◌≡◌, refl, ◌⊎◌, inl, inr, Bool, true, some, List, [], ◌∷◌, ◌++◌, All, QString, codes,
}
use mathlib.Core.Path.{subst}
use rssani.Mail.{Mailer}
use rssani.Mail.Socket.{Socket}
use rssani.Mail.Send.{Event, command, accepted, starts_tls, Session, opened, send}
use rssani.Mail.Send.Rules.{Ran}
use rssani.Mail.Send.Script.{ehlo, helo, script, send-Follows}

-- The commands that go out before the switch to TLS.
pub in_clear : List Event → List QString
in_clear [] = []
in_clear (command c ∷ l) = c ∷ in_clear l
in_clear (accepted c ∷ l) = in_clear l
in_clear (starts_tls ∷ l) = []

-- A command that says nothing of the mail or of the account.
abbrev pub IsHandshake : QString → Type 0
IsHandshake c = (c ≡ codes "EHLO there") ⊎ ((c ≡ codes "HELO there") ⊎ (c ≡ codes "STARTTLS"))

in_clear_prefix :
    (l rest : List Event) → All IsHandshake (in_clear (l ++ rest)) → All IsHandshake (in_clear l)
unfolding in_clear
in_clear_prefix [] rest h = tt
in_clear_prefix (command c ∷ l) rest h = (h.0, in_clear_prefix l rest h.1)
in_clear_prefix (accepted c ∷ l) rest h = in_clear_prefix l rest h
in_clear_prefix (starts_tls ∷ l) rest h = tt

in_clear-script :
    (encode_base64 : QString → QString) (mail_data : QString) (m : Mailer)
    → m.ssl ≡ true
    → All IsHandshake (in_clear (script ehlo encode_base64 mail_data m))
      × All IsHandshake (in_clear (script helo encode_base64 mail_data m))
unfolding in_clear
in_clear-script encode_base64 mail_data m h =
    rw h ((inl refl, (inr (inr refl), tt)), (inl refl, (inr (inl refl), (inr (inr refl), tt))))

-- With `ssl` set, nothing goes out before the switch to TLS but `EHLO`, `HELO` and `STARTTLS`: no
-- credentials, no address and no text, however the server answers and wherever the run ends.
pub send-in_clear :
    (k : Socket) (encode_base64 : QString → QString) (mail_data : QString) (m : Mailer)
    (went : Bool) (s : Session k)
    → m.ssl ≡ true
    → send k encode_base64 mail_data m ≡ some (went, s)
    → All IsHandshake (in_clear s.events)
send-in_clear k encode_base64 mail_data m went s h e =
    elim (send-Follows k encode_base64 mail_data m) [
      | inl r ↦
          let (rest, same, _) =
            subst (Ran k (opened k m) (script ehlo encode_base64 mail_data m)) e r in
          in_clear_prefix s.events rest (rw same (in_clear-script encode_base64 mail_data m h).0)
      | inr r ↦
          let (rest, same, _) =
            subst (Ran k (opened k m) (script helo encode_base64 mail_data m)) e r in
          in_clear_prefix s.events rest (rw same (in_clear-script encode_base64 mail_data m h).1)
    ]
