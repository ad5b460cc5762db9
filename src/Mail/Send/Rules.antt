-- ===== src/Mail/Send/Rules.antt =====
-- The events of a step: a rule for each way to build one.
use mathlib.Core.List.{append_assoc, append-nil}
use rssani.Base.{
  suc, ◌≡◌, refl, sym, ap, ◌∙◌, ◌⊎◌, inl, inr, Bool, true, false, not, Option, none, some, List, [],
  ◌∷◌, ◌++◌, if◌then◌else◌, take, QString, codes, text_eq,
}
use rssani.Mail.Socket.{Socket}
use rssani.Mail.Send.{
  Event, command, accepted, starts_tls, Session, Act, ◌>>◌, skip, only_if, check_reply, written,
  read_lines, read, written, send_command, start_tls, connect, rcpt, send_recipients, quit,
}

-- The events of a step that runs only if `b`.
abbrev pub if_events : Bool → List Event → List Event
if_events true l = l
if_events false l = []

-- Each recipient is named, and accepted, in turn.
abbrev pub recipient_events : List QString → List Event
recipient_events [] = []
recipient_events (r ∷ rs) = command (rcpt r) ∷ accepted (codes "250") ∷ recipient_events rs

pub settled : {l : List Event} → (true ≡ false) ⊎ (l ≡ []) → l ≡ []
settled (inl e) = cc
settled (inr e) = e

module _ (k : Socket) where
  open k use {Wire, is_connected, wait_for_connected, wait_for_ready_read, can_read_line, pending}

  -- The events of a run are `l`, or a part of `l` from its beginning if the step failed.
  abbrev pub Ran : Session k → List Event → Option (Bool × Session k) → Type 0
  Ran s l none = Unit
  Ran s l (some (went, s')) =
      (rest : List Event) × (s'.events ++ rest ≡ s.events ++ l) × ((went ≡ false) ⊎ (rest ≡ []))

  abbrev pub Emits : Act k → List Event → Type 0
  Emits a l = (s : Session k) → Ran s l (a s)

  -- A run from a later session, whose events so far are `p` more.
  pub Ran-later :
      (s s' : Session k) (p l : List Event) (r : Option (Bool × Session k))
      → s'.events ≡ s.events ++ p
      → Ran s' l r
      → Ran s (p ++ l) r
  Ran-later s s' p l none e h = tt
  Ran-later s s' p l (some (went, t)) e (rest, h, full) =
      (rest, h ∙ rw e (append_assoc s.events p l), full)

  pub Ran-then :
      (b : Act k) (s : Session k) (l m : List Event) (r : Option (Bool × Session k))
      → Ran s l r
      → Emits b m
      → Ran s (l ++ m) (elim r [
        | none ↦ none
        | some (went, s') ↦ elim went [ true ↦ b s' | false ↦ some (false, s') ]
      ])
  Ran-then b s l m none h e = tt
  Ran-then b s l m (some (false, s')) (rest, h, _) e =
      (rest ++ m, rw (← append_assoc s'.events rest m, h) (append_assoc s.events l m), inl refl)
  Ran-then b s l m (some (true, s')) (rest, h, full) e =
      Ran-later s s' l m (b s')
        (sym (append-nil s'.events) ∙ ap (◌++◌ s'.events) (sym (settled full)) ∙ h) (e s')

  pub >>-Emits :
      (a b : Act k) (l m : List Event) → Emits a l → Emits b m → Emits (◌>>◌ k a b) (l ++ m)
  >>-Emits a b l m f g s = Ran-then b s l m (a s) (f s) g

  if-Ran :
      (s : Session k) (l : List Event) (b : Bool) (x y : Option (Bool × Session k))
      → Ran s l x
      → Ran s l y
      → Ran s l (if b then x else y)
  if-Ran s l true x y h g = h
  if-Ran s l false x y h g = g

  pub skip-Emits : Emits (skip k) []
  skip-Emits s = ([], refl, inr refl)

  pub only_if-Emits :
      (b : Bool) (a : Act k) (l : List Event) → Emits a l → Emits (only_if k b a) (if_events b l)
  only_if-Emits true a l f s = f s
  only_if-Emits false a l f s = skip-Emits s

  check_reply-Ran :
      (waitfor line : QString) (s : Session k)
      → Ran s (accepted waitfor ∷ []) (check_reply k waitfor line s)
  unfolding check_reply
  check_reply-Ran waitfor line s =
      if-Ran s _ (text_eq (take 3 line) waitfor) _ _ ([], append-nil _, inr refl)
        (_, refl, inl refl)

  read_lines-Ran :
      (waitfor : QString) (s s' : Session k) (r : Option (QString × Wire))
      → s'.events ≡ s.events
      → Ran s (accepted waitfor ∷ []) (elim r [
        | none ↦ none
        | some (line, w) ↦ check_reply k waitfor line (record s' { wire = w })
      ])
  read_lines-Ran waitfor s s' none e = tt
  read_lines-Ran waitfor s s' (some (line, w)) e =
      Ran-later s (record s' { wire = w }) [] _ _ (e ∙ sym (append-nil s.events))
        (check_reply-Ran waitfor line (record s' { wire = w }))

  pub read-Emits : (waitfor : QString) → Emits (read k waitfor) (accepted waitfor ∷ [])
  unfolding read
  read-Emits waitfor s =
      let w = (wait_for_ready_read s.mailer.timeout s.wire).1 in
      if-Ran s _ (not (is_connected s.wire)) _ _ (_, refl, inl refl)
        (if-Ran s _ (not (wait_for_ready_read s.mailer.timeout s.wire).0) _ _ (_, refl, inl refl)
          (if-Ran s _ (not (can_read_line w)) _ _ (_, refl, inl refl)
            (read_lines-Ran waitfor s (record s { wire = w }) (read_lines k (suc (pending w)) w)
              refl)))

  -- A command goes out, and then the reply is read.
  pub send_command-Emits :
      (cmd waitfor : QString)
      → Emits (send_command k cmd waitfor) (command cmd ∷ accepted waitfor ∷ [])
  unfolding send_command
  send_command-Emits cmd waitfor s =
      if-Ran s _ (not (is_connected s.wire)) _ _ (_, refl, inl refl)
        (Ran-later s (written k cmd s) (command cmd ∷ []) _ _ refl
          (read-Emits waitfor (written k cmd s)))

  pub start_tls-Emits : Emits (start_tls k) (starts_tls ∷ [])
  start_tls-Emits s = ([], append-nil _, inr refl)

  pub quit-Emits : Emits (quit k) []
  unfolding quit
  quit-Emits s = ([], refl, inr refl)

  pub connect-Emits : Emits (connect k) []
  unfolding connect
  connect-Emits s =
      if-Ran s _ (not (wait_for_connected s.mailer.timeout s.wire).0) _ _ ([], refl, inr refl)
        ([], refl, inr refl)

  pub send_recipients-Emits :
      (rs : List QString) → Emits (send_recipients k rs) (recipient_events rs)
  unfolding send_recipients
  send_recipients-Emits [] = skip-Emits
  send_recipients-Emits (r ∷ rs) =
      >>-Emits _ _ _ _ (send_command-Emits (rcpt r) (codes "250")) (send_recipients-Emits rs)
