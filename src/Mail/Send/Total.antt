-- ===== src/Mail/Send/Total.antt =====
-- Sending ends, and reads no character out of range.
use rssani.Base.{
  ℕ, zero, suc, ◌≡◌, ◌<◌, ◌≤◌, refl, inl, inr, Bool, true, false, not, Option, none, some, List, [],
  ◌∷◌, arith, ◌==◌, if◌then◌else◌, Bool-cases, length, get_elem?-of_lt, QString, codes, is_empty,
}
use rssani.Mail.{Mailer}
use rssani.Mail.Socket.{Socket}
use rssani.Mail.Send.{
  Session, Act, ◌>>◌, only_if, check_reply, read_lines, read_reply, read, written, send_command,
  connect, send_recipients, quit, hello, secure, log_in, deliver, opened, send, rcpt, recipients,
}

abbrev Returns : {A : Type 0} → Option A → Type 0
Returns {A} o = (a : A) × (o ≡ some a)

if-Returns :
    {A : Type 0} (b : Bool) (x y : Option A) → Returns x → Returns y → Returns (if b then x else y)
if-Returns true x y h g = h
if-Returns false x y h g = g

-- Every line that can be read has at least four characters, as a reply of SMTP has with its end.
module _ (k : Socket)
    (lines_are_replies : (w : k.Wire)
      → k.can_read_line w ≡ true
      → 4 ≤ length (k.read_line w).0) where
  open k use {
    Wire, is_connected, wait_for_connected, wait_for_ready_read, can_read_line, read_line, pending,
    pending_read_line,
  }

  read_lines-Returns :
      (fuel : ℕ) (w : Wire)
      → can_read_line w ≡ true
      → pending w < fuel
      → Returns (read_lines k fuel w)
  unfolding read_lines
  read_lines-Returns zero w c h = elim h [ ]
  read_lines-Returns (suc fuel) w c h =
      let (line, w') = read_line w in
      let fewer : pending w' < pending w = pending_read_line w c in
      let (x, e) = get_elem?-of_lt line 3 (omega (arith, lines_are_replies w c)) in
      elim (Bool-cases (can_read_line w')) [
        | inl more ↦
            rw (more, e, read_lines)
              (elim (Bool-cases (x == b' ')) [
                | inl last ↦ rw last ((line, w'), refl)
                | inr on ↦ rw on (read_lines-Returns fuel w' more (omega arith))
              ])
        | inr over ↦ rw (over, read_lines) ((line, w'), refl)
      ]

  check_reply-Returns :
      (waitfor line : QString) (s : Session k) → Returns (check_reply k waitfor line s)
  unfolding check_reply
  check_reply-Returns waitfor line s = if-Returns _ _ _ (_, refl) (_, refl)

  read_reply-Returns :
      (waitfor : QString) (s : Session k)
      → can_read_line s.wire ≡ true
      → Returns (read_reply k waitfor s)
  unfolding read_reply
  read_reply-Returns waitfor s h =
      let ((line, w), e) = read_lines-Returns (suc (pending s.wire)) s.wire h (omega arith) in
      rw (e, read_reply) (check_reply-Returns waitfor line (record s { wire = w }))

  abbrev Total : Act k → Type 0
  Total a = (s : Session k) → Returns (a s)

  read-Returns : (waitfor : QString) (s : Session k) → Returns (read k waitfor s)
  unfolding read
  read-Returns waitfor s =
      let (ready, w) = wait_for_ready_read s.mailer.timeout s.wire in
      if-Returns (not (is_connected s.wire)) _ _ (_, refl)
        (if-Returns (not ready) _ _ (_, refl)
          (elim (Bool-cases (can_read_line w)) [
            | inl can ↦ rw can (read_reply-Returns waitfor (record s { wire = w }) can)
            | inr cannot ↦ rw cannot (_, refl)
          ]))

  send_command-Total : (cmd waitfor : QString) → Total (send_command k cmd waitfor)
  unfolding send_command
  send_command-Total cmd waitfor s =
      if-Returns (not (is_connected s.wire)) _ _ (_, refl) (read-Returns waitfor (written k cmd s))

  then-Returns :
      (b : Act k) (r : Option (Bool × Session k))
      → Returns r
      → Total b
      → Returns {A = Bool × Session k} (elim r [
        | none ↦ none
        | some (went, s') ↦ elim went [ true ↦ b s' | false ↦ some (false, s') ]
      ])
  then-Returns b none (x, e) t = cc
  then-Returns b (some (true, s')) h t = t s'
  then-Returns b (some (false, s')) h t = (_, refl)

  else-Returns :
      (b : Act k) (r : Option (Bool × Session k))
      → Returns r
      → Total b
      → Returns {A = Bool × Session k} (elim r [
        | none ↦ none
        | some (went, s') ↦ elim went [ true ↦ some (true, s') | false ↦ b s' ]
      ])
  else-Returns b none (x, e) t = cc
  else-Returns b (some (true, s')) h t = (_, refl)
  else-Returns b (some (false, s')) h t = t s'

  >>-Total : (a b : Act k) → Total a → Total b → Total (◌>>◌ k a b)
  >>-Total a b f g s = then-Returns b (a s) (f s) g

  only_if-Total : (b : Bool) (a : Act k) → Total a → Total (only_if k b a)
  only_if-Total true a f s = f s
  only_if-Total false a f s = (_, refl)

  send_recipients-Total : (rs : List QString) → Total (send_recipients k rs)
  unfolding send_recipients
  send_recipients-Total [] = λ s. (_, refl)
  send_recipients-Total (r ∷ rs) =
      >>-Total _ _ (send_command-Total (rcpt r) (codes "250")) (send_recipients-Total rs)

  connect-Total : Total (connect k)
  unfolding connect
  connect-Total s =
      if-Returns (not (wait_for_connected s.mailer.timeout s.wire).0) _ _ (_, refl) (_, refl)

  hello-Total : Total (hello k)
  unfolding hello
  hello-Total s = else-Returns _ _ (send_command-Total _ _ s) (send_command-Total _ _)

  secure-Total : (m : Mailer) → Total (secure k m)
  unfolding secure
  secure-Total m = only_if-Total m.ssl _ (>>-Total _ _ (send_command-Total _ _) (λ s. (_, refl)))

  log_in-Total : (encode_base64 : QString → QString) (m : Mailer) → Total (log_in k encode_base64 m)
  unfolding log_in
  log_in-Total encode_base64 m = only_if-Total (not (is_empty m.login)) _ (
      >>-Total _ _ (send_command-Total _ _)
        (>>-Total _ _ (send_command-Total _ _) (send_command-Total _ _)))

  deliver-Total : (mail_data : QString) (m : Mailer) → Total (deliver k mail_data m)
  unfolding deliver quit
  deliver-Total mail_data m = >>-Total _ _ (send_command-Total _ _) (
      >>-Total _ _ (send_recipients-Total (recipients m)) (
        >>-Total _ _ (send_command-Total _ _) (
          >>-Total _ _ (send_command-Total _ _)
            (>>-Total _ _ (send_command-Total _ _) (λ s. (_, refl))))))

  -- If every line that `canReadLine` says can be read has at least four characters, `send` returns:
  -- its loops end and no character is read out of range.
  pub send-Returns :
      (encode_base64 : QString → QString) (mail_data : QString) (m : Mailer)
      → (r : Bool × Session k) × (send k encode_base64 mail_data m ≡ some r)
  unfolding send
  send-Returns encode_base64 mail_data m =
      >>-Total _ _ connect-Total
        (>>-Total _ _ (read-Returns (codes "220")) (
          >>-Total _ _ hello-Total (
            >>-Total _ _ (secure-Total m)
              (>>-Total _ _ (log_in-Total encode_base64 m) (deliver-Total mail_data m)))))
        (opened k m)
