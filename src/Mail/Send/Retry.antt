-- ===== src/Mail/Send/Retry.antt =====
-- Two scripts for one dialogue: a command that fails is followed by a second one.
use mathlib.Core.List.{append_assoc, append-nil}
use rssani.Base.{
  suc, ◌≡◌, refl, sym, ap, ◌∙◌, ◌⊎◌, inl, inr, Bool, true, false, not, Option, none, some, List, [],
  ◌∷◌, ◌++◌, if◌then◌else◌, take, QString, text_eq,
}
use rssani.Mail.Socket.{Socket}
use rssani.Mail.Send.{Event, command, Session, Act, check_reply, read_lines, read, written}
use rssani.Mail.Send.Rules.{settled, Ran, Emits, Ran-later, Ran-then}

module _ (k : Socket) where
  open k use {Wire, is_connected, wait_for_ready_read, can_read_line, pending}

  -- A failed step has left no event.
  abbrev pub Quiet : Session k → Option (Bool × Session k) → Type 0
  Quiet s none = Unit
  Quiet s (some (true, s')) = Unit
  Quiet s (some (false, s')) = s'.events ≡ s.events

  if-Quiet :
      (s : Session k) (b : Bool) (x y : Option (Bool × Session k))
      → Quiet s x
      → Quiet s y
      → Quiet s (if b then x else y)
  if-Quiet s true x y h g = h
  if-Quiet s false x y h g = g

  read_lines-Quiet :
      (waitfor : QString) (s : Session k) (r : Option (QString × Wire))
      → Quiet s (elim r [
        | none ↦ none
        | some (line, w) ↦ check_reply k waitfor line (record s { wire = w })
      ])
  unfolding check_reply
  read_lines-Quiet waitfor s none = tt
  read_lines-Quiet waitfor s (some (line, w)) =
      if-Quiet s (text_eq (take 3 line) waitfor) _ _ tt refl

  pub read-Quiet : (waitfor : QString) (s : Session k) → Quiet s (read k waitfor s)
  unfolding read
  read-Quiet waitfor s =
      let (ready, w) = wait_for_ready_read s.mailer.timeout s.wire in
      if-Quiet s (not (is_connected s.wire)) _ _ refl (
        if-Quiet s (not ready) _ _ refl (
          if-Quiet s (not (can_read_line w)) _ _ refl
            (read_lines-Quiet waitfor s (read_lines k (suc (pending w)) w))))

  -- The dialogue follows one script or another.
  abbrev pub Follows : Session k → List Event → List Event → Option (Bool × Session k) → Type 0
  Follows s l l' r = Ran k s l r ⊎ Ran k s l' r

  -- What `or_else` does with the result of its first step.
  abbrev pub otherwise : Act k → Option (Bool × Session k) → Option (Bool × Session k)
  otherwise b r = elim r [
    | none ↦ none
    | some (went, s') ↦ elim went [ true ↦ some (true, s') | false ↦ b s' ]
  ]

  -- A second step is tried in the place of a command that failed.
  pub retry-Follows :
      (cmd : QString) (l m : List Event) (b : Act k) (s : Session k) (r : Option (Bool × Session k))
      → Ran k s l r
      → Quiet (written k cmd s) r
      → Emits k b m
      → Follows s l (command cmd ∷ m) (otherwise b r)
  retry-Follows cmd l m b s none h q e = inl tt
  retry-Follows cmd l m b s (some (true, s')) h q e = inl h
  retry-Follows cmd l m b s (some (false, s')) h q e =
      inr (Ran-later k s s' (command cmd ∷ []) m (b s') q (e s'))

  Follows-later :
      (s s' : Session k) (p l l' : List Event) (r : Option (Bool × Session k))
      → s'.events ≡ s.events ++ p
      → Follows s' l l' r
      → Follows s (p ++ l) (p ++ l') r
  Follows-later s s' p l l' r e (inl h) = inl (Ran-later k s s' p l r e h)
  Follows-later s s' p l l' r e (inr h) = inr (Ran-later k s s' p l' r e h)

  -- A step of one script in front of steps that follow one or the other.
  pub then-Follows :
      (b : Act k) (p l l' : List Event) (s : Session k) (r : Option (Bool × Session k))
      → Ran k s p r
      → ((t : Session k) → Follows t l l' (b t))
      → Follows s (p ++ l) (p ++ l') (elim r [
        | none ↦ none
        | some (went, s') ↦ elim went [ true ↦ b s' | false ↦ some (false, s') ]
      ])
  then-Follows b p l l' s none h f = inl tt
  then-Follows b p l l' s (some (false, s')) (rest, h, _) f =
      inl (rest ++ l, rw (← append_assoc s'.events rest l, h) (append_assoc s.events p l), inl refl)
  then-Follows b p l l' s (some (true, s')) (rest, h, full) f =
      Follows-later s s' p l l' (b s')
        (sym (append-nil s'.events) ∙ ap (◌++◌ s'.events) (sym (settled full)) ∙ h) (f s')

  pub Follows-then :
      (b : Act k) (l l' m : List Event) (s : Session k) (r : Option (Bool × Session k))
      → Follows s l l' r
      → Emits k b m
      → Follows s (l ++ m) (l' ++ m) (elim r [
        | none ↦ none
        | some (went, s') ↦ elim went [ true ↦ b s' | false ↦ some (false, s') ]
      ])
  Follows-then b l l' m s r (inl h) e = inl (Ran-then k b s l m r h e)
  Follows-then b l l' m s r (inr h) e = inr (Ran-then k b s l' m r h e)
