-- ===== src/Irc/Session/Rejoins.antt =====
-- Proofs about the timers of myircsession.cpp.
-- A channel that the session was kicked from is asked for again.
use mathlib.Core.Path.{subst}
use rssani.Base.{
  ℕ, suc, ◌+◌, ◌≤◌, ◌<◌, ◌≡◌, refl, ap, Bool, true, false, not, ◌&&◌, ◌||◌, some, List, [], ◌∷◌,
  ◌++◌, arith, map, ◌==◌, inl, inr, Bool-cases, codes, keep_if, any_of, QString, text_eq,
  text_eq_refl,
}
use rssani.Irc.{
  NetworkCall, connects, request_join, join_later, transfer_raw, on_connected, on_numeric_message,
  on_kick, on_timeout,
}
use rssani.Irc.Session.{
  MyIrcSession, IrcEvent, connected, motd_end, heard, kicked, passed, ask, ask_all, is_due,
  ring_rejoins, ring_ping, session_step, session_run,
}

-- The milliseconds that go by.
abbrev pub ticks : List IrcEvent → ℕ
ticks [] = 0
ticks (passed n ∷ es) = suc (ticks es)
ticks (_ ∷ es) = ticks es

abbrev is_join : QString → NetworkCall → Bool
is_join channel (request_join c) = text_eq c channel
is_join channel _ = false

abbrev pub is_join_at : ℕ → QString → ℕ × NetworkCall → Bool
is_join_at t channel p = p.0 == t && is_join channel p.1

abbrev is_rejoin_at : ℕ → QString → ℕ × QString → Bool
is_rejoin_at t channel r = r.0 == t && text_eq r.1 channel

-- The channel is asked for at that time.
abbrev pub asks_at : ℕ → QString → MyIrcSession → Bool
asks_at t channel s = any_of (is_join_at t channel) s.sent

abbrev waits_for : ℕ → QString → MyIrcSession → Bool
waits_for t channel s = any_of (is_rejoin_at t channel) s.rejoins

any_of-append :
    {A : Type 0} (p : A → Bool) (xs ys : List A)
    → any_of p (xs ++ ys) ≡ (any_of p xs || any_of p ys)
any_of-append p [] ys = refl
any_of-append p (x ∷ xs) ys = ground (arith, any_of-append p xs ys)

module _ (t : ℕ) (channel : QString) where
  ask-asks_at :
      (call : NetworkCall) (s : MyIrcSession)
      → asks_at t channel s ≡ true
      → asks_at t channel (ask call s) ≡ true
  ask-asks_at (connects a b c d e) s h =
      rw (any_of-append (is_join_at t channel) s.sent ((s.now, connects a b c d e) ∷ []), h) refl
  ask-asks_at (request_join c) s h =
      rw (any_of-append (is_join_at t channel) s.sent ((s.now, request_join c) ∷ []), h) refl
  ask-asks_at (transfer_raw c) s h =
      rw (any_of-append (is_join_at t channel) s.sent ((s.now, transfer_raw c) ∷ []), h) refl
  ask-asks_at (join_later ms c) s h = h

  ask_all-asks_at :
      (calls : List NetworkCall) (s : MyIrcSession)
      → asks_at t channel s ≡ true
      → asks_at t channel (ask_all calls s) ≡ true
  unfolding ask_all
  ask_all-asks_at [] s h = h
  ask_all-asks_at (call ∷ calls) s h = ask_all-asks_at calls (ask call s) (ask-asks_at call s h)

  ring_ping-asks_at :
      (n : QString) (s : MyIrcSession)
      → asks_at t channel s ≡ true
      → asks_at t channel (ring_ping n s) ≡ true
  unfolding ask_all on_timeout
  ring_ping-asks_at n s h = ground (
    arith,
    h,
    any_of-append (is_join_at t channel) s.sent ((s.now, transfer_raw (codes "PING " ++ n)) ∷ []),
  )

  ring_rejoins-asks_at :
      (s : MyIrcSession) → asks_at t channel s ≡ true → asks_at t channel (ring_rejoins s) ≡ true
  ring_rejoins-asks_at s h =
      rw
        (
          any_of-append (is_join_at t channel) s.sent
              (map (λ r. (s.now, request_join r.1)) (keep_if (is_due s.now) s.rejoins)),
          h,
        )
        refl

  session_step-asks_at :
      (e : IrcEvent) (s : MyIrcSession)
      → asks_at t channel s ≡ true
      → asks_at t channel (session_step e s) ≡ true
  unfolding session_step
  session_step-asks_at connected s h = ask_all-asks_at (on_connected s.datos) s h
  session_step-asks_at motd_end s h = ask_all-asks_at (on_numeric_message s.datos) s h
  session_step-asks_at (heard m) s h = h
  session_step-asks_at (kicked c) s h = ask_all-asks_at (on_kick c) s h
  session_step-asks_at (passed n) s h =
      let ticked = record s { now = s.now + 1 } in
      ring_rejoins-asks_at (ring_ping n ticked) (ring_ping-asks_at n ticked h)

  session_run-asks_at :
      (es : List IrcEvent) (s : MyIrcSession)
      → asks_at t channel s ≡ true
      → asks_at t channel (session_run es s) ≡ true
  unfolding session_run
  session_run-asks_at [] s h = h
  session_run-asks_at (e ∷ es) s h =
      session_run-asks_at es (session_step e s) (session_step-asks_at e s h)

  -- It waits until its time.
  Waits : ℕ → MyIrcSession → Type 0
  Waits now s = (s.now ≡ now) × (waits_for t channel s ≡ true)

  ask-Waits :
      (call : NetworkCall) (now : ℕ) (s : MyIrcSession) → Waits now s → Waits now (ask call s)
  unfolding Waits
  ask-Waits (join_later ms c) now s h =
      (h.0, rw (any_of-append (is_rejoin_at t channel) s.rejoins ((s.now + ms, c) ∷ []), h.1) refl)
  ask-Waits (connects a b c d e) now s h = h
  ask-Waits (request_join c) now s h = h
  ask-Waits (transfer_raw c) now s h = h

  ask_all-Waits :
      (calls : List NetworkCall) (now : ℕ) (s : MyIrcSession)
      → Waits now s
      → Waits now (ask_all calls s)
  unfolding ask_all
  ask_all-Waits [] now s h = h
  ask_all-Waits (call ∷ calls) now s h =
      ask_all-Waits calls now (ask call s) (ask-Waits call now s h)

  ring_ping-Waits :
      (n : QString) (now : ℕ) (s : MyIrcSession) → Waits now s → Waits now (ring_ping n s)
  unfolding Waits ask_all on_timeout
  ring_ping-Waits n now s h = ground (arith, h)

  -- At its time it is asked for, and before it is not.
  rung :
      (now : ℕ) (rs : List (ℕ × QString))
      → now ≡ t
      → any_of (is_rejoin_at t channel) rs ≡ true
      → any_of
          (is_join_at t channel)
          (map (λ (r : ℕ × QString). (now, request_join r.1)) (keep_if (is_due now) rs))
        ≡ true
  rung now [] e h = h
  rung now (r ∷ rs) e h = ground (arith, h, rung now rs e)

  kept :
      (now : ℕ) (rs : List (ℕ × QString))
      → now < t
      → any_of (is_rejoin_at t channel) rs ≡ true
      → any_of (is_rejoin_at t channel) (keep_if (λ r. not (is_due now r)) rs) ≡ true
  kept now [] l h = h
  kept now (r ∷ rs) l h = ground (arith, h, kept now rs l)

  ring_rejoins_now : (s : MyIrcSession) → Waits t s → asks_at t channel (ring_rejoins s) ≡ true
  unfolding Waits
  ring_rejoins_now s h =
      let asked : List (ℕ × NetworkCall) =
        map (λ (r : ℕ × QString). (s.now, request_join r.1)) (keep_if (is_due s.now) s.rejoins) in
      ground
        (arith, any_of-append (is_join_at t channel) s.sent asked, rung s.now s.rejoins h.0 h.1)

  ring_rejoins-Waits :
      (now : ℕ) (s : MyIrcSession) → now < t → Waits now s → Waits now (ring_rejoins s)
  unfolding Waits
  ring_rejoins-Waits now s l h = (h.0, kept s.now s.rejoins (omega (arith, h.0)) h.1)

  ticked-Waits :
      (now : ℕ) (s : MyIrcSession) → Waits now s → Waits (now + 1) (record s { now = s.now + 1 })
  unfolding Waits
  ticked-Waits now s h = (ap (λ n. n + 1) h.0, h.1)

  passed-asks_at :
      (n : QString) (now : ℕ) (s : MyIrcSession)
      → now + 1 ≡ t
      → Waits now s
      → asks_at t channel (session_step (passed n) s) ≡ true
  unfolding session_step
  passed-asks_at n now s e h =
      let ticked = record s { now = s.now + 1 } in
      ring_rejoins_now (ring_ping n ticked)
        (ring_ping-Waits n t ticked (subst (λ m. Waits m ticked) e (ticked-Waits now s h)))

  passed-Waits :
      (n : QString) (now : ℕ) (s : MyIrcSession)
      → now + 1 < t
      → Waits now s
      → Waits (now + 1) (session_step (passed n) s)
  unfolding session_step
  passed-Waits n now s l h =
      let ticked = record s { now = s.now + 1 } in
      ring_rejoins-Waits (now + 1) (ring_ping n ticked) l
        (ring_ping-Waits n (now + 1) ticked (ticked-Waits now s h))

  rejoined :
      (es : List IrcEvent) (now : ℕ) (s : MyIrcSession)
      → now < t
      → t ≤ now + ticks es
      → Waits now s
      → asks_at t channel (session_run es s) ≡ true
  unfolding session_run
  rejoined [] now s l d h = absurd (omega arith)
  rejoined (passed n ∷ es) now s l d h = elim (Bool-cases (now + 1 == t)) [
    | inl at ↦
        session_run-asks_at es (session_step (passed n) s) (passed-asks_at n now s (ground arith) h)
    | inr later ↦
        rejoined es (now + 1) (session_step (passed n) s) (ground arith) (omega arith)
          (passed-Waits n now s (ground arith) h)
  ]
  rejoined (connected ∷ es) now s l d h =
      rejoined es now (session_step connected s) l d
        (unfold session_step in ask_all-Waits (on_connected s.datos) now s h)
  rejoined (motd_end ∷ es) now s l d h =
      rejoined es now (session_step motd_end s) l d
        (unfold session_step in ask_all-Waits (on_numeric_message s.datos) now s h)
  rejoined (heard m ∷ es) now s l d h =
      rejoined es now (session_step (heard m) s) l d (unfold session_step in h)
  rejoined (kicked c ∷ es) now s l d h =
      rejoined es now (session_step (kicked c) s) l d
        (unfold session_step in ask_all-Waits (on_kick c) now s h)

first-Waits :
    (now : ℕ) (channel : QString) (s : MyIrcSession)
    → s.now ≡ now
    → Waits (now + 5000) channel now (ask (join_later 5000 channel) s)
unfolding Waits
first-Waits now channel s e = (
  e,
  ground (
    arith,
    any_of-append (is_rejoin_at (now + 5000) channel) s.rejoins ((s.now + 5000, channel) ∷ []),
    text_eq_refl channel,
    e,
  ),
)

-- A session that is kicked from a channel, whatever happens from then on for five seconds or more, asks
-- for that channel again, five seconds after.
pub on_kick_rejoins :
    (channel : QString) (es : List IrcEvent) (s : MyIrcSession)
    → 5000 ≤ ticks es
    → asks_at (s.now + 5000) channel (session_run (kicked (some channel) ∷ es) s) ≡ true
unfolding session_run session_step on_kick ask_all
on_kick_rejoins channel es s h =
    rejoined (s.now + 5000) channel es s.now (ask (join_later 5000 channel) s) (omega arith)
      (omega arith) (first-Waits s.now channel s refl)
