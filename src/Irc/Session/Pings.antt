-- ===== src/Irc/Session/Pings.antt =====
-- Proofs about the timer of myircsession.cpp.
-- The pings come every two minutes.
use mathlib.Core.Path.{subst}
use rssani.Base.{
  ℕ, suc, ◌+◌, ◌*◌, ◌≤◌, ◌<◌, ◌≡◌, refl, ap, Option, none, some, List, [], ◌∷◌, ◌++◌, arith, map,
  ◌==◌, QString, codes, Bool-cases, inl, inr, keep_if,
}
use rssani.Model.{DatosIrc}
use rssani.Irc.{
  NetworkCall, connects, request_join, join_later, transfer_raw, join_channels, on_connected,
  on_numeric_message, on_kick, on_timeout,
}
use rssani.Irc.Session.{
  MyIrcSession, IrcEvent, connected, motd_end, heard, kicked, passed, ask, ask_all, is_due,
  ring_rejoins, ring_ping, my_irc_session, ping_interval, session_step, session_run,
}
use rssani.Irc.Session.Rejoins.{ticks}

-- The raw lines that have been sent; the session sends none but the pings.
abbrev pub pings : List (ℕ × NetworkCall) → ℕ
pings [] = 0
pings ((t, transfer_raw line) ∷ sent) = suc (pings sent)
pings (_ ∷ sent) = pings sent

pings-append : (xs ys : List (ℕ × NetworkCall)) → pings (xs ++ ys) ≡ pings xs + pings ys
pings-append [] ys = omega arith
pings-append ((t, transfer_raw line) ∷ xs) ys = omega (arith, pings-append xs ys)
pings-append ((t, connects a b c d e) ∷ xs) ys = pings-append xs ys
pings-append ((t, request_join c) ∷ xs) ys = pings-append xs ys
pings-append ((t, join_later ms c) ∷ xs) ys = pings-append xs ys

pings-joins :
    (now : ℕ) (rs : List (ℕ × QString))
    → pings (map (λ (r : ℕ × QString). (now, request_join r.1)) rs) ≡ 0
pings-joins now [] = refl
pings-joins now (r ∷ rs) = pings-joins now rs

-- The pings so far, and when the next one comes.
record OnTime (now n : ℕ) (s : MyIrcSession) : Type 0 where
  at_now : s.now ≡ now
  sent_so_far : pings s.sent ≡ n
  next : s.ping_at ≡ ping_interval * (n + 1)

joins-OnTime :
    (cs : List QString) (now n : ℕ) (s : MyIrcSession)
    → OnTime now n s
    → OnTime now n (ask_all (map request_join cs) s)
unfolding ask_all
joins-OnTime [] now n s h = h
joins-OnTime (c ∷ cs) now n s h = joins-OnTime cs now n (ask (request_join c) s) (record {
  at_now = h.at_now;
  sent_so_far = omega (arith, pings-append s.sent ((s.now, request_join c) ∷ []), h.sent_so_far);
  next = h.next;
})

ring_rejoins-OnTime :
    (now n : ℕ) (s : MyIrcSession) → OnTime now n s → OnTime now n (ring_rejoins s)
ring_rejoins-OnTime now n s h = record {
  at_now = h.at_now;
  sent_so_far = omega (
    arith,
    pings-append s.sent
        (map (λ (r : ℕ × QString). (s.now, request_join r.1)) (keep_if (is_due s.now) s.rejoins)),
    pings-joins s.now (keep_if (is_due s.now) s.rejoins),
    h.sent_so_far,
  );
  next = h.next;
}

-- As many pings as there are whole intervals behind it.
Timely : ℕ → MyIrcSession → Type 0
Timely now s =
    (n : ℕ) × OnTime now n s × (ping_interval * n ≤ now) × (now < ping_interval * (n + 1))

ring_ping-Timely :
    (line : QString) (now n : ℕ) (s : MyIrcSession)
    → ping_interval * n ≤ now
    → now ≤ ping_interval * (n + 1)
    → OnTime now n s
    → Timely now (ring_ping line s)
unfolding Timely ask_all on_timeout
ring_ping-Timely line now n s low high h = elim (Bool-cases (s.now == s.ping_at)) [
  | inr off ↦ rw off (n, h, low, ground (arith, h.at_now, h.next))
  | inl rings ↦ rw rings (
    n + 1,
    record {
      at_now = h.at_now;
      sent_so_far = omega (
        arith,
        h.sent_so_far,
        pings-append s.sent ((s.now, transfer_raw (codes "PING " ++ line)) ∷ []),
      );
      next = ground (arith, h.at_now, h.next);
    },
    ground (arith, h.at_now, h.next),
    ground (arith, h.at_now, h.next),
  )
]

joins-Timely :
    (cs : List QString) (now : ℕ) (s : MyIrcSession)
    → Timely now s
    → Timely now (ask_all (map request_join cs) s)
unfolding Timely
joins-Timely cs now s (n, h, low, high) = (n, joins-OnTime cs now n s h, low, high)

kicked-Timely :
    (c : Option QString) (now : ℕ) (s : MyIrcSession)
    → Timely now s
    → Timely now (ask_all (on_kick c) s)
unfolding Timely ask_all on_kick
kicked-Timely none now s h = h
kicked-Timely (some c) now s (n, h, low, high) =
    (n, record { at_now = h.at_now; sent_so_far = h.sent_so_far; next = h.next }, low, high)

ring_rejoins-Timely : (now : ℕ) (s : MyIrcSession) → Timely now s → Timely now (ring_rejoins s)
unfolding Timely
ring_rejoins-Timely now s (n, h, low, high) = (n, ring_rejoins-OnTime now n s h, low, high)

passed-Timely :
    (line : QString) (now : ℕ) (s : MyIrcSession)
    → Timely now s
    → Timely (now + 1) (session_step (passed line) s)
unfolding session_step Timely
passed-Timely line now s h =
    let ticked = record s { now = s.now + 1 } in
    let (n, on_time, low, high) = h in
    ring_rejoins-Timely (now + 1) (ring_ping line ticked) (
      ring_ping-Timely line (now + 1) n ticked (omega arith) (omega arith) (record {
        at_now = ap (λ k. k + 1) on_time.at_now;
        sent_so_far = on_time.sent_so_far;
        next = on_time.next;
      }))

session_run-Timely :
    (es : List IrcEvent) (now end : ℕ) (s : MyIrcSession)
    → now + ticks es ≡ end
    → Timely now s
    → Timely end (session_run es s)
unfolding session_run session_step on_connected on_numeric_message join_channels
session_run-Timely [] now end s e h = subst (λ t. Timely t s) (omega (arith, e)) h
session_run-Timely (connected ∷ es) now end s e h =
    session_run-Timely es now end (session_step connected s) e
      (joins-Timely s.datos.channels now s h)
session_run-Timely (motd_end ∷ es) now end s e h =
    session_run-Timely es now end (session_step motd_end s) e
      (joins-Timely s.datos.channels now s h)
session_run-Timely (heard m ∷ es) now end s e h = session_run-Timely es now end s e h
session_run-Timely (kicked c ∷ es) now end s e h =
    session_run-Timely es now end (session_step (kicked c) s) e (kicked-Timely c now s h)
session_run-Timely (passed line ∷ es) now end s e h =
    session_run-Timely es (now + 1) end (session_step (passed line) s) (omega (arith, e))
      (passed-Timely line now s h)

start-Timely : (datos : DatosIrc) → Timely 0 (my_irc_session datos)
unfolding Timely
start-Timely datos =
    (0, record { at_now = refl; sent_so_far = refl; next = refl }, omega arith, omega arith)

-- Whatever happens to a session, as many pings have been sent as whole times 120000 milliseconds, two
-- minutes, have gone by since its constructor, also where it was never connected.
pub my_irc_session-pings :
    (datos : DatosIrc) (es : List IrcEvent)
    → let n = pings (session_run es (my_irc_session datos)).sent in
      (120_000 * n ≤ ticks es) × (ticks es < 120_000 * (n + 1))
unfolding Timely
my_irc_session-pings datos es =
    let (n, h, low, high) =
      session_run-Timely es 0 (ticks es) (my_irc_session datos) (omega arith)
        (start-Timely datos) in
    (omega (arith, low, h.sent_so_far), omega (arith, high, h.sent_so_far))
