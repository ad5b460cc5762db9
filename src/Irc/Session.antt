-- ===== src/Irc/Session.antt =====
-- The session of myircsession.cpp in time: the constructor, the events that it connects, and its timers,
-- by the millisecond. `QTimer` is taken to ring on time. Where the timer of the pings rings together
-- with others, it is the first.
pub mod Rejoins
pub mod Pings
mod Tests
use rssani.Base.{
  ℕ, ◌+◌, Bool, not, Option, List, [], ◌∷◌, ◌++◌, map, leb, ◌==◌, if◌then◌else◌, keep_if, QString,
}
use rssani.Model.{DatosIrc}
use rssani.Irc.{
  Message, NetworkCall, connects, request_join, join_later, transfer_raw, on_connected,
  on_numeric_message, on_kick, on_timeout,
}

-- The time since the constructor, the next ping, the calls of `singleShot` that wait with their
-- time, and what has been asked of the network, each with its time.
pub record MyIrcSession : Type 0 where
  pub datos : DatosIrc
  pub now : ℕ
  pub ping_at : ℕ
  pub rejoins : List (ℕ × QString)
  pub sent : List (ℕ × NetworkCall)

-- `timer->start(120000);`
abbrev pub ping_interval : ℕ
ping_interval = 120_000

abbrev pub my_irc_session : DatosIrc → MyIrcSession
my_irc_session datos = record {
  datos = datos;
  now = 0;
  ping_at = ping_interval;
  rejoins = [];
  sent = (0, connects datos.server datos.port datos.nick datos.user datos.name) ∷ [];
}

-- What happens to the session: the network is connected, the message of the day ends, a message comes,
-- the session is kicked from a channel, and a millisecond goes by, with the number for a ping.
pub data IrcEvent : Type 0 where
  connected motd_end : IrcEvent
  heard : Option Message → IrcEvent
  kicked : Option QString → IrcEvent
  passed : QString → IrcEvent

abbrev pub ask : NetworkCall → MyIrcSession → MyIrcSession
ask (join_later ms channel) s = record s { rejoins = s.rejoins ++ (s.now + ms, channel) ∷ [] }
ask call s = record s { sent = s.sent ++ (s.now, call) ∷ [] }

unfoldable pub ask_all : List NetworkCall → MyIrcSession → MyIrcSession
ask_all [] s = s
ask_all (call ∷ calls) s = ask_all calls (ask call s)

abbrev pub is_due : ℕ → ℕ × QString → Bool
is_due now r = leb r.0 now

-- The calls of `singleShot` whose time has come.
abbrev pub ring_rejoins : MyIrcSession → MyIrcSession
ring_rejoins s = record s {
  rejoins = keep_if (λ r. not (is_due s.now r)) s.rejoins;
  sent = s.sent ++ map (λ r. (s.now, request_join r.1)) (keep_if (is_due s.now) s.rejoins);
}

abbrev pub ring_ping : QString → MyIrcSession → MyIrcSession
ring_ping n s =
    if s.now == s.ping_at
    then ask_all (on_timeout n) (record s { ping_at = s.now + ping_interval })
    else s

-- `on_privmsg` only emits `nuevaSubida`.
unfoldable pub session_step : IrcEvent → MyIrcSession → MyIrcSession
session_step connected s = ask_all (on_connected s.datos) s
session_step motd_end s = ask_all (on_numeric_message s.datos) s
session_step (heard m) s = s
session_step (kicked channel) s = ask_all (on_kick channel) s
session_step (passed n) s = ring_rejoins (ring_ping n (record s { now = s.now + 1 }))

unfoldable pub session_run : List IrcEvent → MyIrcSession → MyIrcSession
session_run [] s = s
session_run (e ∷ es) s = session_run es (session_step e s)
