-- ===== src/Irc/Session/Tests.antt =====
-- Runs of the session.
use rssani.Base.{
  ℕ, zero, suc, ◌+◌, ◌*◌, ◌≤◌, ◌<◌, ◌≡◌, refl, true, some, List, [], ◌∷◌, arith, codes,
}
use rssani.Model.{default_datos}
use rssani.Irc.{request_join, connects, join_channels, on_connected}
use rssani.Irc.Session.{
  IrcEvent, connected, kicked, passed, my_irc_session, ask_all, session_step, session_run,
}
use rssani.Irc.Session.Rejoins.{asks_at, on_kick_rejoins}
use rssani.Irc.Session.Pings.{pings, my_irc_session-pings}

abbrev milliseconds : ℕ → List IrcEvent
milliseconds zero = []
milliseconds (suc n) = passed (codes "7") ∷ milliseconds n

joins_at_once :
    (session_run (connected ∷ passed [] ∷ []) (my_irc_session default_datos)).sent
    ≡ (0, connects (codes "irc.irc-hispano.org") default_datos.port [] [] [])
      ∷ (0, request_join (codes "#PuntoTorrent"))
      ∷ []
unfolding session_run session_step on_connected join_channels ask_all
joins_at_once = refl

on_kick_rejoins_example :
    asks_at 5000
      (codes "#c")
      (session_run (kicked (some (codes "#c")) ∷ milliseconds 5000) (my_irc_session default_datos))
    ≡ true
on_kick_rejoins_example =
    on_kick_rejoins (codes "#c") (milliseconds 5000) (my_irc_session default_datos) (omega arith)

my_irc_session-pings_example :
    let n = pings (session_run (connected ∷ passed [] ∷ []) (my_irc_session default_datos)).sent in
    (120_000 * n ≤ 1) × (1 < 120_000 * (n + 1))
my_irc_session-pings_example = my_irc_session-pings default_datos (connected ∷ passed [] ∷ [])
