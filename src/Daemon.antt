-- ===== src/Daemon.antt =====
-- The program at work: the constructors of `rssani_lite` and `Rss_lite`, and the signals of
-- rssani_lite.cpp's `prepareSignals` with those of the libraries, as one step for each thing that comes
-- in. `Values` and the rules are one object that both classes point to; a step hands on the core's.
pub mod Sound
pub mod Reached
pub mod Announced
pub mod Restart
mod Tests
use rssani.Base.{
  ℕ, Bool, true, Option, none, some, List, [], ◌∷◌, pos, ◌*ℤ◌, if◌then◌else◌, QString, codes, QHash,
}
use rssani.Model.{DateTime, Values, default_values, default_datos}
use rssani.Core.{Core, ms_per_min, fits_int}
use rssani.Settings.Store.{QSettings}
use rssani.Settings.{read_settings}
use rssani.Rpc.{Env, Request, handle}
use rssani.Irc.{Message}
use rssani.Subida.{TextApi, anunciada}
use rssani.Rss.Types.{Rss}
use rssani.Rss.Match.{World}
use rssani.Rss.Title.{UrlApi, mira_titulo}
use rssani.Rss.Trackers.{inicia_trackers, fetch}
use rssani.Rss.Xml.{Token, Xml, FeedText, read_data_rss}
use rssani.Rss.Torrent.{NetworkReply, Disk, Torrents, read_data_torrent}

pub record Daemon : Type 0 where
  pub core : Core
  pub xml : Xml
  pub torrents : Torrents

-- What comes in: a request over gRPC, a message on IRC, the data of a feed, the answer to the request
-- for a torrent, and the timer.
pub data Input : Type 0 where
  served : Env → Request → Input
  messaged : World → Option Message → Input
  feed_read : World → Option (List Token) → Input
  answered : Disk → NetworkReply → Input
  timed_out : DateTime → Input

-- The members of `rssani_lite` before `readSettings`.
abbrev pub first_core : Core
first_core = record {
  values = default_values;
  tiempo = pos 10;
  intervalo = pos 0;
  lista = [];
  list_auths = [];
  hash_auths = [];
  rpc_user = codes "rssani-rpc";
  rpc_pass = codes "rssanipass-rpc";
  misdatos = default_datos;
}

abbrev pub first_xml : Xml
first_xml = record {
  pila = [];
  current_tag = [];
  link_string = [];
  title_string = [];
  pub_date = [];
  description = [];
}

-- The members of `Rss_lite` before `iniciaTrackers`.
abbrev pub first_rss : Values → DateTime → Rss
first_rss values now = record {
  values = values;
  recientes = [];
  posts = [];
  trackers = [];
  lista_trackers = [];
  descargas = [];
  ultimo_rss = now;
  rss_connected = true;
}

-- Both constructors, up to the session on IRC; `none` where `tiempo * msPerMin` overflows.
unfoldable pub rssani_lite : (q : QSettings) → q.Store → DateTime → QHash (List ℕ) → Option Daemon
rssani_lite q store now files =
    let c = read_settings q store first_core in
    if fits_int (c.tiempo *ℤ ms_per_min)
    then some (record {
      core = record c { intervalo = c.tiempo *ℤ ms_per_min };
      xml = first_xml;
      torrents = record {
        rss = inicia_trackers c.hash_auths (first_rss c.values now);
        downloads = [];
        files = files;
      };
    })
    else none

-- `Rss_lite` with the values as the core has them now.
abbrev pub rss_of : Daemon → Rss
rss_of a = record (a.torrents.rss) { values = a.core.values }

-- The state behind what `Rss_lite` did to itself and to the rules.
abbrev pub with_rss : Rss → Daemon → Daemon
with_rss s a = record a { torrents = record (a.torrents) { rss = s } }

module _ (api : TextApi) (is_digit : ℕ → Bool) (u : UrlApi) (f : FeedText) where
  -- `none` is behaviour that C++ leaves undefined. What goes out is no part of this state: the mails,
  -- the lines of both logs, and the calls `guardar` and `salir` of a request, which are the process's.
  unfoldable pub step : Input → Daemon → Option Daemon
  step (served env q) a = elim (handle env q a.core) [
    | none ↦ none
    | some (reply, c, calls) ↦ some (record a { core = c })
  ]
  step (messaged w m) a =
      if a.core.misdatos.activo
      then elim (anunciada api is_digit a.core.misdatos m) [
        | none ↦ some a
        | some up ↦
            let (s, lista, effects) =
              mira_titulo u w up.seccion up.titulo up.url (rss_of a) a.core.lista in
            some (with_rss s (record a { core = record (a.core) { lista = lista } }))
      ]
      else some a
  step (feed_read w reply) a =
      if a.torrents.rss.rss_connected
      then elim (read_data_rss f u w reply a.xml (rss_of a) a.core.lista) [
        | none ↦ none
        | some p ↦
            some (
              with_rss p.rss (record a { core = record (a.core) { lista = p.lista }; xml = p.xml }))
      ]
      else some a
  step (answered d r) a = elim (read_data_torrent u d r (record (a.torrents) { rss = rss_of a })) [
    | none ↦ none
    | some (t, answers) ↦ some (record a { torrents = t })
  ]
  step (timed_out now) a = some (with_rss (fetch u.host now (rss_of a)).0 a)

  -- One thing after another.
  unfoldable pub run : List Input → Daemon → Option Daemon
  run [] a = some a
  run (i ∷ is) a = elim (step i a) [ none ↦ none | some a' ↦ run is a' ]
