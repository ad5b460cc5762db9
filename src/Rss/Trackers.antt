-- ===== src/Rss/Trackers.antt =====
-- `Rss_lite::iniciaTrackers` and `fetch`. `readDataRSS` is an argument here. The XML readers, which
-- `fetch` clears, are no part of the state: each is cleared behind the reply that it has read.
pub mod Init
pub mod Feed
pub mod Order
mod Tests
use rssani.Base.{
  ℕ, Bool, true, false, not, ◌&&◌, Option, none, some, List, [], ◌∷◌, ◌++◌, if◌then◌else◌, QString,
  codes, is_empty, contains, QHash, lookup, insert,
}
use rssani.Model.{Auth, DateTime, filled_values}
use rssani.Rss.Types.{Tracker, default_tracker, HttpGet, Effect, gets_rss, Rss}

-- One round of the loop of `iniciaTrackers`.
pub tracker_of : Auth → Tracker
tracker_of au = record default_tracker {
  url_tracker = au.tracker;
  cookie = codes "pass=" ++ (au.pass ++ (codes "; uid=" ++ au.uid));
  referer = au.referer;
  id = au.id_field;
  url_download = au.url_download;
  url_rss =
      if not (is_empty au.passkey) && contains au.url_rss (codes "pid=")
      then au.url_rss ++ au.passkey
      else au.url_rss;
  es_rss = true;
}

-- `iniciaTrackers`, over the entries of the hash in the order of its iterator.
unfoldable pub inicia_trackers : QHash Auth → Rss → Rss
inicia_trackers [] s = s
inicia_trackers ((k, au) ∷ entries) s = inicia_trackers entries (record s {
  lista_trackers = s.lista_trackers ++ au.tracker ∷ [];
  trackers = insert au.tracker (tracker_of au) s.trackers;
})

-- The request for the feed of a tracker; `url_host` is the host of an address.
pub rss_request : (QString → QString) → Tracker → HttpGet
rss_request url_host t = record {
  url = t.url_rss;
  host = url_host t.url_tracker;
  cookie = t.cookie;
  referer = t.url_tracker ++ t.referer;
}

-- The loop of `fetch` over the trackers' addresses.
pub requests : (QString → QString) → QHash Tracker → List QString → List Effect
requests url_host trackers [] = []
requests url_host trackers (u ∷ us) = elim (lookup u trackers) [
  | none ↦ requests url_host trackers us
  | some t ↦ gets_rss (rss_request url_host t) ∷ requests url_host trackers us
]

-- `descargas.clear(); httpRss.disconnect(); …`: `disconnect` without arguments takes away every
-- connection of the object's signals, which Qt documents.
unfoldable pub fetch : (QString → QString) → DateTime → Rss → Rss × List Effect
fetch url_host now s =
    let s' : Rss = record s { descargas = []; rss_connected = false } in
    if not (filled_values s.values)
    then (s', [])
    else (record s' { ultimo_rss = now }, requests url_host s.trackers s.lista_trackers)

-- What the signal `finished` of `httpRss` runs, with the slot that `prepareSignals` connects.
pub on_rss_finished : (Rss → Rss) → Rss → Rss
on_rss_finished read_data_rss s = if s.rss_connected then read_data_rss s else s
