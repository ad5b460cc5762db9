-- ===== src/Rss/Title.antt =====
-- `Rss_lite::miraTitulo` and `parseLink`, which the signal `linkCorrecto` runs in the same thread, and
-- `sendMail`.
pub mod Recent
pub mod Link
pub mod Untracked
mod Tests
use rssani.Base.{
  ℕ, ◌+◌, Bool, true, false, Option, none, some, List, [], ◌∷◌, ◌++◌, if◌then◌else◌, ltb, length,
  drop, QString, codes, contains, QHash, lookup, insert,
}
use rssani.Model.{Regexp}
use rssani.Rss.Types.{
  MatchResult, not_matched, download, already_notified, mail_failed, Tracker, HttpGet, Effect,
  gets_torrent, Rss,
}
use rssani.Rss.Match.{World, parse_title}

-- What `parseLink` asks of `QUrl` and `QUrlQuery`: the scheme and the host of an address, and the value
-- of an item of its query.
pub record UrlApi : Type 0 where
  pub scheme : QString → QString
  pub host : QString → QString
  pub query_item_value : QString → QString → QString

-- `if ( recientes.size() > 30 ) recientes.removeFirst(); recientes.append( titulo );`
abbrev pub remember : QString → List QString → List QString
remember titulo recientes =
    (if ltb 30 (length recientes) then drop 1 recientes else recientes) ++ titulo ∷ []

abbrev pub remembers : QString → Rss → Rss
remembers titulo s = record s { recientes = remember titulo s.recientes }

module _ (u : UrlApi) where
  abbrev pub site : QString → QString
  site link = u.scheme link ++ (codes "://" ++ u.host link)

  -- The path of the request: that of a link that says `download`, or one built from its id.
  abbrev pub torrent_path : QString → Tracker → QString
  torrent_path link t =
      if contains link (codes "download")
      then drop (length (site link)) link
      else t.url_download ++ u.query_item_value link t.id

  abbrev pub torrent_request : QString → Tracker → HttpGet
  torrent_request link t = record {
    url = torrent_path link t;
    host = u.host link;
    cookie = t.cookie;
    referer = t.url_tracker ++ t.referer;
  }

  unfoldable pub parse_link : QString → QString → Rss → Rss × List Effect
  parse_link link title s = elim (lookup (site link) s.trackers) [
    | none ↦ (s, [])
    | some t ↦ (
      record s { posts = insert (site link ++ torrent_path link t) title s.posts },
      gets_torrent (torrent_request link t) ∷ [],
    )
  ]

  -- The `switch` on the result of `parseTitle`, with the fall through from `Download`.
  pub on_result : MatchResult → QString → QString → Rss → Rss × List Effect
  on_result download titulo link s =
      let (s', effects) = parse_link link titulo s in (remembers titulo s', effects)
  on_result already_notified titulo link s = (remembers titulo s, [])
  on_result not_matched titulo link s = (s, [])
  on_result mail_failed titulo link s = (s, [])

  unfoldable pub mira_titulo :
      World → QString → QString → QString → Rss → List Regexp → Rss × List Regexp × List Effect
  unfolding on_result
  mira_titulo w seccion titulo link s lista =
      let (result, lista', found) = parse_title w seccion titulo link s.recientes lista in
      let (s', effects) = on_result result titulo link s in (s', lista', found ++ effects)
