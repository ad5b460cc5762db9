-- ===== src/Rss/Types.antt =====
-- The state of `Rss_lite`, its trackers, and what it does to the world.
use rssani.Base.{Bool, true, List, [], QString, codes, QHash}
use rssani.Model.{DateTime, Values}

-- `enum class MatchResult`.
pub data MatchResult : Type 0 where
  not_matched download already_notified mail_failed : MatchResult

-- `struct tracker`.
pub record Tracker : Type 0 where
  pub url_tracker : QString
  pub referer : QString
  pub cookie : QString
  pub url_rss : QString
  pub url_download : QString
  pub id : QString
  pub es_rss : Bool

-- `tracker trk;`
abbrev pub default_tracker : Tracker
default_tracker = record {
  url_tracker = [];
  referer = codes "/browse.php";
  cookie = [];
  url_rss = codes "/rss.php";
  url_download = codes "/download.php?id=";
  id = codes "id";
  es_rss = true;
}

-- The headers of a request.
pub record HttpGet : Type 0 where
  pub url : QString
  pub host : QString
  pub cookie : QString
  pub referer : QString

-- A line in matches.log, a mail handed to `sendMail`, and requests through `httpRss` and
-- `httpTorrent`.
pub data Effect : Type 0 where
  matches_line : QString → QString → Effect
  mails : QString → QString → Effect
  gets_rss gets_torrent : HttpGet → Effect

-- The members of `Rss_lite` that these parts use. `rss_connected` says whether `readDataRSS` is
-- connected to `httpRss`. The rules are not here: `lista` points to those of `rssani_lite`.
pub record Rss : Type 0 where
  pub values : Values
  pub recientes : List QString
  pub posts : QHash QString
  pub trackers : QHash Tracker
  pub lista_trackers : List QString
  pub descargas : QString
  pub ultimo_rss : DateTime
  pub rss_connected : Bool
