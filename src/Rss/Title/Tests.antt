-- ===== src/Rss/Title/Tests.antt =====
-- Runs of `miraTitulo` and `parseLink` with one tracker and one rule.
use rssani.Base.{
  ◌≡◌, ◌++◌, refl, true, false, some, none, [], ◌∷◌, pos, QString, codes, text_eq, contains,
  starts_with, lookup, insert, drop, take,
}
use rssani.Model.{Regexp, default_values}
use rssani.Rss.Types.{Tracker, default_tracker, Rss, gets_torrent, matches_line}
use rssani.Rss.Match.{World, parse_title, scan, verdict}
use rssani.Rss.Title.{UrlApi, parse_link, mira_titulo, on_result, remembers}
use rssani.Rss.Title.Recent.{mira_titulo_twice}
use rssani.Rss.Title.Untracked.{mira_titulo_untracked}

-- Addresses of the form `http://x…`, with a host of one character.
abbrev url : UrlApi
url = record {
  scheme = take 4;
  host = λ link. take 1 (drop 7 link);
  query_item_value = λ link item. [];
}

abbrev mundo : World
mundo = record {
  today = pos 100;
  now = 1000;
  date_from_string = λ s. pos 0;
  days_to = λ a b. pos 0;
  search = λ pattern text. contains text pattern;
  url_host = λ u. u;
  matches_opens = true;
  send_mail_result = λ a m. pos 0;
  stamp = codes "host";
}

abbrev regla : Regexp
regla = record {
  nombre = codes "Uno";
  vencimiento = [];
  mail = false;
  tracker = [];
  dias_descarga = pos 1;
  fecha_descarga = none;
  activa = true;
}

abbrev trk : Tracker
trk = record default_tracker { url_tracker = codes "http://t" }

abbrev inicial : Rss
inicial = record {
  values = default_values;
  recientes = [];
  posts = [];
  trackers = (codes "http://t", trk) ∷ [];
  lista_trackers = codes "http://t" ∷ [];
  descargas = [];
  ultimo_rss = 0;
  rss_connected = true;
}

abbrev enlace : QString
enlace = codes "http://t/download/7"

downloads_title : mira_titulo url mundo [] (codes "Uno") enlace inicial (regla ∷ []) ≡ (
  record inicial { recientes = codes "Uno" ∷ []; posts = (enlace, codes "Uno") ∷ [] },
  record regla { fecha_descarga = some 1000 } ∷ [],
  matches_line (codes "Uno") (codes "Uno")
      ∷ gets_torrent (record {
        url = codes "/download/7";
        host = codes "t";
        cookie = [];
        referer = codes "http://t/browse.php";
      })
      ∷ [],
)
unfolding mira_titulo on_result parse_link parse_title scan verdict contains starts_with text_eq
    lookup insert
downloads_title = refl

mira_titulo_twice_example :
    let (s', lista', effects) =
      mira_titulo url mundo [] (codes "Uno") enlace inicial (regla ∷ []) in
    mira_titulo url mundo (codes "Cine") (codes "Uno") (codes "http://t/2") s' lista'
    ≡ (s', lista', [])
unfolding parse_title scan verdict contains starts_with
mira_titulo_twice_example =
    mira_titulo_twice url mundo mundo [] (codes "Cine") (codes "Uno") enlace (codes "http://t/2")
      inicial (regla ∷ []) refl

abbrev ajeno : QString
ajeno = codes "http://x/download/7"

mira_titulo_untracked_example :
    (mira_titulo url mundo [] (codes "Uno") ajeno inicial ([] ++ regla ∷ []) ≡ (
      remembers (codes "Uno") inicial,
      record regla { fecha_descarga = some 1000 } ∷ [],
      matches_line (codes "Uno") (codes "Uno") ∷ [],
    ))
    × ((w : World) (seccion link : QString)
        → mira_titulo url w seccion
            (codes "Uno")
            link
            (remembers (codes "Uno") inicial)
            (record regla { fecha_descarga = some 1000 } ∷ [])
          ≡ (remembers (codes "Uno") inicial, record regla { fecha_descarga = some 1000 } ∷ [], []))
unfolding verdict contains starts_with text_eq lookup
mira_titulo_untracked_example =
    mira_titulo_untracked url mundo [] (codes "Uno") ajeno inicial [] [] regla refl tt refl refl
