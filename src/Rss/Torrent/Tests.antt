-- ===== src/Rss/Torrent/Tests.antt =====
-- Runs of `readDataTorrent` with one tracker.
use rssani.Base.{
  ◌≡◌, refl, true, false, some, none, [], ◌∷◌, ◌++◌, pos, if◌then◌else◌, QString, codes, text_eq,
  contains, starts_with, lookup, insert, remove, drop, take,
}
use rssani.Model.{Regexp, default_values}
use rssani.Rss.Types.{Tracker, default_tracker, Rss}
use rssani.Rss.Match.{World, parse_title, scan, verdict}
use rssani.Rss.Title.{UrlApi, mira_titulo}
use rssani.Rss.Torrent.{
  NetworkReply, Disk, writes, sends_mail, logs, plain_name, fichero, id_name, ends_with, quoted,
  read_data_torrent, save, first_data,
}
use rssani.Rss.Torrent.Kept.{IsKept, read_data_torrent-IsKept}
use rssani.Rss.Torrent.Query.{mira_titulo_lost}

-- Addresses of the form `http://t…`, with a host of one character.
abbrev url : UrlApi
url = record {
  scheme = take 4;
  host = λ link. take 1 (drop 7 link);
  query_item_value = λ link item. [];
}

abbrev disk : Disk
disk = record {
  path_of = λ a. if contains a (codes "?") then codes "/download.php" else drop 8 a;
  to_string = λ a. a;
  file_path = λ ruta name. ruta ++ (b'/' ∷ name);
  opens = λ path. true;
  log_opens = true;
  log_stamp = [];
  mail_stamp = codes "host";
}

abbrev mundo : World
mundo = record {
  today = pos 100;
  now = 1000;
  date_from_string = λ s. pos 0;
  days_to = λ a b. pos 0;
  search = λ pattern text. contains text pattern;
  url_host = λ u. u;
  matches_opens = true;
  send_mail_result = λ a m. pos 0;
  stamp = codes "host";
}

abbrev regla : Regexp
regla = record {
  nombre = codes "Uno";
  vencimiento = [];
  mail = false;
  tracker = [];
  dias_descarga = pos 1;
  fecha_descarga = none;
  activa = true;
}

abbrev trk : Tracker
trk = record default_tracker { url_tracker = codes "http://t" }

abbrev inicial : Rss
inicial = record {
  values = record default_values { ruta = codes "/d" };
  recientes = [];
  posts = [];
  trackers = (codes "http://t", trk) ∷ [];
  lista_trackers = codes "http://t" ∷ [];
  descargas = [];
  ultimo_rss = 0;
  rss_connected = true;
}

abbrev respuesta : QString → NetworkReply
respuesta address = record {
  address = address;
  has_error = false;
  content_disposition = [];
  host_header = codes "t";
  body = 1 ∷ 2 ∷ [];
}

-- The name in the header, without its slash.
named_by_header :
    read_data_torrent url disk
      (record (respuesta (codes "http://t/7")) {
        content_disposition = codes "name=\"../a.torrent\"";
      })
      (record { rss = inicial; downloads = []; files = [] })
    ≡ some (
      record { rss = inicial; downloads = []; files = (codes "/d/..-a.torrent", 1 ∷ 2 ∷ []) ∷ [] },
      writes (codes "/d/..-a.torrent") (1 ∷ 2 ∷ [])
          ∷ logs (codes "-  | ..-a.torrent")
          ∷ sends_mail (codes "RSSANI host") (codes "..-a.torrent")
          ∷ [],
    )
unfolding read_data_torrent fichero first_data save plain_name quoted ends_with starts_with lookup
    insert remove text_eq
named_by_header = refl

read_data_torrent-IsKept_example :
    IsKept url disk (respuesta (codes "http://t/7")) (codes "/d") [] (
      read_data_torrent url disk
        (respuesta (codes "http://t/7"))
        (record { rss = inicial; downloads = []; files = [] }))
read_data_torrent-IsKept_example =
    read_data_torrent-IsKept url disk (respuesta (codes "http://t/7"))
      (record { rss = inicial; downloads = []; files = [] }) refl

mira_titulo_lost_example :
    let s' = (mira_titulo url mundo [] (codes "Uno") (codes "http://t/7") inicial (regla ∷ [])).0 in
    let r = respuesta (codes "http://t/download.php?id=") in
    ((fichero url disk r s').0 ≡ id_name url disk r inicial)
    × (lookup (codes "http://t/download.php?id=") (fichero url disk r s').1.posts
        ≡ some (codes "Uno"))
unfolding parse_title scan verdict contains starts_with lookup text_eq ends_with quoted
mira_titulo_lost_example =
    mira_titulo_lost url disk mundo [] (codes "Uno") (codes "http://t/7") trk inicial (regla ∷ [])
      (respuesta (codes "http://t/download.php?id=")) refl refl refl refl refl refl
