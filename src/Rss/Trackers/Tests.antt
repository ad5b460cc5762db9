-- ===== src/Rss/Trackers/Tests.antt =====
-- Runs of `iniciaTrackers` and `fetch` on two trackers.
use rssani.Base.{
  ◌≡◌, refl, true, [], ◌∷◌, QString, codes, QHash, lookup, text_eq, contains, starts_with,
}
use mathlib.Core.List.Perm
use mathlib.Core.List.{Perm}
use rssani.Model.{Auth, default_auth, default_values}
use rssani.Rss.Types.{Rss}
use rssani.Rss.Trackers.{tracker_of, inicia_trackers, fetch, on_rss_finished}
use rssani.Rss.Trackers.Init.{IsAuthHash}
use rssani.Rss.Trackers.Feed.{fetches, answers, feed_run, fetch_without_path, fetch_answers_ignored}
use rssani.Rss.Trackers.Order.{fetch-Perm}

abbrev auth_of : QString → QString → Auth
auth_of tracker passkey = record default_auth {
  tracker = tracker;
  uid = codes "1";
  pass = codes "p";
  passkey = passkey;
  url_rss = codes "/rss.php?pid=";
}

abbrev entradas : QHash Auth
entradas =
    (codes "http://b", auth_of (codes "http://b") (codes "k"))
    ∷ (codes "http://a", auth_of (codes "http://a") [])
    ∷ []

abbrev inicial : Rss
inicial = record {
  values = record default_values { ruta = codes "/tmp" };
  recientes = [];
  posts = [];
  trackers = [];
  lista_trackers = [];
  descargas = [];
  ultimo_rss = 0;
  rss_connected = true;
}

abbrev sin_ruta : Rss
sin_ruta = record inicial { values = default_values }

abbrev url_host : QString → QString
url_host u = u

passkey_is_added :
    (tracker_of (auth_of (codes "http://b") (codes "k"))).url_rss ≡ codes "/rss.php?pid=k"
unfolding tracker_of contains starts_with
passkey_is_added = refl

entradas-IsAuthHash : IsAuthHash entradas
unfolding lookup text_eq
entradas-IsAuthHash = (refl, refl, (refl, refl, tt))

fetch_without_path_example :
    ((fetch url_host 5 sin_ruta).1 ≡ []) × ((fetch url_host 5 sin_ruta).0.ultimo_rss ≡ 0)
fetch_without_path_example = fetch_without_path url_host 5 sin_ruta refl

abbrev reads : Rss → Rss
reads s = record s { ultimo_rss = 9 }

fetch_answers_ignored_example :
    let later = feed_run url_host (answers reads ∷ fetches 7 ∷ []) (fetch url_host 5 inicial).0 in
    on_rss_finished reads later ≡ later
fetch_answers_ignored_example =
    fetch_answers_ignored url_host 5 (answers reads ∷ fetches 7 ∷ []) reads inicial

abbrev al_reves : QHash Auth
al_reves =
    (codes "http://a", auth_of (codes "http://a") [])
    ∷ (codes "http://b", auth_of (codes "http://b") (codes "k"))
    ∷ []

al_reves-IsAuthHash : IsAuthHash al_reves
unfolding lookup text_eq
al_reves-IsAuthHash = (refl, refl, (refl, refl, tt))

fetch-Perm_example :
    (lookup (codes "http://a") (inicia_trackers entradas inicial).trackers
      ≡ lookup (codes "http://a") (inicia_trackers al_reves inicial).trackers)
    × Perm
        (fetch url_host 5 (inicia_trackers entradas inicial)).1
        (fetch url_host 5 (inicia_trackers al_reves inicial)).1
fetch-Perm_example =
    fetch-Perm url_host 5 entradas al_reves inicial (codes "http://a") entradas-IsAuthHash
      al_reves-IsAuthHash (Perm.swap _ _ _) refl refl refl
