-- ===== src/Rss/Trackers/Feed.antt =====
-- Which feeds are asked for, and what becomes of the answers.
use mathlib.Core.Option
use rssani.Base.{
  ◌≡◌, refl, ap, ◌∙◌, true, false, none, some, List, [], ◌∷◌, ◌++◌, map, arith, All, QString,
  is_empty, text_eq_iff, text_eq_refl, QHash, lookup,
}
use rssani.Model.{Auth, DateTime}
use rssani.Rss.Types.{Tracker, gets_rss, Rss}
use rssani.Rss.Trackers.{tracker_of, inicia_trackers, rss_request, requests, fetch, on_rss_finished}
use rssani.Rss.Trackers.Init.{
  IsAuthHash, inicia_trackers-lookup, inicia_trackers-lista, inicia_trackers-values,
}

-- Each address on the list has the tracker that stands beside it.
abbrev Listed : QHash Tracker → QHash Auth → Type 0
Listed trackers [] = Unit
Listed trackers ((k, au) ∷ entries) =
    (lookup au.tracker trackers ≡ some (tracker_of au)) × Listed trackers entries

requests-Listed :
    (url_host : QString → QString) (trackers : QHash Tracker) (entries : QHash Auth)
    → Listed trackers entries
    → requests url_host trackers (map (λ e. e.1.tracker) entries)
      ≡ map (λ e. gets_rss (rss_request url_host (tracker_of e.1))) entries
unfolding requests
requests-Listed url_host trackers [] h = refl
requests-Listed url_host trackers ((k, au) ∷ entries) (e, h) =
    rw (e, requests)
      (ap (◌∷◌ (gets_rss (rss_request url_host (tracker_of au))))
        (requests-Listed url_host trackers entries h))

-- Every entry is found under its key.
abbrev Found : QHash Auth → QHash Auth → Type 0
Found m entries = All (λ e. lookup e.0 m ≡ some e.1) entries

Found-cons :
    (k : QString) (au : Auth) (m entries : QHash Auth)
    → lookup k m ≡ none
    → Found m entries
    → Found ((k, au) ∷ m) entries
unfolding lookup
Found-cons k au m [] fresh h = tt
Found-cons k au m ((j, a) ∷ entries) fresh (e, h) =
    (ground (arith, text_eq_iff k j), Found-cons k au m entries fresh h)

IsAuthHash-Found : (m : QHash Auth) → IsAuthHash m → Found m m
unfolding lookup
IsAuthHash-Found [] h = tt
IsAuthHash-Found ((k, au) ∷ m) (e, fresh, h) =
    (rw (text_eq_refl k), Found-cons k au m m fresh (IsAuthHash-Found m h))

Found-Listed :
    (m entries : QHash Auth) (s : Rss)
    → IsAuthHash m
    → s.trackers ≡ []
    → IsAuthHash entries
    → Found m entries
    → Listed (inicia_trackers m s).trackers entries
Found-Listed m [] s h e d f = tt
Found-Listed m ((k, au) ∷ entries) s h e (key, fresh, d) (here, f) = (
  ap (λ t. lookup t (inicia_trackers m s).trackers) key
      ∙ inicia_trackers-lookup k m s h e
      ∙ ap (Option.map tracker_of) here,
  Found-Listed m entries s h e d f,
)

-- With a download path set, a fetch from the trackers that `iniciaTrackers` has built asks each
-- tracker for its feed, once and in the order of the hash, with the request of that tracker.
pub fetch-inicia_trackers :
    (url_host : QString → QString) (now : DateTime) (entries : QHash Auth) (s : Rss)
    → IsAuthHash entries
    → s.trackers ≡ []
    → s.lista_trackers ≡ []
    → is_empty s.values.ruta ≡ false
    → (fetch url_host now (inicia_trackers entries s)).1
      ≡ map (λ e. gets_rss (rss_request url_host (tracker_of e.1))) entries
unfolding fetch
fetch-inicia_trackers url_host now entries s h e f path =
    let all = map (λ (e : QString × Auth). e.1.tracker) entries in
    let listed : (inicia_trackers entries s).lista_trackers ≡ all =
      inicia_trackers-lista entries s ∙ ap (λ l. l ++ all) f in
    rw (inicia_trackers-values entries s, path)
      (rw listed (
        requests-Listed url_host (inicia_trackers entries s).trackers entries
          (Found-Listed entries entries s h e h (IsAuthHash-Found entries h))))

-- Without a download path a fetch asks for nothing and keeps the time of the last one.
pub fetch_without_path :
    (url_host : QString → QString) (now : DateTime) (s : Rss)
    → is_empty s.values.ruta ≡ true
    → ((fetch url_host now s).1 ≡ []) × ((fetch url_host now s).0.ultimo_rss ≡ s.ultimo_rss)
unfolding fetch
fetch_without_path url_host now s path = rw path (refl, refl)

-- What reaches `httpRss` over time: the timer's fetches, and answers.
pub data FeedEvent : Type 0 where
  fetches : DateTime → FeedEvent
  answers : (Rss → Rss) → FeedEvent

-- The state behind one event; an answer is read by what it makes `readDataRSS` do.
pub feed_step : (QString → QString) → FeedEvent → Rss → Rss
feed_step url_host (fetches now) s = (fetch url_host now s).0
feed_step url_host (answers read_data_rss) s = on_rss_finished read_data_rss s

pub feed_run : (QString → QString) → List FeedEvent → Rss → Rss
feed_run url_host [] s = s
feed_run url_host (e ∷ es) s = feed_run url_host es (feed_step url_host e s)

fetch-disconnected :
    (url_host : QString → QString) (now : DateTime) (s : Rss)
    → (fetch url_host now s).0.rss_connected ≡ false
unfolding fetch
fetch-disconnected url_host now s = ground arith

feed_step-disconnected :
    (url_host : QString → QString) (e : FeedEvent) (s : Rss)
    → s.rss_connected ≡ false
    → (feed_step url_host e s).rss_connected ≡ false
unfolding feed_step on_rss_finished
feed_step-disconnected url_host (fetches now) s h = fetch-disconnected url_host now s
feed_step-disconnected url_host (answers r) s h = rw (h, on_rss_finished)

feed_run-disconnected :
    (url_host : QString → QString) (es : List FeedEvent) (s : Rss)
    → s.rss_connected ≡ false
    → (feed_run url_host es s).rss_connected ≡ false
unfolding feed_run
feed_run-disconnected url_host [] s h = h
feed_run-disconnected url_host (e ∷ es) s h =
    feed_run-disconnected url_host es (feed_step url_host e s)
      (feed_step-disconnected url_host e s h)

-- After a first fetch, and any further fetches and answers, an answer to `httpRss` changes nothing:
-- `fetch` has disconnected `readDataRSS`, and nothing connects it again.
pub fetch_answers_ignored :
    (url_host : QString → QString) (now : DateTime) (es : List FeedEvent)
    (read_data_rss : Rss → Rss) (s : Rss)
    → let later = feed_run url_host es (fetch url_host now s).0 in
      on_rss_finished read_data_rss later ≡ later
unfolding on_rss_finished
fetch_answers_ignored url_host now es read_data_rss s =
    rw (
      feed_run-disconnected url_host es (fetch url_host now s).0
        (fetch-disconnected url_host now s))
