-- ===== src/Daemon/Reached.antt =====
-- Proofs about rssani_lite.cpp and rss_lite.cpp.
-- Every state that the program comes to.
use mathlib.Core.Path.{subst}
use rssani.Base.{ℕ, ◌≡◌, ◌≤◌, sym, Bool, Option, none, some, List, [], ◌∷◌, length, QHash}
use rssani.Model.{DateTime}
use rssani.Settings.Store.{QSettings}
use rssani.Rpc.{handle}
use rssani.Rpc.Invariant.{handle-IsValid}
use rssani.Subida.{TextApi, Upload, anunciada}
use rssani.Rss.Match.{World}
use rssani.Rss.Title.{UrlApi, mira_titulo}
use rssani.Rss.Title.Recent.{mira_titulo-bounded}
use rssani.Rss.Xml.{FeedText, read_data_rss}
use rssani.Rss.Xml.Recent.{read_data_rss-IsBounded}
use rssani.Rss.Torrent.{NetworkReply, Disk, Torrents}
use rssani.Rss.Torrent.Kept.{read_data_torrent-IsKept}
use rssani.Rss.Torrent.Recent.{read_data_torrent-recientes}
use rssani.Daemon.{
  Daemon, Input, served, messaged, feed_read, answered, timed_out, rssani_lite, rss_of, with_rss,
  step, run,
}
use rssani.Daemon.Sound.{
  IsSound, IsSoundAt, at_some, if-IsSoundAt, started-IsSoundAt, core-IsSoundAt, rss-IsSound,
  parse-IsSoundAt, torrents-IsSound, fetch-recientes,
}

module _ (api : TextApi) (is_digit : ℕ → Bool) (u : UrlApi) (f : FeedText) where
  answered-IsSoundAt :
      (files : QHash (List ℕ)) (a : Daemon) (d : Disk) (r : NetworkReply)
      → IsSound files a
      → IsSoundAt files (step api is_digit u f (answered d r) a)
  unfolding step
  answered-IsSoundAt files a d r h =
      let t : Torrents = record (a.torrents) { rss = rss_of a } in
      let (t', answers, e, closed, keeps, safe) = read_data_torrent-IsKept u d r t h.closed in
      subst
        (λ o. IsSoundAt files (elim o as (λ x. Option Daemon) [
          | none ↦ none
          | some (t', answers) ↦ some (record a { torrents = t' })
        ]))
        (sym e)
        (torrents-IsSound files a t' h (read_data_torrent-recientes u d r t t' answers e) closed
          keeps)

  messaged-IsSoundAt :
      (files : QHash (List ℕ)) (a : Daemon) (w : World) (o : Option Upload)
      → IsSound files a
      → IsSoundAt files (elim o as (λ x. Option Daemon) [
        | none ↦ some a
        | some up ↦
            let (s, lista, effects) =
              mira_titulo u w up.seccion up.titulo up.url (rss_of a) a.core.lista in
            some (with_rss s (record a { core = record (a.core) { lista = lista } }))
      ])
  messaged-IsSoundAt files a w none h = h
  messaged-IsSoundAt files a w (some up) h =
      rss-IsSound files a _ _ h
        (mira_titulo-bounded u w up.seccion up.titulo up.url (rss_of a) a.core.lista h.bounded)

  pub step-IsSoundAt :
      (files : QHash (List ℕ)) (i : Input) (a : Daemon)
      → IsSound files a
      → IsSoundAt files (step api is_digit u f i a)
  unfolding step
  step-IsSoundAt files (served env q) a h =
      core-IsSoundAt files a (handle env q a.core) h (handle-IsValid env q a.core h.valid)
  step-IsSoundAt files (messaged w m) a h =
      if-IsSoundAt files a.core.misdatos.activo _ _
        (messaged-IsSoundAt files a w (anunciada api is_digit a.core.misdatos m) h) h
  step-IsSoundAt files (feed_read w reply) a h =
      if-IsSoundAt files a.torrents.rss.rss_connected _ _
        (parse-IsSoundAt files a (read_data_rss f u w reply a.xml (rss_of a) a.core.lista) h
          (read_data_rss-IsBounded f u w reply a.xml (rss_of a) a.core.lista h.bounded))
        h
  step-IsSoundAt files (answered d r) a h = answered-IsSoundAt files a d r h
  step-IsSoundAt files (timed_out now) a h =
      rss-IsSound files a _ a.core.lista h
        (subst (λ l. length l ≤ 31) (sym (fetch-recientes u.host now (rss_of a))) h.bounded)

  next-IsSoundAt :
      (files : QHash (List ℕ)) (o : Option Daemon) (next : Daemon → Option Daemon)
      → ((a : Daemon) → IsSound files a → IsSoundAt files (next a))
      → IsSoundAt files o
      → IsSoundAt files (elim o [ none ↦ none | some a ↦ next a ])
  next-IsSoundAt files none next g h = tt
  next-IsSoundAt files (some a) next g h = g a h

  run-IsSoundAt :
      (files : QHash (List ℕ)) (is : List Input) (a : Daemon)
      → IsSound files a
      → IsSoundAt files (run api is_digit u f is a)
  unfolding run
  run-IsSoundAt files [] a h = h
  run-IsSoundAt files (i ∷ is) a h =
      next-IsSoundAt files (step api is_digit u f i a) (run api is_digit u f is)
        (run-IsSoundAt files is) (step-IsSoundAt files i a h)

  pub run-IsSound :
      (q : QSettings) (store : q.Store) (now : DateTime) (files : QHash (List ℕ)) (is : List Input)
      (a a' : Daemon)
      → rssani_lite q store now files ≡ some a
      → run api is_digit u f is a ≡ some a'
      → IsSound files a'
  run-IsSound q store now files is a a' start went =
      at_some files (run api is_digit u f is a) a'
        (run-IsSoundAt files is a (
          at_some files (rssani_lite q store now files) a (started-IsSoundAt q store now files)
            start))
        went
