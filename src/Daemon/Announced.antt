-- ===== src/Daemon/Announced.antt =====
-- Proofs about rssani_lite.cpp and rss_lite.cpp.
-- From an announcement on IRC to the file of its torrent.
use rssani.Base.{
  ℕ, ◌≡◌, refl, sym, ap, ◌∙◌, Bool, true, false, Option, none, some, List, [], ◌∷◌, ◌++◌, arith,
  if◌then◌else◌, any_of, All, QString, text_eq, lookup, insert, lookup-insert,
}
use rssani.Model.{Regexp}
use rssani.Irc.{Message}
use rssani.Subida.{TextApi, Upload, anunciada}
use rssani.Rss.Types.{MatchResult, download, Tracker, Rss, Effect}
use rssani.Rss.Match.{World, downloads, verdict, downloaded, parse_title}
use rssani.Rss.Match.First.{goes_on, survivors, parse_title_downloads}
use rssani.Rss.Title.{UrlApi, site, torrent_path, remembers, mira_titulo}
use rssani.Rss.Title.Link.{mira_titulo_download}
use rssani.Rss.Xml.{FeedText}
use rssani.Rss.Torrent.{
  NetworkReply, Disk, Torrents, Answer, ends_with, quoted, torrent_suffix, plain_name,
  read_data_torrent,
}
use rssani.Rss.Torrent.Headed.{read_data_torrent_headed}
use rssani.Rss.Title.Recent.{any_of-append}
use rssani.Daemon.{Daemon, Input, messaged, answered, rss_of, with_rss, step, run}

mira_titulo-lista :
    (u : UrlApi) (w : World) (seccion titulo link : QString) (s : Rss) (lista : List Regexp)
    → (mira_titulo u w seccion titulo link s lista).1
      ≡ (parse_title w seccion titulo link s.recientes lista).1
unfolding mira_titulo
mira_titulo-lista u w seccion titulo link s lista = refl

module _ (api : TextApi) (is_digit : ℕ → Bool) (u : UrlApi) (f : FeedText) where
  -- The state behind the announcement.
  heard : World → Upload → Daemon → Daemon
  heard w up a =
      let (s, lista, effects) =
        mira_titulo u w up.seccion up.titulo up.url (rss_of a) a.core.lista in
      with_rss s (record a { core = record (a.core) { lista = lista } })

  step-heard :
      (w : World) (m : Option Message) (up : Upload) (a : Daemon)
      → a.core.misdatos.activo ≡ true
      → anunciada api is_digit a.core.misdatos m ≡ some up
      → step api is_digit u f (messaged w m) a ≡ some (heard w up a)
  unfolding step heard
  step-heard w m up a on says = ground (arith, on, says)

  run-two :
      (i j : Input) (a b c : Daemon)
      → step api is_digit u f i a ≡ some b
      → step api is_digit u f j b ≡ some c
      → run api is_digit u f (i ∷ j ∷ []) a ≡ some c
  unfolding run
  run-two i j a b c e g = ground (arith, e, g)

  heard-rss :
      (w : World) (up : Upload) (trk : Tracker) (a : Daemon)
      → (parse_title w up.seccion up.titulo up.url a.torrents.rss.recientes a.core.lista).0
        ≡ download
      → lookup (site u up.url) a.torrents.rss.trackers ≡ some trk
      → rss_of (heard w up a)
        ≡ (mira_titulo u w up.seccion up.titulo up.url (rss_of a) a.core.lista).0
  unfolding heard
  heard-rss w up trk a e known =
      let found =
        mira_titulo_download u w up.seccion up.titulo up.url trk (rss_of a) a.core.lista e known in
      ap (λ (s : Rss). record s { values = a.core.values }) found ∙ sym found

  step-answered :
      (d : Disk) (r : NetworkReply) (a : Daemon) (s : Rss) (t' : Torrents) (answers : List Answer)
      → rss_of a ≡ s
      → a.torrents.downloads ≡ []
      → read_data_torrent u d r (record { rss = s; downloads = []; files = a.torrents.files })
        ≡ some (t', answers)
      → step api is_digit u f (answered d r) a ≡ some (record a { torrents = t' })
  unfolding step
  step-answered d r a s t' answers e closed h =
      let same : (record (a.torrents) { rss = rss_of a })
          ≡ (record { rss = s; downloads = []; files = a.torrents.files }) =
        ap (λ x. record { rss = x; downloads = a.torrents.downloads; files = a.torrents.files }) e
        ∙ ap (λ x. record { rss = s; downloads = x; files = a.torrents.files }) closed in
      ground (arith, ap (read_data_torrent u d r) same ∙ h)

  -- From an announcement to a file. The program is on IRC and hears the announcement of a title that
  -- it does not remember, no download is open, and the rules are passed until one says to download it
  -- from a tracker that is known. The answer for a torrent that follows has no error, and its header
  -- names a `.torrent` file. Then, where that file is not there yet and opens, both steps are defined:
  -- the data of the answer is stored in the directory `ruta` under the name from the header, as
  -- `plain_name` writes it, and every other `.torrent` file is as it was; the rules are those that have
  -- not expired, with the date of the one that matched; and the title is remembered.
  pub announced_stored :
      (w : World) (m : Option Message) (up : Upload) (before after : List Regexp) (regla : Regexp)
      (trk : Tracker) (d : Disk) (r : NetworkReply) (k : QString) (a : Daemon)
      → a.core.misdatos.activo ≡ true
      → anunciada api is_digit a.core.misdatos m ≡ some up
      → a.torrents.downloads ≡ []
      → a.core.lista ≡ before ++ regla ∷ after
      → any_of (λ t. text_eq t up.titulo) a.torrents.rss.recientes ≡ false
      → All (λ x. goes_on (verdict w up.seccion up.titulo up.url x) ≡ true) before
      → verdict w up.seccion up.titulo up.url regla ≡ downloads
      → lookup (site u up.url) a.torrents.rss.trackers ≡ some trk
      → r.has_error ≡ false
      → ends_with (quoted r.content_disposition) torrent_suffix ≡ true
      → ends_with k torrent_suffix ≡ true
      → let path = d.file_path a.core.values.ruta (plain_name (quoted r.content_disposition)) in
        lookup path a.torrents.files ≡ none
        → d.opens path ≡ true
        → (a' : Daemon) × (run api is_digit u f (messaged w m ∷ answered d r ∷ []) a ≡ some a')
          × (lookup k a'.torrents.files
              ≡ (if text_eq path k then some r.body else lookup k a.torrents.files))
          × (a'.core.lista
              ≡ survivors w up.seccion up.titulo up.url before
                ++ downloaded w up.seccion up.titulo up.url regla ∷ after)
          × (any_of (λ t. text_eq t up.titulo) a'.torrents.rss.recientes ≡ true)
  unfolding heard
  announced_stored w m up before after regla trk d r k a on says closed rules fresh passed hit known
        ok named torrent new opens =
      let s = rss_of a in
      let scanned =
        ap (parse_title w up.seccion up.titulo up.url s.recientes) rules
        ∙ parse_title_downloads w up.seccion up.titulo up.url s.recientes before after regla fresh
            passed hit in
      let e = ap (λ (x : MatchResult × List Regexp × List Effect). x.0) scanned in
      let key = site u up.url ++ torrent_path u up.url trk in
      let s' = remembers up.titulo (record s { posts = insert key up.titulo s.posts }) in
      let found = mira_titulo_download u w up.seccion up.titulo up.url trk s a.core.lista e known in
      let path = d.file_path a.core.values.ruta (plain_name (quoted r.content_disposition)) in
      let t' : Torrents = record {
        rss = s';
        downloads = [];
        files = insert path r.body a.torrents.files;
      } in
      (
        record (heard w up a) { torrents = t' },
        run-two (messaged w m) (answered d r) a (heard w up a) _ (step-heard w m up a on says) (
            step-answered d r (heard w up a) s' t' _ (heard-rss w up trk a e known ∙ found) closed
              (read_data_torrent_headed u d r s' a.torrents.files ok named new opens)),
        lookup-insert path k r.body a.torrents.files,
        mira_titulo-lista u w up.seccion up.titulo up.url s a.core.lista
            ∙ ap (λ (x : MatchResult × List Regexp × List Effect). x.1) scanned,
        any_of-append u up.titulo _,
      )
