-- ===== src/Rss/Title/Link.antt =====
-- The request for a torrent, and the title kept for its answer.
use rssani.Base.{
  ◌≡◌, sym, ap, ◌∙◌, true, some, [], ◌∷◌, ◌++◌, List, if◌then◌else◌, length, drop, drop-append,
  QString, codes, contains, lookup, insert, lookup-insert, text_eq,
}
use rssani.Model.{Regexp}
use rssani.Rss.Types.{Tracker, gets_torrent, Rss, Effect, download}
use rssani.Rss.Match.{World, parse_title}
use rssani.Rss.Title.{
  UrlApi, site, torrent_path, torrent_request, parse_link, remembers, on_result, mira_titulo,
}

module _ (u : UrlApi) where
  pub parse_link_known :
      (link title : QString) (t : Tracker) (s : Rss)
      → lookup (site u link) s.trackers ≡ some t
      → parse_link u link title s ≡ (
        record s { posts = insert (site u link ++ torrent_path u link t) title s.posts },
        gets_torrent (torrent_request u link t) ∷ [],
      )
  unfolding parse_link
  parse_link_known link title t s known = rw (known, parse_link)

  torrent_path_download :
      (link path : QString) (t : Tracker)
      → contains link (codes "download") ≡ true
      → link ≡ site u link ++ path
      → torrent_path u link t ≡ path
  torrent_path_download link path t says split =
      rw says (ap (drop (length (site u link))) split ∙ drop-append (site u link) path)

  -- A link that says `download` and begins with its scheme and host: if the site is a known tracker's,
  -- the path behind the host is asked for, and the title is kept under the link itself; no other title
  -- that is kept changes.
  pub parse_link_download :
      (link path title k : QString) (t : Tracker) (s : Rss)
      → lookup (site u link) s.trackers ≡ some t
      → contains link (codes "download") ≡ true
      → link ≡ site u link ++ path
      → ((parse_link u link title s).1
          ≡ gets_torrent (record {
            url = path;
            host = u.host link;
            cookie = t.cookie;
            referer = t.url_tracker ++ t.referer;
          })
            ∷ [])
        × (lookup k (parse_link u link title s).0.posts
            ≡ (if text_eq link k then some title else lookup k s.posts))
  parse_link_download link path title k t s known says split =
      let cut = torrent_path_download link path t says split in
      let key : site u link ++ torrent_path u link t ≡ link =
        ap (◌++◌ (site u link)) cut ∙ sym split in
      rw (parse_link_known link title t s known) (
        ap
            (λ p.
              gets_torrent (record {
                url = p;
                host = u.host link;
                cookie = t.cookie;
                referer = t.url_tracker ++ t.referer;
              })
              ∷ [])
            cut,
        lookup-insert (site u link ++ torrent_path u link t) k title s.posts
            ∙ ap (λ x. if text_eq x k then some title else lookup k s.posts) key,
      )

  -- A title that is to be downloaded from a known tracker, up to the state behind it.
  pub mira_titulo_download :
      (w : World) (seccion titulo link : QString) (t : Tracker) (s : Rss) (lista : List Regexp)
      → (parse_title w seccion titulo link s.recientes lista).0 ≡ download
      → lookup (site u link) s.trackers ≡ some t
      → (mira_titulo u w seccion titulo link s lista).0
        ≡ remembers titulo
            (record s { posts = insert (site u link ++ torrent_path u link t) titulo s.posts })
  unfolding mira_titulo on_result
  mira_titulo_download w seccion titulo link t s lista e known =
      ap (λ x. (on_result u x titulo link s).0) e
      ∙ ap (λ (x : Rss × List Effect). remembers titulo x.0)
          (parse_link_known link titulo t s known)
