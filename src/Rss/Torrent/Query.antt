-- ===== src/Rss/Torrent/Query.antt =====
-- Proofs about rss_lite.cpp.
-- Addresses with a query.
use rssani.Base.{
  ◌≡◌, refl, ap, ◌∙◌, Bool, true, false, none, some, List, [], ◌∷◌, ◌++◌, ◌==◌, arith, any_of,
  QString, text_eq, text_eq_iff, text_eq_refl, Bool-cases, inl, inr, lookup, insert, remove,
  lookup-insert, lookup-remove,
}
use rssani.Model.{Regexp}
use rssani.Rss.Types.{Tracker, Rss, download}
use rssani.Rss.Match.{World, parse_title}
use rssani.Rss.Title.{UrlApi, site, torrent_path, remembers, mira_titulo}
use rssani.Rss.Title.Link.{mira_titulo_download}
use rssani.Rss.Torrent.{
  NetworkReply, Disk, ends_with, quoted, torrent_suffix, fichero, id_name, reply_url,
}

-- The text has a question mark.
abbrev pub has_query : QString → Bool
has_query = any_of (λ c. c == b'?')

has_query-append : (s t : QString) → has_query t ≡ true → has_query (s ++ t) ≡ true
has_query-append [] t h = h
has_query-append (c ∷ s) t h = ground (arith, has_query-append s t h)

text_eq_query : (s t : QString) → has_query s ≡ true → has_query t ≡ false → text_eq s t ≡ false
text_eq_query s t hs ht = elim (Bool-cases (text_eq s t)) [
  | inl e ↦ ground (arith, hs, ht, ap has_query ((text_eq_iff s t).0 e))
  | inr e ↦ e
]

module _ (u : UrlApi) (d : Disk) where
  -- Where the path that is asked for has a query, as `urlDownload` has one by default, the title is
  -- kept under an address that no reply finds, since `readDataTorrent` builds its own from the path
  -- alone: if the header names no `.torrent` file, the name is that of the id, or there is none, as if
  -- no title were kept; and the title stays in the table behind it.
  pub mira_titulo_lost :
      (w : World) (seccion titulo link : QString) (trk : Tracker) (s : Rss) (lista : List Regexp)
      (r : NetworkReply)
      → (parse_title w seccion titulo link s.recientes lista).0 ≡ download
      → lookup (site u link) s.trackers ≡ some trk
      → has_query (torrent_path u link trk) ≡ true
      → ends_with (quoted r.content_disposition) torrent_suffix ≡ false
      → has_query (d.to_string (reply_url u d r)) ≡ false
      → lookup (d.to_string (reply_url u d r)) s.posts ≡ none
      → let s' = (mira_titulo u w seccion titulo link s lista).0 in
        ((fichero u d r s').0 ≡ id_name u d r s)
        × (lookup (site u link ++ torrent_path u link trk) (fichero u d r s').1.posts ≡ some titulo)
  unfolding fichero id_name
  mira_titulo_lost w seccion titulo link trk s lista r e known query plain asked absent =
      let key = site u link ++ torrent_path u link trk in
      let reply_key = d.to_string (reply_url u d r) in
      let apart : text_eq key reply_key ≡ false =
        text_eq_query key reply_key (has_query-append (site u link) (torrent_path u link trk) query)
          asked in
      let apart' : text_eq reply_key key ≡ false =
        ground (arith, apart, text_eq_iff key reply_key, text_eq_iff reply_key key) in
      let s1 = remembers titulo (record s { posts = insert key titulo s.posts }) in
      let missed : lookup reply_key s1.posts ≡ none =
        lookup-insert key reply_key titulo s.posts ∙ rw apart absent in
      let stays : lookup key (remove reply_key s1.posts) ≡ some titulo =
        lookup-remove reply_key key s1.posts
        ∙ rw apart' (lookup-insert key key titulo s.posts ∙ rw (text_eq_refl key) refl) in
      rw (mira_titulo_download u w seccion titulo link trk s lista e known)
        (ground (arith, missed, plain), ground (arith, missed, plain, stays))
