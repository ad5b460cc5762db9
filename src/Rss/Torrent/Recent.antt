-- ===== src/Rss/Torrent/Recent.antt =====
-- Proofs about rss_lite.cpp.
-- An answer leaves the titles remembered as they were.
use rssani.Base.{
  ◌≡◌, Option, none, some, List, [], arith, QString, lookup, insert, Bool-cases, Option-cases, inl,
  inr, ◌∙◌,
}
use rssani.Rss.Types.{Rss}
use rssani.Rss.Title.{UrlApi}
use rssani.Rss.Torrent.{
  NetworkReply, Disk, Torrents, Answer, fichero, plain_name, ruta_path, reply_url, save, first_data,
  read_data_torrent,
}

module _ (u : UrlApi) (d : Disk) where
  save-recientes :
      (r : NetworkReply) (t t' : Torrents) (answers : List Answer)
      → save u d r t ≡ some (t', answers)
      → t'.rss.recientes ≡ t.rss.recientes
  unfolding save
  save-recientes r t t' answers h = ground arith

  first_data-recientes :
      (r : NetworkReply) (name : QString) (t t' : Torrents) (answers : List Answer)
      → first_data u d r name t ≡ some (t', answers)
      → t'.rss.recientes ≡ t.rss.recientes
  unfolding first_data
  first_data-recientes r name t t' answers h =
      elim (Option-cases (lookup (ruta_path u d name t) t.files)) [
        | inl e ↦
            save-recientes r
              (record t {
                downloads =
                    insert r.address
                      (record { filename = name; site_host = u.host (reply_url u d r); bytes = [] })
                      t.downloads;
              })
              t' answers (ground (arith, e, h))
        | inr (b, e) ↦ ground (arith, e, h)
      ]

  fichero-recientes : (r : NetworkReply) (s : Rss) → (fichero u d r s).1.recientes ≡ s.recientes
  unfolding fichero
  fichero-recientes r s = ground arith

  abbrev after_name :
      NetworkReply → Option QString → Rss → Torrents → Option (Torrents × List Answer)
  after_name r name s t = elim name [
    | none ↦ some (record t { rss = s }, [])
    | some n ↦ first_data u d r (plain_name n) (record t { rss = s })
  ]

  named-recientes :
      (r : NetworkReply) (name : Option QString) (s : Rss) (t t' : Torrents) (answers : List Answer)
      → after_name r name s t ≡ some (t', answers)
      → t'.rss.recientes ≡ s.recientes
  named-recientes r none s t t' answers h = ground (arith, h)
  named-recientes r (some n) s t t' answers h = first_data-recientes r (plain_name n) _ t' answers h

  -- Whatever an answer brings, the titles remembered stay.
  pub read_data_torrent-recientes :
      (r : NetworkReply) (t t' : Torrents) (answers : List Answer)
      → read_data_torrent u d r t ≡ some (t', answers)
      → t'.rss.recientes ≡ t.rss.recientes
  unfolding read_data_torrent
  read_data_torrent-recientes r t t' answers h = elim (Bool-cases r.has_error) [
    | inl e ↦ ground (arith, e, h)
    | inr e ↦ elim (Option-cases (lookup r.address t.downloads)) [
      | inr (ctx, g) ↦ save-recientes r t t' answers (ground (arith, e, g, h))
      | inl g ↦
          named-recientes r (fichero u d r t.rss).0 (fichero u d r t.rss).1 t t' answers
            (ground (arith, e, g, h))
          ∙ fichero-recientes r t.rss
    ]
  ]
