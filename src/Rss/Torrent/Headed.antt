-- ===== src/Rss/Torrent/Headed.antt =====
-- Proofs about rss_lite.cpp.
-- A torrent that the header of its answer names.
use rssani.Base.{
  ℕ, ◌≡◌, true, false, none, some, List, [], ◌∷◌, ◌++◌, arith, codes, text_eq_refl, QHash, lookup,
  insert, remove,
}
use rssani.Rss.Types.{Rss}
use rssani.Rss.Title.{UrlApi}
use rssani.Rss.Torrent.{
  NetworkReply, Disk, writes, sends_mail, ends_with, quoted, torrent_suffix, plain_name, fichero,
  save_log, save, first_data, read_data_torrent,
}

module _ (u : UrlApi) (d : Disk) where
  -- The header of the reply names the file.
  pub read_data_torrent_headed :
      (r : NetworkReply) (s : Rss) (files : QHash (List ℕ))
      → r.has_error ≡ false
      → ends_with (quoted r.content_disposition) torrent_suffix ≡ true
      → let name = plain_name (quoted r.content_disposition) in
        let path = d.file_path s.values.ruta name in
        lookup path files ≡ none
        → d.opens path ≡ true
        → read_data_torrent u d r (record { rss = s; downloads = []; files = files })
          ≡ some (
            record { rss = s; downloads = []; files = insert path r.body files },
            writes path r.body
                ∷ (save_log u d name ++ sends_mail (codes "RSSANI " ++ d.mail_stamp) name ∷ []),
          )
  unfolding read_data_torrent fichero first_data save lookup insert remove
  read_data_torrent_headed r s files ok named new opens = ground (arith, text_eq_refl r.address)
