-- ===== src/Rss/Torrent/Kept.antt =====
-- Proofs about rss_lite.cpp.
-- What an answer can write.
use mathlib.Core.Path.{subst}
use rssani.Base.{
  ℕ, ◌≡◌, refl, sym, ap, ◌∙◌, true, false, Option, none, some, List, [], ◌∷◌, ◌++◌, arith, All,
  QString, codes, text_eq_iff, text_eq_refl, Bool-cases, Option-cases, inl, inr, QHash, lookup,
  insert, remove, lookup-insert,
}
use rssani.Model.{Values}
use rssani.Rss.Types.{Rss}
use rssani.Rss.Title.{UrlApi}
use rssani.Rss.Torrent.{
  NetworkReply, Disk, Torrents, Answer, aborts, closes, writes, sends_mail, plain_name, fichero,
  reply_url, ends_with, torrent_suffix, save_log, save, first_data, read_data_torrent,
}
use rssani.Rss.Torrent.Names.{IsTorrentName, plain_name-IsTorrentName, fichero-ends}

-- The `.torrent` files that are there stay what they are.
abbrev pub Keeps : QHash (List ℕ) → QHash (List ℕ) → Type 0
Keeps files files' =
    (path : QString) (bytes : List ℕ)
    → ends_with path torrent_suffix ≡ true
    → lookup path files ≡ some bytes
    → lookup path files' ≡ some bytes

module _ (u : UrlApi) (d : Disk) where
  -- A write is that of the reply's data to a new file of the directory `ruta`.
  abbrev pub IsSafe : NetworkReply → QString → QHash (List ℕ) → Answer → Type 0
  IsSafe r ruta files (writes path bytes) =
      (name : QString) × IsTorrentName name
      × (path ≡ d.file_path ruta name)
      × (lookup path files ≡ none)
      × (bytes ≡ r.body)
  IsSafe r ruta files answer = Unit

  -- The answer is defined, leaves no download open, and only adds new torrents.
  abbrev pub IsKept :
      NetworkReply → QString → QHash (List ℕ) → Option (Torrents × List Answer) → Type 0
  IsKept r ruta files o =
      (t' : Torrents) × (answers : List Answer) × (o ≡ some (t', answers))
      × (t'.downloads ≡ [])
      × Keeps files t'.files
      × All (IsSafe r ruta files) answers

  insert-Keeps :
      (path : QString) (bytes : List ℕ) (files : QHash (List ℕ))
      → lookup path files ≡ none
      → Keeps files (insert path bytes files)
  insert-Keeps path bytes files new p b n h =
      ground (arith, lookup-insert path p bytes files, text_eq_iff path p)

  save_log-All :
      (r : NetworkReply) (ruta : QString) (files : QHash (List ℕ)) (name subject : QString)
      → All (IsSafe r ruta files) (save_log u d name ++ sends_mail subject name ∷ [])
  save_log-All r ruta files name subject = elim (Bool-cases d.log_opens) [
    | inl e ↦ rw e (tt, (tt, tt))
    | inr e ↦ rw e (tt, tt)
  ]

  save-IsKept :
      (r : NetworkReply) (name : QString) (s : Rss) (files : QHash (List ℕ))
      → IsTorrentName name
      → lookup (d.file_path s.values.ruta name) files ≡ none
      → IsKept r s.values.ruta files (
          save u d r (record {
            rss = s;
            downloads =
                (
                  r.address,
                  record { filename = name; site_host = u.host (reply_url u d r); bytes = [] },
                )
                ∷ [];
            files = files;
          }))
  unfolding save lookup remove
  save-IsKept r name s files plain new =
      let path = d.file_path s.values.ruta name in
      elim (Bool-cases (d.opens path)) [
        | inl e ↦ (
          record { rss = s; downloads = []; files = insert path r.body files },
          writes path r.body
              ∷ (save_log u d name ++ sends_mail (codes "RSSANI " ++ d.mail_stamp) name ∷ []),
          ground (arith, e, text_eq_refl r.address),
          refl,
          insert-Keeps path r.body files new,
          ((name, plain, refl, new, refl), save_log-All r s.values.ruta files name _),
        )
        | inr e ↦ (
          record { rss = s; downloads = []; files = files },
          [],
          ground (arith, e, text_eq_refl r.address),
          refl,
          (λ p b n h. h),
          tt,
        )
      ]

  first_data-IsKept :
      (r : NetworkReply) (name : QString) (s : Rss) (files : QHash (List ℕ))
      → IsTorrentName name
      → IsKept r s.values.ruta files
          (first_data u d r name (record { rss = s; downloads = []; files = files }))
  unfolding first_data insert
  first_data-IsKept r name s files plain =
      elim (Option-cases (lookup (d.file_path s.values.ruta name) files)) [
        | inl e ↦ rw (first_data, e) (save-IsKept r name s files plain e)
        | inr (b, e) ↦ (
          record { rss = s; downloads = []; files = files },
          aborts ∷ closes ∷ [],
          ground (arith, e),
          refl,
          (λ p b n h. h),
          (tt, (tt, tt)),
        )
      ]

  fichero-values : (r : NetworkReply) (s : Rss) → (fichero u d r s).1.values ≡ s.values
  unfolding fichero
  fichero-values r s = ground arith

  -- The rest of the handler behind the choice of the name.
  abbrev pub named_answer :
      NetworkReply → Option QString → Rss → QHash (List ℕ) → Option (Torrents × List Answer)
  named_answer r name s files = elim name [
    | none ↦ some (record { rss = s; downloads = []; files = files }, [])
    | some n ↦ first_data u d r (plain_name n) (record { rss = s; downloads = []; files = files })
  ]

  read_data_torrent_named :
      (r : NetworkReply) (t : Torrents)
      → r.has_error ≡ false
      → t.downloads ≡ []
      → read_data_torrent u d r t
        ≡ named_answer r (fichero u d r t.rss).0 (fichero u d r t.rss).1 t.files
  unfolding read_data_torrent lookup
  read_data_torrent_named r t e h =
      ap (λ x. read_data_torrent u d r (record t { downloads = x })) h ∙ ground (arith, e)

  named-IsKept :
      (r : NetworkReply) (name : Option QString) (s : Rss) (files : QHash (List ℕ))
      → ((n : QString) → name ≡ some n → ends_with n torrent_suffix ≡ true)
      → IsKept r s.values.ruta files (named_answer r name s files)
  named-IsKept r none s files h =
      (record { rss = s; downloads = []; files = files }, [], refl, refl, (λ p b n e. e), tt)
  named-IsKept r (some n) s files h =
      first_data-IsKept r (plain_name n) s files (plain_name-IsTorrentName n (h n refl))

  -- Any answer while no download is open: the handler returns, again with none open; every
  -- `.torrent` file that was there stays what it was; and each torrent that it writes is the data of the
  -- reply, in a file that was not there, in the directory `ruta` itself, with a name that ends in
  -- `.torrent`. The line that it appends to the log is no part of this.
  pub read_data_torrent-IsKept :
      (r : NetworkReply) (t : Torrents)
      → t.downloads ≡ []
      → IsKept r t.rss.values.ruta t.files (read_data_torrent u d r t)
  read_data_torrent-IsKept r t h = elim (Bool-cases r.has_error) [
    | inl e ↦
        (t, aborts ∷ [], unfold read_data_torrent in ground (arith, e), h, (λ p b n g. g), (tt, tt))
    | inr e ↦
        let s = (fichero u d r t.rss).1 in
        subst (IsKept r t.rss.values.ruta t.files) (sym (read_data_torrent_named r t e h)) (
          subst
            (λ (v : Values).
              IsKept r v.ruta t.files (named_answer r (fichero u d r t.rss).0 s t.files))
            (fichero-values r t.rss)
            (named-IsKept r (fichero u d r t.rss).0 s t.files (fichero-ends u d r t.rss)))
  ]
