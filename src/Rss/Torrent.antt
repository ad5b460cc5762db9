-- ===== src/Rss/Torrent.antt =====
-- `Rss_lite::readDataTorrent` and `saveLog`: the answer to a request for a torrent. `abort` and `close`
-- of the reply are recorded and have no other effect. The table `files` is of the torrents that are
-- stored, by the whole path: every path of it that the handler looks at or writes ends in `.torrent`.
-- The line of the log is an answer, `logs`, that LogFile.antt appends to the file of the log. Traces are
-- left out.
pub mod Names
pub mod Kept
pub mod Headed
pub mod Query
pub mod Recent
mod Tests
use rssani.Base.{
  ℕ, Bool, true, false, Option, none, some, List, [], ◌∷◌, ◌++◌, ◌==◌, map, reverse, if◌then◌else◌,
  QString, codes, is_empty, starts_with, QHash, lookup, insert, remove,
}
use rssani.Rss.Types.{Tracker, Rss}
use rssani.Rss.Title.{UrlApi}

-- `struct DownloadContext`; the data is its own, and empty at first.
pub record DownloadContext : Type 0 where
  pub filename : QString
  pub site_host : QString
  pub bytes : List ℕ

-- What a reply says: its address, whether it has an error, two raw headers, and the data.
pub record NetworkReply : Type 0 where
  pub address : QString
  pub has_error : Bool
  pub content_disposition : QString
  pub host_header : QString
  pub body : List ℕ

-- What is asked of Qt and of the world: `QUrl::path`, an address through `QUrl` and `toString`,
-- `QDir( ruta ).filePath( name )`, which files open for writing, whether the log opens, and the time
-- as the log and the subject of a mail show it.
pub record Disk : Type 0 where
  pub path_of : QString → QString
  pub to_string : QString → QString
  pub file_path : QString → QString → QString
  pub opens : QString → Bool
  pub log_opens : Bool
  pub log_stamp : QString
  pub mail_stamp : QString

-- `Rss_lite` with its table of downloads, and the files of torrents.
pub record Torrents : Type 0 where
  pub rss : Rss
  pub downloads : QHash DownloadContext
  pub files : QHash (List ℕ)

-- What an answer makes happen, in order.
pub data Answer : Type 0 where
  aborts closes : Answer
  writes : QString → List ℕ → Answer
  logs : QString → Answer
  sends_mail : QString → QString → Answer

abbrev pub quote : ℕ
quote = b'"'

abbrev pub slash : ℕ
slash = b'/'

abbrev pub backslash : ℕ
backslash = 92

abbrev pub dash : ℕ
dash = b'-'

abbrev pub until_quote : QString → QString
until_quote [] = []
until_quote (c ∷ s) = if c == quote then [] else c ∷ until_quote s

-- `section( '"', 1, 1 )`: the part between the first two quotes.
unfoldable pub quoted : QString → QString
quoted [] = []
quoted (c ∷ s) = if c == quote then until_quote s else quoted s

unfoldable pub ends_with : QString → QString → Bool
ends_with s p = starts_with (reverse s) (reverse p)

-- `replace( before, after )` for characters.
abbrev pub replace : ℕ → ℕ → QString → QString
replace before after = map (λ c. if c == before then after else c)

abbrev pub torrent_suffix : QString
torrent_suffix = codes ".torrent"

-- Both calls of `fichero.replace`.
unfoldable pub plain_name : QString → QString
plain_name fichero = replace backslash dash (replace slash dash fichero)

-- `posts.take`.
abbrev pub taken : QString → Rss → Rss
taken key s = record s { posts = remove key s.posts }

module _ (u : UrlApi) (d : Disk) where
  -- `url`: the address again, with the `Host` header of the reply in the place of its host.
  abbrev pub reply_url : NetworkReply → QString
  reply_url r = u.scheme r.address ++ (codes "://" ++ (r.host_header ++ d.path_of r.address))

  -- The name from the id in the address, or no name and a return.
  pub id_name : NetworkReply → Rss → Option QString
  id_name r s =
      elim (lookup (u.scheme r.address ++ (codes "://" ++ u.host (reply_url r))) s.trackers) [
        | none ↦ none
        | some t ↦ some (u.query_item_value (reply_url r) t.id ++ torrent_suffix)
      ]

  abbrev pub post_of : NetworkReply → Rss → QString
  post_of r s = elim (lookup (d.to_string (reply_url r)) s.posts) [ none ↦ [] | some t ↦ t ]

  -- The name of the file before the replacements, and the state behind `posts.take`.
  unfoldable pub fichero : NetworkReply → Rss → Option QString × Rss
  unfolding id_name
  fichero r s =
      if ends_with (quoted r.content_disposition) torrent_suffix
      then (some (quoted r.content_disposition), s)
      else if is_empty (post_of r s)
      then (id_name r s, taken (d.to_string (reply_url r)) s)
      else (some (post_of r s ++ torrent_suffix), taken (d.to_string (reply_url r)) s)

  -- `saveLog`; the line that it writes.
  abbrev pub save_log : QString → List Answer
  save_log name =
      if d.log_opens then logs (codes "- " ++ (d.log_stamp ++ (codes " | " ++ name))) ∷ [] else []

  abbrev pub ruta_path : QString → Torrents → QString
  ruta_path name t = d.file_path t.rss.values.ruta name

  -- The data behind that of the entry, and the entry stored and taken out; `none` is the use of an
  -- entry with no data.
  unfoldable pub save : NetworkReply → Torrents → Option (Torrents × List Answer)
  save r t = elim (lookup r.address t.downloads) [
    | none ↦ none
    | some ctx ↦
        let path = ruta_path ctx.filename t in
        let t' : Torrents = record t { downloads = remove r.address t.downloads } in
        if d.opens path
        then some (
          record t' { files = insert path (ctx.bytes ++ r.body) t.files },
          writes path (ctx.bytes ++ r.body)
              ∷ (save_log ctx.filename
                  ++ sends_mail (codes "RSSANI " ++ d.mail_stamp) ctx.filename ∷ []),
        )
        else some (t', [])
  ]

  -- The entry of a download that is not there yet, unless its file is.
  unfoldable pub first_data : NetworkReply → QString → Torrents → Option (Torrents × List Answer)
  first_data r name t = elim (lookup (ruta_path name t) t.files) [
    | some bytes ↦ some (t, aborts ∷ closes ∷ [])
    | none ↦
        let ctx : DownloadContext = record {
          filename = name;
          site_host = u.host (reply_url r);
          bytes = [];
        } in
        save r (record t { downloads = insert r.address ctx t.downloads })
  ]

  unfoldable pub read_data_torrent : NetworkReply → Torrents → Option (Torrents × List Answer)
  unfolding fichero save first_data
  read_data_torrent r t =
      if r.has_error then some (t, aborts ∷ []) else elim (lookup r.address t.downloads) [
        | some ctx ↦ save r t
        | none ↦
            let (name, s) = fichero r t.rss in
            elim name [
              | none ↦ some (record t { rss = s }, [])
              | some n ↦ first_data r (plain_name n) (record t { rss = s })
            ]
      ]
