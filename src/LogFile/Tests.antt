-- ===== src/LogFile/Tests.antt =====
-- Runs of `saveLog` and `VerLog`, with a `QTextStream` that cuts a text at its line breaks.
use rssani.Base.{
  ◌≡◌, ◌==◌, refl, true, false, some, List, [], ◌∷◌, ◌++◌, arith, if◌then◌else◌, pos, QString,
  codes, is_empty, take,
}
use rssani.Model.{default_values, default_datos}
use rssani.Core.{Core}
use rssani.Rss.Title.{UrlApi}
use rssani.Rss.Torrent.{Answer, closes, writes, sends_mail, Disk, save_log}
use rssani.Rpc.{ok, log_response}
use rssani.LogFile.{QTextStream, newline, append_logs, log_of, reply_log}
use rssani.LogFile.Read.{IsLine, IsTextStream, text_of, reply_log_appended}

abbrev cut : QString → QString × QString
cut [] = ([], [])
cut (c ∷ text) =
    let (line, rest) = cut text in if c == newline then ([], text) else (c ∷ line, rest)

abbrev stream : QTextStream
stream = record { at_end = is_empty; read_line = cut }

cut-line : (line rest : QString) → IsLine line → cut (line ++ newline ∷ rest) ≡ (line, rest)
cut-line [] rest h = refl
cut-line (c ∷ line) rest h = ground (arith, h.0, cut-line line rest h.1)

stream-IsTextStream : IsTextStream stream
stream-IsTextStream = record { ends = refl; goes_on = λ c text. refl; reads = cut-line }

abbrev url : UrlApi
url = record { scheme = take 4; host = λ link. []; query_item_value = λ link item. [] }

abbrev disk : Disk
disk = record {
  path_of = λ a. a;
  to_string = λ a. a;
  file_path = λ ruta name. ruta ++ (b'/' ∷ name);
  opens = λ path. true;
  log_opens = true;
  log_stamp = codes "10:00";
  mail_stamp = codes "host";
}

abbrev estado : Core
estado = record {
  values = default_values;
  tiempo = pos 30;
  intervalo = pos 1800000;
  lista = [];
  list_auths = [];
  hash_auths = [];
  rpc_user = [];
  rpc_pass = [];
  misdatos = default_datos;
}

-- A torrent stored: its bytes, its line in the log, its mail.
abbrev answers : List Answer
answers =
    writes (codes "t/b") (1 ∷ [])
    ∷ (save_log url disk (codes "b") ++ (sends_mail (codes "RSSANI") (codes "b") ∷ closes ∷ []))

abbrev file : QString
file = append_logs (text_of (codes "a" ∷ [])) answers

reply_log_appended_example :
    (reply_log stream true file [] (pos 0) (pos 0) estado
      ≡ some (ok (log_response (codes "- 10:00 | b" ∷ codes "a" ∷ [])), estado, []))
    × (reply_log stream true file [] (pos 0) (pos 1) estado
        ≡ some (ok (log_response (codes "- 10:00 | b" ∷ [])), estado, []))
reply_log_appended_example =
    reply_log_appended stream stream-IsTextStream (codes "a" ∷ []) answers [] estado
      ((refl, tt), tt)
      (
        (refl, (refl, (refl, (refl, (refl, (refl, (refl, (refl, (refl, (refl, (refl, tt))))))))))),
        tt,
      )
      (omega arith) (omega arith)

closed_log : log_of stream false file ≡ some []
unfolding log_of
closed_log = refl
