-- ===== src/LogFile.antt =====
-- The log file: rss_lite.cpp appends a line to it in `saveLog`, rssani_lite.cpp reads it in `verLog`,
-- and grpc_server.cpp replies with a part of it in `VerLog`. The file is its text.
pub mod Read
mod Tests
use mathlib.Core.Option
use rssani.Base.{
  ℕ, zero, suc, Bool, true, false, Option, none, some, List, [], ◌∷◌, ◌++◌, if◌then◌else◌, length,
  ℤ, QString,
}
use rssani.Core.{Core}
use rssani.Rss.Torrent.{Answer, aborts, closes, writes, logs, sends_mail}
use rssani.Rpc.{Outcome, handle, ver_log}

-- `QTextStream` on what is left of a text: `atEnd`, and `readLine` with the text behind the line.
pub record QTextStream : Type 0 where
  pub at_end : QString → Bool
  pub read_line : QString → QString × QString

abbrev pub newline : ℕ
newline = 10

-- What an answer writes to the log: `out << … << fichero << Qt::endl`, behind what is there.
unfoldable pub append_log : QString → Answer → QString
append_log file aborts = file
append_log file closes = file
append_log file (writes path bytes) = file
append_log file (logs line) = file ++ (line ++ newline ∷ [])
append_log file (sends_mail subject title) = file

abbrev pub append_logs : QString → List Answer → QString
append_logs file [] = file
append_logs file (a ∷ answers) = append_logs (append_log file a) answers

module _ (q : QTextStream) where
  -- `while ( !in.atEnd() ) result.append( in.readLine() )`; `none` is no fuel left.
  unfoldable pub read_log : ℕ → QString → Option (List QString)
  read_log zero text = none
  read_log (suc fuel) text =
      let (line, rest) = q.read_line text in
      elim (q.at_end text) [ true ↦ some [] | false ↦ Option.map (◌∷◌ line) (read_log fuel rest) ]

  -- `rssani_lite::verLog`: no lines if the file does not open. A round takes one character at least.
  unfoldable pub log_of : Bool → QString → Option (List QString)
  log_of opens file = if opens then read_log (suc (length file)) file else some []

  -- The rpc `VerLog` on the file.
  unfoldable pub reply_log : Bool → QString → QString → ℤ → ℤ → Core → Option Outcome
  reply_log opens file ultimo ini fin c = elim (log_of opens file) [
    | none ↦ none
    | some lines ↦ handle (record { ultimo = ultimo; log = lines }) (ver_log ini fin) c
  ]
