-- ===== src/LogFile/Read.antt =====
-- Proofs about `saveLog` and `verLog`: the lines read are the lines written.
use mathlib.Core.Option
use mathlib.Core.List.{append_assoc, append-nil, reverse-append}
use rssani.Base.{
  ℕ, zero, suc, ◌+◌, ◌<◌, ◌≤◌, ◌≡◌, ◌||◌, ◌==◌, refl, sym, ap, ◌∙◌, true, false, some, List, [],
  ◌∷◌, ◌++◌, reverse, arith, length, take, drop, pos, QString, All, length-append,
}
use rssani.Core.{Core}
use rssani.Rss.Torrent.{Answer, aborts, closes, writes, logs, sends_mail}
use rssani.Rpc.{Env, ver_log, handle, ok, log_response}
use rssani.Rpc.Log.{ver_log_lem}
use rssani.LogFile.{QTextStream, newline, append_log, append_logs, read_log, log_of, reply_log}

abbrev pub IsLine : QString → Type 0
IsLine = All (λ c. (c == newline || c == 13) ≡ false)

-- What Qt says of `QTextStream`: it is at the end where no text is left, and `readLine` takes the
-- text up to the end of the line, and that end.
pub record IsTextStream (q : QTextStream) : Type 0 where
  pub ends : q.at_end [] ≡ true
  pub goes_on : (c : ℕ) (text : QString) → q.at_end (c ∷ text) ≡ false
  pub reads :
      (line rest : QString) → IsLine line → q.read_line (line ++ newline ∷ rest) ≡ (line, rest)

-- The text that has these lines.
abbrev pub text_of : List QString → QString
text_of [] = []
text_of (line ∷ lines) = line ++ newline ∷ text_of lines

-- The lines among the answers.
abbrev pub logged : List Answer → List QString
logged [] = []
logged (aborts ∷ answers) = logged answers
logged (closes ∷ answers) = logged answers
logged (writes path bytes ∷ answers) = logged answers
logged (logs line ∷ answers) = line ∷ logged answers
logged (sends_mail subject title ∷ answers) = logged answers

text_of-append : (xs ys : List QString) → text_of (xs ++ ys) ≡ text_of xs ++ text_of ys
text_of-append [] ys = refl
text_of-append (x ∷ xs) ys =
    rw (text_of-append xs ys) (sym (append_assoc x (newline ∷ text_of xs) (text_of ys)))

append_logs_lem :
    (file : QString) (answers : List Answer)
    → append_logs file answers ≡ file ++ text_of (logged answers)
unfolding append_log
append_logs_lem file [] = sym (append-nil file)
append_logs_lem file (aborts ∷ answers) = append_logs_lem file answers
append_logs_lem file (closes ∷ answers) = append_logs_lem file answers
append_logs_lem file (writes path bytes ∷ answers) = append_logs_lem file answers
append_logs_lem file (logs line ∷ answers) =
    append_logs_lem (file ++ (line ++ newline ∷ [])) answers
    ∙ append_assoc file (line ++ newline ∷ []) (text_of (logged answers))
    ∙ ap (◌++◌ file) (append_assoc line (newline ∷ []) (text_of (logged answers)))
append_logs_lem file (sends_mail subject title ∷ answers) = append_logs_lem file answers

length-text_of : (lines : List QString) → length lines ≤ length (text_of lines)
length-text_of [] = omega arith
length-text_of (line ∷ lines) =
    rw (length-append line (newline ∷ text_of lines)) (omega (arith, length-text_of lines))

All-append : (xs ys : List QString) → All IsLine xs → All IsLine ys → All IsLine (xs ++ ys)
All-append [] ys h k = k
All-append (x ∷ xs) ys h k = (h.0, All-append xs ys h.1 k)

take-all : (ys : List QString) → take (length ys) ys ≡ ys
take-all [] = refl
take-all (y ∷ ys) = ap (◌∷◌ y) (take-all ys)

drop-length : (xs ys : List QString) → drop (length xs) (xs ++ ys) ≡ ys
drop-length [] ys = refl
drop-length (x ∷ xs) ys = drop-length xs ys

take-drop :
    (xs ys : List QString) (m n : ℕ)
    → m ≡ length ys
    → n ≡ length xs
    → take m (drop n (xs ++ ys)) ≡ ys
take-drop xs ys m n e k = rw (e, k) (rw (drop-length xs ys) (take-all ys))

module _ (q : QTextStream) (stream : IsTextStream q) where
  at_end-line : (line rest : QString) → q.at_end (line ++ newline ∷ rest) ≡ false
  at_end-line [] rest = stream.goes_on newline rest
  at_end-line (c ∷ line) rest = stream.goes_on c (line ++ newline ∷ rest)

  read_log-text_of :
      (lines : List QString) (fuel : ℕ)
      → length lines < fuel
      → All IsLine lines
      → read_log q fuel (text_of lines) ≡ some lines
  unfolding read_log
  read_log-text_of lines zero h k = elim h [ ]
  read_log-text_of [] (suc fuel) h k = rw (stream.ends, read_log) refl
  read_log-text_of (line ∷ lines) (suc fuel) h k =
      rw (at_end-line line (text_of lines), read_log, stream.reads line (text_of lines) k.0)
        (ap (Option.map (◌∷◌ line)) (read_log-text_of lines fuel (omega arith) k.1))

  read_back :
      (lines : List QString) (answers : List Answer)
      → All IsLine lines
      → All IsLine (logged answers)
      → log_of q true (append_logs (text_of lines) answers) ≡ some (lines ++ logged answers)
  unfolding log_of
  read_back lines answers h k =
      let all = lines ++ logged answers in
      rw (append_logs_lem (text_of lines) answers, sym (text_of-append lines (logged answers)))
        (read_log-text_of all (suc (length (text_of all))) (omega (arith, length-text_of all))
          (All-append lines (logged answers) h k))

  reply_log_read :
      (file ultimo : QString) (lines : List QString) (ini fin : ℕ) (c : Core)
      → log_of q true file ≡ some lines
      → reply_log q true file ultimo (pos ini) (pos fin) c
        ≡ handle (record { ultimo = ultimo; log = lines }) (ver_log (pos ini) (pos fin)) c
  unfolding reply_log
  reply_log_read file ultimo lines ini fin c e = rw (e, reply_log) refl

  -- Where the file has some lines and the answers write others, at least one, none of the lines has
  -- a line break, and the log opens and has fewer than 2 ^ 31 lines then: `VerLog` from 0 to 0
  -- replies with all lines, and `VerLog` from 0 to the number of the new lines with the new ones
  -- only, both newest first.
  pub reply_log_appended :
      (lines : List QString) (answers : List Answer) (ultimo : QString) (c : Core)
      → All IsLine lines
      → All IsLine (logged answers)
      → 0 < length (logged answers)
      → length lines + length (logged answers) < 2147483648
      → let file = append_logs (text_of lines) answers in
        let new = length (logged answers) in
        (reply_log q true file ultimo (pos 0) (pos 0) c
          ≡ some (ok (log_response (reverse (logged answers) ++ reverse lines)), c, []))
        × (reply_log q true file ultimo (pos 0) (pos new) c
            ≡ some (ok (log_response (reverse (logged answers))), c, []))
  reply_log_appended lines answers ultimo c h k some_new small =
      let new = logged answers in
      let file = append_logs (text_of lines) answers in
      let env : Env = record { ultimo = ultimo; log = lines ++ new } in
      let sizes = length-append lines new in
      let read = read_back lines answers h k in
      (
        reply_log_read file ultimo (lines ++ new) 0 0 c read
            ∙ ver_log_lem env 0 0 c (omega (arith, sizes)) (omega arith) (omega arith)
            ∙ ap (λ l. some (ok (log_response l), c, []))
                (ap (reverse) (take-drop [] (lines ++ new) _ _ (omega arith) (omega arith))
                  ∙ reverse-append lines new),
        reply_log_read file ultimo (lines ++ new) 0 (length new) c read
            ∙ ver_log_lem env 0 (length new) c (omega (arith, sizes)) (omega arith)
                (omega (arith, sizes))
            ∙ ap (λ l. some (ok (log_response (reverse l)), c, []))
                (take-drop lines new _ _ (ground (arith, sizes)) (ground (arith, sizes))),
      )
