-- ===== src/Mail/Send/Answers.antt =====
-- A server that answers by a fixed list of lines, for the runs: an instance of `Socket`.
use rssani.Base.{◌≡◌, ◌<◌, ◌++◌, Bool, true, false, List, [], ◌∷◌, QString, codes, length, arith}
use rssani.Mail.Socket.{Socket}

-- A server whose replies are all there: each is a code and a text. What is written changes nothing.
abbrev pub reply : QString → QString
reply code = code ++ codes " done"

abbrev pub next_line : List QString → QString × List QString
next_line [] = ([], [])
next_line (c ∷ cs) = (reply c, cs)

abbrev pub has_line : List QString → Bool
has_line [] = false
has_line (c ∷ cs) = true

pub next_line_takes : (w : List QString) → has_line w ≡ true → length (next_line w).1 < length w
next_line_takes [] h = cc
next_line_takes (c ∷ cs) h = omega arith

abbrev pub server : List QString → Socket
server replies = record {
  Wire = List QString;
  connect_to_host = λ host port. replies;
  is_connected = λ w. true;
  wait_for_connected = λ time w. (true, w);
  wait_for_ready_read = λ time w. (has_line w, w);
  can_read_line = has_line;
  read_line = next_line;
  write = λ text w. w;
  start_client_encryption = λ w. w;
  disconnect_from_host = λ w. w;
  pending = length;
  pending_read_line = next_line_takes;
}

abbrev pub willing : Socket
willing = server (
    codes "220"
    ∷ codes "250"
    ∷ codes "220"
    ∷ codes "334"
    ∷ codes "334"
    ∷ codes "235"
    ∷ codes "250"
    ∷ codes "250"
    ∷ codes "354"
    ∷ codes "250"
    ∷ codes "221"
    ∷ [])
