-- ===== src/Lib.antt =====
-- rssani: a daemon that watches the RSS feeds and the IRC channel of torrent trackers, matches what
-- is uploaded against the user's rules, fetches the torrents that match, sends mails about them,
-- and is managed over gRPC.
--
-- The program. `rssani_lite` (rssani_lite.cpp) keeps the rules, the credentials of the trackers and
-- the options; the service of grpc_server.cpp calls its methods from its own threads, each under a
-- mutex. `MyIrcSession` (myircsession.cpp) strips the formatting of the messages on IRC and emits
-- the bot's announcements, which `rssani_lite::miraSubida` cuts into section, title and address.
-- `Rss_lite` (rss_lite.cpp) fetches the feeds of the trackers, looks each title up among the rules
-- that it shares with `rssani_lite`, and asks the tracker for the torrent. `MailSender`
-- (mailsender.cpp) speaks SMTP.
--
-- The files. A module has the definitions, its children the proofs, and `Tests` runs on small
-- inputs.
-- - Base: tests on numbers, lists with the places of `QList`, integers, `QString` as its UTF-16
--   code units, `QHash` as an association list.
-- - Model: the structs of values.h, rss_lite.h and myircsession.h (`auth`, `Values`, `regexp`,
--   `datosIrc`).
-- - Core: the state of `rssani_lite` as the record `Core`, and the methods `editarRegexp` (by name,
--   `editar_regexp_s`, and by place, `editar_regexp_i`), `activarRegexp`, `moverRegexp`,
--   `anadirRegexp`, `borrarRegexp` (`borrar_regexp_s`, `borrar_regexp_i`), `anadirAuth`,
--   `borrarAuth`, `cambiaTimer`, `setOpciones`, `setRpcUser`, `setRpcPass`, `debugea`. A method
--   runs under the mutex, so it is a function from a state to a state.
-- - Settings: `writeSettings` and `readSettings` of rssani_lite.cpp; Settings/Store.antt is what
--   they ask of `QSettings`.
-- - Rpc: the handlers of grpc_server.cpp, as the function `handle` with a clause for each rpc of
--   rssani.proto. A request is a value, and so is the reply with its status.
-- - Server: the thread of `GrpcServer` (grpc_server.h, the end of grpc_server.cpp). The caller of
--   `start`, `stop` and the destructor and the thread take steps in any order; `Step` and `Reach`
--   are the relations.
-- - Irc: `irc_color_strip_from_mirc`, `on_privmsg` and the other handlers of myircsession.cpp;
--   Irc/Session.antt is the constructor with the events that it connects, and the timers, by the
--   millisecond.
-- - Subida: `miraSubida`, and the path from a message to `nuevaSubida`.
-- - Mail: the members of `MailSender`. Mail/Socket.antt is what it asks of Qt's sockets,
--   Mail/Send.antt `send`, `sendCommand` and `read`; a run keeps its commands and the replies
--   accepted, in order. Mail/Notify.antt is `Rss_lite::sendMail`, Mail/Text.antt `mailData`,
--   with its parts in Mail/Mime.antt.
-- - Rss: Rss/Types.antt has the state of `Rss_lite`, Rss/Match.antt `parseTitle`, and
--   Rss/Match/Walk.antt its loop again, by the accesses to the list of rules, which it makes with
--   no lock and between which the methods of other threads come; those of `moverRegexp` to the
--   list are two, with the walk between them. Rss/Trackers.antt has `iniciaTrackers` and `fetch`,
--   Rss/Title.antt `miraTitulo` and `parseLink`, Rss/Xml.antt `readDataRSS` and `parseXml` as a
--   function on the tokens of the document, Rss/Torrent.antt `readDataTorrent` and `saveLog`, with
--   the files of torrents as a table and the line of the log as an answer. - LogFile: the text of
--   the log file, which `saveLog` extends and `verLog` reads for `VerLog`.
-- - Daemon: the parts together. `rssani_lite` is the state behind the constructors, `step` takes one
--   request, message, feed, answer or timeout, and `run` a list of them.
-- - Process: main.cpp, and of rssani_lite.cpp the signals (`sigHandler`, `handleSigTerm`), `guardar`
--   with the copies of the settings file, and `salir`, around the program of Daemon.
--
-- What is taken from outside. `QTcpSocket` and `QSslSocket` are the record `Socket`; `indexOf`,
-- `lastIndexOf`, `mid`, `trimmed` and the regular expression for addresses are `TextApi`; `QUrl`
-- is `UrlApi`; the tokens of `QXmlStreamReader` and the expressions of the feed are `Token` and
-- `FeedText`; the directory, the opening of files and the rest of `QUrl` are `Disk`; the settings
-- file is `QSettings`, and `Setup` is its name, that of its copy and whether it can be copied;
-- dates, the search by a rule's pattern, the log file and the result of `sendMail` are `World`;
-- `QTextStream` is what it reads of a text; what is random, the clock and the files that are
-- attached are `Letterhead`; `QChar::isDigit`, `encodeBase64` and, in the dialogue, the text of
-- the mail are arguments. Their laws are fields of these records: reading a line leaves fewer
-- lines, and `indexOf`, `lastIndexOf` and `mid` find the first place, the last place and a part; a
-- value of the settings is what was last stored under its key, as the conversion to its type reads
-- it back, and a store does not fail; `readLine` takes the text up to the next line break.
--
-- Loops and bounds. A loop over a list is structural. `borrar_loop` has as fuel the elements that
-- it has not looked at, `strip_loop` the characters left, `log_lines` one more than the lines of
-- the log, `read_log` one more than the characters of its file, and `read_lines` one more than the
-- lines that have arrived: as many rounds as the source's loop makes at most. `Walk`,
-- `MyIrcSession` and `Process` go by single steps: a run of them is a derivation or a list of
-- events, with no fuel, and that the walk ends is a theorem. An `int` is an integer, with its
-- overflow written out where the code computes with one: `cambia_timer` and the constructor have
-- no result there, and `VerLog` converts by wrap-around.
--
-- Not modelled: `salYa`, which nothing calls; the mask and the flags of the signals; traces to
-- stdout and to the logging categories.
pub mod Base
pub mod Model
pub mod Core
pub mod Settings
pub mod Rpc
pub mod Server
pub mod Irc
pub mod Mail
pub mod Rss
pub mod Subida
pub mod Daemon
pub mod LogFile
pub mod Process
