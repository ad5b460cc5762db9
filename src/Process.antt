-- ===== src/Process.antt =====
-- The process around the program: main.cpp, and of rssani_lite.cpp the signal handler, the socket that
-- it writes to, `handleSigTerm`, `guardar` with the copies of the settings file that `writeSettings`
-- makes, `salir` and `salYa`. A file of settings is the store of `QSettings` that it holds: `sync` ends
-- each save, and nothing else writes them. Bytes wait in the socket until its notifier is served.
pub mod Saved
pub mod Backup
pub mod Kept
mod Tests
use rssani.Base.{
  ℕ, ◌+◌, ◌-◌, Bool, true, false, ◌&&◌, ◌||◌, Option, none, some, List, [], ◌∷◌, ltb, if◌then◌else◌,
  QString, QHash, lookup, insert, remove,
}
use rssani.Model.{DateTime}
use rssani.Settings.Store.{QSettings}
use rssani.Settings.{write_settings}
use rssani.Rpc.{Call, calls_guardar, calls_salir, Request, Env, handle}
use rssani.Subida.{TextApi}
use rssani.Rss.Title.{UrlApi}
use rssani.Rss.Xml.{FeedText}
use rssani.Daemon.{
  Daemon, Input, served, messaged, feed_read, answered, timed_out, rssani_lite, step,
}

-- The signals that `sigHandler` is installed for.
pub data Signal : Type 0 where
  sigterm sigint sigusr1 : Signal

-- What happens to the process: a signal, the notifier of the socket on a day, as yyyyMMdd, and what
-- comes in on a day.
pub data ProcessEvent : Type 0 where
  signalled : Signal → ProcessEvent
  activated : QString → ProcessEvent
  came : QString → Input → ProcessEvent

-- What the process finds: the name of the settings file, that of its copy for a day, which Qt makes
-- from the canonical path of the settings file if that is there and otherwise from none, whether a
-- copy can be made, and the settings where there is no file.
pub record Setup (q : QSettings) : Type 0 where
  pub file_name : QString
  pub backup_path : Bool → QString → QString
  pub copies : Bool
  pub no_settings : q.Store

-- The calls that a request leaves with.
abbrev pub calls_of : Input → Daemon → List Call
calls_of (served env r) a = elim (handle env r a.core) [
  | none ↦ []
  | some (reply, c, calls) ↦ calls
]
calls_of (messaged w m) a = []
calls_of (feed_read w reply) a = []
calls_of (answered d r) a = []
calls_of (timed_out now) a = []

-- gRPC has its own threads; all else comes through the event loop.
abbrev pub is_served : Input → Bool
is_served (served env r) = true
is_served _ = false

module _ (q : QSettings) (setup : Setup q) where
  abbrev pub Files : Type 0
  Files = QHash q.Store

  -- `running` ends with `QCoreApplication::quit`.
  pub record Process : Type 0 where
    pub daemon : Daemon
    pub files : Files
    pub pipe : ℕ
    pub notifier : Bool
    pub running : Bool

  abbrev pub settings_in : Files → q.Store
  settings_in files = elim (lookup setup.file_name files) [ none ↦ setup.no_settings | some s ↦ s ]

  -- `QFile::copy`: there is a file to copy, and none of the new name.
  unfoldable pub copy_file : QString → QString → Files → Files
  copy_file from to files = elim (lookup from files) [
    | none ↦ files
    | some s ↦ elim (lookup to files) [
      | none ↦ if setup.copies then insert to s files else files
      | some t ↦ files
    ]
  ]

  abbrev pub backup_of : QString → Files → QString
  backup_of dia files =
      setup.backup_path (elim (lookup setup.file_name files) [ none ↦ false | some s ↦ true ]) dia

  -- `QFile::remove( backupPath ); QFile::copy( settings->fileName(), backupPath );`
  abbrev pub back_up : QString → Files → Files
  back_up dia files =
      copy_file setup.file_name (backup_of dia files) (remove (backup_of dia files) files)

  unfoldable pub guardar_files : QString → Process → Process
  guardar_files dia p =
      let files = back_up dia p.files in
      record p {
        files = insert setup.file_name (write_settings q p.daemon.core (settings_in files)) files;
      }

  abbrev pub salir : Process → Process
  salir p = record p { running = false }

  -- `sigHandler`: one byte, whatever the signal.
  abbrev pub sig_handler : Signal → Process → Process
  sig_handler _ p = record p { pipe = p.pipe + 1 }

  unfoldable pub handle_sig_term : QString → Process → Process
  handle_sig_term dia p =
      let off = record p { notifier = false } in
      let read = record off { pipe = off.pipe - 1 } in
      record (salir (guardar_files dia read)) { notifier = true }

  unfoldable pub perform : QString → List Call → Process → Process
  perform dia [] p = p
  perform dia (calls_guardar ∷ calls) p = perform dia calls (guardar_files dia p)
  perform dia (calls_salir ∷ calls) p = perform dia calls (salir p)

  -- `main` up to `exec`.
  unfoldable pub start_process : Files → DateTime → QHash (List ℕ) → Option Process
  start_process files now disk = elim (rssani_lite q (settings_in files) now disk) [
    | none ↦ none
    | some a ↦
        some (record { daemon = a; files = files; pipe = 0; notifier = true; running = true })
  ]

  module _ (api : TextApi) (is_digit : ℕ → Bool) (u : UrlApi) (f : FeedText) where
    -- `none` is behaviour that C++ leaves undefined.
    unfoldable pub process_step : ProcessEvent → Process → Option Process
    process_step (signalled s) p = some (sig_handler s p)
    process_step (activated dia) p =
        some (if p.running && (p.notifier && ltb 0 p.pipe) then handle_sig_term dia p else p)
    process_step (came dia i) p =
        if p.running || is_served i
        then elim (step api is_digit u f i p.daemon) [
          | none ↦ none
          | some a ↦ some (perform dia (calls_of i p.daemon) (record p { daemon = a }))
        ]
        else some p

    unfoldable pub process_run : List ProcessEvent → Process → Option Process
    process_run [] p = some p
    process_run (e ∷ es) p = elim (process_step e p) [ none ↦ none | some p' ↦ process_run es p' ]
