-- ===== src/Process/Tests.antt =====
-- Runs of the process from an empty settings file.
use rssani.Base.{
  ℕ, ◌≡◌, refl, ap, ◌*ℤ◌, Bool, true, false, none, some, List, [], ◌∷◌, ◌++◌, pos, codes, drop,
  take, QString, lookup, text_eq,
}
use rssani.Core.{ms_per_min, fits_int, anadir_regexp}
use rssani.Settings.{read_settings, read_tiempo}
use rssani.Settings.Start.{read_settings-tiempo}
use rssani.Settings.Memory.{ajustes}
use rssani.Subida.Lists.{textos}
use rssani.Rpc.{Env, anadir_regexp_request, shutdown, handle}
use rssani.Rss.Title.{UrlApi}
use rssani.Rss.Xml.{FeedText}
use rssani.Daemon.{served, first_core, step}
use rssani.Daemon.Sound.{built, rssani_lite-built}
use rssani.Process.{
  ProcessEvent, signalled, sigusr1, activated, came, Setup, Process, guardar_files, perform,
  start_process, process_step, process_run,
}
use rssani.Process.Saved.{started, sig_handler-saves}
use rssani.Process.Backup.{lookup-guardar_files}
use rssani.Process.Kept.{shutdown_unsaved}

abbrev url : UrlApi
url = record {
  scheme = take 4;
  host = λ link. take 1 (drop 7 link);
  query_item_value = λ link item. [];
}

abbrev texto : FeedText
texto = record { category = λ s. none; section = λ s. none; trimmed_title = λ s. s }

abbrev entorno : Env
entorno = record { ultimo = []; log = [] }

abbrev es_digito : ℕ → Bool
es_digito c = false

abbrev sitio : Setup ajustes
sitio = record {
  file_name = codes "rssani.conf";
  backup_path = λ there dia. codes "rssani.conf." ++ dia;
  copies = true;
  no_settings = λ k. none;
}

abbrev hoy : QString
hoy = codes "20240229"

abbrev inicio : Process ajustes sitio
inicio = record {
  daemon = built ajustes (λ k. none) 0 [];
  files = [];
  pipe = 0;
  notifier = true;
  running = true;
}

abbrev sucesos : List ProcessEvent
sucesos = came hoy (served entorno (anadir_regexp_request (codes "Uno") [] false [] (pos 1))) ∷ []

abbrev final : Process ajustes sitio
final = record inicio {
  daemon = record (built ajustes (λ k. none) 0 []) {
    core = (anadir_regexp (codes "Uno") [] false [] (pos 1) (built ajustes (λ k. none) 0 []).core);
  };
}

fits_ten : fits_int ((read_settings ajustes (λ k. none) first_core).tiempo *ℤ ms_per_min) ≡ true
unfolding read_tiempo
fits_ten =
    ap (λ t. fits_int (t *ℤ ms_per_min)) (read_settings-tiempo ajustes (λ k. none) first_core)

starts : start_process ajustes sitio [] 0 [] ≡ some inicio
unfolding lookup
starts =
    started ajustes sitio [] [] 0 (λ k. none) (built ajustes (λ k. none) 0 []) refl
      (rssani_lite-built ajustes (λ k. none) 0 [] fits_ten)

runs_on : process_run ajustes sitio textos es_digito url texto sucesos inicio ≡ some final
unfolding process_run process_step step handle perform
runs_on = refl

sig_handler-saves_example :
    (p' : Process ajustes sitio) × (b : Process ajustes sitio) × (process_run ajustes sitio textos
        es_digito url texto
        (signalled sigusr1 ∷ activated hoy ∷ [])
        final
      ≡ some p')
    × (p'.running ≡ false)
    × (start_process ajustes sitio p'.files 9 [] ≡ some b)
    × (b.daemon.core.values ≡ final.daemon.core.values)
    × (b.daemon.core.lista ≡ final.daemon.core.lista)
    × (b.daemon.core.list_auths ≡ final.daemon.core.list_auths)
    × (lookup (codes "http://t") b.daemon.core.hash_auths
        ≡ lookup (codes "http://t") final.daemon.core.hash_auths)
    × (b.daemon.core.tiempo ≡ final.daemon.core.tiempo)
    × (b.daemon.core.intervalo ≡ final.daemon.core.intervalo)
sig_handler-saves_example =
    sig_handler-saves ajustes sitio [] textos es_digito url texto [] 0 9 sucesos inicio final
      sigusr1 hoy (codes "http://t") starts runs_on refl

lookup-guardar_files_example :
    lookup
      (codes "rssani.conf.20240229")
      (guardar_files ajustes sitio hoy
        (record final { files = (codes "rssani.conf", λ k. none) ∷ [] })).files
    ≡ some (λ k. none)
unfolding text_eq lookup
lookup-guardar_files_example =
    lookup-guardar_files ajustes sitio hoy (codes "rssani.conf.20240229")
      (record final { files = (codes "rssani.conf", λ k. none) ∷ [] }) refl

shutdown_unsaved_example :
    (p' : Process ajustes sitio) × (process_run ajustes sitio textos es_digito url texto
        (came hoy (served entorno shutdown) ∷ [])
        final
      ≡ some p')
    × (p'.running ≡ false)
    × (start_process ajustes sitio p'.files 9 [] ≡ start_process ajustes sitio [] 9 [])
shutdown_unsaved_example =
    shutdown_unsaved ajustes sitio textos es_digito url texto [] 0 9 [] [] sucesos inicio final hoy
      entorno starts (refl, tt) runs_on
