-- ===== src/Process/Saved.antt =====
-- Proofs about main.cpp and the signals of rssani_lite.cpp.
-- A signal saves the state, and the next start finds it.
use mathlib.Core.Path.{subst}
use rssani.Base.{
  ℕ, ◌≡◌, refl, ap, ◌∙◌, Bool, true, false, ◌&&◌, ◌||◌, Option, none, some, List, [], ◌∷◌, arith,
  ltb, if◌then◌else◌, QString, QHash, lookup, lookup-insert, text_eq_iff,
}
use rssani.Model.{DateTime}
use rssani.Settings.Store.{QSettings}
use rssani.Settings.{write_settings}
use rssani.Rpc.{Call, calls_guardar, calls_salir}
use rssani.Subida.{TextApi}
use rssani.Rss.Title.{UrlApi}
use rssani.Rss.Xml.{FeedText}
use rssani.Daemon.{Daemon, rssani_lite, step}
use rssani.Daemon.Sound.{IsSound, IsSoundAt, started-IsSoundAt}
use rssani.Daemon.Reached.{step-IsSoundAt}
use rssani.Daemon.Restart.{restarted}
use rssani.Process.{
  Signal, ProcessEvent, signalled, activated, came, Setup, Files, Process, settings_in,
  guardar_files, back_up, sig_handler, handle_sig_term, calls_of, perform, is_served, start_process,
  process_step, process_run,
}

module _ (q : QSettings) (setup : Setup q) (disk : QHash (List ℕ)) where
  -- Between two events the program is sound and the notifier is on.
  IsReady : Process q setup → Type 0
  IsReady p = IsSound disk p.daemon × (p.notifier ≡ true)

  IsReadyAt : Option (Process q setup) → Type 0
  IsReadyAt none = Unit
  IsReadyAt (some p) = IsReady p

  perform-IsReady :
      (dia : QString) (calls : List Call) (p : Process q setup)
      → IsReady p
      → IsReady (perform q setup dia calls p)
  unfolding IsReady perform guardar_files
  perform-IsReady dia [] p h = h
  perform-IsReady dia (calls_guardar ∷ calls) p h =
      perform-IsReady dia calls (guardar_files q setup dia p) h
  perform-IsReady dia (calls_salir ∷ calls) p h =
      perform-IsReady dia calls (record p { running = false }) h

  came-IsReadyAt :
      (dia : QString) (calls : List Call) (p : Process q setup) (o : Option Daemon)
      → IsReady p
      → IsSoundAt disk o
      → IsReadyAt (elim o [
        | none ↦ none
        | some a ↦ some (perform q setup dia calls (record p { daemon = a }))
      ])
  unfolding IsReady IsReadyAt
  came-IsReadyAt dia calls p none h s = tt
  came-IsReadyAt dia calls p (some a) h s =
      perform-IsReady dia calls (record p { daemon = a }) (s, h.1)

  if-IsReadyAt :
      (b : Bool) (x y : Option (Process q setup))
      → IsReadyAt x
      → IsReadyAt y
      → IsReadyAt (if b then x else y)
  if-IsReadyAt true x y h g = h
  if-IsReadyAt false x y h g = g

  activated-IsReady :
      (dia : QString) (b : Bool) (p : Process q setup)
      → IsReady p
      → IsReady (if b then handle_sig_term q setup dia p else p)
  unfolding IsReady handle_sig_term guardar_files
  activated-IsReady dia true p h = (h.0, refl)
  activated-IsReady dia false p h = h

  start_process-IsReadyAt :
      (files : Files q setup) (now : DateTime) → IsReadyAt (start_process q setup files now disk)
  unfolding start_process IsReadyAt IsReady
  start_process-IsReadyAt files now =
      built-IsReadyAt (rssani_lite q (settings_in q setup files) now disk)
        (started-IsSoundAt q (settings_in q setup files) now disk)
    where
      built-IsReadyAt :
          (o : Option Daemon)
          → IsSoundAt disk o
          → IsReadyAt (elim o [
            | none ↦ none
            | some a ↦
                some
                  (record { daemon = a; files = files; pipe = 0; notifier = true; running = true })
          ])
      built-IsReadyAt none h = tt
      built-IsReadyAt (some a) h = (h, refl)

  handle_sig_term-settings :
      (dia : QString) (p : Process q setup)
      → settings_in q setup (handle_sig_term q setup dia p).files
        ≡ write_settings q p.daemon.core (settings_in q setup (back_up q setup dia p.files))
  unfolding handle_sig_term guardar_files
  handle_sig_term-settings dia p = ground (
    arith,
    lookup-insert setup.file_name setup.file_name
        (write_settings q p.daemon.core (settings_in q setup (back_up q setup dia p.files)))
        (back_up q setup dia p.files),
    text_eq_iff setup.file_name setup.file_name,
  )

  pub started :
      (files : Files q setup) (later : DateTime) (store : q.Store) (b : Daemon)
      → settings_in q setup files ≡ store
      → rssani_lite q store later disk ≡ some b
      → start_process q setup files later disk
        ≡ some (record { daemon = b; files = files; pipe = 0; notifier = true; running = true })
  unfolding start_process
  started files later store b e h =
      ap
        (λ o. elim o as (λ x. Option (Process q setup)) [
          | none ↦ none
          | some a ↦
              some (record { daemon = a; files = files; pipe = 0; notifier = true; running = true })
        ])
        (ap (λ s. rssani_lite q s later disk) e ∙ h)

  module _ (api : TextApi) (is_digit : ℕ → Bool) (u : UrlApi) (f : FeedText) where
    process_step-IsReadyAt :
        (e : ProcessEvent) (p : Process q setup)
        → IsReady p
        → IsReadyAt (process_step q setup api is_digit u f e p)
    unfolding process_step IsReadyAt
    process_step-IsReadyAt (signalled s) p h = unfold IsReady in h
    process_step-IsReadyAt (activated dia) p h =
        activated-IsReady dia (p.running && (p.notifier && ltb 0 p.pipe)) p h
    process_step-IsReadyAt (came dia i) p h =
        if-IsReadyAt (p.running || is_served i) _ _
          (came-IsReadyAt dia (calls_of i p.daemon) p (step api is_digit u f i p.daemon) h
            (step-IsSoundAt api is_digit u f disk i p.daemon (unfold IsReady in h.0)))
          h

    next-IsReadyAt :
        (o : Option (Process q setup)) (next : Process q setup → Option (Process q setup))
        → ((p : Process q setup) → IsReady p → IsReadyAt (next p))
        → IsReadyAt o
        → IsReadyAt (elim o [ none ↦ none | some p ↦ next p ])
    unfolding IsReadyAt
    next-IsReadyAt none next g h = tt
    next-IsReadyAt (some p) next g h = g p h

    process_run-IsReadyAt :
        (es : List ProcessEvent) (p : Process q setup)
        → IsReady p
        → IsReadyAt (process_run q setup api is_digit u f es p)
    unfolding process_run
    process_run-IsReadyAt [] p h = unfold IsReadyAt in h
    process_run-IsReadyAt (e ∷ es) p h =
        next-IsReadyAt (process_step q setup api is_digit u f e p)
          (process_run q setup api is_digit u f es) (process_run-IsReadyAt es)
          (process_step-IsReadyAt e p h)

    at_some :
        (o : Option (Process q setup)) (p : Process q setup) → IsReadyAt o → o ≡ some p → IsReady p
    unfolding IsReadyAt
    at_some o p h e = subst IsReadyAt e h

    signal_handled :
        (s : Signal) (dia : QString) (p : Process q setup)
        → p.running ≡ true
        → p.notifier ≡ true
        → process_run q setup api is_digit u f (signalled s ∷ activated dia ∷ []) p
          ≡ some (handle_sig_term q setup dia (sig_handler q setup s p))
    unfolding process_run process_step
    signal_handled s dia p on ready = ground (arith, on, ready)

    -- The process, whatever has happened since its start, is still in its event loop when a signal
    -- comes, and the notifier of the socket is served: the process then leaves the loop, and its next
    -- start goes through and has the options, the rules, the credentials for each tracker, the
    -- interval and the timer as they were.
    pub sig_handler-saves :
        (files : Files q setup) (now later : DateTime) (es : List ProcessEvent)
        (p0 p : Process q setup) (s : Signal) (dia t : QString)
        → start_process q setup files now disk ≡ some p0
        → process_run q setup api is_digit u f es p0 ≡ some p
        → p.running ≡ true
        → (p' : Process q setup) × (b : Process q setup) × (process_run q setup api is_digit u f
              (signalled s ∷ activated dia ∷ [])
              p
            ≡ some p')
          × (p'.running ≡ false)
          × (start_process q setup p'.files later disk ≡ some b)
          × (b.daemon.core.values ≡ p.daemon.core.values)
          × (b.daemon.core.lista ≡ p.daemon.core.lista)
          × (b.daemon.core.list_auths ≡ p.daemon.core.list_auths)
          × (lookup t b.daemon.core.hash_auths ≡ lookup t p.daemon.core.hash_auths)
          × (b.daemon.core.tiempo ≡ p.daemon.core.tiempo)
          × (b.daemon.core.intervalo ≡ p.daemon.core.intervalo)
    sig_handler-saves files now later es p0 p s dia t start went on =
        let signalled_p = sig_handler q setup s p in
        let p' = handle_sig_term q setup dia signalled_p in
        let ready =
          at_some (process_run q setup api is_digit u f es p0) p
            (process_run-IsReadyAt es p0 (
              at_some (start_process q setup files now disk) p0 (start_process-IsReadyAt files now)
                start))
            went in
        let (b, goes, values, lista, auths, hash, tiempo, intervalo) =
          restarted q (settings_in q setup (back_up q setup dia p.files)) later disk disk p.daemon t
            (unfold IsReady in ready.0) in
        (
          p',
          record { daemon = b; files = p'.files; pipe = 0; notifier = true; running = true },
          signal_handled s dia p on (unfold IsReady in ready.1),
          unfold handle_sig_term in refl,
          started p'.files later _ b (handle_sig_term-settings dia signalled_p) goes,
          values,
          lista,
          auths,
          hash,
          tiempo,
          intervalo,
        )
