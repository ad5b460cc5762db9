-- ===== src/Process/Kept.antt =====
-- Proofs about main.cpp and the handlers `Guardar` and `Shutdown` of grpc_server.cpp.
-- What is not saved.
use mathlib.Core.Path.{subst}
use rssani.Base.{
  ℕ, All, ◌≡◌, inl, inr, refl, ap, ◌∙◌, Bool, true, false, ◌||◌, Option, none, some, List, [], ◌∷◌,
  arith, if◌then◌else◌, QString, QHash, Option-cases,
}
use rssani.Model.{DateTime}
use rssani.Settings.Store.{QSettings}
use rssani.Core.{cambia_timer}
use rssani.Rpc.{
  Env, Request, guardar, shutdown, ver_log, ver_log_lines, cambia_timer_request, Call,
  calls_guardar, calls_salir, handle,
}
use rssani.Subida.{TextApi}
use rssani.Rss.Title.{UrlApi}
use rssani.Rss.Xml.{FeedText}
use rssani.Daemon.{
  Daemon, Input, served, messaged, feed_read, answered, timed_out, step, rssani_lite,
}
use rssani.Process.{
  ProcessEvent, signalled, activated, came, Setup, Files, Process, settings_in, calls_of, perform,
  is_served, start_process, process_step, process_run,
}

-- No call to `guardar`.
quiet : List Call → Bool
quiet [] = true
quiet (calls_guardar ∷ calls) = false
quiet (calls_salir ∷ calls) = quiet calls

abbrev is_guardar : Request → Bool
is_guardar guardar = true
is_guardar _ = false

-- The events that can save: the notifier, and `Guardar`.
abbrev pub saves : ProcessEvent → Bool
saves (activated dia) = true
saves (came dia (served env r)) = is_guardar r
saves _ = false

calls_of-quiet :
    (env : Env) (r : Request) (a : Daemon)
    → is_guardar r ≡ false
    → quiet (calls_of (served env r) a) ≡ true
unfolding handle quiet
calls_of-quiet env guardar a h = cc
calls_of-quiet env (ver_log ini fin) a h =
    ground (arith, Option-cases (ver_log_lines ini fin env.log))
calls_of-quiet env (cambia_timer_request t) a h =
    ground (arith, Option-cases (cambia_timer t a.core))
calls_of-quiet env _ a h = ground arith

came-quiet :
    (dia : QString) (i : Input) (a : Daemon)
    → saves (came dia i) ≡ false
    → quiet (calls_of i a) ≡ true
unfolding quiet
came-quiet dia (served env r) a h = unfold quiet in calls_of-quiet env r a h
came-quiet dia (messaged w m) a h = refl
came-quiet dia (feed_read w reply) a h = refl
came-quiet dia (answered d r) a h = refl
came-quiet dia (timed_out now) a h = refl

module _ (q : QSettings) (setup : Setup q) where
  perform-files :
      (dia : QString) (calls : List Call) (p : Process q setup)
      → quiet calls ≡ true
      → (perform q setup dia calls p).files ≡ p.files
  unfolding perform quiet
  perform-files dia [] p h = refl
  perform-files dia (calls_guardar ∷ calls) p h = cc
  perform-files dia (calls_salir ∷ calls) p h =
      perform-files dia calls (record p { running = false }) h

  HasFiles : Files q setup → Option (Process q setup) → Type 0
  HasFiles files none = Unit
  HasFiles files (some p) = p.files ≡ files

  came-HasFiles :
      (dia : QString) (calls : List Call) (p : Process q setup) (o : Option Daemon)
      → quiet calls ≡ true
      → HasFiles p.files (elim o [
        | none ↦ none
        | some a ↦ some (perform q setup dia calls (record p { daemon = a }))
      ])
  unfolding HasFiles
  came-HasFiles dia calls p none h = tt
  came-HasFiles dia calls p (some a) h = perform-files dia calls (record p { daemon = a }) h

  if-HasFiles :
      (files : Files q setup) (b : Bool) (x y : Option (Process q setup))
      → HasFiles files x
      → HasFiles files y
      → HasFiles files (if b then x else y)
  if-HasFiles files true x y h g = h
  if-HasFiles files false x y h g = g

  built-HasFiles :
      (files : Files q setup) (o : Option Daemon)
      → HasFiles files (elim o [
        | none ↦ none
        | some a ↦
            some (record { daemon = a; files = files; pipe = 0; notifier = true; running = true })
      ])
  unfolding HasFiles
  built-HasFiles files none = tt
  built-HasFiles files (some a) = refl

  start_process-HasFiles :
      (files : Files q setup) (now : DateTime) (disk : QHash (List ℕ))
      → HasFiles files (start_process q setup files now disk)
  unfolding start_process
  start_process-HasFiles files now disk =
      built-HasFiles files (rssani_lite q (settings_in q setup files) now disk)

  module _ (api : TextApi) (is_digit : ℕ → Bool) (u : UrlApi) (f : FeedText) where
    process_step-HasFiles :
        (e : ProcessEvent) (p : Process q setup)
        → saves e ≡ false
        → HasFiles p.files (process_step q setup api is_digit u f e p)
    unfolding process_step
    process_step-HasFiles (signalled s) p h = unfold HasFiles in refl
    process_step-HasFiles (activated dia) p h = cc
    process_step-HasFiles (came dia i) p h =
        if-HasFiles p.files (p.running || is_served i) _ _
          (came-HasFiles dia (calls_of i p.daemon) p (step api is_digit u f i p.daemon)
            (came-quiet dia i p.daemon h))
          (unfold HasFiles in refl)

    process_run-files :
        (es : List ProcessEvent) (p p' : Process q setup)
        → All (λ e. saves e ≡ false) es
        → process_run q setup api is_digit u f es p ≡ some p'
        → p'.files ≡ p.files
    unfolding process_run HasFiles
    process_run-files [] p p' h e = ground (arith, e)
    process_run-files (e ∷ es) p p' h went =
        elim (Option-cases (process_step q setup api is_digit u f e p)) [
          | inl n ↦ absurd (ground (arith, n, went))
          | inr (p1, s) ↦
              process_run-files es p1 p' h.1 (
                subst
                  (λ o.
                    (elim o as (λ x. Option (Process q setup)) [
                      | none ↦ none
                      | some x ↦ process_run q setup api is_digit u f es x
                    ])
                    ≡ some p')
                  s went)
              ∙ subst (HasFiles p.files) s (process_step-HasFiles e p h.0)
        ]

    shuts_down :
        (dia : QString) (env : Env) (p : Process q setup)
        → process_run q setup api is_digit u f (came dia (served env shutdown) ∷ []) p
          ≡ some (record p { running = false })
    unfolding process_run process_step step handle perform
    shuts_down dia env p = ground arith

    -- A `Shutdown` with nothing saved since the start, by a signal or by `Guardar`: the process leaves
    -- its event loop, and the next start reads what this one read at its own, whatever has changed
    -- meanwhile.
    pub shutdown_unsaved :
        (files : Files q setup) (now later : DateTime) (disk disk' : QHash (List ℕ))
        (es : List ProcessEvent) (p0 p : Process q setup) (dia : QString) (env : Env)
        → start_process q setup files now disk ≡ some p0
        → All (λ e. saves e ≡ false) es
        → process_run q setup api is_digit u f es p0 ≡ some p
        → (p' : Process q setup) × (process_run q setup api is_digit u f
              (came dia (served env shutdown) ∷ [])
              p
            ≡ some p')
          × (p'.running ≡ false)
          × (start_process q setup p'.files later disk' ≡ start_process q setup files later disk')
    shutdown_unsaved files now later disk disk' es p0 p dia env start quiet_events went =
        let at_start = subst (HasFiles files) start (start_process-HasFiles files now disk) in
        (
          record p { running = false },
          shuts_down dia env p,
          refl,
          ap (λ (fs : Files q setup). start_process q setup fs later disk')
              (process_run-files es p0 p quiet_events went ∙ unfold HasFiles in at_start),
        )
