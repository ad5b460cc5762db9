-- ===== src/Daemon/Restart.antt =====
-- Proofs about rssani_lite.cpp.
-- The settings saved in one run of the program, and the start of the next.
use rssani.Base.{ℕ, ◌≡◌, refl, sym, ap, ◌∙◌, Bool, some, List, ◌*ℤ◌, QString, QHash, lookup}
use rssani.Model.{DateTime}
use rssani.Core.{ms_per_min, fits_int}
use rssani.Core.Agree.{last_auth}
use rssani.Settings.Store.{QSettings}
use rssani.Settings.{write_settings}
use rssani.Settings.Start.{read_settings-AuthsAgree}
use rssani.Settings.RoundTrip.{read_settings-write_settings}
use rssani.Subida.{TextApi}
use rssani.Rss.Title.{UrlApi}
use rssani.Rss.Xml.{FeedText}
use rssani.Daemon.{Daemon, Input, first_core, rssani_lite, run}
use rssani.Daemon.Sound.{built, rssani_lite-built, first-AuthsAgree, IsSound}
use rssani.Daemon.Reached.{run-IsSound}

-- The next start from the settings saved in a sound state.
pub restarted :
    (q : QSettings) (saved : q.Store) (later : DateTime) (files disk : QHash (List ℕ)) (a : Daemon)
    (t : QString)
    → IsSound files a
    → (b : Daemon) × (rssani_lite q (write_settings q a.core saved) later disk ≡ some b)
      × (b.core.values ≡ a.core.values)
      × (b.core.lista ≡ a.core.lista)
      × (b.core.list_auths ≡ a.core.list_auths)
      × (lookup t b.core.hash_auths ≡ lookup t a.core.hash_auths)
      × (b.core.tiempo ≡ a.core.tiempo)
      × (b.core.intervalo ≡ a.core.intervalo)
unfolding built
restarted q saved later files disk a t sound =
    let valid = sound.valid in
    let written = write_settings q a.core saved in
    let (values, tiempo, lista, auths, user, pass, irc) =
      read_settings-write_settings q a.core first_core saved valid.timer.positive refl refl in
    let (agree, positive) = read_settings-AuthsAgree q written first_core first-AuthsAgree in
    let interval = ap (λ n. n *ℤ ms_per_min) tiempo ∙ sym valid.timer.in_ms in
    (
      built q written later disk,
      rssani_lite-built q written later disk (ap fits_int interval ∙ valid.timer.fits),
      values,
      lista,
      auths,
      agree t ∙ ap (last_auth t) auths ∙ sym (valid.auths t),
      tiempo,
      interval,
    )

module _ (api : TextApi) (is_digit : ℕ → Bool) (u : UrlApi) (f : FeedText) where
  -- Save and start again. In any state that the program comes to, the settings that `writeSettings`
  -- saves, over whatever the file held, let the constructors of the next run go through, with the
  -- options, the rules, the credentials for each tracker, the interval, and the timer as they were.
  pub rssani_lite-write_settings :
      (q : QSettings) (store saved : q.Store) (now later : DateTime) (files disk : QHash (List ℕ))
      (is : List Input) (a0 a : Daemon) (t : QString)
      → rssani_lite q store now files ≡ some a0
      → run api is_digit u f is a0 ≡ some a
      → (b : Daemon) × (rssani_lite q (write_settings q a.core saved) later disk ≡ some b)
        × (b.core.values ≡ a.core.values)
        × (b.core.lista ≡ a.core.lista)
        × (b.core.list_auths ≡ a.core.list_auths)
        × (lookup t b.core.hash_auths ≡ lookup t a.core.hash_auths)
        × (b.core.tiempo ≡ a.core.tiempo)
        × (b.core.intervalo ≡ a.core.intervalo)
  rssani_lite-write_settings q store saved now later files disk is a0 a t start went =
      restarted q saved later files disk a t
        (run-IsSound api is_digit u f q store now files is a0 a start went)
