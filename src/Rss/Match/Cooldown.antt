-- ===== src/Rss/Match/Cooldown.antt =====
-- The days between two downloads of a rule.
use rssani.Base.{◌≡◌, ◌≢◌, true, arith, ltb_ℤ, QString}
use rssani.Model.{Regexp}
use rssani.Rss.Match.{World, downloads, verdict, downloaded}

-- A rule that has downloaded at one time downloads no title at a later time, from whatever place, as
-- long as fewer whole days have passed than it asks for.
pub verdict-downloaded :
    (w w' : World) (s t e s' t' e' : QString) (r : Regexp)
    → ltb_ℤ (w'.days_to w.now w'.now) r.dias_descarga ≡ true
    → verdict w' s' t' e' (downloaded w s t e r) ≢ downloads
unfolding verdict
verdict-downloaded w w' s t e s' t' e' r soon = ground arith
