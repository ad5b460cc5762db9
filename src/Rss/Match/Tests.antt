-- ===== src/Rss/Match/Tests.antt =====
-- Runs of `parseTitle` on four rules: one expired, one that waits, one that downloads, one behind it.
use rssani.Base.{
  ℕ, ◌≢◌, ◌++◌, ◌≡◌, ◌++◌, refl, true, false, some, none, [], ◌∷◌, pos, negsuc, leb_ℤ, QString,
  codes, text_eq, contains, starts_with, is_empty, if◌then◌else◌, ◌-ℤ◌,
}
use rssani.Model.{Regexp, default_values, default_datos}
use rssani.Core.{Core, anadir_regexp, borrar_regexp_s}
use rssani.Rss.Types.{download, not_matched, matches_line}
use rssani.Rss.Match.{World, verdict, scan, parse_title, downloaded, log_match}
use rssani.Rss.Match.First.{survivors, waiting_lines, parse_title_downloads}
use rssani.Rss.Match.Walk.{
  expiring, returned, out_of_range, Walk, walk_from, walk, Ends, adds, runs, Reach, here, then_,
  walks, locked,
}
use rssani.Rss.Match.Walk.Alone.{walk_from-scan}
use rssani.Rss.Match.Walk.Stamped.{walk_from_stamps}
use rssani.Rss.Match.Walk.Shared.{anything, keeps, walk_from_safe, walk_from_races, walk_from_moves}

-- A mail that succeeds, and a search that is a plain one; a day is ten units of time.
abbrev mundo : World
mundo = record {
  today = pos 100;
  now = 1000;
  date_from_string = λ s. if is_empty s then negsuc 0 else pos 99;
  days_to = λ a b. if leb_ℤ (pos 100) (pos b -ℤ pos a) then pos 10 else pos 0;
  search = λ pattern text. contains text pattern;
  url_host = λ u. u;
  matches_opens = true;
  send_mail_result = λ a m. pos 0;
  stamp = codes "host";
}

abbrev rule : QString → Regexp
rule nombre = record {
  nombre = nombre;
  vencimiento = [];
  mail = false;
  tracker = [];
  dias_descarga = pos 1;
  fecha_descarga = none;
  activa = true;
}

abbrev vencida : Regexp
vencida = record (rule (codes "Uno")) { vencimiento = codes "01-01-2000" }

abbrev espera : Regexp
espera = record (rule (codes "Uno")) { fecha_descarga = some 950 }

abbrev descarga : Regexp
descarga = rule (codes "no")

abbrev avisa : Regexp
avisa = record (rule (codes "Uno")) { mail = true }

abbrev otra : Regexp
otra = rule (codes "Otra")

abbrev titulo : QString
titulo = codes "Uno"

abbrev enlace : QString
enlace = codes "http://t/1"

downloads_first :
    parse_title mundo [] titulo enlace [] (vencida ∷ espera ∷ descarga ∷ otra ∷ []) ≡ (
      download,
      espera ∷ record descarga { fecha_descarga = some 1000 } ∷ otra ∷ [],
      matches_line titulo (codes "Uno") ∷ matches_line titulo (codes "no") ∷ [],
    )
unfolding parse_title scan verdict contains starts_with text_eq
downloads_first = refl

skips_recent :
    parse_title mundo [] titulo enlace (titulo ∷ []) (descarga ∷ [])
    ≡ (not_matched, descarga ∷ [], [])
unfolding parse_title text_eq
skips_recent = refl

parse_title_downloads_example :
    parse_title mundo [] titulo enlace [] ((vencida ∷ espera ∷ []) ++ descarga ∷ otra ∷ []) ≡ (
      download,
      survivors mundo [] titulo enlace (vencida ∷ espera ∷ [])
          ++ downloaded mundo [] titulo enlace descarga ∷ otra ∷ [],
      waiting_lines mundo [] titulo enlace (vencida ∷ espera ∷ [])
          ++ log_match mundo [] titulo enlace descarga,
    )
unfolding verdict contains starts_with
parse_title_downloads_example =
    parse_title_downloads mundo [] titulo enlace [] (vencida ∷ espera ∷ []) (otra ∷ []) descarga
      refl (refl, (refl, tt)) refl

abbrev nucleo : Core
nucleo = record {
  values = default_values;
  tiempo = pos 10;
  intervalo = pos 600000;
  lista = [];
  list_auths = [];
  hash_auths = [];
  rpc_user = [];
  rpc_pass = [];
  misdatos = default_datos;
}

walk_from-scan_example :
    let (result, kept, effects) =
      scan mundo [] titulo enlace (vencida ∷ espera ∷ descarga ∷ otra ∷ []) in
    (n : ℕ) × Ends mundo [] titulo enlace
      (walk_from (vencida ∷ espera ∷ descarga ∷ otra ∷ []))
      (record { place = returned result; i = n; lista = kept; effects = effects })
walk_from-scan_example =
    walk_from-scan mundo [] titulo enlace (vencida ∷ espera ∷ descarga ∷ otra ∷ [])

walk_from_safe_example : expiring ≢ out_of_range
unfolding walk runs borrar_regexp_s anadir_regexp
walk_from_safe_example =
    walk_from_safe mundo [] titulo enlace (descarga ∷ [])
      (record { place = expiring; i = 0; lista = descarga ∷ otra ∷ []; effects = [] })
      (then_ (then_ here (walks refl)) (
        locked (adds (codes "Otra") [] false [] (pos 1)) (record nucleo { lista = descarga ∷ [] }) _
          refl refl))

walk_from_moves_example :
    (s : Walk) × Reach mundo [] titulo enlace keeps (walk_from (espera ∷ [])) s
    × (s.place ≡ out_of_range)
    × (s.lista ≡ espera ∷ [])
unfolding walk
walk_from_moves_example =
    walk_from_moves mundo [] titulo enlace (espera ∷ []) [] espera [] (then_ here (walks refl))

walk_from_races_example :
    (s : Walk) × Reach mundo [] titulo enlace anything (walk_from (espera ∷ otra ∷ [])) s
    × (s.place ≡ out_of_range)
walk_from_races_example = walk_from_races mundo [] titulo enlace nucleo espera (otra ∷ [])

walk_from_stamps_example :
    (s : Walk) × Reach mundo [] titulo enlace keeps (walk_from (descarga ∷ otra ∷ [])) s
    × (s.place ≡ returned download)
    × (s.lista ≡ downloaded mundo [] titulo enlace otra ∷ descarga ∷ [])
unfolding verdict contains starts_with
walk_from_stamps_example = walk_from_stamps mundo [] titulo enlace nucleo descarga otra [] refl
