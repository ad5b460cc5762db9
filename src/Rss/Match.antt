-- ===== src/Rss/Match.antt =====
-- `Rss_lite::parseTitle`: a title against the rules. The loop walks the list: `removeAt( i ); i--`
-- leaves it at the next rule, and so does `continue`. Traces to stdout are left out.
pub mod First
pub mod Cooldown
pub mod Walk
pub mod Mailed
mod Tests
use rssani.Base.{
  Bool, true, false, not, ◌&&◌, Option, none, some, List, [], ◌∷◌, ◌++◌, ℤ, pos, leb_ℤ, ltb_ℤ,
  if◌then◌else◌, any_of, QString, codes, text_eq, is_empty,
}
use rssani.Model.{Regexp, DateTime}
use rssani.Rss.Types.{
  MatchResult, not_matched, download, already_notified, mail_failed, Effect, matches_line, mails,
}

-- What `parseTitle` asks of Qt and of the world: today as a Julian day, the time, a date in the format
-- dd-MM-yyyy (an invalid date is a day before all others), the whole days between two times, a search
-- by a regular expression that ignores case, the host of an address, whether matches.log opens, and
-- the result of `sendMail` for a subject and a text. `stamp` is the host's name and the time as the
-- subject shows them.
pub record World : Type 0 where
  pub today : ℤ
  pub now : DateTime
  pub date_from_string : QString → ℤ
  pub days_to : DateTime → DateTime → ℤ
  pub search : QString → QString → Bool
  pub url_host : QString → QString
  pub matches_opens : Bool
  pub send_mail_result : QString → QString → ℤ
  pub stamp : QString

-- `(seccion) titulo`, or the title alone.
abbrev pub subida : QString → QString → QString
subida seccion titulo =
    if is_empty seccion then titulo else b'(' ∷ (seccion ++ (codes ") " ++ titulo))

-- What one round of the loop does with a rule: remove it, go on, go on behind a line in the log, or
-- return with a mail or a download.
pub data Verdict : Type 0 where
  expired passes waits mails_only downloads : Verdict

module _ (w : World) (seccion titulo enlace : QString) where
  abbrev pub is_expired : Regexp → Bool
  is_expired r = not (is_empty r.vencimiento) && leb_ℤ (w.date_from_string r.vencimiento) w.today

  abbrev pub is_match : Regexp → Bool
  is_match r = r.activa && w.search r.nombre (subida seccion titulo)

  abbrev pub right_tracker : Regexp → Bool
  right_tracker r =
      if not (is_empty r.tracker) then text_eq (w.url_host enlace) (w.url_host r.tracker) else true

  abbrev pub too_soon : Regexp → Bool
  too_soon r = elim r.fecha_descarga [
    | none ↦ false
    | some last ↦ ltb_ℤ (w.days_to last w.now) r.dias_descarga
  ]

  unfoldable pub verdict : Regexp → Verdict
  verdict r =
      if is_expired r
      then expired
      else if is_match r
      then (if not (right_tracker r)
          then passes
          else if r.mail
          then mails_only
          else if too_soon r
          then waits
          else downloads)
      else passes

  abbrev pub log_match : Regexp → List Effect
  log_match r = if w.matches_opens then matches_line (subida seccion titulo) r.nombre ∷ [] else []

  abbrev pub asunto : QString
  asunto = codes "RSSINFO " ++ w.stamp

  abbrev pub mensaje : QString
  mensaje = subida seccion titulo ++ (codes "\nLINK   : " ++ enlace)

  -- `fechaDescarga = QDateTime::currentDateTime()`.
  abbrev pub downloaded : Regexp → Regexp
  downloaded r = record r { fecha_descarga = some w.now }

  abbrev pub mail_result : ℤ → MatchResult
  mail_result exito =
      if leb_ℤ exito (pos 0) && leb_ℤ (pos 0) exito then already_notified else mail_failed

  abbrev pub Found : Type 0
  Found = MatchResult × List Regexp × List Effect

  -- The loop over the rules: the result, the rules that it leaves, and what it did.
  unfoldable pub scan : List Regexp → Found
  scan [] = (not_matched, [], [])
  scan (r ∷ rs) =
      let (result, kept, effects) = scan rs in
      elim (verdict r) [
        | expired ↦ (result, kept, effects)
        | passes ↦ (result, r ∷ kept, effects)
        | waits ↦ (result, r ∷ kept, log_match r ++ effects)
        | mails_only ↦ (
          mail_result (w.send_mail_result asunto mensaje),
          r ∷ rs,
          log_match r ++ mails asunto mensaje ∷ [],
        )
        | downloads ↦ (download, downloaded r ∷ rs, log_match r)
      ]

  unfoldable pub parse_title : List QString → List Regexp → Found
  unfolding scan verdict
  parse_title recientes lista =
      if any_of (λ t. text_eq t titulo) recientes then (not_matched, lista, []) else scan lista
