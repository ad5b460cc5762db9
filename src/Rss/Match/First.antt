-- ===== src/Rss/Match/First.antt =====
-- The rule that decides is the first that can.
use mathlib.Core.List.{append_assoc, append-nil}
use rssani.Base.{
  ◌≡◌, refl, sym, ap, ◌∙◌, Bool, true, false, List, [], ◌∷◌, ◌++◌, arith, All, QString, text_eq,
  any_of, keep_if,
}
use rssani.Model.{Regexp}
use rssani.Rss.Types.{not_matched, download, Effect, mails}
use rssani.Rss.Match.{
  World, Verdict, expired, passes, waits, mails_only, downloads, verdict, scan, log_match, asunto,
  mensaje, downloaded, mail_result, parse_title,
}

-- A verdict on which the loop goes on.
abbrev pub goes_on : Verdict → Bool
goes_on expired = true
goes_on passes = true
goes_on waits = true
goes_on mails_only = false
goes_on downloads = false

abbrev pub is_kept : Verdict → Bool
is_kept expired = false
is_kept _ = true

module _ (w : World) (seccion titulo enlace : QString) where
  abbrev pub judge : Regexp → Verdict
  judge = verdict w seccion titulo enlace

  -- The rules that are left of those that the loop has passed.
  abbrev pub survivors : List Regexp → List Regexp
  survivors = keep_if (λ r. is_kept (judge r))

  -- The lines for the rules that match and wait.
  abbrev pub waiting_lines : List Regexp → List Effect
  waiting_lines [] = []
  waiting_lines (r ∷ rs) = elim (judge r) [
    | waits ↦ log_match w seccion titulo enlace r ++ waiting_lines rs
    | _ ↦ waiting_lines rs
  ]

  scan-append :
      (before rest : List Regexp)
      → All (λ r. goes_on (judge r) ≡ true) before
      → let (result, kept, effects) = scan w seccion titulo enlace rest in
        scan w seccion titulo enlace (before ++ rest)
        ≡ (result, survivors before ++ kept, waiting_lines before ++ effects)
  unfolding scan
  scan-append [] rest h = refl
  scan-append (r ∷ before) rest h = ground (
    arith,
    scan-append before rest h.1,
    append_assoc (log_match w seccion titulo enlace r) (waiting_lines before)
        (scan w seccion titulo enlace rest).2,
  )

  scan_downloads :
      (r : Regexp) (after : List Regexp)
      → judge r ≡ downloads
      → scan w seccion titulo enlace (r ∷ after) ≡ (
        download,
        downloaded w seccion titulo enlace r ∷ after,
        log_match w seccion titulo enlace r,
      )
  unfolding scan
  scan_downloads r after h = rw (h, scan)

  scan_mails :
      (r : Regexp) (after : List Regexp)
      → judge r ≡ mails_only
      → scan w seccion titulo enlace (r ∷ after) ≡ (
        mail_result w seccion titulo enlace
            (w.send_mail_result (asunto w seccion titulo enlace) (mensaje w seccion titulo enlace)),
        r ∷ after,
        log_match w seccion titulo enlace r
            ++ mails (asunto w seccion titulo enlace) (mensaje w seccion titulo enlace) ∷ [],
      )
  unfolding scan
  scan_mails r after h = rw (h, scan)

  -- A rule that downloads, with no rule before it that decides: the result is `Download`, the rule
  -- gets the time, the rules behind it are not looked at, and of those before it the expired ones are
  -- gone. The log has a line for the rule and for each one before it that matches and waits.
  pub parse_title_downloads :
      (recientes : List QString) (before after : List Regexp) (r : Regexp)
      → any_of (λ t. text_eq t titulo) recientes ≡ false
      → All (λ x. goes_on (judge x) ≡ true) before
      → judge r ≡ downloads
      → parse_title w seccion titulo enlace recientes (before ++ r ∷ after) ≡ (
        download,
        survivors before ++ downloaded w seccion titulo enlace r ∷ after,
        waiting_lines before ++ log_match w seccion titulo enlace r,
      )
  unfolding parse_title
  parse_title_downloads recientes before after r fresh h d =
      rw fresh (scan-append before (r ∷ after) h ∙ rw (scan_downloads r after d))

  -- A rule that only mails, with no rule before it that decides: the mail is handed over, the result
  -- says whether that went well, and the rule stays as it is.
  pub parse_title_mails :
      (recientes : List QString) (before after : List Regexp) (r : Regexp)
      → any_of (λ t. text_eq t titulo) recientes ≡ false
      → All (λ x. goes_on (judge x) ≡ true) before
      → judge r ≡ mails_only
      → parse_title w seccion titulo enlace recientes (before ++ r ∷ after) ≡ (
        mail_result w seccion titulo enlace
            (w.send_mail_result (asunto w seccion titulo enlace) (mensaje w seccion titulo enlace)),
        survivors before ++ r ∷ after,
        waiting_lines before
            ++ (log_match w seccion titulo enlace r
                ++ mails (asunto w seccion titulo enlace) (mensaje w seccion titulo enlace) ∷ []),
      )
  unfolding parse_title
  parse_title_mails recientes before after r fresh h d =
      rw fresh (scan-append before (r ∷ after) h ∙ rw (scan_mails r after d))

  -- No rule that decides: the result is `NotMatched`, the rules that have expired are gone and the
  -- others stay, and the log has a line for each one that matches and waits.
  pub parse_title_none :
      (recientes : List QString) (lista : List Regexp)
      → any_of (λ t. text_eq t titulo) recientes ≡ false
      → All (λ x. goes_on (judge x) ≡ true) lista
      → parse_title w seccion titulo enlace recientes lista
        ≡ (not_matched, survivors lista, waiting_lines lista)
  unfolding parse_title
  parse_title_none recientes lista fresh h = rw fresh (
      ap (scan w seccion titulo enlace) (sym (append-nil lista))
      ∙ scan-append lista [] h
      ∙ rw (append-nil (survivors lista), append-nil (waiting_lines lista)))
