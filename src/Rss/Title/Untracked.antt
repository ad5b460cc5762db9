-- ===== src/Rss/Title/Untracked.antt =====
-- Proofs about `Rss_lite::miraTitulo` and `parseLink` of rss_lite.cpp.
-- A link to a site that is no tracker's.
use rssani.Base.{
  ◌≡◌, refl, ap, ◌∙◌, true, false, none, List, [], ◌∷◌, ◌++◌, All, any_of, text_eq, QString, lookup,
}
use mathlib.Core.List.{append-nil}
use mathlib.Core.Path.{subst}
use rssani.Model.{Regexp}
use rssani.Rss.Types.{Rss, Effect, download}
use rssani.Rss.Match.{World, downloads, log_match, downloaded, parse_title, Found}
use rssani.Rss.Match.First.{goes_on, judge, survivors, waiting_lines, parse_title_downloads}
use rssani.Rss.Title.{UrlApi, site, parse_link, remembers, on_result, mira_titulo}
use rssani.Rss.Title.Recent.{is_handled, mira_titulo_twice}

module _ (u : UrlApi) (w : World) (seccion titulo link : QString) where
  parse_link_unknown :
      (s : Rss) → lookup (site u link) s.trackers ≡ none → parse_link u link titulo s ≡ (s, [])
  unfolding parse_link
  parse_link_unknown s h = rw (h, parse_link) refl

  untracked :
      (s : Rss) (rs lista : List Regexp) (effects : List Effect)
      → parse_title w seccion titulo link s.recientes rs ≡ (download, lista, effects)
      → lookup (site u link) s.trackers ≡ none
      → mira_titulo u w seccion titulo link s rs ≡ (remembers titulo s, lista, effects)
  unfolding mira_titulo on_result
  untracked s rs lista effects e unknown =
      ap
        (λ (found : Found w seccion titulo link).
          let (s', more) = on_result u found.0 titulo link s in (s', found.1, found.2 ++ more))
        e
      ∙ ap (λ (x : Rss × List Effect). (remembers titulo x.0, lista, effects ++ x.1))
          (parse_link_unknown s unknown)
      ∙ ap (λ x. (remembers titulo s, lista, x)) (append-nil effects)

  -- A title that a rule downloads, with no rule before it that decides, and whose link's site is no
  -- tracker's: nothing is asked for, but the title is remembered and the rule gets the time. If
  -- it comes again with nothing else in between, it changes nothing and does nothing, from any
  -- section and with any link.
  pub mira_titulo_untracked :
      (s : Rss) (before after : List Regexp) (r : Regexp)
      → any_of (λ t. text_eq t titulo) s.recientes ≡ false
      → All (λ x. goes_on (judge w seccion titulo link x) ≡ true) before
      → judge w seccion titulo link r ≡ downloads
      → lookup (site u link) s.trackers ≡ none
      → let lista =
          survivors w seccion titulo link before ++ downloaded w seccion titulo link r ∷ after in
        (mira_titulo u w seccion titulo link s (before ++ r ∷ after) ≡ (
          remembers titulo s,
          lista,
          waiting_lines w seccion titulo link before ++ log_match w seccion titulo link r,
        ))
        × ((w' : World) (seccion' link' : QString)
            → mira_titulo u w' seccion' titulo link' (remembers titulo s) lista
              ≡ (remembers titulo s, lista, []))
  mira_titulo_untracked s before after r fresh passed d unknown =
      let decided =
        parse_title_downloads w seccion titulo link s.recientes before after r fresh passed d in
      let first = untracked s (before ++ r ∷ after) _ _ decided unknown in
      (
        first,
        λ w' seccion' link'.
            subst
              (λ (p : Rss × List Regexp × List Effect).
                mira_titulo u w' seccion' titulo link' p.0 p.1 ≡ (p.0, p.1, []))
              first
              (mira_titulo_twice u w w' seccion seccion' titulo link link' s (before ++ r ∷ after)
                (ap (λ (found : Found w seccion titulo link). is_handled found.0) decided)),
      )
