-- ===== src/Rss/Title/Recent.antt =====
-- The titles that `miraTitulo` remembers.
use mathlib.Core.List.{append-nil}
use rssani.Base.{
  suc, ◌≡◌, ◌≤◌, ◌⊎◌, refl, inl, inr, Bool, true, false, List, [], ◌∷◌, ◌++◌, arith, Option-cases,
  length, length-append, drop, any_of, QString, text_eq, text_eq_refl, lookup,
}
use rssani.Model.{Regexp}
use rssani.Rss.Types.{MatchResult, not_matched, download, already_notified, mail_failed, Rss}
use rssani.Rss.Match.{World, parse_title}
use rssani.Rss.Title.{UrlApi, site, parse_link, remember, on_result, mira_titulo}

length-drop_one : {A : Type 0} (l : List A) → length l ≡ 0 ⊎ (suc (length (drop 1 l)) ≡ length l)
length-drop_one [] = inl refl
length-drop_one (x ∷ l) = inr refl

length-remember : (t : QString) (l : List QString) → length l ≤ 31 → length (remember t l) ≤ 31
length-remember t l h =
    ground (arith, length-append (drop 1 l) (t ∷ []), length-append l (t ∷ []), length-drop_one l)

-- The results after which a title is remembered.
abbrev pub is_handled : MatchResult → Bool
is_handled download = true
is_handled already_notified = true
is_handled not_matched = false
is_handled mail_failed = false

module _ (u : UrlApi) where
  parse_link-recientes :
      (link t : QString) (s : Rss) → (parse_link u link t s).0.recientes ≡ s.recientes
  unfolding parse_link
  parse_link-recientes link t s = ground (arith, Option-cases (lookup (site u link) s.trackers))

  on_result-bounded :
      (r : MatchResult) (t link : QString) (s : Rss)
      → length s.recientes ≤ 31
      → length (on_result u r t link s).0.recientes ≤ 31
  unfolding on_result
  on_result-bounded download t link s h =
      length-remember t (parse_link u link t s).0.recientes (rw (parse_link-recientes link t s) h)
  on_result-bounded already_notified t link s h = length-remember t s.recientes h
  on_result-bounded not_matched t link s h = h
  on_result-bounded mail_failed t link s h = h

  -- `miraTitulo` never remembers more than 31 titles.
  pub mira_titulo-bounded :
      (w : World) (seccion titulo link : QString) (s : Rss) (lista : List Regexp)
      → length s.recientes ≤ 31
      → length (mira_titulo u w seccion titulo link s lista).0.recientes ≤ 31
  unfolding mira_titulo
  mira_titulo-bounded w seccion titulo link s lista h =
      on_result-bounded (parse_title w seccion titulo link s.recientes lista).0 titulo link s h

  pub any_of-append :
      (t : QString) (l : List QString) → any_of (λ x. text_eq x t) (l ++ t ∷ []) ≡ true
  any_of-append t [] = rw (text_eq_refl t)
  any_of-append t (x ∷ l) = ground (arith, any_of-append t l)

  parse_title_recent :
      (w : World) (seccion titulo link : QString) (recientes : List QString) (lista : List Regexp)
      → any_of (λ t. text_eq t titulo) recientes ≡ true
      → parse_title w seccion titulo link recientes lista ≡ (not_matched, lista, [])
  unfolding parse_title
  parse_title_recent w seccion titulo link recientes lista h = rw h

  mira_titulo_recent :
      (w : World) (seccion titulo link : QString) (s : Rss) (lista : List Regexp)
      → any_of (λ t. text_eq t titulo) s.recientes ≡ true
      → mira_titulo u w seccion titulo link s lista ≡ (s, lista, [])
  unfolding mira_titulo
  mira_titulo_recent w seccion titulo link s lista h =
      rw (parse_title_recent w seccion titulo link s.recientes lista h)

  on_result-remembers :
      (r : MatchResult) (t link : QString) (s : Rss)
      → is_handled r ≡ true
      → any_of (λ x. text_eq x t) (on_result u r t link s).0.recientes ≡ true
  unfolding on_result
  on_result-remembers download t link s h = any_of-append t _
  on_result-remembers already_notified t link s h = any_of-append t _
  on_result-remembers not_matched t link s h = cc
  on_result-remembers mail_failed t link s h = cc

  -- A title that has been downloaded or mailed is not handled again: at once after, the same title,
  -- from any section and with any link, changes nothing and does nothing.
  pub mira_titulo_twice :
      (w w' : World) (seccion seccion' titulo link link' : QString) (s : Rss) (lista : List Regexp)
      → is_handled (parse_title w seccion titulo link s.recientes lista).0 ≡ true
      → let (s', lista', effects) = mira_titulo u w seccion titulo link s lista in
        mira_titulo u w' seccion' titulo link' s' lista' ≡ (s', lista', [])
  mira_titulo_twice w w' seccion seccion' titulo link link' s lista h =
      mira_titulo_recent w' seccion' titulo link' _ _ (
        unfold mira_titulo in
        on_result-remembers (parse_title w seccion titulo link s.recientes lista).0 titulo link s h)

  on_result-unhandled :
      (r : MatchResult) (t link : QString) (s : Rss)
      → is_handled r ≡ false
      → on_result u r t link s ≡ (s, [])
  unfolding on_result
  on_result-unhandled download t link s h = cc
  on_result-unhandled already_notified t link s h = cc
  on_result-unhandled not_matched t link s h = refl
  on_result-unhandled mail_failed t link s h = refl

  -- A title whose mail could not be sent, or that no rule takes, is not remembered, and nothing is
  -- asked of the network for it.
  pub mira_titulo_unhandled :
      (w : World) (seccion titulo link : QString) (s : Rss) (lista : List Regexp)
      → is_handled (parse_title w seccion titulo link s.recientes lista).0 ≡ false
      → ((mira_titulo u w seccion titulo link s lista).0 ≡ s)
        × ((mira_titulo u w seccion titulo link s lista).2
            ≡ (parse_title w seccion titulo link s.recientes lista).2)
  unfolding mira_titulo
  mira_titulo_unhandled w seccion titulo link s lista h =
      rw
        (on_result-unhandled (parse_title w seccion titulo link s.recientes lista).0 titulo link s
          h)
        (refl, append-nil _)
