-- ===== src/Rss/Match/Walk/Stamped.antt =====
-- Proofs about `Rss_lite::parseTitle` of rss_lite.cpp and `moverRegexp` of rssani_lite.cpp.
-- The date of a download can go to another rule than the one that matched.
use rssani.Base.{◌≡◌, refl, true, false, List, [], ◌∷◌, ◌++◌, arith, pos, insert_at, QString}
use rssani.Model.{Regexp}
use rssani.Core.{Core, mover_regexp, mover}
use rssani.Rss.Types.{download}
use rssani.Rss.Match.{
  World, downloads, is_expired, is_match, right_tracker, too_soon, verdict, log_match, downloaded,
}
use rssani.Rss.Match.First.{judge}
use rssani.Rss.Match.Walk.{
  expiring, matching, tracking, logging, mailing, waiting, stamping, returned, Walk, walk_from,
  walk, moves, runs, Reach, here, then_, walks, locked,
}
use rssani.Rss.Match.Walk.Rounds.{
  standing, walk-expiring, walk-matching, walk-tracking, walk-logging, walk-mailing, walk-waiting,
  walk-stamping,
}
use rssani.Rss.Match.Walk.Shared.{keeps}

insert_at_zero : {A : Type 0} (xs : List A) (v : A) → insert_at xs 0 v ≡ v ∷ xs
insert_at_zero [] v = refl
insert_at_zero (x ∷ xs) v = refl

moved :
    (r q : Regexp) (rs : List Regexp) (c : Core)
    → (runs (moves (pos 0) (pos 1)) (record c { lista = r ∷ q ∷ rs })).lista ≡ q ∷ r ∷ rs
unfolding runs mover_regexp mover
moved r q rs c = ground (arith, insert_at_zero rs r)

module _ (w : World) (seccion titulo enlace : QString) where
  abbrev Reached : List Regexp → Walk → Type 0
  Reached l s = Reach w seccion titulo enlace keeps (walk_from l) s

  to_stamping :
      (r : Regexp) (rs : List Regexp)
      → judge w seccion titulo enlace r ≡ downloads
      → Reach w seccion titulo enlace keeps
          (walk_from (r ∷ rs))
          (standing stamping 0 (r ∷ rs) ([] ++ log_match w seccion titulo enlace r))
  unfolding walk verdict
  to_stamping r rs h =
      let l = r ∷ rs in
      let expired : is_expired w seccion titulo enlace r ≡ false = ground (arith, h) in
      let matched : is_match w seccion titulo enlace r ≡ true = ground (arith, h) in
      let right : right_tracker w seccion titulo enlace r ≡ true = ground (arith, h) in
      let mail : r.mail ≡ false = ground (arith, h) in
      let late : too_soon w seccion titulo enlace r ≡ false = ground (arith, h) in
      let logged_line = [] ++ log_match w seccion titulo enlace r in
      let tested : Reached l (standing expiring 0 l []) = then_ here (walks (ground arith)) in
      let fresh : Reached l (standing matching 0 l []) =
        then_ tested (walks (walk-expiring w seccion titulo enlace r 0 l refl [] false expired)) in
      let hit : Reached l (standing tracking 0 l []) =
        then_ fresh (walks (walk-matching w seccion titulo enlace r 0 l refl [] true matched)) in
      let known : Reached l (standing logging 0 l []) =
        then_ hit (walks (walk-tracking w seccion titulo enlace r 0 l refl [] true right)) in
      let logged : Reached l (standing mailing 0 l logged_line) =
        then_ known (walks (walk-logging w seccion titulo enlace r 0 l refl [])) in
      let not_mailed : Reached l (standing waiting 0 l logged_line) =
        then_ logged
          (walks (walk-mailing w seccion titulo enlace r 0 l refl logged_line false mail)) in
      then_ not_mailed
        (walks (walk-waiting w seccion titulo enlace r 0 l refl logged_line false late))

  -- Where the first rule downloads and another thread moves it behind the second before the date is
  -- stored: the walk ends in a download, with the date in the second rule, whatever that one says, and
  -- none in the one that matched.
  pub walk_from_stamps :
      (c : Core) (r q : Regexp) (rs : List Regexp)
      → judge w seccion titulo enlace r ≡ downloads
      → (s : Walk) × Reach w seccion titulo enlace keeps (walk_from (r ∷ q ∷ rs)) s
        × (s.place ≡ returned download)
        × (s.lista ≡ downloaded w seccion titulo enlace q ∷ r ∷ rs)
  walk_from_stamps c r q rs h =
      let line = [] ++ log_match w seccion titulo enlace r in
      let l = r ∷ q ∷ rs in
      let swapped : Reached l (standing stamping 0 (q ∷ r ∷ rs) line) = rw (← moved r q rs c) (
        then_ (to_stamping r (q ∷ rs) h) (
          locked (moves (pos 0) (pos 1)) (record c { lista = l }) (standing stamping 0 l line) refl
            refl)) in
      (
        standing (returned download) 0 (downloaded w seccion titulo enlace q ∷ r ∷ rs) line,
        then_ swapped (walks (walk-stamping w seccion titulo enlace q 0 (q ∷ r ∷ rs) refl line)),
        refl,
        refl,
      )
