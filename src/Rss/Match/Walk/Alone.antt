-- ===== src/Rss/Match/Walk/Alone.antt =====
-- Proofs about `Rss_lite::parseTitle` of rss_lite.cpp.
-- The walk with nothing between its steps is the loop of `parse_title`.
use mathlib.Core.Path.{subst}
use mathlib.Core.List.{append_assoc, append-nil}
use rssani.Base.{
  ℕ, ◌+◌, ◌≡◌, refl, sym, true, List, [], ◌∷◌, ◌++◌, arith, ltb, length, length-append,
  get_elem?-append, remove_at-append, set-append, QString,
}
use rssani.Model.{Regexp}
use rssani.Rss.Types.{not_matched, download, Effect, mails}
use rssani.Rss.Match.{
  World, Verdict, expired, passes, waits, mails_only, downloads, verdict, scan, log_match, asunto,
  mensaje, downloaded, Found,
}
use rssani.Rss.Match.Walk.{testing, returned, Walk, walk_from, walk, Ends, over, goes}
use rssani.Rss.Match.Walk.Rounds.{standing, sent, behind, round}

module _ (w : World) (seccion titulo enlace : QString) where
  -- What `scan` finds, by the verdict on the first rule.
  abbrev found_by : Verdict → Regexp → List Regexp → Found w seccion titulo enlace
  found_by v r rs =
      let (result, kept, effects) = scan w seccion titulo enlace rs in
      elim v [
        | expired ↦ (result, kept, effects)
        | passes ↦ (result, r ∷ kept, effects)
        | waits ↦ (result, r ∷ kept, log_match w seccion titulo enlace r ++ effects)
        | mails_only ↦ (
          sent w seccion titulo enlace,
          r ∷ rs,
          log_match w seccion titulo enlace r
              ++ mails (asunto w seccion titulo enlace) (mensaje w seccion titulo enlace) ∷ [],
        )
        | downloads ↦ (
          download,
          downloaded w seccion titulo enlace r ∷ rs,
          log_match w seccion titulo enlace r,
        )
      ]

  scan_by :
      (r : Regexp) (rs : List Regexp)
      → scan w seccion titulo enlace (r ∷ rs) ≡ found_by (verdict w seccion titulo enlace r) r rs
  unfolding scan
  scan_by r rs = refl

  abbrev Walked : List Regexp → List Regexp → List Effect → Found w seccion titulo enlace → Type 0
  Walked front rest e (result, kept, effects) =
      (n : ℕ) × Ends w seccion titulo enlace (standing testing (length front) (front ++ rest) e)
        (standing (returned result) n (front ++ kept) (e ++ effects))

  module _ (front : List Regexp) (r : Regexp) (rest : List Regexp) (e : List Effect)
      (behind_it : (front : List Regexp) (e : List Effect)
        → Walked front rest e (scan w seccion titulo enlace rest)) where
    inside : ltb (length front) (length (front ++ r ∷ rest)) ≡ true
    inside = ground (arith, length-append front (r ∷ rest))

    turned :
        (v : Verdict) (t : Walk)
        → verdict w seccion titulo enlace r ≡ v
        → Ends w seccion titulo enlace
            (behind w seccion titulo enlace v r (length front) (front ++ r ∷ rest) e)
            t
        → Ends w seccion titulo enlace (standing testing (length front) (front ++ r ∷ rest) e) t
    turned v t q k =
        round w seccion titulo enlace r (length front) (front ++ r ∷ rest)
          (get_elem?-append front rest r) e t inside
          (subst
            (λ v.
              Ends w seccion titulo enlace
                (behind w seccion titulo enlace v r (length front) (front ++ r ∷ rest) e) t)
            (sym q) k)

    beyond :
        (e : List Effect)
        → let (result, kept, effects) = scan w seccion titulo enlace rest in
          (n : ℕ) × Ends w seccion titulo enlace
            (standing testing (length front + 1) (front ++ r ∷ rest) e)
            (standing (returned result) n (front ++ r ∷ kept) (e ++ effects))
    beyond e =
        rw
          (
            ← append_assoc front (r ∷ []) rest,
            ← append_assoc front (r ∷ []) (scan w seccion titulo enlace rest).1,
            ← length-append front (r ∷ []),
          )
          (behind_it (front ++ r ∷ []) e)

    turn :
        (v : Verdict)
        → verdict w seccion titulo enlace r ≡ v
        → Walked front (r ∷ rest) e (found_by v r rest)
    unfolding walk
    turn expired q =
        let (n, d) = behind_it front e in
        (n, turned expired _ q (rw (remove_at-append front rest r) d))
    turn passes q = let (n, d) = beyond e in (n, turned passes _ q d)
    turn waits q =
        let (n, d) = beyond (e ++ log_match w seccion titulo enlace r) in
        (
          n,
          turned waits _ q (
              rw
                (← append_assoc e (log_match w seccion titulo enlace r)
                  (scan w seccion titulo enlace rest).2)
                d),
        )
    turn mails_only q = (
      length front,
      turned mails_only _ q (
          rw
            (append_assoc e (log_match w seccion titulo enlace r)
              (mails (asunto w seccion titulo enlace) (mensaje w seccion titulo enlace) ∷ []))
            (over refl)),
    )
    turn downloads q = (
      length front,
      turned downloads _ q
          (rw (set-append front rest r (downloaded w seccion titulo enlace r)) (over refl)),
    )

  walked :
      (front rest : List Regexp) (e : List Effect)
      → Walked front rest e (scan w seccion titulo enlace rest)
  unfolding scan walk
  walked front [] e = (
    length front,
    goes {s' = standing (returned not_matched) (length front) (front ++ []) e}
        (ground (arith, length-append front [])) (rw (append-nil e) (over refl)),
  )
  walked front (r ∷ rest) e =
      rw (scan_by r rest) (turn front r rest e (λ front e. walked front rest e) _ refl)

  -- The walk comes to its end, whatever the rules, and where no method comes between its steps it ends
  -- as the loop of `parseTitle` does: with the same result, the same rules and the same effects.
  pub walk_from-scan :
      (lista : List Regexp)
      → let (result, kept, effects) = scan w seccion titulo enlace lista in
        (n : ℕ) × Ends w seccion titulo enlace
          (walk_from lista)
          (record { place = returned result; i = n; lista = kept; effects = effects })
  walk_from-scan lista = walked [] lista []
