-- ===== src/Rss/Match/Walk/Rounds.antt =====
-- Proofs about `Rss_lite::parseTitle` of rss_lite.cpp.
-- One round of the walk over the rules, by the verdict on the rule.
use mathlib.Core.Path.{subst}
use mathlib.Core.List.{append-nil}
use rssani.Base.{
  ℕ, ◌+◌, ◌≡◌, inl, inr, Bool, true, false, some, List, [], ◌∷◌, ◌++◌, arith, ltb, Bool-cases,
  if◌then◌else◌, length, get_elem?, set, remove_at, QString,
}
use rssani.Model.{Regexp}
use rssani.Rss.Types.{MatchResult, download, Effect, mails}
use rssani.Rss.Match.{
  World, Verdict, expired, passes, waits, mails_only, downloads, is_expired, is_match,
  right_tracker, too_soon, verdict, log_match, asunto, mensaje, downloaded, mail_result,
}
use rssani.Rss.Match.Walk.{
  Access, testing, expiring, removing, matching, tracking, logging, mailing, waiting, stamping,
  returned, Walk, walk, Ends, goes,
}

abbrev pub standing : Access → ℕ → List Regexp → List Effect → Walk
standing p i l e = record { place = p; i = i; lista = l; effects = e }

module _ (w : World) (seccion titulo enlace : QString) where
  abbrev pub sent : MatchResult
  sent =
      mail_result w seccion titulo enlace
        (w.send_mail_result (asunto w seccion titulo enlace) (mensaje w seccion titulo enlace))

  -- Where the walk is behind one round.
  abbrev pub behind : Verdict → Regexp → ℕ → List Regexp → List Effect → Walk
  behind expired r i l e = standing testing i (remove_at l i) e
  behind passes r i l e = standing testing (i + 1) l e
  behind waits r i l e = standing testing (i + 1) l (e ++ log_match w seccion titulo enlace r)
  behind mails_only r i l e = standing (returned sent) i l (
      (e ++ log_match w seccion titulo enlace r)
      ++ mails (asunto w seccion titulo enlace) (mensaje w seccion titulo enlace) ∷ [])
  behind downloads r i l e =
      standing (returned download) i (set l i (downloaded w seccion titulo enlace r))
        (e ++ log_match w seccion titulo enlace r)

  module _ (r : Regexp) (i : ℕ) (l : List Regexp) (here : get_elem? l i ≡ some r) where
    pub walk-logging :
        (e : List Effect)
        → walk w seccion titulo enlace (standing logging i l e)
          ≡ some (standing mailing i l (e ++ log_match w seccion titulo enlace r))
    unfolding walk
    walk-logging e = ground (arith, here, append-nil e)

    pub walk-expiring :
        (e : List Effect) (b : Bool)
        → is_expired w seccion titulo enlace r ≡ b
        → walk w seccion titulo enlace (standing expiring i l e)
          ≡ some (standing (if b then removing else matching) i l e)
    unfolding walk
    walk-expiring e b h = ground (arith, here, h)

    pub walk-removing :
        (e : List Effect)
        → walk w seccion titulo enlace (standing removing i l e)
          ≡ some (standing testing i (remove_at l i) e)
    unfolding walk
    walk-removing e = ground (arith, here)

    pub walk-matching :
        (e : List Effect) (b : Bool)
        → is_match w seccion titulo enlace r ≡ b
        → walk w seccion titulo enlace (standing matching i l e)
          ≡ some (if b then standing tracking i l e else standing testing (i + 1) l e)
    unfolding walk
    walk-matching e b h = ground (arith, here, h)

    pub walk-tracking :
        (e : List Effect) (b : Bool)
        → right_tracker w seccion titulo enlace r ≡ b
        → walk w seccion titulo enlace (standing tracking i l e)
          ≡ some (if b then standing logging i l e else standing testing (i + 1) l e)
    unfolding walk
    walk-tracking e b h = ground (arith, here, h)

    pub walk-mailing :
        (e : List Effect) (b : Bool)
        → r.mail ≡ b
        → walk w seccion titulo enlace (standing mailing i l e)
          ≡ some (
              if b
              then standing (returned sent) i l (
                  e
                  ++ mails (asunto w seccion titulo enlace) (mensaje w seccion titulo enlace) ∷ [])
              else standing waiting i l e)
    unfolding walk
    walk-mailing e b h = ground (arith, here, h)

    pub walk-waiting :
        (e : List Effect) (b : Bool)
        → too_soon w seccion titulo enlace r ≡ b
        → walk w seccion titulo enlace (standing waiting i l e)
          ≡ some (if b then standing testing (i + 1) l e else standing stamping i l e)
    unfolding walk
    walk-waiting e b h = ground (arith, here, h)

    pub walk-stamping :
        (e : List Effect)
        → walk w seccion titulo enlace (standing stamping i l e)
          ≡ some (standing (returned download) i (set l i (downloaded w seccion titulo enlace r)) e)
    unfolding walk
    walk-stamping e = ground (arith, here)

    -- A round, by the verdict on the rule.
    pub round :
        (e : List Effect) (t : Walk)
        → ltb i (length l) ≡ true
        → Ends w seccion titulo enlace (behind (verdict w seccion titulo enlace r) r i l e) t
        → Ends w seccion titulo enlace (standing testing i l e) t
    unfolding walk verdict
    round e t h k =
        goes {s' = standing expiring i l e} (ground (arith, h))
          (elim (Bool-cases (is_expired w seccion titulo enlace r)) [
            | inl x ↦
                goes (walk-expiring e true x)
                  (goes (walk-removing e) (follows expired (ground (arith, x))))
            | inr x ↦
                goes (walk-expiring e false x)
                  (elim (Bool-cases (is_match w seccion titulo enlace r)) [
                    | inr m ↦ goes (walk-matching e false m) (follows passes (ground (arith, x, m)))
                    | inl m ↦
                        goes (walk-matching e true m)
                          (elim (Bool-cases (right_tracker w seccion titulo enlace r)) [
                            | inr g ↦
                                goes (walk-tracking e false g)
                                  (follows passes (ground (arith, x, m, g)))
                            | inl g ↦ goes (walk-tracking e true g) (
                                goes (walk-logging e) (elim (Bool-cases r.mail) [
                                  | inl a ↦
                                      goes (walk-mailing _ true a)
                                        (follows mails_only (ground (arith, x, m, g, a)))
                                  | inr a ↦
                                      goes (walk-mailing _ false a)
                                        (elim (Bool-cases (too_soon w seccion titulo enlace r)) [
                                          | inl d ↦
                                              goes (walk-waiting _ true d)
                                                (follows waits (ground (arith, x, m, g, a, d)))
                                          | inr d ↦ goes (walk-waiting _ false d) (
                                              goes (walk-stamping _)
                                                (follows downloads (ground (arith, x, m, g, a, d))))
                                        ])
                                ]))
                          ])
                  ])
          ])
      where
        follows :
            (v : Verdict)
            → verdict w seccion titulo enlace r ≡ v
            → Ends w seccion titulo enlace (behind v r i l e) t
        follows v q = subst (λ v. Ends w seccion titulo enlace (behind v r i l e) t) q k
