-- ===== src/Rss/Match/Walk.antt =====
-- `Rss_lite::parseTitle` by its accesses to the rules. It runs on the main thread with no lock, while
-- the methods of `rssani_lite` change the same list under the mutex: between two steps of the walk any
-- of them can come. The accesses of one condition of the source are one step.
pub mod Rounds
pub mod Alone
pub mod Shared
pub mod Stamped
use rssani.Base.{
  ℕ, ◌+◌, ◌≡◌, Bool, true, Option, none, some, List, [], ◌∷◌, ◌++◌, ltb, ℤ, if◌then◌else◌, length,
  get_elem?, set, remove_at, insert_at, pos, ◌<◌, QString,
}
use rssani.Model.{Regexp}
use rssani.Core.{
  Core, editar_regexp_s, editar_regexp_i, activar_regexp, mover_regexp, anadir_regexp,
  borrar_regexp_i, borrar_regexp_s,
}
use rssani.Rss.Types.{MatchResult, not_matched, download, Effect, mails}
use rssani.Rss.Match.{
  World, is_expired, is_match, right_tracker, too_soon, log_match, asunto, mensaje, downloaded,
  mail_result,
}

-- The access that comes next. `out_of_range` stands behind a read that the list has no rule for,
-- which Qt leaves undefined.
pub data Access : Type 0 where
  testing expiring removing matching tracking logging mailing waiting stamping : Access
  returned : MatchResult → Access
  out_of_range : Access

pub record Walk : Type 0 where
  pub place : Access
  pub i : ℕ
  pub lista : List Regexp
  pub effects : List Effect

-- `for ( int i = 0;`.
abbrev pub walk_from : List Regexp → Walk
walk_from lista = record { place = testing; i = 0; lista = lista; effects = [] }

-- `i++`, which `removeAt( i ); i--;` leaves at the same place.
abbrev pub next_rule : Walk → Walk
next_rule s = record s { place = testing; i = s.i + 1 }

abbrev pub go_to : Access → Walk → Walk
go_to p s = record s { place = p }

-- An access to `lista->at( i )`.
abbrev pub at_rule : Walk → (Regexp → Walk) → Walk
at_rule s k = elim (get_elem? s.lista s.i) [ none ↦ go_to out_of_range s | some r ↦ k r ]

module _ (w : World) (seccion titulo enlace : QString) where
  -- One access; `none` where the walk is over.
  unfoldable pub walk : Walk → Option Walk
  walk s = elim s.place [
    | testing ↦ some (go_to (if ltb s.i (length s.lista) then expiring else returned not_matched) s)
    | expiring ↦ some (
        at_rule s
          (λ r. go_to (if is_expired w seccion titulo enlace r then removing else matching) s))
    | removing ↦ some (at_rule s (λ r. record s { place = testing; lista = remove_at s.lista s.i }))
    | matching ↦ some (
        at_rule s
          (λ r. if is_match w seccion titulo enlace r then go_to tracking s else next_rule s))
    | tracking ↦ some (
        at_rule s
          (λ r. if right_tracker w seccion titulo enlace r then go_to logging s else next_rule s))
    | logging ↦ some (
        if w.matches_opens
        then at_rule s (λ r. record s {
          place = mailing;
          effects = s.effects ++ log_match w seccion titulo enlace r;
        })
        else go_to mailing s)
    | mailing ↦ some (
        at_rule s (λ r.
          if r.mail
          then record s {
            place = returned (
                mail_result w seccion titulo enlace (
                  w.send_mail_result (asunto w seccion titulo enlace)
                    (mensaje w seccion titulo enlace)));
            effects =
                s.effects
                ++ mails (asunto w seccion titulo enlace) (mensaje w seccion titulo enlace) ∷ [];
          }
          else go_to waiting s))
    | waiting ↦ some (
        at_rule s
          (λ r. if too_soon w seccion titulo enlace r then next_rule s else go_to stamping s))
    | stamping ↦ some (
        at_rule s (λ r. record s {
          place = returned download;
          lista = set s.lista s.i (downloaded w seccion titulo enlace r);
        }))
    | returned _ ↦ none
    | out_of_range ↦ none
  ]

  -- The walk alone, to its end.
  pub data Ends : Walk → Walk → Type 0 where
    over : {s : Walk} → walk s ≡ none → Ends s s
    goes : {s s' t : Walk} → walk s ≡ some s' → Ends s' t → Ends s t

-- The methods that change the rules, each under the mutex.
pub data Method : Type 0 where
  edits_named : QString → QString → Method
  edits : ℤ → QString → Method
  switches : ℤ → Method
  moves : ℤ → ℤ → Method
  adds : QString → QString → Bool → QString → ℤ → Method
  removes : ℤ → Method
  removes_named : QString → Method

unfoldable pub runs : Method → Core → Core
runs (edits_named orig dest) c = (editar_regexp_s orig dest c).0
runs (edits p dest) c = (editar_regexp_i p dest c).0
runs (switches p) c = (activar_regexp p c).0
runs (moves from to) c = mover_regexp from to c
runs (adds nombre fecha mail tracker dias) c = anadir_regexp nombre fecha mail tracker dias c
runs (removes p) c = borrar_regexp_i p c
runs (removes_named cad) c = borrar_regexp_s cad c

module _ (w : World) (seccion titulo enlace : QString) where
  -- Accesses of the walk, one after the other.
  pub data Steps (s : Walk) : Walk → Type 0 where
    still : Steps s s
    further :
        {s' s'' : Walk} → Steps s s' → walk w seccion titulo enlace s' ≡ some s'' → Steps s s''

-- `takeAt( from )` and `insert( to, item )` of `moverRegexp`.
abbrev pub without : ℕ → Walk → Walk
without from s = record s { lista = remove_at s.lista from }

abbrev pub with_back : ℕ → Regexp → Walk → Walk
with_back to item s = record s { lista = insert_at s.lista to item }

module _ (w : World) (seccion titulo enlace : QString) (allowed : Method → Bool) where
  -- A step of the walk; a method that another thread calls, on a core with these rules; or
  -- `moverRegexp`, where the walk, which takes no lock, goes on between its two accesses to the list.
  -- If the walk has removed rules meanwhile, `insert_at` puts the rule at the end for a place behind
  -- the list, which Qt leaves undefined.
  pub data Turn : Walk → Walk → Type 0 where
    walks : {s s' : Walk} → walk w seccion titulo enlace s ≡ some s' → Turn s s'
    locked :
        (m : Method) (c : Core) (s : Walk)
        → allowed m ≡ true
        → c.lista ≡ s.lista
        → Turn s (record s { lista = (runs m c).lista })
    moved_around :
        (from to : ℕ) (item : Regexp) (s s' : Walk)
        → allowed (moves (pos from) (pos to)) ≡ true
        → to < length s.lista
        → get_elem? s.lista from ≡ some item
        → Steps w seccion titulo enlace (without from s) s'
        → Turn s (with_back to item s')

  pub data Reach (s : Walk) : Walk → Type 0 where
    here : Reach s s
    then_ : {s' s'' : Walk} → Reach s s' → Turn s' s'' → Reach s s''
