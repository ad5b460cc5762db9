-- ===== src/Rss/Match/Walk/Shared.antt =====
-- Proofs about `Rss_lite::parseTitle` of rss_lite.cpp and the methods of rssani_lite.cpp.
-- What other threads can do to the walk.
use rssani.Base.{
  ◌≤◌, ◌≡◌, ◌≢◌, refl, ap, Bool, true, false, Option, none, some, List, [], ◌∷◌, arith, ltb, length,
  length-append, pos, get_elem?-of_lt, get_elem?, remove_at, insert_at, remove_at-append,
  get_elem?-append, ◌++◌, ◌∙◌, QString,
}
use mathlib.Core.List.{append-nil}
use rssani.Model.{Regexp}
use rssani.Rss.Types.{Effect}
use rssani.Core.{Core, editar_loop, editar_regexp_s, anadir_regexp, borrar_regexp_i}
use rssani.Core.Edit.{editar_regexp_i_lem, activar_regexp_lem}
use rssani.Rss.Match.{World}
use rssani.Rss.Match.Walk.{
  testing, expiring, returned, out_of_range, Walk, walk_from, walk, Method, edits_named, edits,
  switches, moves, adds, removes, removes_named, runs, walks, locked, moved_around, still, further,
  without, with_back, Reach, here, then_,
}

-- The methods that take no rule away.
abbrev pub keeps : Method → Bool
keeps (removes p) = false
keeps (removes_named cad) = false
keeps _ = true

-- Those that change no place of a rule, at no moment.
abbrev pub stays : Method → Bool
stays (removes p) = false
stays (removes_named cad) = false
stays (moves from to) = false
stays _ = true

abbrev pub anything : Method → Bool
anything _ = true

-- Behind the test of the loop the place is in range.
is_safe : Walk → Bool
is_safe s = elim s.place [
  | testing ↦ true
  | returned _ ↦ true
  | out_of_range ↦ false
  | _ ↦ ltb s.i (length s.lista)
]

length-editar_loop :
    (orig dest : QString) (l : List Regexp) → length (editar_loop orig dest l).0 ≡ length l
unfolding editar_loop
length-editar_loop orig dest [] = refl
length-editar_loop orig dest (r ∷ rs) = ground (arith, length-editar_loop orig dest rs)

length-runs : (m : Method) (c : Core) → stays m ≡ true → length c.lista ≤ length (runs m c).lista
unfolding runs editar_regexp_s anadir_regexp
length-runs (edits_named orig dest) c h = omega (arith, length-editar_loop orig dest c.lista)
length-runs (edits p dest) c h = omega (arith, (editar_regexp_i_lem p dest c 0).2)
length-runs (switches p) c h = omega (arith, (activar_regexp_lem p c 0).2)
length-runs (moves from to) c h = absurd (ground (arith, h))
length-runs (adds nombre fecha mail tracker dias) c h = omega (arith, length-append c.lista _)
length-runs (removes p) c h = absurd (ground (arith, h))
length-runs (removes_named cad) c h = absurd (ground (arith, h))

safe_option : Option Walk → Bool
safe_option none = true
safe_option (some s) = is_safe s

safe_option-some :
    (o : Option Walk) (s : Walk) → safe_option o ≡ true → o ≡ some s → is_safe s ≡ true
unfolding safe_option
safe_option-some none s h e = cc
safe_option-some (some t) s h e = ground (arith, h, e)

locked-is_safe :
    (s : Walk) (m : Method) (c : Core)
    → c.lista ≡ s.lista
    → stays m ≡ true
    → is_safe s ≡ true
    → is_safe (record s { lista = (runs m c).lista }) ≡ true
unfolding is_safe
locked-is_safe s m c e a h = ground (arith, h, length-runs m c a, ap length e)

removed :
    (x : Regexp) (l : List Regexp) (c : Core)
    → (runs (removes (pos 0)) (record c { lista = x ∷ l })).lista ≡ l
unfolding runs borrar_regexp_i
removed x l c = ground arith

get_elem?-length : (l : List Regexp) → get_elem? l (length l) ≡ none
get_elem?-length [] = refl
get_elem?-length (x ∷ l) = get_elem?-length l

insert_at-length : (l : List Regexp) (r : Regexp) → insert_at l (length l) r ≡ l ++ r ∷ []
insert_at-length [] r = refl
insert_at-length (x ∷ l) r = ap (◌∷◌ x) (insert_at-length l r)

module _ (w : World) (seccion titulo enlace : QString) where
  walk-is_safe : (s : Walk) → is_safe s ≡ true → safe_option (walk w seccion titulo enlace s) ≡ true
  unfolding walk is_safe safe_option
  walk-is_safe s h = ground (arith, h, get_elem?-of_lt s.lista s.i)

  Reach-is_safe :
      {s s' : Walk}
      → Reach w seccion titulo enlace stays s s'
      → is_safe s ≡ true
      → is_safe s' ≡ true
  Reach-is_safe here h = h
  Reach-is_safe (then_ {s'} r (walks e)) h =
      safe_option-some _ _ (walk-is_safe s' (Reach-is_safe r h)) e
  Reach-is_safe (then_ r (locked m c s' a e)) h = locked-is_safe s' m c e a (Reach-is_safe r h)
  Reach-is_safe (then_ r (moved_around from to item s1 s2 a e f g)) h = absurd (ground (arith, a))

  -- While other threads rename, switch and add rules, in whatever turns, the walk never reads behind
  -- the end of the list.
  pub walk_from_safe :
      (lista : List Regexp) (s : Walk)
      → Reach w seccion titulo enlace stays (walk_from lista) s
      → s.place ≢ out_of_range
  unfolding is_safe
  walk_from_safe lista s r e = absurd (ground (arith, e, Reach-is_safe r refl))

  emptied :
      (c : Core) (s : Walk) (l : List Regexp) (e : List Effect)
      → Reach w seccion titulo enlace anything s
          (record { place = expiring; i = 0; lista = l; effects = e })
      → Reach w seccion titulo enlace anything s
          (record { place = expiring; i = 0; lista = []; effects = e })
  emptied c s [] e r = r
  emptied c s (x ∷ l) e r = emptied c s l e (
      rw (← removed x l c)
        (then_ r (locked (removes (pos 0)) (record c { lista = x ∷ l }) _ refl refl)))

  -- Whatever the rules, if there is one, the methods that other threads call can come to a read
  -- behind the end of the list: `BorrarRegexpI` for each rule, between the test of the loop and the
  -- first read.
  pub walk_from_races :
      (c : Core) (r : Regexp) (rs : List Regexp)
      → (s : Walk) × Reach w seccion titulo enlace anything (walk_from (r ∷ rs)) s
        × (s.place ≡ out_of_range)
  unfolding walk
  walk_from_races c r rs = (
    record { place = out_of_range; i = 0; lista = []; effects = [] },
    then_ (emptied c _ (r ∷ rs) [] (then_ here (walks (ground arith)))) (walks refl),
    refl,
  )

  walk-past :
      (before : List Regexp) (e : List Effect)
      → walk w seccion titulo enlace
          (record { place = expiring; i = length before; lista = before; effects = e })
        ≡ some (record { place = out_of_range; i = length before; lista = before; effects = e })
  unfolding walk
  walk-past before e = ground (arith, get_elem?-length before)

  -- Wherever the walk comes to the first read of the last rule: `MoverRegexp` of that rule to its own
  -- place takes it off the list and puts it back, and the walk between the two reads behind the end of
  -- the list, which is then as it was.
  pub walk_from_moves :
      (lista before : List Regexp) (r : Regexp) (e : List Effect)
      → let last : Walk = record {
        place = expiring;
        i = length before;
        lista = before ++ r ∷ [];
        effects = e;
      } in
        Reach w seccion titulo enlace keeps (walk_from lista) last
        → (s : Walk) × Reach w seccion titulo enlace keeps (walk_from lista) s
          × (s.place ≡ out_of_range)
          × (s.lista ≡ last.lista)
  walk_from_moves lista before r e come =
      let n = length before in
      let last : Walk = record { place = expiring; i = n; lista = before ++ r ∷ []; effects = e } in
      let gone : Walk = record { place = out_of_range; i = n; lista = before; effects = e } in
      let taken : remove_at (before ++ r ∷ []) n ≡ before =
        remove_at-append before [] r ∙ append-nil before in
      let gap : walk w seccion titulo enlace (without n last) ≡ some gone =
        ap
          (λ l.
            walk w seccion titulo enlace
              (record { place = expiring; i = n; lista = l; effects = e }))
          taken
        ∙ walk-past before e in
      (
        with_back n r gone,
        then_ come (
            moved_around n n r last gone refl (omega (arith, length-append before (r ∷ [])))
              (get_elem?-append before [] r) (further still gap)),
        refl,
        insert_at-length before r,
      )
