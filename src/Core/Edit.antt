-- ===== src/Core/Edit.antt =====
-- Renaming and switching rules: `editarRegexp` in both forms and `activarRegexp`.
use mathlib.Core.Option
use rssani.Base.{
  ℕ, zero, suc, ◌≡◌, ◌≢◌, refl, ap, true, false, not, some, List, [], ◌∷◌, ◌++◌, ◌<◌, ◌&&◌, inl,
  inr, Option-cases, ◌∙◌, ℤ, pos_part, arith, ◌==◌, if◌then◌else◌, Bool-cases, length, get_elem?,
  set, All, QString, text_eq_iff, length-set, get_elem?-of_lt,
}
use rssani.Model.{Regexp}
use rssani.Core.{
  Core, in_range, editar_loop, editar_regexp_s, update_at, editar_regexp_i, activar_regexp,
}

pub rename : QString → Regexp → Regexp
rename dest r = record r { nombre = dest }

editar_loop_first :
    (orig dest : QString) (before after : List Regexp) (r : Regexp)
    → All (λ x. x.nombre ≢ orig) before
    → r.nombre ≡ orig
    → editar_loop orig dest (before ++ r ∷ after)
      ≡ (before ++ record r { nombre = dest } ∷ after, true)
unfolding editar_loop
editar_loop_first orig dest [] after r h e = ground (arith, text_eq_iff r.nombre orig)
editar_loop_first orig dest (x ∷ before) after r h e =
    ground (arith, text_eq_iff x.nombre orig, editar_loop_first orig dest before after r h.1 e)

editar_loop_absent :
    (orig dest : QString) (l : List Regexp)
    → All (λ x. x.nombre ≢ orig) l
    → editar_loop orig dest l ≡ (l, false)
unfolding editar_loop
editar_loop_absent orig dest [] h = refl
editar_loop_absent orig dest (x ∷ l) h =
    ground (arith, text_eq_iff x.nombre orig, editar_loop_absent orig dest l h.1)

-- `editarRegexp` by name renames the first rule of that name, keeps every other rule and its place,
-- and reports success.
pub editar_regexp_s_first :
    (orig dest : QString) (c : Core) (before after : List Regexp) (r : Regexp)
    → c.lista ≡ before ++ r ∷ after
    → All (λ x. x.nombre ≢ orig) before
    → r.nombre ≡ orig
    → editar_regexp_s orig dest c
      ≡ (record c { lista = before ++ record r { nombre = dest } ∷ after }, true)
unfolding editar_regexp_s
editar_regexp_s_first orig dest c before after r split h e =
    rw split (ground (arith, editar_loop_first orig dest before after r h e))

-- Where no rule has the name, `editarRegexp` changes nothing and reports failure.
pub editar_regexp_s_absent :
    (orig dest : QString) (c : Core)
    → All (λ x. x.nombre ≢ orig) c.lista
    → editar_regexp_s orig dest c ≡ (c, false)
unfolding editar_regexp_s
editar_regexp_s_absent orig dest c h = ground (arith, editar_loop_absent orig dest c.lista h)

-- The element at `j` after a write at `i`.
get_elem?-update :
    {A : Type 0} (f : A → A) (l : List A) (i j : ℕ) (r : A)
    → get_elem? l i ≡ some r
    → get_elem? (set l i (f r)) j ≡ (if i == j then Option.map f (get_elem? l j) else get_elem? l j)
get_elem?-update f [] i j r e = cc
get_elem?-update f (x ∷ l) zero zero r e = ground arith
get_elem?-update f (x ∷ l) zero (suc j) r e = ground arith
get_elem?-update f (x ∷ l) (suc i) zero r e = ground arith
get_elem?-update f (x ∷ l) (suc i) (suc j) r e = ground (arith, get_elem?-update f l i j r e)

update_at_lem :
    (f : Regexp → Regexp) (p : ℤ) (c : Core) (j : ℕ)
    → ((update_at f p c).1 ≡ in_range p c.lista)
      × (get_elem? (update_at f p c).0.lista j ≡ (
          if in_range p c.lista && pos_part p == j
          then Option.map f (get_elem? c.lista j)
          else get_elem? c.lista j))
      × (length (update_at f p c).0.lista ≡ length c.lista)
unfolding update_at
update_at_lem f p c j = elim (Bool-cases (in_range p c.lista)) [
  | inl inside ↦
      let (r, e) = get_elem?-of_lt c.lista (pos_part p) (ground arith) in
      rw (inside, e) (refl, get_elem?-update f c.lista (pos_part p) j r e, length-set _ _ _)
  | inr outside ↦ rw outside (refl, refl, refl)
]

-- `editarRegexp( pos, … )` succeeds exactly if `pos` is in range; then it renames the rule at `pos`
-- and no other, and otherwise it changes no rule.
pub editar_regexp_i_lem :
    (p : ℤ) (dest : QString) (c : Core) (j : ℕ)
    → ((editar_regexp_i p dest c).1 ≡ in_range p c.lista)
      × (get_elem? (editar_regexp_i p dest c).0.lista j ≡ (
          if in_range p c.lista && pos_part p == j
          then Option.map (rename dest) (get_elem? c.lista j)
          else get_elem? c.lista j))
      × (length (editar_regexp_i p dest c).0.lista ≡ length c.lista)
unfolding editar_regexp_i rename
editar_regexp_i_lem p dest c j = update_at_lem (rename dest) p c j

pub flip : Regexp → Regexp
flip r = record r { activa = not r.activa }

-- `activarRegexp` succeeds exactly if `pos` is in range; then it switches the rule at `pos` and no
-- other, and otherwise it changes no rule.
pub activar_regexp_lem :
    (p : ℤ) (c : Core) (j : ℕ)
    → ((activar_regexp p c).1 ≡ in_range p c.lista)
      × (get_elem? (activar_regexp p c).0.lista j ≡ (
          if in_range p c.lista && pos_part p == j
          then Option.map flip (get_elem? c.lista j)
          else get_elem? c.lista j))
      × (length (activar_regexp p c).0.lista ≡ length c.lista)
unfolding activar_regexp flip
activar_regexp_lem p c j = update_at_lem flip p c j

set-set : {A : Type 0} (l : List A) (i : ℕ) (v w : A) → set (set l i v) i w ≡ set l i w
set-set [] i v w = refl
set-set (x ∷ l) zero v w = refl
set-set (x ∷ l) (suc i) v w = ap (◌∷◌ x) (set-set l i v w)

set_self : {A : Type 0} (l : List A) (i : ℕ) (v : A) → get_elem? l i ≡ some v → set l i v ≡ l
set_self [] i v e = refl
set_self (x ∷ l) zero v e = ground arith
set_self (x ∷ l) (suc i) v e = ap (◌∷◌ x) (set_self l i v e)

get_elem?-set_self :
    {A : Type 0} (l : List A) (i : ℕ) (v : A) → i < length l → get_elem? (set l i v) i ≡ some v
get_elem?-set_self [] i v h = elim h [ ]
get_elem?-set_self (x ∷ l) zero v h = refl
get_elem?-set_self (x ∷ l) (suc i) v h = get_elem?-set_self l i v (omega arith)

flip-flip : (r : Regexp) → flip (flip r) ≡ r
unfolding flip
flip-flip r = ground arith

set_back :
    {A : Type 0} (f : A → A) (l : List A) (i : ℕ) (r : A)
    → f (f r) ≡ r
    → get_elem? l i ≡ some r
    → set (set l i (f r)) i (f (f r)) ≡ l
set_back f l i r e h = rw e (set-set l i (f r) r ∙ set_self l i r h)

update_at_twice :
    (f : Regexp → Regexp) (p : ℤ) (c : Core)
    → ((r : Regexp) → f (f r) ≡ r)
    → (update_at f p (update_at f p c).0).0 ≡ c
unfolding update_at
update_at_twice f p c h = elim (Option-cases (get_elem? c.lista (pos_part p))) [
  | inl e ↦ ground arith
  | inr (r, e) ↦ ground (
    arith,
    set_back f c.lista (pos_part p) r (h r) e,
    length-set c.lista (pos_part p) (f r),
    get_elem?-set_self c.lista (pos_part p) (f r),
  )
]

-- `activarRegexp` twice at one place gives back the state, also where the place is out of range.
pub activar_regexp_twice : (p : ℤ) (c : Core) → (activar_regexp p (activar_regexp p c).0).0 ≡ c
unfolding activar_regexp flip
activar_regexp_twice p c = update_at_twice flip p c flip-flip
