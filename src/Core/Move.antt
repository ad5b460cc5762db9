-- ===== src/Core/Move.antt =====
-- `moverRegexp`: the moved rule lands at `to`, nothing is lost, and the move back undoes it.
use mathlib.Core.List.Perm
use rssani.Base.{
  ℕ, zero, suc, ◌≡◌, ◌<◌, ◌≤◌, refl, ap, ◌∙◌, true, some, List, [], ◌∷◌, ℤ, pos_part, arith, length,
  get_elem?, remove_at, insert_at, get_elem?-of_lt, length-remove_at, length-insert_at,
}
use mathlib.Core.List.{Perm}
use rssani.Core.{Core, in_range, mover, mover_regexp}

module _ {A : Type 0} where
  insert_at-perm : (l : List A) (i : ℕ) (v : A) → Perm (insert_at l i v) (v ∷ l)
  insert_at-perm [] i v = Perm.refl _
  insert_at-perm (x ∷ l) zero v = Perm.refl _
  insert_at-perm (x ∷ l) (suc i) v =
      Perm.trans (Perm.cons x (insert_at-perm l i v)) (Perm.swap v x l)

  remove_at-perm :
      (l : List A) (i : ℕ) (v : A) → get_elem? l i ≡ some v → Perm (v ∷ remove_at l i) l
  remove_at-perm [] i v e = cc
  remove_at-perm (x ∷ l) zero v e = Perm.cons' (ground arith) (Perm.refl _)
  remove_at-perm (x ∷ l) (suc i) v e =
      Perm.trans (Perm.swap x v (remove_at l i)) (Perm.cons x (remove_at-perm l i v e))

  get_elem?-insert_at :
      (l : List A) (i : ℕ) (v : A) → i ≤ length l → get_elem? (insert_at l i v) i ≡ some v
  get_elem?-insert_at [] zero v h = refl
  get_elem?-insert_at [] (suc i) v h = absurd (omega arith)
  get_elem?-insert_at (x ∷ l) zero v h = refl
  get_elem?-insert_at (x ∷ l) (suc i) v h = get_elem?-insert_at l i v (omega arith)

  remove_at-insert_at :
      (l : List A) (i : ℕ) (v : A) → i ≤ length l → remove_at (insert_at l i v) i ≡ l
  remove_at-insert_at [] zero v h = refl
  remove_at-insert_at [] (suc i) v h = absurd (omega arith)
  remove_at-insert_at (x ∷ l) zero v h = refl
  remove_at-insert_at (x ∷ l) (suc i) v h = ap (◌∷◌ x) (remove_at-insert_at l i v (omega arith))

  insert_at-remove_at :
      (l : List A) (i : ℕ) (v : A) → get_elem? l i ≡ some v → insert_at (remove_at l i) i v ≡ l
  insert_at-remove_at [] i v e = cc
  insert_at-remove_at (x ∷ []) zero v e = ground arith
  insert_at-remove_at (x ∷ y ∷ l) zero v e = ground arith
  insert_at-remove_at (x ∷ l) (suc i) v e = ap (◌∷◌ x) (insert_at-remove_at l i v e)

  length-mover : (l : List A) (from to : ℕ) → from < length l → length (mover from to l) ≡ length l
  unfolding mover
  length-mover l from to h =
      let (v, e) = get_elem?-of_lt l from h in
      rw (e, mover) (length-insert_at (remove_at l from) to v ∙ length-remove_at l from h)

  mover-perm : (l : List A) (from to : ℕ) → from < length l → Perm (mover from to l) l
  unfolding mover
  mover-perm l from to h =
      let (v, e) = get_elem?-of_lt l from h in
      rw (e, mover)
        (Perm.trans (insert_at-perm (remove_at l from) to v) (remove_at-perm l from v e))

  get_elem?-mover :
      (l : List A) (from to : ℕ)
      → from < length l
      → to < length l
      → get_elem? (mover from to l) to ≡ get_elem? l from
  unfolding mover
  get_elem?-mover l from to h k =
      let (v, e) = get_elem?-of_lt l from h in
      rw (e, mover)
        (get_elem?-insert_at (remove_at l from) to v (omega (arith, length-remove_at l from h)))

  mover-of_some :
      (l : List A) (from to : ℕ) (v : A)
      → get_elem? l from ≡ some v
      → mover from to l ≡ insert_at (remove_at l from) to v
  unfolding mover
  mover-of_some l from to v e = rw (e, mover)

  mover-mover :
      (l : List A) (from to : ℕ)
      → from < length l
      → to < length l
      → mover to from (mover from to l) ≡ l
  mover-mover l from to h k =
      let (v, e) = get_elem?-of_lt l from h in
      let room : to ≤ length (remove_at l from) = omega (arith, length-remove_at l from h) in
      rw (mover-of_some l from to v e) (
        mover-of_some _ to from v (get_elem?-insert_at (remove_at l from) to v room)
        ∙ rw (remove_at-insert_at (remove_at l from) to v room) (insert_at-remove_at l from v e))

pub length-mover_regexp :
    (from to : ℤ) (c : Core) → length (mover_regexp from to c).lista ≡ length c.lista
unfolding mover_regexp
length-mover_regexp from to c = ground (arith, length-mover c.lista (pos_part from) (pos_part to))

-- `moverRegexp` between two places in range keeps the rules, as a multiset, and their number, and
-- the rule that stood at `from` then stands at `to`.
pub mover_regexp_lem :
    (from to : ℤ) (c : Core)
    → in_range from c.lista ≡ true
    → in_range to c.lista ≡ true
    → Perm (mover_regexp from to c).lista c.lista
      × (length (mover_regexp from to c).lista ≡ length c.lista)
      × (get_elem? (mover_regexp from to c).lista (pos_part to) ≡ get_elem? c.lista (pos_part from))
unfolding mover_regexp
mover_regexp_lem from to c h k =
    rw (h, k)
      (
        mover-perm c.lista (pos_part from) (pos_part to) (ground arith),
        length-mover c.lista (pos_part from) (pos_part to) (ground arith),
        get_elem?-mover c.lista (pos_part from) (pos_part to) (ground arith) (ground arith),
      )

-- Moving a rule and moving it back gives the state again, whatever the places are; with a place out
-- of range neither move does anything.
pub mover_regexp_back : (from to : ℤ) (c : Core) → mover_regexp to from (mover_regexp from to c) ≡ c
unfolding mover_regexp
mover_regexp_back from to c = ground (
  arith,
  length-mover c.lista (pos_part from) (pos_part to),
  mover-mover c.lista (pos_part from) (pos_part to),
)
