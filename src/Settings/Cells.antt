-- ===== src/Settings/Cells.antt =====
-- What the store holds behind the writes of `writeSettings`.
use rssani.Base.{
  ℕ, zero, suc, ◌+◌, ◌≡◌, ◌<◌, refl, ap, ◌∙◌, Bool, true, false, Option, none, some, List, [], ◌∷◌,
  pos, if◌then◌else◌, ◌==◌, length, get_elem?, QString, text_eq, arith,
}
use rssani.Settings.Store.{
  Group, Key, entry, element, size, group_eq, key_eq, in_array, Variant, number, QSettings,
}
use rssani.Settings.{Row, write_group, write_row, write_rows, write_array}

-- The last value that a row writes to a key, over what was there.
abbrev pub find_field : QString → Row → Option Variant → Option Variant
find_field k [] o = o
find_field k ((j, v) ∷ row) o = find_field k row (if text_eq j k then some v else o)

abbrev pub cell : Option Row → QString → Option Variant → Option Variant
cell none k o = o
cell (some row) k o = find_field k row o

group_eq_refl : (g : Group) → group_eq g g ≡ true
group_eq_refl Group.principal = refl
group_eq_refl Group.regexps = refl
group_eq_refl Group.trackers = refl
group_eq_refl Group.irc = refl

module _ (q : QSettings) where
  open q use {Store, set_value, value, remove_array, value-set_value, value-remove_array}

  pub value-write_group :
      (g : Group) (k : QString) (row : Row) (s : Store)
      → value (entry g k) (write_group q g row s) ≡ find_field k row (value (entry g k) s)
  unfolding write_group
  value-write_group g k [] s = refl
  value-write_group g k ((j, v) ∷ row) s =
      value-write_group g k row (set_value (entry g j) v s)
      ∙ ap (find_field k row)
          (value-set_value (entry g k) (entry g j) v s ∙ rw (group_eq_refl g) refl)

  -- A key that a group's entries do not hold.
  abbrev pub apart : Group → Key → Bool
  apart g (entry h k) = group_eq g h
  apart g _ = false

  pub value-write_group_other :
      (g : Group) (j : Key) (row : Row) (s : Store)
      → apart g j ≡ false
      → value j (write_group q g row s) ≡ value j s
  unfolding write_group
  value-write_group_other g j [] s h = refl
  value-write_group_other g (entry h' k) ((i, v) ∷ row) s h =
      value-write_group_other g (entry h' k) row (set_value (entry g i) v s) h
      ∙ value-set_value (entry h' k) (entry g i) v s
      ∙ rw h refl
  value-write_group_other g (element h' n k) ((i, v) ∷ row) s h =
      value-write_group_other g (element h' n k) row (set_value (entry g i) v s) h
      ∙ value-set_value (element h' n k) (entry g i) v s
  value-write_group_other g (size h') ((i, v) ∷ row) s h =
      value-write_group_other g (size h') row (set_value (entry g i) v s) h
      ∙ value-set_value (size h') (entry g i) v s

  value-write_row :
      (g : Group) (n i : ℕ) (k : QString) (row : Row) (s : Store)
      → value (element g n k) (write_row q g i row s)
        ≡ (if i == n then find_field k row (value (element g n k) s) else value (element g n k) s)
  unfolding write_row
  value-write_row g n i k [] s = ground arith
  value-write_row g n i k ((j, v) ∷ row) s = ground (
    arith,
    group_eq_refl g,
    value-write_row g n i k row (set_value (element g i j) v s),
    value-set_value (element g n k) (element g i j) v s,
  )

  value-write_rows_before :
      (g : Group) (n i : ℕ) (k : QString) (rows : List Row) (s : Store)
      → n < i
      → value (element g n k) (write_rows q g i rows s) ≡ value (element g n k) s
  unfolding write_rows
  value-write_rows_before g n i k [] s h = refl
  value-write_rows_before g n i k (row ∷ rows) s h =
      value-write_rows_before g n (suc i) k rows (write_row q g i row s) (omega arith)
      ∙ value-write_row g n i k row s
      ∙ ground arith

  value-write_rows :
      (g : Group) (n i d : ℕ) (k : QString) (rows : List Row) (s : Store)
      → n ≡ i + d
      → value (element g n k) (write_rows q g i rows s)
        ≡ cell (get_elem? rows d) k (value (element g n k) s)
  unfolding write_rows
  value-write_rows g n i d k [] s h = refl
  value-write_rows g n i zero k (row ∷ rows) s h =
      value-write_rows_before g n (suc i) k rows (write_row q g i row s) (omega arith)
      ∙ value-write_row g n i k row s
      ∙ ground arith
  value-write_rows g n i (suc d) k (row ∷ rows) s h =
      value-write_rows g n (suc i) d k rows (write_row q g i row s) (omega arith)
      ∙ ap (cell (get_elem? rows d) k) (value-write_row g n i k row s ∙ ground arith)

  -- A key outside the array of a group.
  value-write_row_other :
      (g : Group) (j : Key) (i : ℕ) (row : Row) (s : Store)
      → in_array g j ≡ false
      → value j (write_row q g i row s) ≡ value j s
  unfolding write_row
  value-write_row_other g j i [] s h = refl
  value-write_row_other g (entry h' k) i ((x, v) ∷ row) s h =
      value-write_row_other g (entry h' k) i row (set_value (element g i x) v s) h
      ∙ value-set_value (entry h' k) (element g i x) v s
  value-write_row_other g (element h' n k) i ((x, v) ∷ row) s h =
      value-write_row_other g (element h' n k) i row (set_value (element g i x) v s) h
      ∙ value-set_value (element h' n k) (element g i x) v s
      ∙ rw h refl
  value-write_row_other g (size h') i ((x, v) ∷ row) s h =
      value-write_row_other g (size h') i row (set_value (element g i x) v s) h
      ∙ value-set_value (size h') (element g i x) v s

  value-write_rows_other :
      (g : Group) (j : Key) (i : ℕ) (rows : List Row) (s : Store)
      → in_array g j ≡ false
      → value j (write_rows q g i rows s) ≡ value j s
  unfolding write_rows
  value-write_rows_other g j i [] s h = refl
  value-write_rows_other g j i (row ∷ rows) s h =
      value-write_rows_other g j (suc i) rows (write_row q g i row s) h
      ∙ value-write_row_other g j i row s h

  size_apart : (g : Group) (j : Key) → in_array g j ≡ false → key_eq (size g) j ≡ false
  size_apart g (entry h' k) h = refl
  size_apart g (element h' n k) h = refl
  size_apart g (size h') h = h

  -- Behind `write_array`, an element has what its row wrote, and nothing that was there before.
  pub value-write_array :
      (g : Group) (n : ℕ) (k : QString) (rows : List Row) (s : Store)
      → value (element g n k) (write_array q g rows s) ≡ cell (get_elem? rows n) k none
  unfolding write_array
  value-write_array g n k rows s =
      value-set_value (element g n k) (size g) _ _
      ∙ value-write_rows g n 0 n k rows (remove_array g s) (omega arith)
      ∙ ap (cell (get_elem? rows n) k)
          (value-remove_array (element g n k) g s ∙ rw (group_eq_refl g) refl)

  pub value-write_array_size :
      (g : Group) (rows : List Row) (s : Store)
      → value (size g) (write_array q g rows s) ≡ some (number (pos (length rows)))
  unfolding write_array
  value-write_array_size g rows s =
      value-set_value (size g) (size g) _ _ ∙ rw (group_eq_refl g) refl

  pub value-write_array_other :
      (g : Group) (j : Key) (rows : List Row) (s : Store)
      → in_array g j ≡ false
      → value j (write_array q g rows s) ≡ value j s
  unfolding write_array
  value-write_array_other g j rows s h =
      value-set_value j (size g) _ _
      ∙ rw (size_apart g j h) (
          value-write_rows_other g j 0 rows (remove_array g s) h
          ∙ value-remove_array j g s
          ∙ rw h refl)
