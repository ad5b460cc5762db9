-- ===== src/Core/Erase.antt =====
-- `borrarRegexp` by name: the loop over a shrinking list is a filter.
use mathlib.Core.List.{append_assoc}
use rssani.Base.{
  suc, ◌≡◌, inl, inr, refl, ap, ◌∙◌, Bool, not, none, List, [], ◌∷◌, ◌++◌, Bool-cases, length,
  get_elem?, get_elem?-append, remove_at-append, keep_if, QString, text_eq,
}
use rssani.Core.{Core, borrar_loop, borrar_regexp_s}

module _ {A : Type 0} where
  get_elem?-end : (xs : List A) → get_elem? xs (length xs) ≡ none
  get_elem?-end [] = refl
  get_elem?-end (x ∷ xs) = get_elem?-end xs

  length-concat : (xs : List A) (x : A) → length (xs ++ x ∷ []) ≡ suc (length xs)
  length-concat [] x = refl
  length-concat (y ∷ xs) x = ap suc (length-concat xs x)

  -- The elements before the index stay; those from the index on are filtered.
  borrar_loop-from :
      (hit : A → Bool) (kept rest : List A)
      → borrar_loop hit (length rest) (length kept) (kept ++ rest)
        ≡ kept ++ keep_if (λ a. not (hit a)) rest
  unfolding borrar_loop
  borrar_loop-from hit kept [] = refl
  borrar_loop-from hit kept (x ∷ rest) = elim (Bool-cases (hit x)) [
    | inl e ↦
        rw (get_elem?-append kept rest x, borrar_loop, e, remove_at-append kept rest x)
          (borrar_loop-from hit kept rest)
    | inr e ↦
        rw (get_elem?-append kept rest x, borrar_loop, e)
          (rw (← length-concat kept x, ← append_assoc kept (x ∷ []) rest)
            (borrar_loop-from hit (kept ++ x ∷ []) rest ∙ append_assoc kept (x ∷ []) _))
  ]

  pub borrar_loop-keep_if :
      (hit : A → Bool) (l : List A) → borrar_loop hit (length l) 0 l ≡ keep_if (λ a. not (hit a)) l
  borrar_loop-keep_if hit l = borrar_loop-from hit [] l

-- `borrarRegexp` by name leaves exactly the rules of other names, in their order, and changes
-- nothing else.
pub borrar_regexp_s-keep_if :
    (cad : QString) (c : Core)
    → borrar_regexp_s cad c ≡ record c { lista = keep_if (λ r. not (text_eq r.nombre cad)) c.lista }
unfolding borrar_regexp_s
borrar_regexp_s-keep_if cad c = rw (borrar_loop-keep_if (λ r. text_eq r.nombre cad) c.lista)
