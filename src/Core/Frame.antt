-- ===== src/Core/Frame.antt =====
-- What the methods on rules leave alone.
use rssani.Base.{◌≡◌, refl, Bool, ℤ, arith, QString, get_elem?, pos_part, Option-cases}
use rssani.Core.{
  Core, editar_regexp_s, editar_regexp_i, activar_regexp, mover_regexp, anadir_regexp,
  borrar_regexp_i, borrar_regexp_s,
}

-- At most the list of rules differs.
abbrev pub OnlyLista : Core → Core → Type 0
OnlyLista c c' = c' ≡ record c { lista = c'.lista }

pub editar_regexp_s-OnlyLista : (o d : QString) (c : Core) → OnlyLista c (editar_regexp_s o d c).0
unfolding editar_regexp_s
editar_regexp_s-OnlyLista o d c = refl

pub editar_regexp_i-OnlyLista :
    (i : ℤ) (d : QString) (c : Core) → OnlyLista c (editar_regexp_i i d c).0
unfolding editar_regexp_i
editar_regexp_i-OnlyLista i d c = ground (arith, Option-cases (get_elem? c.lista (pos_part i)))

pub activar_regexp-OnlyLista : (i : ℤ) (c : Core) → OnlyLista c (activar_regexp i c).0
unfolding activar_regexp
activar_regexp-OnlyLista i c = ground (arith, Option-cases (get_elem? c.lista (pos_part i)))

pub mover_regexp-OnlyLista : (i j : ℤ) (c : Core) → OnlyLista c (mover_regexp i j c)
unfolding mover_regexp
mover_regexp-OnlyLista i j c = ground arith

pub anadir_regexp-OnlyLista :
    (n f : QString) (m : Bool) (t : QString) (d : ℤ) (c : Core)
    → OnlyLista c (anadir_regexp n f m t d c)
unfolding anadir_regexp
anadir_regexp-OnlyLista n f m t d c = refl

pub borrar_regexp_i-OnlyLista : (i : ℤ) (c : Core) → OnlyLista c (borrar_regexp_i i c)
unfolding borrar_regexp_i
borrar_regexp_i-OnlyLista i c = ground arith

pub borrar_regexp_s-OnlyLista : (n : QString) (c : Core) → OnlyLista c (borrar_regexp_s n c)
unfolding borrar_regexp_s
borrar_regexp_s-OnlyLista n c = refl
