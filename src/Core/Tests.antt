-- ===== src/Core/Tests.antt =====
-- Runs of the methods of `rssani_lite` on a small state.
use rssani.Base.{
  ◌≡◌, refl, true, false, some, none, [], ◌∷◌, pos, codes, keep_if, not, QString, text_eq, length,
  get_elem?,
}
use mathlib.Core.List.{Perm}
use rssani.Base.{◌≢◌}
use rssani.Model.{Regexp, default_values, default_datos}
use rssani.Core.{Core, mover_regexp, mover, borrar_regexp_s, borrar_loop, cambia_timer}
use rssani.Core.Move.{mover_regexp_lem}
use rssani.Core.Erase.{borrar_regexp_s-keep_if}

abbrev rule : QString → Regexp
rule nombre = record {
  nombre = nombre;
  vencimiento = [];
  mail = false;
  tracker = [];
  dias_descarga = pos 1;
  fecha_descarga = none;
  activa = true;
}

abbrev serie : Regexp
serie = rule (codes "serie")

abbrev cine : Regexp
cine = rule (codes "cine")

abbrev vacio : Core
vacio = record {
  values = default_values;
  tiempo = pos 30;
  intervalo = pos 1800000;
  lista = [];
  list_auths = [];
  hash_auths = [];
  rpc_user = [];
  rpc_pass = [];
  misdatos = default_datos;
}

abbrev estado : Core
estado = record vacio { lista = serie ∷ cine ∷ serie ∷ [] }

deletes_all : (borrar_regexp_s (codes "serie") estado).lista ≡ cine ∷ []
unfolding borrar_regexp_s borrar_loop text_eq
deletes_all = refl

moves_last : (mover_regexp (pos 2) (pos 0) estado).lista ≡ serie ∷ serie ∷ cine ∷ []
unfolding mover_regexp mover
moves_last = refl

overflows : cambia_timer (pos 35792) estado ≡ none
unfolding cambia_timer
overflows = refl

serie_not_cine : codes "serie" ≢ codes "cine"
serie_not_cine = λ e. cc

mover_regexp_example :
    Perm (mover_regexp (pos 2) (pos 0) estado).lista estado.lista
    × (length (mover_regexp (pos 2) (pos 0) estado).lista ≡ 3)
    × (get_elem? (mover_regexp (pos 2) (pos 0) estado).lista 0 ≡ some serie)
mover_regexp_example = mover_regexp_lem (pos 2) (pos 0) estado refl refl

borrar_regexp_s_example :
    borrar_regexp_s (codes "serie") estado
    ≡ record estado { lista = keep_if (λ r. not (text_eq r.nombre (codes "serie"))) estado.lista }
borrar_regexp_s_example = borrar_regexp_s-keep_if (codes "serie") estado
