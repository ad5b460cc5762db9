-- ===== src/Rpc/Lists.antt =====
-- What the listing requests show after a change.
use mathlib.Core.List.{map-append}
use rssani.Base.{
  some, ap, ◌∙◌, ◌≡◌, refl, Bool, true, not, some, List, [], ◌∷◌, ◌++◌, map, ℤ, arith, QString,
  keep_if, text_eq,
}
use rssani.Model.{Regexp}
use rssani.Core.{Core, anadir_regexp, borrar_regexp_s}
use rssani.Core.Erase.{borrar_regexp_s-keep_if}
use rssani.Rpc.Invariant.{after}
use rssani.Rpc.{
  Env, RegexpEntry, ok, regexp_list_response, lista_expresiones, anadir_regexp_request,
  borrar_regexp_s_request, handle, regexp_entry,
}

-- The entries that `ListaExpresiones` replies with.
pub entries : Core → List RegexpEntry
entries c = map regexp_entry c.lista

-- `ListaExpresiones` behind `AnadirRegexp`, in whatever state, replies with the entries of that state
-- and behind them the new rule, with the fields of the request and switched on.
pub entries-anadir_regexp :
    (env env' : Env) (nombre fecha : QString) (mail : Bool) (tracker : QString) (dias : ℤ)
    (c : Core)
    → let c' = after c (handle env (anadir_regexp_request nombre fecha mail tracker dias) c) in
      handle env' lista_expresiones c'
      ≡ some (
        ok (
            regexp_list_response (
              entries c
              ++ (record {
                nombre = nombre;
                vencimiento = fecha;
                mail = mail;
                tracker = tracker;
                dias = dias;
                activa = true;
              }
                  ∷ []))),
        c',
        [],
      )
unfolding handle entries anadir_regexp regexp_entry
entries-anadir_regexp env env' nombre fecha mail tracker dias c =
    ap (λ l. some (ok (regexp_list_response l), anadir_regexp nombre fecha mail tracker dias c, []))
      (map-append _ _ _)

map-keep_if :
    (cad : QString) (l : List Regexp)
    → map regexp_entry (keep_if (λ r. not (text_eq r.nombre cad)) l)
      ≡ keep_if (λ e. not (text_eq e.nombre cad)) (map regexp_entry l)
unfolding regexp_entry
map-keep_if cad [] = refl
map-keep_if cad (r ∷ l) = ground (arith, map-keep_if cad l)

-- `ListaExpresiones` behind `BorrarRegexpS`, in whatever state, replies with the entries of that
-- state less those of the name, in their order.
pub entries-borrar_regexp_s :
    (env env' : Env) (cad : QString) (c : Core)
    → let c' = after c (handle env (borrar_regexp_s_request cad) c) in
      handle env' lista_expresiones c'
      ≡ some (
        ok (regexp_list_response (keep_if (λ e. not (text_eq e.nombre cad)) (entries c))),
        c',
        [],
      )
unfolding handle entries
entries-borrar_regexp_s env env' cad c =
    ap (λ l. some (ok (regexp_list_response l), borrar_regexp_s cad c, []))
      (ap (λ d. map regexp_entry d.lista) (borrar_regexp_s-keep_if cad c) ∙ map-keep_if cad c.lista)
