-- ===== src/Rpc/Tests.antt =====
-- Runs of the service's handlers.
use rssani.Base.{
  ◌≡◌, refl, true, false, some, none, List, [], ◌∷◌, pos, codes, QString, arith, lookup,
}
use rssani.Model.{Regexp, default_values, default_datos}
use rssani.Core.{Core}
use rssani.Core.Agree.{last_auth}
use rssani.Rpc.{
  Env, handle, ok, fail, log_response, invalid_argument, ver_log, cambia_timer_request,
  ver_log_lines, log_lines, at, int_of, Call,
}
use rssani.Rpc.{Outcome, done, mover_regexp_handler, borrar_regexp_i_handler}
use rssani.Rpc.Total.{IsServed, handle-Returns}
use rssani.Rpc.Interleave.{borrar_regexp_i_handler_late}
use rssani.Rpc.Log.{ver_log_lem}
use rssani.Rpc.Invariant.{IsValid}

abbrev rule : QString → Regexp
rule nombre = record {
  nombre = nombre;
  vencimiento = [];
  mail = false;
  tracker = [];
  dias_descarga = pos 1;
  fecha_descarga = none;
  activa = true;
}

abbrev estado : Core
estado = record {
  values = default_values;
  tiempo = pos 30;
  intervalo = pos 1800000;
  lista = rule (codes "serie") ∷ rule (codes "cine") ∷ [];
  list_auths = [];
  hash_auths = [];
  rpc_user = [];
  rpc_pass = [];
  misdatos = default_datos;
}

abbrev entorno : Env
entorno = record {
  ultimo = codes "lun 1 ene 10:00:00 2024";
  log = codes "uno" ∷ codes "dos" ∷ codes "tres" ∷ codes "cuatro" ∷ [];
}

newest_two :
    handle entorno (ver_log (pos 0) (pos 2)) estado
    ≡ some (ok (log_response (codes "cuatro" ∷ codes "tres" ∷ [])), estado, [])
unfolding handle ver_log_lines log_lines at int_of
newest_two = refl

whole_log_but_one :
    handle entorno (ver_log (pos 1) (pos 0)) estado
    ≡ some (ok (log_response (codes "tres" ∷ codes "dos" ∷ codes "uno" ∷ [])), estado, [])
unfolding handle ver_log_lines log_lines at int_of
whole_log_but_one = refl

estado-IsValid : IsValid estado
unfolding lookup last_auth
estado-IsValid = record {
  auths = λ t. refl;
  timer = record { positive = refl; in_ms = refl; fits = refl };
}

ver_log_example :
    handle entorno (ver_log (pos 1) (pos 3)) estado
    ≡ some (ok (log_response (codes "tres" ∷ codes "dos" ∷ [])), estado, [])
ver_log_example = ver_log_lem entorno 1 3 estado (omega arith) (omega arith) (omega arith)

refuses_zero :
    handle entorno (cambia_timer_request (pos 0)) estado ≡ some (fail invalid_argument, estado, [])
unfolding handle
refuses_zero = refl

abbrev no_calls : List Call
no_calls = []

handle-Returns_example :
    (o : Outcome) × (handle entorno (ver_log (pos 1) (pos 100)) estado ≡ some o)
unfolding IsServed
handle-Returns_example =
    handle-Returns entorno (ver_log (pos 1) (pos 100)) estado (omega arith) (refl, refl)

-- Another call has removed the rules between the two sections.
abbrev despues : Core
despues = record estado { lista = [] }

borrar_regexp_i_handler_late_example :
    (borrar_regexp_i_handler (pos 1) estado despues ≡ done true despues)
    × (mover_regexp_handler (pos 1) (pos 0) estado despues ≡ done true despues)
borrar_regexp_i_handler_late_example =
    borrar_regexp_i_handler_late (pos 1) (pos 0) estado despues refl refl refl
