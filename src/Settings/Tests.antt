-- ===== src/Settings/Tests.antt =====
-- Runs of `writeSettings` and `readSettings`.
use rssani.Base.{
  ◌≡◌, refl, true, false, Option, none, some, [], ◌∷◌, pos, if◌then◌else◌, codes, lookup,
  starts_with,
}
use rssani.Model.{Regexp, default_auth, default_values, default_datos}
use rssani.Core.{Core}
use rssani.Core.Agree.{AuthsAgree, last_auth}
use rssani.Settings.Store.{regexps, Key, element, key_eq, Variant, text}
use rssani.Settings.{write_settings, read_settings}
use rssani.Settings.Memory.{ajustes}
use rssani.Settings.RoundTrip.{read_settings-write_settings}

abbrev vacio : Core
vacio = record {
  values = default_values;
  tiempo = pos 10;
  intervalo = pos 600000;
  lista = [];
  list_auths = [];
  hash_auths = [];
  rpc_user = [];
  rpc_pass = [];
  misdatos = default_datos;
}

abbrev regla : Regexp
regla = record {
  nombre = codes "serie";
  vencimiento = codes "01-01-2030";
  mail = true;
  tracker = codes "http://t";
  dias_descarga = pos 3;
  fecha_descarga = some 1000;
  activa = false;
}

abbrev estado : Core
estado = record vacio {
  tiempo = pos 45;
  lista = regla ∷ record regla { fecha_descarga = none } ∷ [];
  list_auths = record default_auth { tracker = codes "http://t" } ∷ [];
  misdatos = record default_datos { nick = codes "yo" };
}

-- A file with a third rule from before.
abbrev antes : Key → Option Variant
antes j = if key_eq (element regexps 2 (codes "item")) j then some (text (codes "vieja")) else none

read_settings-write_settings_example :
    let c' = read_settings ajustes (write_settings ajustes estado antes) vacio in
    (c'.values ≡ estado.values)
    × (c'.tiempo ≡ pos 45)
    × (c'.lista ≡ estado.lista)
    × (c'.list_auths ≡ estado.list_auths)
    × (c'.rpc_user ≡ [])
    × (c'.rpc_pass ≡ [])
    × (c'.misdatos ≡ record default_datos { nick = codes "yo"; activo = true })
unfolding starts_with
read_settings-write_settings_example =
    read_settings-write_settings ajustes estado vacio antes refl refl refl

vacio-AuthsAgree : AuthsAgree vacio
unfolding lookup last_auth
vacio-AuthsAgree t = refl
