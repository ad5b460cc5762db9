-- ===== src/Core.antt =====
-- rssani_lite.cpp: the state of `rssani_lite` and the methods that the RPC thread calls. Each runs
-- under the object's mutex, so it is one step. An `int` is an integer; the methods do no arithmetic
-- on one but `cambiaTimer`. The children prove the methods right.
pub mod Edit
pub mod Erase
pub mod Move
pub mod Agree
pub mod Timer
pub mod Frame
mod Tests
use rssani.Base.{
  ℕ, zero, suc, ◌+◌, Bool, true, false, not, ◌&&◌, Option, none, some, List, [], ◌∷◌, ◌++◌, ℤ, pos,
  negsuc, pos_part, neg_part, ◌*ℤ◌, leb_ℤ, ltb_ℤ, if◌then◌else◌, length, get_elem?, set, remove_at,
  insert_at, QString, text_eq, QHash, insert, remove,
}
use rssani.Model.{Regexp, Auth, default_auth, Values, DatosIrc}

pub record Core : Type 0 where
  pub values : Values
  pub tiempo : ℤ
  pub intervalo : ℤ
  pub lista : List Regexp
  pub list_auths : List Auth
  pub hash_auths : QHash Auth
  pub rpc_user : QString
  pub rpc_pass : QString
  pub misdatos : DatosIrc

-- `pos >= 0 && pos < lista.size()`.
abbrev pub in_range {ℓ} : {A : Type ℓ} → ℤ → List A → Bool
in_range p l = leb_ℤ (pos 0) p && ltb_ℤ p (pos (length l))

-- The loop of `editarRegexp( std::string, std::string )`: the first rule of that name.
unfoldable pub editar_loop : QString → QString → List Regexp → List Regexp × Bool
editar_loop orig dest [] = ([], false)
editar_loop orig dest (r ∷ rs) =
    let rest = editar_loop orig dest rs in
    if text_eq r.nombre orig then (record r { nombre = dest } ∷ rs, true) else (r ∷ rest.0, rest.1)

unfoldable pub editar_regexp_s : QString → QString → Core → Core × Bool
editar_regexp_s orig dest c =
    let (l, found) = editar_loop orig dest c.lista in (record c { lista = l }, found)

-- Apply `f` to the rule at `p`, if `p` is in range.
update_at : (Regexp → Regexp) → ℤ → Core → Core × Bool
update_at f p c =
    if in_range p c.lista
    then elim (get_elem? c.lista (pos_part p)) [
      | none ↦ (c, false)
      | some r ↦ (record c { lista = set c.lista (pos_part p) (f r) }, true)
    ]
    else (c, false)

-- `editarRegexp( int, std::string )`.
unfoldable pub editar_regexp_i : ℤ → QString → Core → Core × Bool
unfolding update_at
editar_regexp_i p dest = update_at (λ r. record r { nombre = dest }) p

unfoldable pub activar_regexp : ℤ → Core → Core × Bool
unfolding update_at
activar_regexp = update_at (λ r. record r { activa = not r.activa })

-- `lista.insert( to, lista.takeAt( from ) )`.
unfoldable pub mover : {A : Type 0} → ℕ → ℕ → List A → List A
mover from to l = elim (get_elem? l from) [
  | none ↦ l
  | some item ↦ insert_at (remove_at l from) to item
]

unfoldable pub mover_regexp : ℤ → ℤ → Core → Core
mover_regexp from to c =
    if in_range from c.lista && in_range to c.lista
    then record c { lista = mover (pos_part from) (pos_part to) c.lista }
    else c

unfoldable pub anadir_regexp : QString → QString → Bool → QString → ℤ → Core → Core
anadir_regexp nombre fecha mail tracker dias c = record c { lista = c.lista ++ re ∷ [] }
  where
    re : Regexp
    re = record {
      nombre = nombre;
      vencimiento = fecha;
      mail = mail;
      tracker = tracker;
      dias_descarga = dias;
      fecha_descarga = none;
      activa = true;
    }

unfoldable pub borrar_regexp_i : ℤ → Core → Core
borrar_regexp_i p c =
    if in_range p c.lista then record c { lista = remove_at c.lista (pos_part p) } else c

-- `for ( i = 0; i < l.size(); ++i ) if ( hit( l.at( i ) ) ) { l.removeAt( i ); --i; }`: after a
-- removal the index stays. The fuel is the number of elements not yet looked at.
pub borrar_loop : {A : Type 0} → (A → Bool) → ℕ → ℕ → List A → List A
borrar_loop hit zero i l = l
borrar_loop hit (suc fuel) i l = elim (get_elem? l i) [
  | none ↦ l
  | some r ↦ elim (hit r) [
    | true ↦ borrar_loop hit fuel i (remove_at l i)
    | false ↦ borrar_loop hit fuel (suc i) l
  ]
]

unfoldable pub borrar_regexp_s : QString → Core → Core
borrar_regexp_s cad c = record c {
  lista = borrar_loop (λ r. text_eq r.nombre cad) (length c.lista) 0 c.lista;
}

-- `au.tracker = …; au.uid = …; …` on a fresh `auth`.
abbrev pub new_auth : QString → QString → QString → QString → Auth
new_auth tracker uid pass passkey = record default_auth {
  tracker = tracker;
  uid = uid;
  pass = pass;
  passkey = passkey;
}

-- `listAuths.append( au ); hashAuths.insert( au.tracker, au );`
unfoldable pub store_auth : Auth → Core → Core
store_auth au c = record c {
  list_auths = c.list_auths ++ au ∷ [];
  hash_auths = insert au.tracker au c.hash_auths;
}

unfoldable pub anadir_auth : QString → QString → QString → QString → Core → Core
unfolding store_auth
anadir_auth tracker uid pass passkey = store_auth (new_auth tracker uid pass passkey)

unfoldable pub borrar_auth : QString → Core → Core
borrar_auth tracker c = record c {
  list_auths = borrar_loop (λ a. text_eq a.tracker tracker) (length c.list_auths) 0 c.list_auths;
  hash_auths = remove tracker c.hash_auths;
}

abbrev pub ms_per_min : ℤ
ms_per_min = pos 60000

-- The values of a 32-bit `int`.
abbrev pub fits_int : ℤ → Bool
fits_int n = leb_ℤ (negsuc 2147483647) n && leb_ℤ n (pos 2147483647)

-- `none` is a product that overflows `int`, which C++ leaves undefined.
unfoldable pub cambia_timer : ℤ → Core → Option Core
cambia_timer tiempo c =
    if fits_int (tiempo *ℤ ms_per_min)
    then some (record c { tiempo = tiempo; intervalo = tiempo *ℤ ms_per_min })
    else none

abbrev pub set_rpc_user : QString → Core → Core
set_rpc_user user c = record c { rpc_user = user }

abbrev pub set_rpc_pass : QString → Core → Core
set_rpc_pass pass c = record c { rpc_pass = pass }

abbrev pub set_opciones : QString → QString → QString → Core → Core
set_opciones from_mail to_mail path c = record c {
  values = record v { from_mail = from_mail; to_mail = to_mail; ruta = path };
}
  where
    open c use {values as v}

-- `debugea`: the flag that it leaves, and whether it emits `timeout`.
unfoldable pub debugea : Core → Core × Bool
debugea c = (record c { values = record v { debug = not v.debug } }, not v.debug)
  where
    open c use {values as v}
