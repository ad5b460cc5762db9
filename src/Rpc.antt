-- ===== src/Rpc.antt =====
-- grpc_server.cpp: the handlers of `RssaniServiceImpl`. A request is a value; a handler returns the
-- reply, the new state of the core and the calls that leave it. Texts of the protocol are `QString`s
-- here: `fromStdString` and `toStdString` convert UTF-8, which loses nothing.
pub mod Log
pub mod Errors
pub mod Invariant
pub mod Lists
pub mod Interleave
pub mod Total
mod Tests
use rssani.Base.{
  ℕ, zero, suc, ◌+◌, ◌<◌, ◌-◌, Bool, true, false, not, ◌&&◌, ◌||◌, Option, none, some, List, [],
  ◌∷◌, map, ℤ, pos, negsuc, ◌-ℤ◌, leb_ℤ, ltb_ℤ, ltb, if◌then◌else◌, length, get_elem?, QString,
  codes,
}
use Prim.Native.Nat.{◌%◌, ◌^◌}
use mathlib.Core.Option
use rssani.Model.{Regexp, Auth}
use rssani.Core.{
  Core, editar_regexp_s, editar_regexp_i, activar_regexp, mover_regexp, anadir_regexp,
  borrar_regexp_i, borrar_regexp_s, anadir_auth, borrar_auth, cambia_timer, set_rpc_user,
  set_rpc_pass, set_opciones,
}

-- `message RegexpEntry`.
pub record RegexpEntry : Type 0 where
  pub nombre : QString
  pub vencimiento : QString
  pub mail : Bool
  pub tracker : QString
  pub dias : ℤ
  pub activa : Bool

-- `message AuthEntry`.
pub record AuthEntry : Type 0 where
  pub tracker : QString
  pub uid : QString
  pub pass : QString
  pub passkey : QString

pub data Response : Type 0 where
  string_response : QString → Response
  int_response : ℤ → Response
  bool_response : Bool → Response
  log_response : List QString → Response
  regexp_list_response : List RegexpEntry → Response
  auth_list_response : List AuthEntry → Response
  opciones_response : QString → QString → QString → Response

pub data StatusCode : Type 0 where
  invalid_argument out_of_range : StatusCode

-- `Status::OK` with the response, or an error status, whose response is not sent.
pub data Reply : Type 0 where
  ok : Response → Reply
  fail : StatusCode → Reply

-- `rss->guardar()` and `rss->salir()`.
pub data Call : Type 0 where
  calls_guardar calls_salir : Call

pub data Request : Type 0 where
  ver_ultimo ver_timer lista_expresiones lista_auths ver_opciones guardar shutdown : Request
  ver_log : ℤ → ℤ → Request
  anadir_regexp_request : QString → QString → Bool → QString → ℤ → Request
  editar_regexp_request : QString → QString → Request
  editar_regexp_i_request : ℤ → QString → Request
  activar_regexp_request : ℤ → Request
  mover_regexp_request : ℤ → ℤ → Request
  borrar_regexp_i_request : ℤ → Request
  borrar_regexp_s_request : QString → Request
  anadir_auth_request : QString → QString → QString → QString → Request
  borrar_auth_request : QString → Request
  poner_credenciales : QString → QString → Request
  poner_opciones : QString → QString → QString → Request
  cambia_timer_request : ℤ → Request

-- What the handlers read from outside the core: the formatted time of the last fetch, and the lines
-- of the log file.
pub record Env : Type 0 where
  pub ultimo : QString
  pub log : List QString

abbrev pub int_mod : ℕ
int_mod = 4294967296

-- The conversion of a 64-bit size to `int`.
unfoldable pub int_of : ℤ → ℤ
int_of (pos n) =
    if ltb (n % int_mod) 2147483648 then pos (n % int_mod) else negsuc (int_mod - (n % int_mod) - 1)
int_of (negsuc n) =
    if ltb (n % int_mod) 2147483648 then negsuc (n % int_mod) else pos (int_mod - 1 - (n % int_mod))

-- `log.at( i )`, which is in range or undefined.
pub at : {A : Type 0} → List A → ℤ → Option A
at l (pos i) = get_elem? l i
at l (negsuc i) = none

-- `for ( ; i >= stop; i-- ) response->add_lines( log.at( i ) )`.
pub log_lines : ℕ → ℤ → ℤ → List QString → Option (List QString)
unfolding at
log_lines zero i stop log = none
log_lines (suc fuel) i stop log = elim (leb_ℤ stop i) [
  | false ↦ some []
  | true ↦ elim (at log i) [
    | none ↦ none
    | some x ↦ Option.map (◌∷◌ x) (log_lines fuel (i -ℤ pos 1) stop log)
  ]
]

abbrev max_ℤ : ℤ → ℤ → ℤ
max_ℤ a b = if ltb_ℤ a b then b else a

abbrev is_zero : ℤ → Bool
is_zero n = leb_ℤ n (pos 0) && leb_ℤ (pos 0) n

-- `VerLog` behind its guard. The fuel is one more than the number of lines.
unfoldable pub ver_log_lines : ℤ → ℤ → List QString → Option (List QString)
ver_log_lines ini fin log =
    let size = pos (length log) in
    let end = if is_zero fin then int_of size else fin in
    log_lines (suc (length log)) (int_of (size -ℤ ini -ℤ pos 1)) (max_ℤ (size -ℤ end) (pos 0)) log

pub regexp_entry : Regexp → RegexpEntry
regexp_entry r = record {
  nombre = r.nombre;
  vencimiento = r.vencimiento;
  mail = r.mail;
  tracker = r.tracker;
  dias = r.dias_descarga;
  activa = r.activa;
}

pub auth_entry : Auth → AuthEntry
auth_entry a = record { tracker = a.tracker; uid = a.uid; pass = a.pass; passkey = a.passkey }

-- `i < 0 || i >= rss->listaRegexp().size()`.
abbrev pub is_outside : ℤ → Core → Bool
is_outside i c = ltb_ℤ i (pos 0) || leb_ℤ (pos (length c.lista)) i

abbrev pub Outcome : Type 0
Outcome = Reply × Core × List Call

abbrev pub done : Bool → Core → Outcome
done b c = (ok (bool_response b), c, [])

abbrev pub failed : StatusCode → Core → Outcome
failed code c = (fail code, c, [])

-- The handlers that name a place take the mutex twice: they check the place against the rules that
-- `listaRegexp` has copied, `seen`, and call the method later, on `c`. Another thread may run between.
abbrev pub editar_regexp_i_handler : ℤ → QString → Core → Core → Outcome
editar_regexp_i_handler i dest seen c =
    let (c', b) = editar_regexp_i i dest c in
    if is_outside i seen then failed out_of_range c else done b c'

abbrev pub activar_regexp_handler : ℤ → Core → Core → Outcome
activar_regexp_handler i seen c =
    let (c', b) = activar_regexp i c in
    if is_outside i seen then failed out_of_range c else done b c'

abbrev pub mover_regexp_handler : ℤ → ℤ → Core → Core → Outcome
mover_regexp_handler from to seen c =
    if is_outside from seen || is_outside to seen
    then failed out_of_range c
    else done true (mover_regexp from to c)

abbrev pub borrar_regexp_i_handler : ℤ → Core → Core → Outcome
borrar_regexp_i_handler i seen c =
    if is_outside i seen then failed out_of_range c else done true (borrar_regexp_i i c)

abbrev pub ver_ultimo_handler : Env → Core → Outcome
ver_ultimo_handler env c = (ok (string_response env.ultimo), c, [])

abbrev pub ver_timer_handler : Core → Outcome
ver_timer_handler c = (ok (int_response c.tiempo), c, [])

-- `none` is a line read out of range.
abbrev pub ver_log_handler : Env → ℤ → ℤ → Core → Option Outcome
ver_log_handler env ini fin c =
    if ltb_ℤ ini (pos 0) || ltb_ℤ fin (pos 0)
    then some (failed invalid_argument c)
    else Option.map (λ l. (ok (log_response l), c, [])) (ver_log_lines ini fin env.log)

abbrev pub lista_expresiones_handler : Core → Outcome
lista_expresiones_handler c = (ok (regexp_list_response (map regexp_entry c.lista)), c, [])

abbrev pub lista_auths_handler : Core → Outcome
lista_auths_handler c = (ok (auth_list_response (map auth_entry c.list_auths)), c, [])

abbrev pub ver_opciones_handler : Core → Outcome
ver_opciones_handler c =
    (ok (opciones_response c.values.from_mail c.values.to_mail c.values.ruta), c, [])

abbrev pub anadir_regexp_handler : QString → QString → Bool → QString → ℤ → Core → Outcome
anadir_regexp_handler nombre fecha mail tracker dias c =
    done true (anadir_regexp nombre fecha mail tracker dias c)

abbrev pub editar_regexp_handler : QString → QString → Core → Outcome
editar_regexp_handler orig dest c = let (c', b) = editar_regexp_s orig dest c in done b c'

abbrev pub borrar_regexp_s_handler : QString → Core → Outcome
borrar_regexp_s_handler nombre c = done true (borrar_regexp_s nombre c)

abbrev pub anadir_auth_handler : QString → QString → QString → QString → Core → Outcome
anadir_auth_handler tracker uid pass passkey c = done true (anadir_auth tracker uid pass passkey c)

abbrev pub borrar_auth_handler : QString → Core → Outcome
borrar_auth_handler tracker c = done true (borrar_auth tracker c)

abbrev pub poner_credenciales_handler : QString → QString → Core → Outcome
poner_credenciales_handler user pass c = done true (set_rpc_pass pass (set_rpc_user user c))

abbrev pub poner_opciones_handler : QString → QString → QString → Core → Outcome
poner_opciones_handler from_mail to_mail path c = done true (set_opciones from_mail to_mail path c)

-- `none` is an interval in milliseconds that overflows.
abbrev pub cambia_timer_handler : ℤ → Core → Option Outcome
cambia_timer_handler tiempo c =
    if leb_ℤ tiempo (pos 0)
    then some (failed invalid_argument c)
    else Option.map (done true) (cambia_timer tiempo c)

abbrev pub guardar_handler : Core → Outcome
guardar_handler c = (ok (bool_response true), c, calls_guardar ∷ [])

abbrev pub shutdown_handler : Core → Outcome
shutdown_handler c = (ok (bool_response true), c, calls_salir ∷ [])

-- The handler of each `rpc` of the service, with no other call between its sections; `none` is
-- behaviour that C++ leaves undefined.
unfoldable pub handle : Env → Request → Core → Option Outcome
unfolding regexp_entry auth_entry
handle env ver_ultimo c = some (ver_ultimo_handler env c)
handle env ver_timer c = some (ver_timer_handler c)
handle env (ver_log ini fin) c = ver_log_handler env ini fin c
handle env lista_expresiones c = some (lista_expresiones_handler c)
handle env lista_auths c = some (lista_auths_handler c)
handle env ver_opciones c = some (ver_opciones_handler c)
handle env (anadir_regexp_request nombre fecha mail tracker dias) c =
    some (anadir_regexp_handler nombre fecha mail tracker dias c)
handle env (editar_regexp_request orig dest) c = some (editar_regexp_handler orig dest c)
handle env (editar_regexp_i_request i dest) c = some (editar_regexp_i_handler i dest c c)
handle env (activar_regexp_request i) c = some (activar_regexp_handler i c c)
handle env (mover_regexp_request from to) c = some (mover_regexp_handler from to c c)
handle env (borrar_regexp_i_request i) c = some (borrar_regexp_i_handler i c c)
handle env (borrar_regexp_s_request nombre) c = some (borrar_regexp_s_handler nombre c)
handle env (anadir_auth_request tracker uid pass passkey) c =
    some (anadir_auth_handler tracker uid pass passkey c)
handle env (borrar_auth_request tracker) c = some (borrar_auth_handler tracker c)
handle env (poner_credenciales user pass) c = some (poner_credenciales_handler user pass c)
handle env (poner_opciones from_mail to_mail path) c =
    some (poner_opciones_handler from_mail to_mail path c)
handle env (cambia_timer_request tiempo) c = cambia_timer_handler tiempo c
handle env guardar c = some (guardar_handler c)
handle env shutdown c = some (shutdown_handler c)
