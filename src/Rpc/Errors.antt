-- ===== src/Rpc/Errors.antt =====
-- What a handler answers when it refuses, and that it then changes nothing.
use rssani.Base.{
  ◌≡◌, true, ◌&&◌, not, some, List, [], ℤ, arith, if◌then◌else◌, Option-cases, QString,
}
use rssani.Core.{
  Core, in_range, editar_regexp_i, activar_regexp, mover_regexp, borrar_regexp_i, cambia_timer,
}
use rssani.Core.Edit.{editar_regexp_i_lem, activar_regexp_lem}
use rssani.Rpc.{
  Env, Request, ver_ultimo, ver_log, editar_regexp_i_request, activar_regexp_request,
  mover_regexp_request, borrar_regexp_i_request, cambia_timer_request, fail, out_of_range, handle,
  ver_log_lines, StatusCode, Call, is_outside, done, failed,
}

pub is_outside-in_range : (i : ℤ) (c : Core) → is_outside i c ≡ not (in_range i c.lista)
is_outside-in_range i c = ground arith

-- The requests that name a place in the list: with a place out of range the reply is OUT_OF_RANGE
-- and the state stays; otherwise the reply is `true` and the core's method has run.
pub handle_place :
    (env : Env) (i to : ℤ) (dest : QString) (c : Core)
    → (handle env (editar_regexp_i_request i dest) c
        ≡ some (
            if in_range i c.lista
            then done true (editar_regexp_i i dest c).0
            else failed out_of_range c))
      × (handle env (activar_regexp_request i) c
          ≡ some (
              if in_range i c.lista
              then done true (activar_regexp i c).0
              else failed out_of_range c))
      × (handle env (borrar_regexp_i_request i) c
          ≡ some (
              if in_range i c.lista
              then done true (borrar_regexp_i i c)
              else failed out_of_range c))
      × (handle env (mover_regexp_request i to) c
          ≡ some (
              if in_range i c.lista && in_range to c.lista
              then done true (mover_regexp i to c)
              else failed out_of_range c))
unfolding handle
handle_place env i to dest c =
    let edited = (editar_regexp_i_lem i dest c 0).0 in
    let switched = (activar_regexp_lem i c 0).0 in
    (
      ground (arith, is_outside-in_range i c, edited),
      ground (arith, is_outside-in_range i c, switched),
      ground (arith, is_outside-in_range i c),
      ground (arith, is_outside-in_range i c, is_outside-in_range to c),
    )

-- A request that is answered by an error status changes no state and makes no call.
pub handle_failed :
    (env : Env) (q : Request) (c c' : Core) (code : StatusCode) (calls : List Call)
    → handle env q c ≡ some (fail code, c', calls)
    → (c' ≡ c) × (calls ≡ [])
unfolding handle
handle_failed env ver_ultimo c c' code calls h = ground arith
handle_failed env (ver_log ini fin) c c' code calls h =
    ground (arith, Option-cases (ver_log_lines ini fin env.log))
handle_failed env (cambia_timer_request t) c c' code calls h =
    ground (arith, Option-cases (cambia_timer t c))
handle_failed env _ c c' code calls h = ground arith
