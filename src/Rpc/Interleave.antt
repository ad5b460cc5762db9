-- ===== src/Rpc/Interleave.antt =====
-- The handlers that name a place, with other calls between their two sections.
use rssani.Base.{◌≡◌, true, not, ℤ, arith, if◌then◌else◌, QString}
use rssani.Core.{Core, in_range, editar_regexp_i, activar_regexp, mover_regexp, borrar_regexp_i}
use rssani.Core.Edit.{editar_regexp_i_lem, activar_regexp_lem}
use rssani.Rpc.Errors.{is_outside-in_range}
use rssani.Rpc.{
  editar_regexp_i_handler, activar_regexp_handler, mover_regexp_handler, borrar_regexp_i_handler,
  done, failed, out_of_range,
}

-- Whatever runs between the check of the place and the method: if the place was in range at the
-- check, `EditarRegexpI` and `ActivarRegexp` reply whether it still is when the method runs, and the
-- method has run; if it was not, the reply is OUT_OF_RANGE and the state stays.
pub editar_regexp_i_handler_lem :
    (i : ℤ) (dest : QString) (seen c : Core)
    → (editar_regexp_i_handler i dest seen c ≡ (
        if in_range i seen.lista
        then done (in_range i c.lista) (editar_regexp_i i dest c).0
        else failed out_of_range c))
      × (activar_regexp_handler i seen c ≡ (
          if in_range i seen.lista
          then done (in_range i c.lista) (activar_regexp i c).0
          else failed out_of_range c))
editar_regexp_i_handler_lem i dest seen c =
    let edited = (editar_regexp_i_lem i dest c 0).0 in
    let switched = (activar_regexp_lem i c 0).0 in
    (
      ground (arith, is_outside-in_range i seen, edited),
      ground (arith, is_outside-in_range i seen, switched),
    )

-- If a place was in range at the check and no longer is when the method runs, `BorrarRegexpI` and
-- `MoverRegexp` reply `true` though they have changed nothing.
pub borrar_regexp_i_handler_late :
    (i to : ℤ) (seen c : Core)
    → in_range i seen.lista ≡ true
    → in_range to seen.lista ≡ true
    → not (in_range i c.lista) ≡ true
    → (borrar_regexp_i_handler i seen c ≡ done true c)
      × (mover_regexp_handler i to seen c ≡ done true c)
unfolding borrar_regexp_i mover_regexp
borrar_regexp_i_handler_late i to seen c h k gone = (
  ground (arith, is_outside-in_range i seen),
  ground (arith, is_outside-in_range i seen, is_outside-in_range to seen),
)
