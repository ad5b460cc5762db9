-- ===== src/Rpc/Total.antt =====
-- Which requests have a result that C++ defines.
use rssani.Base.{
  ◌≡◌, ◌<◌, refl, inl, inr, true, some, ℤ, pos, negsuc, leb_ℤ, ltb_ℤ, leb, arith, Bool-cases,
  length,
}
use rssani.Core.{Core}
use rssani.Core.Timer.{cambia_timer_lem}
use rssani.Rpc.{
  Env, Request, ver_log, cambia_timer_request, handle, Outcome, failed, invalid_argument,
}
use rssani.Rpc.Log.{ver_log_lem}

-- The numbers of the request are values of an `int`, and an interval is at most 35791 minutes.
unfoldable pub IsServed : Request → Type 0
IsServed (ver_log ini fin) =
    (ltb_ℤ ini (pos 2147483648) ≡ true) × (ltb_ℤ fin (pos 2147483648) ≡ true)
IsServed (cambia_timer_request t) = leb_ℤ t (pos 35791) ≡ true
IsServed _ = Unit

ver_log-Returns :
    (env : Env) (ini fin : ℤ) (c : Core)
    → length env.log < 2147483648
    → ltb_ℤ ini (pos 2147483648) ≡ true
    → ltb_ℤ fin (pos 2147483648) ≡ true
    → (o : Outcome) × (handle env (ver_log ini fin) c ≡ some o)
unfolding handle
ver_log-Returns env (pos i) (pos j) c h k l =
    (_, ver_log_lem env i j c h (ground arith) (ground arith))
ver_log-Returns env (negsuc i) j c h k l = (failed invalid_argument c, ground arith)
ver_log-Returns env (pos i) (negsuc j) c h k l = (failed invalid_argument c, ground arith)

cambia_timer-Returns :
    (env : Env) (t : ℤ) (c : Core)
    → leb_ℤ t (pos 35791) ≡ true
    → (o : Outcome) × (handle env (cambia_timer_request t) c ≡ some o)
unfolding handle
cambia_timer-Returns env (negsuc n) c h = (failed invalid_argument c, ground arith)
cambia_timer-Returns env (pos n) c h = elim (Bool-cases (leb_ℤ (pos n) (pos 0))) [
  | inl refused ↦ rw refused (_, refl)
  | inr served ↦
      let fits : leb n 35791 ≡ true = ground arith in
      rw (served, cambia_timer_lem n c, fits) (_, refl)
]

-- With a log of fewer than 2 ^ 31 lines, a request whose numbers are those of an `int`, and whose
-- interval, if it sets one, is at most 35791 minutes, is answered: the log is never read out of
-- range, and no `int` overflows.
pub handle-Returns :
    (env : Env) (q : Request) (c : Core)
    → length env.log < 2147483648
    → IsServed q
    → (o : Outcome) × (handle env q c ≡ some o)
unfolding handle IsServed
handle-Returns env (ver_log ini fin) c h (k, l) = ver_log-Returns env ini fin c h k l
handle-Returns env (cambia_timer_request t) c h k = cambia_timer-Returns env t c k
handle-Returns env _ c h k = (_, refl)
