-- ===== src/Rpc/Invariant.antt =====
-- The invariant of the core's state under every request.
use rssani.Base.{
  ◌≡◌, inl, inr, refl, Bool, true, false, ◌||◌, Option, none, some, List, [], ℤ, pos, ◌*ℤ◌, leb_ℤ,
  ltb_ℤ, if◌then◌else◌, sym, Bool-cases, QString,
}
use rssani.Core.{Core, anadir_auth, borrar_auth, cambia_timer, ms_per_min, fits_int}
use rssani.Core.Agree.{AuthsAgree, anadir_auth-AuthsAgree, borrar_auth-AuthsAgree}
use mathlib.Core.Option
use rssani.Core.Frame.{
  OnlyLista, editar_regexp_s-OnlyLista, editar_regexp_i-OnlyLista, activar_regexp-OnlyLista,
  mover_regexp-OnlyLista, anadir_regexp-OnlyLista, borrar_regexp_i-OnlyLista,
  borrar_regexp_s-OnlyLista,
}
use mathlib.Core.Path.{subst}
use rssani.Rpc.{
  Env, Request, Reply, Call, ver_log, anadir_regexp_request, editar_regexp_request,
  editar_regexp_i_request, activar_regexp_request, mover_regexp_request, borrar_regexp_i_request,
  borrar_regexp_s_request, anadir_auth_request, borrar_auth_request, poner_credenciales,
  poner_opciones, cambia_timer_request, ok, log_response, handle, done, ver_log_lines, Outcome,
}

-- The timer runs at the interval that `verTimer` shows, which is positive and fits an `int`.
pub record TimerAgrees (c : Core) : Type 0 where
  pub positive : leb_ℤ c.tiempo (pos 0) ≡ false
  pub in_ms : c.intervalo ≡ c.tiempo *ℤ ms_per_min
  pub fits : fits_int c.intervalo ≡ true

pub record IsValid (c : Core) : Type 0 where
  pub auths : AuthsAgree c
  pub timer : TimerAgrees c

-- The state behind a request; the old one, where C++ defines no result.
abbrev pub after : Core → Option Outcome → Core
after c none = c
after c (some (reply, c', calls)) = c'

OnlyLista-IsValid : (c c' : Core) → OnlyLista c c' → IsValid c → IsValid c'
OnlyLista-IsValid c c' e v = subst IsValid (sym e) (record {
  auths = v.auths;
  timer = record { positive = v.timer.positive; in_ms = v.timer.in_ms; fits = v.timer.fits };
})

-- A method behind a guard: the state is the old one or the new one.
guarded :
    (b : Bool) (c : Core) (x y : Reply) (c' : Core) (k l : List Call)
    → IsValid c
    → IsValid c'
    → IsValid (after c (some (if b then (x, c, k) else (y, c', l))))
guarded true c x y c' k l v w = v
guarded false c x y c' k l v w = w

cambia_timer-IsValid :
    (t : ℤ) (c : Core)
    → leb_ℤ t (pos 0) ≡ false
    → IsValid c
    → IsValid (after c (Option.map (done true) (cambia_timer t c)))
unfolding cambia_timer
cambia_timer-IsValid t c h v = elim (Bool-cases (fits_int (t *ℤ ms_per_min))) [
  | inl e ↦
      rw e (record { auths = v.auths; timer = record { positive = h; in_ms = refl; fits = e } })
  | inr e ↦ rw e v
]

auths-IsValid :
    (c c' : Core)
    → AuthsAgree c'
    → c'.tiempo ≡ c.tiempo
    → c'.intervalo ≡ c.intervalo
    → IsValid c
    → IsValid c'
auths-IsValid c c' a e f v = record {
  auths = a;
  timer = record {
    positive = rw e v.timer.positive;
    in_ms = rw (e, f) v.timer.in_ms;
    fits = rw f v.timer.fits;
  };
}

anadir_auth-IsValid : (t u p k : QString) (c : Core) → IsValid c → IsValid (anadir_auth t u p k c)
unfolding anadir_auth
anadir_auth-IsValid t u p k c v =
    auths-IsValid c _ (anadir_auth-AuthsAgree t u p k c v.auths) refl refl v

borrar_auth-IsValid : (t : QString) (c : Core) → IsValid c → IsValid (borrar_auth t c)
unfolding borrar_auth
borrar_auth-IsValid t c v = auths-IsValid c _ (borrar_auth-AuthsAgree t c v.auths) refl refl v

-- A request that reads: whatever it replies, the state is the old one.
reads-IsValid :
    {A : Type 0} (reply : A → Reply) (o : Option A) (c : Core)
    → IsValid c
    → IsValid (after c (Option.map (λ a. (reply a, c, [])) o))
reads-IsValid reply none c v = v
reads-IsValid reply (some a) c v = v

-- Every request keeps the state valid, wherever C++ defines its result: the hash of credentials is
-- the list read as a map, and the timer runs at the interval that the core shows, which is positive
-- and whose milliseconds fit an `int`.
pub handle-IsValid :
    (env : Env) (q : Request) (c : Core) → IsValid c → IsValid (after c (handle env q c))
unfolding handle
handle-IsValid env (ver_log ini fin) c v =
    elim (Bool-cases (ltb_ℤ ini (pos 0) || ltb_ℤ fin (pos 0))) [
      | inl refused ↦ rw refused v
      | inr served ↦
          rw served (reads-IsValid (λ l. ok (log_response l)) (ver_log_lines ini fin env.log) c v)
    ]
handle-IsValid env (anadir_regexp_request n f m t d) c v =
    OnlyLista-IsValid c _ (anadir_regexp-OnlyLista n f m t d c) v
handle-IsValid env (editar_regexp_request o d) c v =
    OnlyLista-IsValid c _ (editar_regexp_s-OnlyLista o d c) v
handle-IsValid env (editar_regexp_i_request i d) c v =
    guarded _ c _ _ _ _ _ v (OnlyLista-IsValid c _ (editar_regexp_i-OnlyLista i d c) v)
handle-IsValid env (activar_regexp_request i) c v =
    guarded _ c _ _ _ _ _ v (OnlyLista-IsValid c _ (activar_regexp-OnlyLista i c) v)
handle-IsValid env (mover_regexp_request i j) c v =
    guarded _ c _ _ _ _ _ v (OnlyLista-IsValid c _ (mover_regexp-OnlyLista i j c) v)
handle-IsValid env (borrar_regexp_i_request i) c v =
    guarded _ c _ _ _ _ _ v (OnlyLista-IsValid c _ (borrar_regexp_i-OnlyLista i c) v)
handle-IsValid env (borrar_regexp_s_request n) c v =
    OnlyLista-IsValid c _ (borrar_regexp_s-OnlyLista n c) v
handle-IsValid env (anadir_auth_request t u p k) c v = anadir_auth-IsValid t u p k c v
handle-IsValid env (borrar_auth_request t) c v = borrar_auth-IsValid t c v
handle-IsValid env (poner_credenciales u p) c v = record {
  auths = v.auths;
  timer = record { positive = v.timer.positive; in_ms = v.timer.in_ms; fits = v.timer.fits };
}
handle-IsValid env (poner_opciones f t p) c v = record {
  auths = v.auths;
  timer = record { positive = v.timer.positive; in_ms = v.timer.in_ms; fits = v.timer.fits };
}
handle-IsValid env (cambia_timer_request t) c v = elim (Bool-cases (leb_ℤ t (pos 0))) [
  | inl refused ↦ rw refused v
  | inr served ↦ rw served (cambia_timer-IsValid t c served v)
]
handle-IsValid env _ c v = v
