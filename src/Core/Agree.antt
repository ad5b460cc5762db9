-- ===== src/Core/Agree.antt =====
-- `listAuths` and `hashAuths` hold the same credentials: the hash has the last entry of the list.
use rssani.Base.{
  ◌≡◌, refl, not, Option, none, some, List, [], ◌∷◌, ◌++◌, arith, if◌then◌else◌, keep_if, QString,
  text_eq, text_eq_iff, lookup, lookup-insert, lookup-remove,
}
use rssani.Model.{Auth}
use rssani.Core.{Core, new_auth, store_auth, anadir_auth, borrar_auth}
use rssani.Core.Erase.{borrar_loop-keep_if}

-- The last entry for a tracker.
unfoldable pub last_auth : QString → List Auth → Option Auth
last_auth t [] = none
last_auth t (a ∷ l) = elim (last_auth t l) [
  | some b ↦ some b
  | none ↦ if text_eq a.tracker t then some a else none
]

-- The hash is the list read as a map.
abbrev pub AuthsAgree : Core → Type 0
AuthsAgree c = (t : QString) → lookup t c.hash_auths ≡ last_auth t c.list_auths

last_auth-concat :
    (t : QString) (l : List Auth) (a : Auth)
    → last_auth t (l ++ a ∷ []) ≡ (if text_eq a.tracker t then some a else last_auth t l)
unfolding last_auth
last_auth-concat t [] a = refl
last_auth-concat t (x ∷ l) a = ground (arith, last_auth-concat t l a)

last_auth-keep_if :
    (t k : QString) (l : List Auth)
    → last_auth t (keep_if (λ a. not (text_eq a.tracker k)) l)
      ≡ (if text_eq k t then none else last_auth t l)
unfolding last_auth
last_auth-keep_if t k [] = ground arith
last_auth-keep_if t k (x ∷ l) = ground (
  arith,
  text_eq_iff k t,
  text_eq_iff x.tracker k,
  text_eq_iff x.tracker t,
  last_auth-keep_if t k l,
)

pub store_auth-AuthsAgree : (a : Auth) (c : Core) → AuthsAgree c → AuthsAgree (store_auth a c)
unfolding store_auth
store_auth-AuthsAgree a c h t =
    ground (arith, h t, lookup-insert a.tracker t a c.hash_auths, last_auth-concat t c.list_auths a)

-- `anadirAuth` keeps the list and the hash of credentials in agreement.
pub anadir_auth-AuthsAgree :
    (tracker uid pass passkey : QString) (c : Core)
    → AuthsAgree c
    → AuthsAgree (anadir_auth tracker uid pass passkey c)
unfolding anadir_auth
anadir_auth-AuthsAgree tracker uid pass passkey c h =
    store_auth-AuthsAgree (new_auth tracker uid pass passkey) c h

-- `borrarAuth` keeps the list and the hash of credentials in agreement.
pub borrar_auth-AuthsAgree :
    (tracker : QString) (c : Core) → AuthsAgree c → AuthsAgree (borrar_auth tracker c)
unfolding borrar_auth
borrar_auth-AuthsAgree tracker c h t =
    rw (borrar_loop-keep_if (λ a. text_eq a.tracker tracker) c.list_auths) (
      ground (
        arith,
        h t,
        lookup-remove tracker t c.hash_auths,
        last_auth-keep_if t tracker c.list_auths,
      ))

-- After `borrarAuth` neither the list nor the hash has an entry for the tracker, and the entries of
-- another tracker are what they were.
pub borrar_auth_lem :
    (tracker t : QString) (c : Core)
    → (last_auth t (borrar_auth tracker c).list_auths
        ≡ (if text_eq tracker t then none else last_auth t c.list_auths))
      × (lookup t (borrar_auth tracker c).hash_auths
          ≡ (if text_eq tracker t then none else lookup t c.hash_auths))
unfolding borrar_auth
borrar_auth_lem tracker t c =
    rw (borrar_loop-keep_if (λ a. text_eq a.tracker tracker) c.list_auths)
      (last_auth-keep_if t tracker c.list_auths, lookup-remove tracker t c.hash_auths)
