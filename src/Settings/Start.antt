-- ===== src/Settings/Start.antt =====
-- What `readSettings` leaves at the start of the program, whatever the file holds.
use mathlib.Core.List.{append_assoc, append-nil}
use rssani.Base.{◌≡◌, refl, sym, ap, ◌∙◌, false, List, [], ◌∷◌, ◌++◌, ℤ, pos, leb_ℤ, codes, arith}
use rssani.Model.{Auth}
use rssani.Core.{Core, store_auth}
use rssani.Core.Agree.{AuthsAgree, store_auth-AuthsAgree}
use rssani.Settings.Store.{principal, QSettings}
use rssani.Settings.{
  read_tiempo, in_group, positive_or_ten, int_or, read_front, read_auths, int_or, read_front,
  read_auths, store_auths, read_settings,
}

module _ (q : QSettings) where
  open q use {
    Store, value, to_text, to_bool, to_int, to_date, to_texts, to_text_lem, to_bool_lem, to_int_lem,
    to_date_lem, to_texts_lem,
  }

  pub store_auths-list :
      (l : List Auth) (c : Core) → (store_auths q l c).list_auths ≡ c.list_auths ++ l
  unfolding store_auths store_auth
  store_auths-list [] c = sym (append-nil c.list_auths)
  store_auths-list (a ∷ l) c =
      store_auths-list l (store_auth a c) ∙ append_assoc c.list_auths (a ∷ []) l

  -- Only the two collections of credentials change.
  pub store_auths-frame :
      (l : List Auth) (c : Core)
      → store_auths q l c ≡ record c {
        list_auths = (store_auths q l c).list_auths;
        hash_auths = (store_auths q l c).hash_auths;
      }
  unfolding store_auths store_auth
  store_auths-frame [] c = refl
  store_auths-frame (a ∷ l) c = store_auths-frame l (store_auth a c)

  store_auths-AuthsAgree :
      (l : List Auth) (c : Core) → AuthsAgree c → AuthsAgree (store_auths q l c)
  unfolding store_auths
  store_auths-AuthsAgree [] c h = h
  store_auths-AuthsAgree (a ∷ l) c h =
      store_auths-AuthsAgree l (store_auth a c) (store_auth-AuthsAgree a c h)

  positive_or_ten-positive : (n : ℤ) → leb_ℤ (positive_or_ten q n) (pos 0) ≡ false
  positive_or_ten-positive n = ground arith

  -- Whatever the file holds, reading it keeps the hash of credentials the list read as a map, and
  -- leaves a positive interval.
  pub read_settings-AuthsAgree :
      (s : Store) (c : Core)
      → AuthsAgree c
      → AuthsAgree (read_settings q s c) × (leb_ℤ (read_settings q s c).tiempo (pos 0) ≡ false)
  unfolding read_settings read_tiempo
  read_settings-AuthsAgree s c h =
      let get = in_group q principal s in
      (
        store_auths-AuthsAgree (read_auths q s) (read_front q s c) h,
        ap (λ x. leb_ℤ x.tiempo (pos 0)) (store_auths-frame (read_auths q s) (read_front q s c))
            ∙ positive_or_ten-positive (int_or q (pos 10) (get (codes "timer"))),
      )

  -- The interval alone.
  pub read_settings-tiempo :
      (s : Store) (c : Core) → (read_settings q s c).tiempo ≡ read_tiempo q (in_group q principal s)
  unfolding read_settings
  read_settings-tiempo s c =
      ap (λ (x : Core). x.tiempo) (store_auths-frame (read_auths q s) (read_front q s c))
