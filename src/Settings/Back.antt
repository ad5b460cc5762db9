-- ===== src/Settings/Back.antt =====
-- Rows that are read back.
use mathlib.Core.Path.{fun_ext}
use rssani.Base.{
  ℕ, suc, ◌+◌, ◌≡◌, refl, ap, ◌∙◌, Option, none, some, List, [], ◌∷◌, map, length, get_elem?,
  QString, text_eq, arith,
}
use rssani.Model.{DateTime, Regexp, Auth}
use rssani.Settings.Store.{Group, element, QSettings}
use rssani.Settings.{
  Row, Lookup, regexp_row, auth_row, read_regexp, read_auth, read_items, in_element,
}
use rssani.Settings.Cells.{find_field, cell}

module _ (q : QSettings) where
  open q use {
    Store, value, to_text, to_bool, to_int, to_date, to_texts, to_text_lem, to_bool_lem, to_int_lem,
    to_date_lem, to_texts_lem,
  }

  -- A row read back, whatever stood at its keys before.
  abbrev pub back : Row → Lookup
  back row k = find_field k row none

  read_regexp-back_at :
      (re : Regexp) (f : Option DateTime)
      → let re' : Regexp = record re { fecha_descarga = f } in
        read_regexp q (back (regexp_row re')) ≡ re'
  unfolding read_regexp text_eq
  read_regexp-back_at re none =
      rw
        (
          to_text_lem re.nombre,
          to_text_lem re.vencimiento,
          to_bool_lem re.mail,
          to_text_lem re.tracker,
          to_int_lem re.dias_descarga,
          to_bool_lem re.activa,
        )
        refl
  read_regexp-back_at re (some f) =
      rw
        (
          to_text_lem re.nombre,
          to_text_lem re.vencimiento,
          to_bool_lem re.mail,
          to_text_lem re.tracker,
          to_int_lem re.dias_descarga,
          to_date_lem f,
          to_bool_lem re.activa,
        )
        refl

  pub read_regexp-back : (re : Regexp) → read_regexp q (back (regexp_row re)) ≡ re
  read_regexp-back re = read_regexp-back_at re re.fecha_descarga

  pub read_auth-back : (au : Auth) → read_auth q (back (auth_row au)) ≡ au
  unfolding read_auth text_eq
  read_auth-back au =
      rw
        (
          to_text_lem au.tracker,
          to_text_lem au.uid,
          to_text_lem au.pass,
          to_text_lem au.passkey,
          to_text_lem au.referer,
          to_text_lem au.id_field,
          to_text_lem au.url_download,
          to_text_lem au.url_rss,
        )
        refl

  -- The rows of a list read back, element by element.
  pub read_items-back :
      {A : Type 0} (read : Lookup → A) (row_of : A → Row) (g : Group) (s : Store) (l : List A)
      (i : ℕ)
      → ((a : A) → read (back (row_of a)) ≡ a)
      → ((d : ℕ) (k : QString)
          → value (element g (i + d) k) s ≡ cell (get_elem? (map row_of l) d) k none)
      → read_items q read g s (length l) i ≡ l
  unfolding read_items
  read_items-back read row_of g s [] i h holds = refl
  read_items-back read row_of g s (a ∷ l) i h holds =
      let here : in_element q g s i ≡ back (row_of a) =
        fun_ext λ k. ap (λ n. value (element g n k) s) (omega arith) ∙ holds 0 k in
      let rest =
        read_items-back read row_of g s l (suc i) h
          λ d k. ap (λ n. value (element g n k) s) (omega arith) ∙ holds (suc d) k in
      ap (λ x. x ∷ read_items q read g s (length l) (suc i)) (ap read here ∙ h a) ∙ ap (◌∷◌ a) rest
