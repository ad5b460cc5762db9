-- ===== src/Settings/RoundTrip.antt =====
-- What `readSettings` reads behind `writeSettings`.
use mathlib.Core.Path.{fun_ext}
use rssani.Base.{
  ℕ, ◌≡◌, refl, ap, ◌∙◌, true, false, none, [], map, pos, leb_ℤ, if◌then◌else◌, length, length-map,
  get_elem?, QString, codes, text_eq, arith,
}
use rssani.Model.{DatosIrc}
use rssani.Core.{Core}
use rssani.Settings.Store.{principal, regexps, trackers, irc, entry, element, size, QSettings}
use rssani.Settings.{
  regexp_row, auth_row, principal_row, irc_row, write_group, write_array, write_settings,
  read_regexp, read_auth, read_values, read_tiempo, read_irc, read_items, in_group, array_size,
  text_or, read_front, read_auths, read_front, read_auths, is_active, read_settings,
}
use rssani.Settings.Cells.{
  find_field, cell, value-write_group, value-write_group_other, value-write_array,
  value-write_array_size, value-write_array_other,
}
use rssani.Settings.Back.{read_regexp-back, read_auth-back, read_items-back}
use rssani.Settings.Start.{store_auths-list, store_auths-frame}

module _ (q : QSettings) where
  open q use {
    Store, value, to_text, to_bool, to_int, to_date, to_texts, to_text_lem, to_bool_lem, to_int_lem,
    to_date_lem, to_texts_lem,
  }

  module _ (c : Core) (s : Store) where
    abbrev after_principal : Store
    after_principal = write_group q principal (principal_row c) s

    abbrev after_regexps : Store
    after_regexps = write_array q regexps (map regexp_row c.lista) after_principal

    abbrev after_trackers : Store
    after_trackers = write_array q trackers (map auth_row c.list_auths) after_regexps

    abbrev saved_store : Store
    saved_store = write_group q irc (irc_row c.misdatos) after_trackers

    principal_read :
        (k : QString)
        → value (entry principal k) saved_store
          ≡ find_field k (principal_row c) (value (entry principal k) s)
    principal_read k =
        value-write_group_other q irc (entry principal k) (irc_row c.misdatos) after_trackers refl
        ∙ value-write_array_other q trackers (entry principal k) _ after_regexps refl
        ∙ value-write_array_other q regexps (entry principal k) _ after_principal refl
        ∙ value-write_group q principal k (principal_row c) s

    regexps_read :
        (n : ℕ) (k : QString)
        → value (element regexps n k) saved_store
          ≡ cell (get_elem? (map regexp_row c.lista) n) k none
    regexps_read n k =
        value-write_group_other q irc (element regexps n k) (irc_row c.misdatos) after_trackers refl
        ∙ value-write_array_other q trackers (element regexps n k) _ after_regexps refl
        ∙ value-write_array q regexps n k _ after_principal

    trackers_read :
        (n : ℕ) (k : QString)
        → value (element trackers n k) saved_store
          ≡ cell (get_elem? (map auth_row c.list_auths) n) k none
    trackers_read n k =
        value-write_group_other q irc (element trackers n k) (irc_row c.misdatos) after_trackers
          refl
        ∙ value-write_array q trackers n k _ after_regexps

    regexps_size : array_size q regexps saved_store ≡ length c.lista
    regexps_size =
        rw
          (value-write_group_other q irc (size regexps) (irc_row c.misdatos) after_trackers refl
            ∙ value-write_array_other q trackers (size regexps) _ after_regexps refl
            ∙ value-write_array_size q regexps (map regexp_row c.lista) after_principal)
          (rw (to_int_lem (pos (length (map regexp_row c.lista)))) (length-map regexp_row c.lista))

    trackers_size : array_size q trackers saved_store ≡ length c.list_auths
    trackers_size =
        rw
          (value-write_group_other q irc (size trackers) (irc_row c.misdatos) after_trackers refl
            ∙ value-write_array_size q trackers (map auth_row c.list_auths) after_regexps)
          (rw (to_int_lem (pos (length (map auth_row c.list_auths))))
            (length-map auth_row c.list_auths))

    regexps_back :
        read_items q (read_regexp q) regexps saved_store (array_size q regexps saved_store) 0
        ≡ c.lista
    regexps_back =
        ap (λ n. read_items q (read_regexp q) regexps saved_store n 0) regexps_size
        ∙ read_items-back q (read_regexp q) regexp_row regexps saved_store c.lista 0
            (read_regexp-back q)
            (λ d k.
              ap (λ n. value (element regexps n k) saved_store) (omega arith) ∙ regexps_read d k)

    trackers_back :
        read_items q (read_auth q) trackers saved_store (array_size q trackers saved_store) 0
        ≡ c.list_auths
    trackers_back =
        ap (λ n. read_items q (read_auth q) trackers saved_store n 0) trackers_size
        ∙ read_items-back q (read_auth q) auth_row trackers saved_store c.list_auths 0
            (read_auth-back q)
            (λ d k.
              ap (λ n. value (element trackers n k) saved_store) (omega arith) ∙ trackers_read d k)

    values_back : read_values q (in_group q principal saved_store) ≡ c.values
    unfolding read_values text_eq
    values_back =
        let v = c.values in
        ap (read_values q) (fun_ext principal_read)
        ∙ rw
            (
              to_text_lem v.from_mail,
              to_text_lem v.to_mail,
              to_text_lem v.ruta,
              to_text_lem v.fecha,
              to_bool_lem v.debug,
              to_text_lem v.smtp_server,
              to_text_lem v.smtp_login,
              to_text_lem v.smtp_pass,
              to_int_lem v.smtp_port,
            )
            refl

    tiempo_back :
        leb_ℤ c.tiempo (pos 0) ≡ false → read_tiempo q (in_group q principal saved_store) ≡ c.tiempo
    unfolding read_tiempo text_eq
    tiempo_back h =
        ap (read_tiempo q) (fun_ext principal_read) ∙ rw (to_int_lem c.tiempo) (rw h refl)

    irc_back :
        (d : DatosIrc)
        → read_irc q (in_group q irc saved_store) d
          ≡ record c.misdatos { activo = if is_active q c.misdatos.nick then true else d.activo }
    unfolding read_irc text_eq
    irc_back d =
        let m = c.misdatos in
        ap (λ get. read_irc q get d)
          (fun_ext λ k. value-write_group q irc k (irc_row m) after_trackers)
        ∙ rw
            (
              to_text_lem m.nick,
              to_text_lem m.user,
              to_text_lem m.name,
              to_text_lem m.server,
              to_int_lem m.port,
              to_texts_lem m.channels,
              to_text_lem m.bot_nick,
              to_bool_lem m.debug,
            )
            refl

    user_back :
        (d : QString)
        → text_or q d (value (entry principal (codes "rpcUser")) saved_store) ≡ c.rpc_user
    unfolding text_eq
    user_back d =
        ap (text_or q d) (principal_read (codes "rpcUser")) ∙ rw (to_text_lem c.rpc_user) refl

    pass_back :
        (d : QString)
        → text_or q d (value (entry principal (codes "rpcPass")) saved_store) ≡ c.rpc_pass
    unfolding text_eq
    pass_back d =
        ap (text_or q d) (principal_read (codes "rpcPass")) ∙ rw (to_text_lem c.rpc_pass) refl

  -- A state with a positive interval is saved over whatever file, and read into a state without
  -- rules and credentials: the options, the interval, the rules with their last downloads, the
  -- credentials, the user and the password are those that were saved, in their order; the data of IRC
  -- are too, with `activo` set if the nick is not empty and does not begin with `OFF:`.
  pub read_settings-write_settings :
      (c c0 : Core) (s : Store)
      → leb_ℤ c.tiempo (pos 0) ≡ false
      → c0.lista ≡ []
      → c0.list_auths ≡ []
      → let c' = read_settings q (write_settings q c s) c0 in
        (c'.values ≡ c.values)
        × (c'.tiempo ≡ c.tiempo)
        × (c'.lista ≡ c.lista)
        × (c'.list_auths ≡ c.list_auths)
        × (c'.rpc_user ≡ c.rpc_user)
        × (c'.rpc_pass ≡ c.rpc_pass)
        × (c'.misdatos ≡ record c.misdatos {
          activo = if is_active q c.misdatos.nick then true else c0.misdatos.activo;
        })
  unfolding read_settings write_settings
  read_settings-write_settings c c0 s positive no_rules no_auths =
      let saved = saved_store c s in
      let front = read_front q saved c0 in
      let same = store_auths-frame q (read_auths q saved) front in
      (
        ap (λ (x : Core). x.values) same ∙ values_back c s,
        ap (λ (x : Core). x.tiempo) same ∙ tiempo_back c s positive,
        ap (λ (x : Core). x.lista) same ∙ rw no_rules (regexps_back c s),
        store_auths-list q (read_auths q saved) front ∙ rw no_auths (trackers_back c s),
        ap (λ (x : Core). x.rpc_user) same ∙ user_back c s (codes "rssani-rpc"),
        ap (λ (x : Core). x.rpc_pass) same ∙ pass_back c s (codes "rssanipass-rpc"),
        irc_back c s c0.misdatos,
      )
