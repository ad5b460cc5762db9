-- ===== src/Settings.antt =====
-- rssani_lite.cpp: `writeSettings` and `readSettings`. The copy that `writeSettings` makes of the file
-- before stands in Process.antt.
pub mod Store
pub mod Cells
pub mod Back
pub mod Start
pub mod RoundTrip
pub mod Memory
mod Tests
use rssani.Base.{
  ℕ, zero, suc, Bool, true, false, not, ◌&&◌, Option, none, some, List, [], ◌∷◌, ◌++◌, map, ℤ, pos,
  pos_part, leb_ℤ, if◌then◌else◌, length, QString, codes, is_empty, starts_with,
}
use rssani.Model.{DateTime, Regexp, Auth, Values, DatosIrc}
use rssani.Core.{Core, store_auth}
use rssani.Settings.Store.{
  Group, principal, regexps, trackers, irc, entry, element, size, Variant, text, flag, number, date,
  texts, QSettings,
}

-- The calls of `setValue` in a group, or for one element of an array.
abbrev pub Row : Type 0
Row = List (QString × Variant)

-- What `value` finds, by key, in a group or for one element of an array.
abbrev pub Lookup : Type 0
Lookup = QString → Option Variant

abbrev pub regexp_row : Regexp → Row
regexp_row re =
    (codes "item", text re.nombre)
    ∷ (codes "vencimiento", text re.vencimiento)
    ∷ (codes "mail", flag re.mail)
    ∷ (codes "tracker", text re.tracker)
    ∷ (codes "dias", number re.dias_descarga)
    ∷ (elim re.fecha_descarga [ none ↦ [] | some d ↦ (codes "fecha", date d) ∷ [] ]
        ++ (codes "activa", flag re.activa) ∷ [])

abbrev pub auth_row : Auth → Row
auth_row au =
    (codes "tracker", text au.tracker)
    ∷ (codes "uid", text au.uid)
    ∷ (codes "pass", text au.pass)
    ∷ (codes "passkey", text au.passkey)
    ∷ (codes "referer", text au.referer)
    ∷ (codes "idField", text au.id_field)
    ∷ (codes "urlDownload", text au.url_download)
    ∷ (codes "urlRss", text au.url_rss)
    ∷ []

abbrev pub principal_row : Core → Row
principal_row c =
    (codes "fromMail", text v.from_mail)
    ∷ (codes "toMail", text v.to_mail)
    ∷ (codes "path", text v.ruta)
    ∷ (codes "debug", flag v.debug)
    ∷ (codes "timer", number c.tiempo)
    ∷ (codes "fecha", text v.fecha)
    ∷ (codes "rpcUser", text c.rpc_user)
    ∷ (codes "rpcPass", text c.rpc_pass)
    ∷ (codes "smtpServer", text v.smtp_server)
    ∷ (codes "smtpLogin", text v.smtp_login)
    ∷ (codes "smtpPass", text v.smtp_pass)
    ∷ (codes "smtpPort", number v.smtp_port)
    ∷ []
  where
    open c use {values as v}

abbrev pub irc_row : DatosIrc → Row
irc_row d =
    (codes "nickIrc", text d.nick)
    ∷ (codes "userIrc", text d.user)
    ∷ (codes "nameIrc", text d.name)
    ∷ (codes "serverIrc", text d.server)
    ∷ (codes "portIrc", number d.port)
    ∷ (codes "channelsIrc", texts d.channels)
    ∷ (codes "botNickIrc", text d.bot_nick)
    ∷ (codes "debugIrc", flag d.debug)
    ∷ []

module _ (q : QSettings) where
  open q use {Store, set_value, value, remove_array, to_text, to_bool, to_int, to_date, to_texts}

  pub write_group : Group → Row → Store → Store
  write_group g [] s = s
  write_group g ((k, v) ∷ row) s = write_group g row (set_value (entry g k) v s)

  pub write_row : Group → ℕ → Row → Store → Store
  write_row g i [] s = s
  write_row g i ((k, v) ∷ row) s = write_row g i row (set_value (element g i k) v s)

  -- The loop over `setArrayIndex`.
  pub write_rows : Group → ℕ → List Row → Store → Store
  write_rows g i [] s = s
  write_rows g i (row ∷ rows) s = write_rows g (suc i) rows (write_row g i row s)

  -- `beginWriteArray`, `remove( "" )`, the loop, and `endArray`, which stores the size.
  pub write_array : Group → List Row → Store → Store
  write_array g rows s =
      set_value (size g) (number (pos (length rows))) (write_rows g 0 rows (remove_array g s))

  unfoldable pub write_settings : Core → Store → Store
  write_settings c s = write_group irc (irc_row c.misdatos) (
      write_array trackers (map auth_row c.list_auths)
        (write_array regexps (map regexp_row c.lista) (write_group principal (principal_row c) s)))

  -- `value( key, fallback ).toString()` and its like; without a fallback Qt's empty value.
  abbrev pub text_or : QString → Option Variant → QString
  text_or d none = d
  text_or d (some v) = to_text v

  abbrev pub bool_or : Bool → Option Variant → Bool
  bool_or d none = d
  bool_or d (some v) = to_bool v

  abbrev pub int_or : ℤ → Option Variant → ℤ
  int_or d none = d
  int_or d (some v) = to_int v

  abbrev pub date_of : Option Variant → Option DateTime
  date_of none = none
  date_of (some v) = to_date v

  abbrev pub texts_of : Option Variant → List QString
  texts_of none = []
  texts_of (some v) = to_texts v

  pub read_regexp : Lookup → Regexp
  read_regexp get = record {
    nombre = text_or [] (get (codes "item"));
    vencimiento = text_or [] (get (codes "vencimiento"));
    mail = bool_or false (get (codes "mail"));
    tracker = text_or [] (get (codes "tracker"));
    dias_descarga = int_or (pos 0) (get (codes "dias"));
    fecha_descarga = date_of (get (codes "fecha"));
    activa = bool_or true (get (codes "activa"));
  }

  pub read_auth : Lookup → Auth
  read_auth get = record {
    tracker = text_or [] (get (codes "tracker"));
    uid = text_or [] (get (codes "uid"));
    pass = text_or [] (get (codes "pass"));
    passkey = text_or [] (get (codes "passkey"));
    referer = text_or [] (get (codes "referer"));
    id_field = text_or [] (get (codes "idField"));
    url_download = text_or [] (get (codes "urlDownload"));
    url_rss = text_or [] (get (codes "urlRss"));
  }

  pub read_values : Lookup → Values
  read_values get = record {
    from_mail = text_or [] (get (codes "fromMail"));
    to_mail = text_or [] (get (codes "toMail"));
    ruta = text_or [] (get (codes "path"));
    fecha = text_or [] (get (codes "fecha"));
    debug = bool_or false (get (codes "debug"));
    smtp_server = text_or [] (get (codes "smtpServer"));
    smtp_login = text_or [] (get (codes "smtpLogin"));
    smtp_pass = text_or [] (get (codes "smtpPass"));
    smtp_port = int_or (pos 587) (get (codes "smtpPort"));
  }

  abbrev pub positive_or_ten : ℤ → ℤ
  positive_or_ten n = if leb_ℤ n (pos 0) then pos 10 else n

  unfoldable pub read_tiempo : Lookup → ℤ
  read_tiempo get = positive_or_ten (int_or (pos 10) (get (codes "timer")))

  abbrev pub is_active : QString → Bool
  is_active nick = not (is_empty nick) && not (starts_with nick (codes "OFF:"))

  pub read_irc : Lookup → DatosIrc → DatosIrc
  read_irc get d =
      let nick = text_or [] (get (codes "nickIrc")) in
      record {
        activo = if is_active nick then true else d.activo;
        nick = nick;
        user = text_or [] (get (codes "userIrc"));
        name = text_or [] (get (codes "nameIrc"));
        server = text_or [] (get (codes "serverIrc"));
        port = int_or (pos 0) (get (codes "portIrc"));
        channels = texts_of (get (codes "channelsIrc"));
        bot_nick = text_or [] (get (codes "botNickIrc"));
        debug = bool_or false (get (codes "debugIrc"));
      }

  abbrev pub in_group : Group → Store → Lookup
  in_group g s k = value (entry g k) s

  abbrev pub in_element : Group → Store → ℕ → Lookup
  in_element g s i k = value (element g i k) s

  -- `beginReadArray`: a missing or negative size makes no round.
  abbrev pub array_size : Group → Store → ℕ
  array_size g s = pos_part (int_or (pos 0) (value (size g) s))

  -- The loop over `setArrayIndex`, for the rounds left from `i` on.
  pub read_items : {A : Type 0} → (Lookup → A) → Group → Store → ℕ → ℕ → List A
  read_items read g s zero i = []
  read_items read g s (suc left) i = read (in_element g s i) ∷ read_items read g s left (suc i)

  pub store_auths : List Auth → Core → Core
  store_auths [] c = c
  store_auths (au ∷ aus) c = store_auths aus (store_auth au c)

  -- The groups `principal` and `regexps`.
  abbrev pub read_front : Store → Core → Core
  read_front s c = record c {
    values = read_values (in_group principal s);
    tiempo = read_tiempo (in_group principal s);
    rpc_user = text_or (codes "rssani-rpc") (value (entry principal (codes "rpcUser")) s);
    rpc_pass = text_or (codes "rssanipass-rpc") (value (entry principal (codes "rpcPass")) s);
    lista = c.lista ++ read_items read_regexp regexps s (array_size regexps s) 0;
  }

  abbrev pub read_auths : Store → List Auth
  read_auths s = read_items read_auth trackers s (array_size trackers s) 0

  unfoldable pub read_settings : Store → Core → Core
  read_settings s c = record (store_auths (read_auths s) (read_front s c)) {
    misdatos = read_irc (in_group irc s) c.misdatos;
  }
