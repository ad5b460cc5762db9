-- ===== src/Model.antt =====
-- The shared data of values.h, rss_lite.h and myircsession.h: one record for each struct, with its
-- default member initialisers.
use rssani.Base.{ℕ, Bool, false, List, [], ◌∷◌, Option, not, ℤ, pos, QString, codes, is_empty}

-- `QDateTime` as the milliseconds that it stands for; a null one is `none` where it is kept.
abbrev pub DateTime : Type 0
DateTime = ℕ

-- `struct regexp`.
pub record Regexp : Type 0 where
  pub nombre : QString
  pub vencimiento : QString
  pub mail : Bool
  pub tracker : QString
  pub dias_descarga : ℤ
  pub fecha_descarga : Option DateTime
  pub activa : Bool

-- `struct auth`.
pub record Auth : Type 0 where
  pub tracker : QString
  pub uid : QString
  pub pass : QString
  pub passkey : QString
  pub referer : QString
  pub id_field : QString
  pub url_download : QString
  pub url_rss : QString

-- `auth au;`
abbrev pub default_auth : Auth
default_auth = record {
  tracker = [];
  uid = [];
  pass = [];
  passkey = [];
  referer = codes "/browse.php";
  id_field = codes "id";
  url_download = codes "/download.php?id=";
  url_rss = codes "/rss.php";
}

-- `class Values`; a getter is the field, a setter an update of the record.
pub record Values : Type 0 where
  pub from_mail : QString
  pub to_mail : QString
  pub ruta : QString
  pub fecha : QString
  pub debug : Bool
  pub smtp_server : QString
  pub smtp_login : QString
  pub smtp_pass : QString
  pub smtp_port : ℤ

abbrev pub default_values : Values
default_values = record {
  from_mail = [];
  to_mail = [];
  ruta = [];
  fecha = [];
  debug = false;
  smtp_server = [];
  smtp_login = [];
  smtp_pass = [];
  smtp_port = pos 587;
}

-- `Values::filledValues`.
abbrev pub filled_values : Values → Bool
filled_values v = not (is_empty v.ruta)

-- `struct datosIrc`.
pub record DatosIrc : Type 0 where
  pub activo : Bool
  pub nick : QString
  pub user : QString
  pub name : QString
  pub server : QString
  pub port : ℤ
  pub channels : List QString
  pub bot_nick : QString
  pub debug : Bool

abbrev pub default_datos : DatosIrc
default_datos = record {
  activo = false;
  nick = [];
  user = [];
  name = [];
  server = codes "irc.irc-hispano.org";
  port = pos 6667;
  channels = codes "#PuntoTorrent" ∷ [];
  bot_nick = codes "PuntoTorrent";
  debug = false;
}
