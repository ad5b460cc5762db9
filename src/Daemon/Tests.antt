-- ===== src/Daemon/Tests.antt =====
-- A run of the program from an empty settings file.
use rssani.Base.{
  any_of, ℕ, ◌≡◌, ◌≢◌, ◌||◌, ◌==◌, refl, Bool, true, false, Option, none, some, List, [], ◌∷◌, ◌++◌,
  pos, codes, drop, take, All, arith, contains, starts_with, lookup, text_eq,
}
use rssani.Model.{Regexp, default_values, default_datos}
use rssani.Settings.Memory.{ajustes}
use rssani.Irc.{Message, is_format, irc_code, color}
use rssani.Subida.{Upload, anunciada}
use rssani.Subida.Announced.{anunciada_plain}
use rssani.Subida.Lists.{textos}
use rssani.Rpc.{Env, anadir_auth_request, cambia_timer_request}
use rssani.Rss.Types.{default_tracker}
use rssani.Rss.Match.{World, verdict}
use rssani.Rss.Title.{UrlApi}
use rssani.Rss.Xml.{FeedText}
use rssani.Rss.Torrent.{NetworkReply, Disk, ends_with, quoted, plain_name}
use rssani.Daemon.{
  Daemon, Input, served, timed_out, messaged, answered, first_core, first_xml, first_rss, run,
}
use rssani.Daemon.Sound.{built}
use rssani.Daemon.Announced.{announced_stored}

abbrev url : UrlApi
url = record {
  scheme = take 4;
  host = λ link. take 1 (drop 7 link);
  query_item_value = λ link item. [];
}

abbrev texto : FeedText
texto = record { category = λ s. none; section = λ s. none; trimmed_title = λ s. s }

abbrev entorno : Env
entorno = record { ultimo = []; log = [] }

abbrev entradas : List Input
entradas =
    served entorno (anadir_auth_request (codes "http://t") [] [] [])
    ∷ timed_out 5
    ∷ served entorno (cambia_timer_request (pos 30))
    ∷ []

abbrev es_digito : ℕ → Bool
es_digito c = false

-- The program behind its constructors, and behind the inputs.
abbrev inicio : Daemon
inicio = built ajustes (λ k. none) 0 []

abbrev or_first : Option Daemon → Daemon
or_first none = inicio
or_first (some a) = a

abbrev final : Daemon
final = or_first (run textos es_digito url texto entradas inicio)

abbrev aviso : Message
aviso = record {
  nick = codes "PuntoTorrent";
  params = codes "#PuntoTorrent" ∷ [];
  text = codes "[Nueva Subida] C - Uno - http://t/download";
}

abbrev anuncio : Upload
anuncio = record { seccion = codes "C"; titulo = codes "Uno"; url = codes "http://t/download" }

no_formats : All (λ c. (is_format c || c == irc_code color) ≡ false) aviso.text
no_formats = ground arith

no_dash : All (λ c. c ≢ b'-') (codes "http://t/download")
no_dash = ground arith

aviso-anunciada :
    anunciada textos es_digito (record default_datos { activo = true }) (some aviso) ≡ some anuncio
unfolding starts_with
aviso-anunciada =
    anunciada_plain textos es_digito (record default_datos { activo = true }) aviso (codes "C")
      (codes "Uno") (codes "http://t/download") refl refl refl no_formats (omega arith, tt) no_dash
      refl

abbrev regla : Regexp
regla = record {
  nombre = codes "Uno";
  vencimiento = [];
  mail = false;
  tracker = [];
  dias_descarga = pos 1;
  fecha_descarga = none;
  activa = true;
}

abbrev mundo : World
mundo = record {
  today = pos 100;
  now = 1000;
  date_from_string = λ s. pos 0;
  days_to = λ a b. pos 0;
  search = λ pattern text. contains text pattern;
  url_host = λ u. u;
  matches_opens = true;
  send_mail_result = λ a m. pos 0;
  stamp = codes "host";
}

abbrev disk : Disk
disk = record {
  path_of = drop 8;
  to_string = λ a. a;
  file_path = λ ruta name. ruta ++ (b'/' ∷ name);
  opens = λ path. true;
  log_opens = true;
  log_stamp = [];
  mail_stamp = [];
}

abbrev respuesta : NetworkReply
respuesta = record {
  address = codes "http://t/download";
  has_error = false;
  content_disposition = codes "attachment; filename=\"Uno.torrent\"";
  host_header = [];
  body = 1 ∷ 2 ∷ [];
}

-- The program with one rule and one tracker, on IRC.
abbrev atento : Daemon
atento = record {
  core = record first_core {
    lista = regla ∷ [];
    misdatos = record default_datos { activo = true };
  };
  xml = first_xml;
  torrents = record {
    rss = record (first_rss default_values 0) {
      trackers = (codes "http://t", default_tracker) ∷ [];
    };
    downloads = [];
    files = [];
  };
}

announced_stored_example :
    (a' : Daemon) × (run textos es_digito url texto
        (messaged mundo (some aviso) ∷ answered disk respuesta ∷ [])
        atento
      ≡ some a')
    × (lookup (codes "/Uno.torrent") a'.torrents.files ≡ some (1 ∷ 2 ∷ []))
    × (a'.core.lista ≡ record regla { fecha_descarga = some 1000 } ∷ [])
    × (any_of (λ t. text_eq t (codes "Uno")) a'.torrents.rss.recientes ≡ true)
unfolding verdict contains starts_with lookup text_eq ends_with quoted plain_name
announced_stored_example =
    announced_stored textos es_digito url texto mundo (some aviso) anuncio [] [] regla
      default_tracker disk respuesta (codes "/Uno.torrent") atento refl aviso-anunciada refl refl
      refl tt refl refl refl refl refl refl refl
