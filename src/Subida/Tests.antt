-- ===== src/Subida/Tests.antt =====
-- Runs of the announcement's path.
use rssani.Base.{
  ℕ, ◌≡◌, ◌||◌, ◌&&◌, ◌==◌, refl, Bool, false, some, [], ◌∷◌, codes, arith, All, leb, starts_with,
}
use rssani.Irc.{Message, is_format, irc_code, color}
use rssani.Subida.{mira_subida}
use rssani.Subida.Lists.{textos}
use rssani.Subida.Cut.{mira_subida_dash}

cuts_announcement :
    mira_subida textos (codes "Cine - A - B - http://t/1")
    ≡ some (record { seccion = codes "Cine"; titulo = codes "A - B"; url = codes "http://t/1" })
unfolding mira_subida starts_with
cuts_announcement = refl

mira_subida_dash_example :
    mira_subida textos (codes "Cine - A - http://t/a-b")
    ≡ some (record {
      seccion = codes "Cine";
      titulo = codes "A - http://t/";
      url = codes "http://t/a-b";
    })
unfolding starts_with
mira_subida_dash_example =
    mira_subida_dash textos (codes "Cine") (codes "A") (codes "http://t/") (codes "b") b'a'
      (omega arith, (omega arith, (omega arith, (omega arith, tt)))) (omega arith, tt) refl

abbrev aviso : Message
aviso = record {
  nick = codes "PuntoTorrent";
  params = codes "#PuntoTorrent" ∷ [];
  text = codes "[Nueva Subida] C - A - http://t";
}

abbrev is_ascii_digit : ℕ → Bool
is_ascii_digit c = leb 48 c && leb c 57

aviso_plain : All (λ c. (is_format c || c == irc_code color) ≡ false) aviso.text
aviso_plain = ground arith
