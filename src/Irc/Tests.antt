-- ===== src/Irc/Tests.antt =====
-- Runs of the stripping and of `on_privmsg`.
use rssani.Base.{
  ℕ, ◌≡◌, ◌↔◌, ◌&&◌, refl, Bool, some, [], ◌∷◌, codes, leb, QString, text_eq, starts_with,
}
use rssani.Model.{default_datos}
use rssani.Irc.{Message, irc_color_strip_from_mirc, strip_loop, color_end, on_privmsg}
use rssani.Irc.Strips.{Strips, irc_color_strip_from_mirc-Strips, irc_color_strip_from_mirc_plain}

abbrev is_ascii_digit : ℕ → Bool
is_ascii_digit c = leb 48 c && leb c 57

-- Bold, then a colour with a background, then a colour alone.
abbrev coloured : QString
coloured = 2 ∷ b'A' ∷ 3 ∷ b'1' ∷ b'2' ∷ b',' ∷ b'4' ∷ b'B' ∷ 3 ∷ b'C' ∷ []

strips_colours : irc_color_strip_from_mirc is_ascii_digit coloured ≡ codes "ABC"
unfolding irc_color_strip_from_mirc strip_loop color_end
strips_colours = refl

-- A comma with no digit behind it is text.
keeps_comma : irc_color_strip_from_mirc is_ascii_digit (3 ∷ b'1' ∷ b',' ∷ b'x' ∷ []) ≡ codes ",x"
unfolding irc_color_strip_from_mirc strip_loop color_end
keeps_comma = refl

irc_color_strip_from_mirc-Strips_example :
    (irc_color_strip_from_mirc is_ascii_digit coloured ≡ codes "ABC")
    ↔ Strips is_ascii_digit coloured (codes "ABC")
irc_color_strip_from_mirc-Strips_example =
    irc_color_strip_from_mirc-Strips is_ascii_digit coloured (codes "ABC")

irc_color_strip_from_mirc_plain_example :
    irc_color_strip_from_mirc is_ascii_digit (codes "a,1") ≡ codes "a,1"
irc_color_strip_from_mirc_plain_example =
    irc_color_strip_from_mirc_plain is_ascii_digit (codes "a,1") (refl, (refl, (refl, tt)))

abbrev aviso : Message
aviso = record {
  nick = codes "PuntoTorrent";
  params = codes "#PuntoTorrent" ∷ [];
  text = 2 ∷ codes "[Nueva Subida] Cine - T - http://t/1";
}

announces_upload :
    on_privmsg is_ascii_digit default_datos (some aviso) ≡ some (codes "Cine - T - http://t/1")
unfolding on_privmsg irc_color_strip_from_mirc strip_loop color_end starts_with text_eq
announces_upload = refl
