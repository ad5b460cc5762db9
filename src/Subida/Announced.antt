-- ===== src/Subida/Announced.antt =====
-- From a message on IRC to the upload that is announced.
use rssani.Base.{
  ℕ, ◌≡◌, ◌≢◌, ◌||◌, ◌∙◌, Bool, true, false, some, [], ◌∷◌, ◌++◌, ◌==◌, QString, All, starts_with,
}
use rssani.Model.{DatosIrc}
use rssani.Irc.{Message, ssubida, irc_code, color, is_format, first_or_empty}
use rssani.Irc.Strips.{irc_color_strip_from_mirc_plain}
use rssani.Irc.Announce.{on_privmsg_iff}
use rssani.Subida.{TextApi, anunciada}
use rssani.Subida.Cut.{separador, mira_subida_plain}

-- A message of the bot to a channel, whose text has no formatting codes and reads `[Nueva Subida]
-- seccion - titulo - url`, with no dash in the section and the address, announces that section, the
-- title trimmed, and that address.
pub anunciada_plain :
    (api : TextApi) (is_digit : ℕ → Bool) (datos : DatosIrc) (m : Message)
    (seccion titulo url : QString)
    → starts_with (first_or_empty m.params) (b'#' ∷ []) ≡ true
    → m.nick ≡ datos.bot_nick
    → let subida = seccion ++ (separador ++ (titulo ++ (separador ++ url))) in
      m.text ≡ ssubida ++ subida
      → All (λ c. (is_format c || c == irc_code color) ≡ false) m.text
      → All (λ c. c ≢ b'-') seccion
      → All (λ c. c ≢ b'-') url
      → api.address subida ≡ some url
      → anunciada api is_digit datos (some m)
        ≡ some (record { seccion = seccion; titulo = api.trimmed titulo; url = url })
unfolding anunciada
anunciada_plain api is_digit datos m seccion titulo url channel bot says plain h k found =
    let subida = seccion ++ (separador ++ (titulo ++ (separador ++ url))) in
    let marked = irc_color_strip_from_mirc_plain is_digit m.text plain ∙ says in
    let heard =
      (on_privmsg_iff is_digit datos m subida).1
        (record { to_channel = channel; from_bot = bot; marked = marked }) in
    rw (heard, anunciada) (mira_subida_plain api seccion titulo url h k found)
