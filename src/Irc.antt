-- ===== src/Irc.antt =====
-- myircsession.cpp: stripping of mIRC codes and the handlers of the IRC events. `QChar::isDigit` is
-- Qt's and is the parameter `is_digit`. A handler returns what it asks of the network or emits.
pub mod Strips
pub mod Announce
pub mod Session
mod Tests
use rssani.Base.{
  ℕ, zero, suc, ◌+◌, Bool, true, false, ◌&&◌, ◌||◌, Option, none, some, List, [], ◌∷◌, ◌++◌, map,
  ◌==◌, if◌then◌else◌, length, get_elem?, drop, QString, codes, text_eq, starts_with, ℤ,
}
use rssani.Model.{DatosIrc}

-- `enum class IrcCode`.
pub data IrcCode : Type 0 where
  bold color reset italic underline reverse : IrcCode

abbrev pub irc_code : IrcCode → ℕ
irc_code bold = 0x02
irc_code color = 0x03
irc_code reset = 0x0f
irc_code italic = 0x1d
irc_code underline = 0x1f
irc_code reverse = 0x16

-- The four codes that are dropped alone.
abbrev pub is_format : ℕ → Bool
is_format u =
    u == irc_code bold || u == irc_code underline || u == irc_code reverse || u == irc_code reset

module _ (is_digit : ℕ → Bool) where
  -- `i < source.size() && source.at( i ).isDigit()`.
  abbrev pub digit_at : QString → ℕ → Bool
  digit_at s i = elim (get_elem? s i) [ none ↦ false | some c ↦ is_digit c ]

  abbrev pub comma_at : QString → ℕ → Bool
  comma_at s i = elim (get_elem? s i) [ none ↦ false | some c ↦ c == b',' ]

  -- `if ( i + 1 < source.size() && source.at( i + 1 ).isDigit() ) i++;`
  abbrev pub past_digit : QString → ℕ → ℕ
  past_digit s i = if digit_at s (suc i) then suc i else i

  -- The place of the last character of the background, at a comma and a digit behind `i`.
  abbrev pub past_background : QString → ℕ → ℕ
  past_background s i =
      if comma_at s (suc i) && digit_at s (suc (suc i)) then past_digit s (suc (suc i)) else i

  -- The place of the last character of the colour code that begins at `i`.
  pub color_end : QString → ℕ → ℕ
  color_end s i = if digit_at s (suc i) then past_background s (past_digit s (suc i)) else i

  -- The loop from `i` on; the fuel is the number of characters left.
  pub strip_loop : ℕ → QString → ℕ → QString
  strip_loop zero s i = []
  strip_loop (suc fuel) s i = elim (get_elem? s i) [
    | none ↦ []
    | some c ↦ elim (is_format c) [
      | true ↦ strip_loop fuel s (suc i)
      | false ↦ elim (c == irc_code color) [
        | true ↦ strip_loop fuel s (suc (color_end s i))
        | false ↦ c ∷ strip_loop fuel s (suc i)
      ]
    ]
  ]

  unfoldable pub irc_color_strip_from_mirc : QString → QString
  unfolding strip_loop color_end
  irc_color_strip_from_mirc source = strip_loop (length source) source 0

-- What the parser of libirc reports of a message: `GetSourceUserInfo()->GetNick()`,
-- `GetParameters()` and `GetText()`.
pub record Message : Type 0 where
  pub nick : QString
  pub params : List QString
  pub text : QString

abbrev pub ssubida : QString
ssubida = codes "[Nueva Subida] "

abbrev pub first_or_empty : List QString → QString
first_or_empty [] = []
first_or_empty (p ∷ ps) = p

-- The text that `on_privmsg` emits by `nuevaSubida`, if it does. `none` for the message is a null
-- parser or one with no source.
unfoldable pub on_privmsg : (ℕ → Bool) → DatosIrc → Option Message → Option QString
on_privmsg is_digit datos none = none
on_privmsg is_digit datos (some m) =
    let mensaje = irc_color_strip_from_mirc is_digit m.text in
    if starts_with (first_or_empty m.params) (b'#' ∷ [])
    then (if text_eq m.nick datos.bot_nick
        then (if starts_with mensaje ssubida then some (drop (length ssubida) mensaje) else none)
        else none)
    else none

-- What the session asks of the network: to connect to a server and port with the nick, the user and the
-- real name, to join now, to join later, or a raw line.
pub data NetworkCall : Type 0 where
  connects : QString → ℤ → QString → QString → QString → NetworkCall
  request_join : QString → NetworkCall
  join_later : ℕ → QString → NetworkCall
  transfer_raw : QString → NetworkCall

unfoldable pub join_channels : DatosIrc → List NetworkCall
join_channels datos = map request_join datos.channels

-- `on_connected`, and `on_numericMessage` at the end of the message of the day.
unfoldable pub on_connected : DatosIrc → List NetworkCall
on_connected = join_channels

unfoldable pub on_numeric_message : DatosIrc → List NetworkCall
on_numeric_message = join_channels

-- `none` is a null channel.
unfoldable pub on_kick : Option QString → List NetworkCall
on_kick none = []
on_kick (some channel) = join_later 5000 channel ∷ []

-- The text of a random number below 1000000.
unfoldable pub on_timeout : QString → List NetworkCall
on_timeout n = transfer_raw (codes "PING " ++ n) ∷ []
