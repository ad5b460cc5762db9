-- ===== src/Irc/Announce.antt =====
-- Which messages are announcements.
use rssani.Base.{
  ℕ, ◌≡◌, ◌↔◌, Bool, true, some, [], ◌∷◌, ◌++◌, arith, QString, text_eq_iff, starts_with,
  starts_with-append, drop-append, starts_with-split,
}
use rssani.Model.{DatosIrc}
use rssani.Irc.{Message, ssubida, first_or_empty, on_privmsg, irc_color_strip_from_mirc}

-- A message is an announcement of `t`: it goes to a channel, comes from the bot, and its text less
-- the formatting is the mark of an announcement and then `t`.
pub record Announces (is_digit : ℕ → Bool) (datos : DatosIrc) (m : Message) (t : QString)
    : Type 0 where
  pub to_channel : starts_with (first_or_empty m.params) (b'#' ∷ []) ≡ true
  pub from_bot : m.nick ≡ datos.bot_nick
  pub marked : irc_color_strip_from_mirc is_digit m.text ≡ ssubida ++ t

module _ (is_digit : ℕ → Bool) (datos : DatosIrc) (m : Message) (t : QString) where
  on_privmsg-Announces : on_privmsg is_digit datos (some m) ≡ some t → Announces is_digit datos m t
  unfolding on_privmsg
  on_privmsg-Announces h = record {
    to_channel = ground arith;
    from_bot = ground (arith, text_eq_iff m.nick datos.bot_nick);
    marked = ground (arith, starts_with-split (irc_color_strip_from_mirc is_digit m.text) ssubida);
  }

  Announces-on_privmsg : Announces is_digit datos m t → on_privmsg is_digit datos (some m) ≡ some t
  unfolding on_privmsg
  Announces-on_privmsg a = rw (
    a.to_channel,
    (text_eq_iff m.nick datos.bot_nick).1 a.from_bot,
    a.marked,
    starts_with-append ssubida t,
    drop-append ssubida t,
  )

-- `on_privmsg` emits `t` exactly for the announcements of `t`.
pub on_privmsg_iff :
    (is_digit : ℕ → Bool) (datos : DatosIrc) (m : Message) (t : QString)
    → (on_privmsg is_digit datos (some m) ≡ some t) ↔ Announces is_digit datos m t
on_privmsg_iff is_digit datos m t =
    (on_privmsg-Announces is_digit datos m t, Announces-on_privmsg is_digit datos m t)
