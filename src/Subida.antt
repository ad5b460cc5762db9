-- ===== src/Subida.antt =====
-- `rssani_lite::miraSubida`, from an announcement on IRC to the rules: the text is cut into section,
-- title and address. Searching, cutting and trimming a `QString`, and the regular expression for the
-- address, are Qt's and a parameter.
pub mod Cut
pub mod Announced
pub mod Lists
mod Tests
use rssani.Base.{
  ℕ, Option, none, some, ◌≡◌, ◌≢◌, List, ◌∷◌, ◌++◌, ℤ, pos, ◌+ℤ◌, ◌-ℤ◌, QString, All, length, Bool,
}
use rssani.Model.{DatosIrc}
use rssani.Irc.{Message, on_privmsg}

-- `indexOf`, `lastIndexOf` (-1 if the character is not there), `mid`, `trimmed`, and the part in
-- brackets of the match of `\\s(https?://[\\S]*)`, if there is one.
pub record TextApi : Type 0 where
  pub index_of : QString → ℕ → ℤ
  pub last_index_of : QString → ℕ → ℤ
  pub mid : QString → ℤ → ℤ → QString
  pub trimmed : QString → QString
  pub address : QString → Option QString
  -- The first and the last place of a character, and a part that lies within the text.
  pub index_of_first :
      (a b : QString) (c : ℕ) → All (λ x. x ≢ c) a → index_of (a ++ c ∷ b) c ≡ pos (length a)
  pub last_index_of_last :
      (a b : QString) (c : ℕ) → All (λ x. x ≢ c) b → last_index_of (a ++ c ∷ b) c ≡ pos (length a)
  pub mid_part : (a b c : QString) → mid (a ++ (b ++ c)) (pos (length a)) (pos (length b)) ≡ b

-- What `nuevaSubida` carries.
pub record Upload : Type 0 where
  pub seccion : QString
  pub titulo : QString
  pub url : QString

unfoldable pub mira_subida : TextApi → QString → Option Upload
mira_subida api subida =
    let primero = api.index_of subida b'-' in
    let ultimo = api.last_index_of subida b'-' in
    let seccion = api.mid subida (pos 0) (primero -ℤ pos 1) in
    let titulo = api.mid subida (primero +ℤ pos 2) (ultimo -ℤ primero -ℤ pos 3) in
    elim (api.address subida) [
      | none ↦ none
      | some url ↦ some (record { seccion = seccion; titulo = api.trimmed titulo; url = url })
    ]

-- The signals from a message to `nuevaSubida`: `on_privmsg`, then `miraSubida`.
unfoldable pub anunciada : TextApi → (ℕ → Bool) → DatosIrc → Option Message → Option Upload
anunciada api is_digit datos m = elim (on_privmsg is_digit datos m) [
  | none ↦ none
  | some subida ↦ mira_subida api subida
]
