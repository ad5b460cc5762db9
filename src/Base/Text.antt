-- ===== src/Base/Text.antt =====
-- `QString` as the sequence of its UTF-16 code units, and `QHash` as an association list.
use Prim.Native.Nat.{ℕ}
use Prim.Native.Char.{code}
use Prim.Native.String.{String}
use mathlib.Core.Path.{◌≡◌, refl}
use mathlib.Core.Logic.{◌↔◌}
use mathlib.Core.Bool.{Bool, true, false, ◌&&◌, ◌||◌}
use mathlib.Core.List.{List, [], ◌∷◌, ◌++◌}
use mathlib.Core.Option.{Option, none, some}
use native.Mathlib.Omega.{arith}
use rssani.Base.Lists.{length, drop}
use rssani.Base.Tests.{◌==◌, if◌then◌else◌}

abbrev pub QString : Type 0
QString = List ℕ

-- A literal of the source: its code points, which are its code units up to U+FFFF.
abbrev pub codes : String → QString
codes String.[] = []
codes (String.◌∷◌ c s) = code c ∷ codes s

abbrev pub is_empty : QString → Bool
is_empty [] = true
is_empty (c ∷ s) = false

-- `QString::operator==`.
unfoldable pub text_eq : QString → QString → Bool
text_eq [] [] = true
text_eq (x ∷ xs) (y ∷ ys) = x == y && text_eq xs ys
text_eq _ _ = false

pub text_eq_iff : (a b : QString) → (text_eq a b ≡ true) ↔ (a ≡ b)
unfolding text_eq
text_eq_iff (x ∷ a) (y ∷ b) = ground (arith, text_eq_iff a b)
text_eq_iff _ _ = ground arith

pub text_eq_refl : (a : QString) → text_eq a a ≡ true
text_eq_refl a = (text_eq_iff a a).1 refl

-- `QString::startsWith`.
unfoldable pub starts_with : QString → QString → Bool
starts_with s [] = true
starts_with [] (c ∷ p) = false
starts_with (x ∷ s) (c ∷ p) = x == c && starts_with s p

-- `QString::contains( QString )`.
unfoldable pub contains : QString → QString → Bool
contains [] p = starts_with [] p
contains (c ∷ s) p = starts_with (c ∷ s) p || contains s p

pub starts_with-append : (p s : QString) → starts_with (p ++ s) p ≡ true
unfolding starts_with
starts_with-append [] s = refl
starts_with-append (c ∷ p) s = ground (arith, starts_with-append p s)

pub drop-append : (p s : QString) → drop (length p) (p ++ s) ≡ s
drop-append [] s = refl
drop-append (c ∷ p) s = drop-append p s

pub starts_with-split : (s p : QString) → starts_with s p ≡ true → s ≡ p ++ drop (length p) s
unfolding starts_with
starts_with-split s [] h = refl
starts_with-split [] (c ∷ p) h = cc
starts_with-split (x ∷ s) (c ∷ p) h = ground (arith, starts_with-split s p)

abbrev pub QHash {ℓ} : Type ℓ → Type ℓ
QHash V = List (QString × V)

module _ {ℓ} {V : Type ℓ} where
  unfoldable pub lookup : QString → QHash V → Option V
  lookup k [] = none
  lookup k ((j, v) ∷ m) = if text_eq j k then some v else lookup k m

  -- `QHash::insert` replaces the value of a key that is there.
  unfoldable pub insert : QString → V → QHash V → QHash V
  insert k v [] = (k, v) ∷ []
  insert k v ((j, w) ∷ m) = if text_eq j k then (k, v) ∷ m else (j, w) ∷ insert k v m

  -- `QHash::remove`.
  unfoldable pub remove : QString → QHash V → QHash V
  remove k [] = []
  remove k ((j, w) ∷ m) = if text_eq j k then remove k m else (j, w) ∷ remove k m

  pub lookup-insert :
      (k j : QString) (v : V) (m : QHash V)
      → lookup j (insert k v m) ≡ (if text_eq k j then some v else lookup j m)
  unfolding lookup insert
  lookup-insert k j v [] = refl
  lookup-insert k j v ((i, w) ∷ m) =
      ground (arith, text_eq_iff k j, text_eq_iff i k, text_eq_iff i j, lookup-insert k j v m)

  pub lookup-remove :
      (k j : QString) (m : QHash V)
      → lookup j (remove k m) ≡ (if text_eq k j then none else lookup j m)
  unfolding lookup remove
  lookup-remove k j [] = ground arith
  lookup-remove k j ((i, w) ∷ m) =
      ground (arith, text_eq_iff k j, text_eq_iff i k, text_eq_iff i j, lookup-remove k j m)
