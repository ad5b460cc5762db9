-- ===== src/Subida/Lists.antt =====
-- The text operations of Qt on lists, for the runs: an instance of `TextApi`.
use rssani.Base.{
  ℕ, suc, ◌≡◌, ◌≢◌, ◌++◌, ◌==◌, ◌+◌, refl, ap, ◌∙◌, some, none, Option, [], ◌∷◌, ℤ, pos, negsuc,
  pos_part, QString, codes, length, take, drop, drop-append, arith, All, if◌then◌else◌, starts_with,
}
use rssani.Subida.{TextApi}

-- The places from `i` on: the first, or the last behind `found`.
abbrev pub first_from : ℕ → QString → ℕ → ℤ
first_from i [] c = negsuc 0
first_from i (x ∷ s) c = let rest = first_from (suc i) s c in if x == c then pos i else rest

abbrev pub last_from : ℤ → ℕ → QString → ℕ → ℤ
last_from found i [] c = found
last_from found i (x ∷ s) c = last_from (if x == c then pos i else found) (suc i) s c

abbrev pub cut : QString → ℤ → ℤ → QString
cut s p n = take (pos_part n) (drop (pos_part p) s)

pub first_from_lem :
    (i : ℕ) (a b : QString) (c : ℕ)
    → All (λ x. x ≢ c) a
    → first_from i (a ++ c ∷ b) c ≡ pos (i + length a)
first_from_lem i [] b c h = ground arith
first_from_lem i (x ∷ a) b c h = ground (arith, first_from_lem (suc i) a b c h.1, h.0)

pub last_from_none :
    (found : ℤ) (i : ℕ) (b : QString) (c : ℕ) → All (λ x. x ≢ c) b → last_from found i b c ≡ found
last_from_none found i [] c h = refl
last_from_none found i (x ∷ b) c h = ground (arith, last_from_none found (suc i) b c h.1, h.0)

pub last_from_lem :
    (found : ℤ) (i : ℕ) (a b : QString) (c : ℕ)
    → All (λ x. x ≢ c) b
    → last_from found i (a ++ c ∷ b) c ≡ pos (i + length a)
last_from_lem found i [] b c h = ground (arith, last_from_none (pos i) (suc i) b c h)
last_from_lem found i (x ∷ a) b c h =
    last_from_lem (if x == c then pos i else found) (suc i) a b c h ∙ ap pos (omega arith)

pub take-append : (b c : QString) → take (length b) (b ++ c) ≡ b
take-append [] c = refl
take-append (x ∷ b) c = ap (◌∷◌ x) (take-append b c)

-- The address from the first `http://` on; enough for the runs below.
abbrev pub address_in : QString → Option QString
address_in [] = none
address_in (x ∷ s) =
    let rest = address_in s in if starts_with (x ∷ s) (codes " http://") then some s else rest

abbrev pub textos : TextApi
textos = record {
  index_of = first_from 0;
  last_index_of = last_from (negsuc 0) 0;
  mid = cut;
  trimmed = λ s. s;
  address = address_in;
  index_of_first = λ a b c h. first_from_lem 0 a b c h ∙ ap pos (omega arith);
  last_index_of_last = λ a b c h. last_from_lem (negsuc 0) 0 a b c h ∙ ap pos (omega arith);
  mid_part = λ a b c. ap (take (length b)) (drop-append a (b ++ c)) ∙ take-append b c;
}
