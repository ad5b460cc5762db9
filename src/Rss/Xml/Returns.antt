-- ===== src/Rss/Xml/Returns.antt =====
-- When the parser pops an empty stack.
use mathlib.Core.Option
use rssani.Base.{
  ℕ, zero, suc, ◌≡◌, refl, sym, Bool, true, false, Option, none, some, List, [], ◌∷◌, arith,
  if◌then◌else◌, length, QString,
}
use rssani.Rss.Match.{World}
use rssani.Rss.Title.{UrlApi}
use rssani.Rss.Xml.{
  Token, start_element, end_element, characters, other, premature, malformed, Xml, Parse, FeedText,
  is_item, add_text, on_start, on_pop, on_token, parse_tokens,
}

abbrev pub is_some {ℓ} : {A : Type ℓ} → Option A → Bool
is_some none = false
is_some (some a) = true

abbrev minus_one : ℕ → Option ℕ
minus_one zero = none
minus_one (suc n) = some n

-- The items that are open behind a token, with `n` open before it.
abbrev pub depth : Token → ℕ → Option ℕ
depth (start_element name attrs) n = some (if is_item name then suc n else n)
depth (end_element name) n = if is_item name then minus_one n else some n
depth malformed n = minus_one n
depth _ n = some n

-- With `n` items open, no item ends and no token is malformed outside an item; behind a malformed
-- token nothing is read.
unfoldable pub is_nested : ℕ → List Token → Bool
is_nested n [] = true
is_nested n (malformed ∷ ts) = is_some (depth malformed n)
is_nested n (t ∷ ts) = elim (depth t n) [ none ↦ false | some m ↦ is_nested m ts ]

add_text-pila : (t : QString) (x : Xml) → (add_text t x).pila ≡ x.pila
unfolding add_text
add_text-pila t x = ground arith

pila_size : Parse → ℕ
pila_size p = length p.xml.pila

is_some-map : (o : Option Parse) (d : Option ℕ) → Option.map pila_size o ≡ d → is_some o ≡ is_some d
is_some-map none d e = rw (sym e) refl
is_some-map (some p) d e = rw (sym e) refl

on_pop-depth :
    (pila : List ℕ) (x : Xml)
    → x.pila ≡ pila
    → Option.map (λ (y : Xml). length y.pila) (on_pop x) ≡ minus_one (length pila)
unfolding on_pop
on_pop-depth [] x h = ground arith
on_pop-depth (n ∷ pila) x h = ground arith

module _ (f : FeedText) (u : UrlApi) (w : World) where
  characters-depth :
      (t : QString) (blank : Bool) (p : Parse) (pila : List ℕ)
      → p.xml.pila ≡ pila
      → Option.map pila_size (on_token f u w (characters t blank) p) ≡ some (pila_size p)
  unfolding on_token pila_size
  characters-depth t blank p [] h = ground arith
  characters-depth t blank p (n ∷ pila) h = ground (arith, add_text-pila t p.xml)

  on_token-depth :
      (t : Token) (p : Parse) → Option.map pila_size (on_token f u w t p) ≡ depth t (pila_size p)
  unfolding on_token pila_size on_start
  on_token-depth (start_element name attrs) p = ground arith
  on_token-depth (end_element name) p = ground (arith, on_pop-depth p.xml.pila p.xml refl)
  on_token-depth (characters t blank) p = characters-depth t blank p p.xml.pila refl
  on_token-depth other p = refl
  on_token-depth premature p = refl
  on_token-depth malformed p = ground (arith, on_pop-depth p.xml.pila p.xml refl)

-- What the rest of the parser makes of a step, against what the rest of the check makes of its depth.
past-depth :
    (rest : ℕ → Bool) (next : Parse → Option Parse)
    → ((p : Parse) → is_some (next p) ≡ rest (pila_size p))
    → (o : Option Parse) (d : Option ℕ) → Option.map pila_size o ≡ d
    → is_some (elim o [ none ↦ none | some p ↦ next p ]) ≡ elim d [ none ↦ false | some m ↦ rest m ]
past-depth rest next h none d e = rw (sym e) refl
past-depth rest next h (some p) d e = rw (sym e) (h p)

module _ (f : FeedText) (u : UrlApi) (w : World) where
  past_token :
      (t : Token) (ts : List Token) (p : Parse)
      → ((p' : Parse) → is_some (parse_tokens f u w ts p') ≡ is_nested (length p'.xml.pila) ts)
      → is_some (elim (on_token f u w t p) [ none ↦ none | some p' ↦ parse_tokens f u w ts p' ])
        ≡ elim (depth t (length p.xml.pila)) [ none ↦ false | some m ↦ is_nested m ts ]
  unfolding pila_size
  past_token t ts p h =
      past-depth (λ m. is_nested m ts) (parse_tokens f u w ts) h _ _ (on_token-depth f u w t p)

  -- Whatever the tokens and the items that are open at the start, `parseXml` comes to its end with a
  -- defined result exactly if no item ends, and no token is malformed, outside every item.
  pub parse_tokens-is_nested :
      (ts : List Token) (p : Parse)
      → is_some (parse_tokens f u w ts p) ≡ is_nested (length p.xml.pila) ts
  unfolding parse_tokens is_nested pila_size
  parse_tokens-is_nested [] p = refl
  parse_tokens-is_nested (malformed ∷ ts) p =
      is_some-map (on_token f u w malformed p) (depth malformed (pila_size p))
        (on_token-depth f u w malformed p)
  parse_tokens-is_nested (start_element name attrs ∷ ts) p =
      past_token (start_element name attrs) ts p (parse_tokens-is_nested ts)
  parse_tokens-is_nested (end_element name ∷ ts) p =
      past_token (end_element name) ts p (parse_tokens-is_nested ts)
  parse_tokens-is_nested (characters t blank ∷ ts) p =
      past_token (characters t blank) ts p (parse_tokens-is_nested ts)
  parse_tokens-is_nested (other ∷ ts) p = past_token other ts p (parse_tokens-is_nested ts)
  parse_tokens-is_nested (premature ∷ ts) p = past_token premature ts p (parse_tokens-is_nested ts)
