-- ===== src/Rss/Xml/Recent.antt =====
-- Proofs about rss_lite.cpp.
-- The titles remembered while a feed is read.
use rssani.Base.{
  ℕ, not, ◌≤◌, Bool, true, false, Option, none, some, List, [], ◌∷◌, length, QString, if◌then◌else◌,
  Bool-cases, inl, inr,
}
use rssani.Model.{Regexp}
use rssani.Rss.Types.{Rss}
use rssani.Rss.Match.{World}
use rssani.Rss.Title.{UrlApi}
use rssani.Rss.Title.Recent.{mira_titulo-bounded}
use rssani.Rss.Xml.{
  Token, start_element, end_element, characters, other, premature, malformed, Xml, Parse, FeedText,
  is_item, add_text, on_pop, value_of, looked_up, on_token, parse_tokens, parse_xml, read_data_rss,
}

-- At most 31 titles, where there is a result.
abbrev pub IsBounded : Option Parse → Type 0
IsBounded none = Unit
IsBounded (some p) = length p.rss.recientes ≤ 31

module _ (f : FeedText) (u : UrlApi) (w : World) where
  looked_up-bounded :
      (p : Parse) → length p.rss.recientes ≤ 31 → length (looked_up f u w p).rss.recientes ≤ 31
  unfolding looked_up
  looked_up-bounded p h =
      mira_titulo-bounded u w (value_of f u w p.xml p.value) (f.trimmed_title p.xml.title_string)
        p.xml.link_string p.rss p.lista h

  closed-IsBounded :
      (p q : Parse) (o : Option Xml)
      → length q.rss.recientes ≤ 31
      → IsBounded (elim o [ none ↦ none | some x ↦ some (record q { xml = x }) ])
  closed-IsBounded p q none h = tt
  closed-IsBounded p q (some x) h = h

  text-IsBounded :
      (t : QString) (blank : Bool) (p : Parse) (pila : List ℕ)
      → length p.rss.recientes ≤ 31
      → IsBounded (elim pila [
        | [] ↦ some p
        | n ∷ rest ↦ if not blank then some (record p { xml = add_text t p.xml }) else some p
      ])
  text-IsBounded t blank p [] h = h
  text-IsBounded t true p (n ∷ pila) h = h
  text-IsBounded t false p (n ∷ pila) h = h

  on_token-IsBounded :
      (t : Token) (p : Parse) → length p.rss.recientes ≤ 31 → IsBounded (on_token f u w t p)
  unfolding on_token
  on_token-IsBounded (start_element name attrs) p h = h
  on_token-IsBounded (end_element name) p h = elim (Bool-cases (is_item name)) [
    | inl e ↦ rw e (closed-IsBounded p (looked_up f u w p) (on_pop p.xml) (looked_up-bounded p h))
    | inr e ↦ rw e h
  ]
  on_token-IsBounded (characters t blank) p h = text-IsBounded t blank p p.xml.pila h
  on_token-IsBounded other p h = h
  on_token-IsBounded premature p h = h
  on_token-IsBounded malformed p h = closed-IsBounded p p (on_pop p.xml) h

  next-IsBounded :
      (o : Option Parse) (next : Parse → Option Parse)
      → ((p : Parse) → length p.rss.recientes ≤ 31 → IsBounded (next p))
      → IsBounded o
      → IsBounded (elim o [ none ↦ none | some p ↦ next p ])
  next-IsBounded none next g h = tt
  next-IsBounded (some p) next g h = g p h

  parse_tokens-IsBounded :
      (ts : List Token) (p : Parse)
      → length p.rss.recientes ≤ 31
      → IsBounded (parse_tokens f u w ts p)
  unfolding parse_tokens on_token
  parse_tokens-IsBounded [] p h = h
  parse_tokens-IsBounded (malformed ∷ ts) p h = on_token-IsBounded malformed p h
  parse_tokens-IsBounded (start_element name attrs ∷ ts) p h =
      next-IsBounded (on_token f u w (start_element name attrs) p) (parse_tokens f u w ts)
        (parse_tokens-IsBounded ts) (on_token-IsBounded (start_element name attrs) p h)
  parse_tokens-IsBounded (end_element name ∷ ts) p h =
      next-IsBounded (on_token f u w (end_element name) p) (parse_tokens f u w ts)
        (parse_tokens-IsBounded ts) (on_token-IsBounded (end_element name) p h)
  parse_tokens-IsBounded (characters t blank ∷ ts) p h =
      next-IsBounded (on_token f u w (characters t blank) p) (parse_tokens f u w ts)
        (parse_tokens-IsBounded ts) (on_token-IsBounded (characters t blank) p h)
  parse_tokens-IsBounded (other ∷ ts) p h = parse_tokens-IsBounded ts p h
  parse_tokens-IsBounded (premature ∷ ts) p h = parse_tokens-IsBounded ts p h

  -- Reading a feed keeps the number of titles remembered at 31 at most.
  pub read_data_rss-IsBounded :
      (reply : Option (List Token)) (x : Xml) (s : Rss) (lista : List Regexp)
      → length s.recientes ≤ 31
      → IsBounded (read_data_rss f u w reply x s lista)
  unfolding read_data_rss parse_xml
  read_data_rss-IsBounded none x s lista h = h
  read_data_rss-IsBounded (some ts) x s lista h = parse_tokens-IsBounded ts _ h
