-- ===== src/Rss/Xml/Feed.antt =====
-- A whole feed: items, with elements and texts around them.
use mathlib.Core.List.{append-nil}
use rssani.Base.{
  ◌≡◌, refl, sym, ap, ◌∙◌, Bool, true, false, not, ◌&&◌, some, List, [], ◌∷◌, ◌++◌, arith, All,
  QString, codes, text_eq,
}
use rssani.Model.{Regexp}
use rssani.Rss.Types.{Rss}
use rssani.Rss.Match.{World}
use rssani.Rss.Title.{UrlApi}
use rssani.Rss.Xml.{
  Token, start_element, end_element, characters, other, premature, malformed, Xml, Parse, FeedText,
  is_item, on_start, on_token, parse_tokens, read_data_rss,
}
use rssani.Rss.Xml.Items.{Item, HasNoItem, items_tokens}
use rssani.Rss.Xml.Parsed.{items_done, items_done-pila, parse_tokens-items_done}

-- A token around the items: no item, no enclosure and no malformed token.
abbrev pub is_around : Token → Bool
is_around (start_element name attrs) = not (is_item name) && not (text_eq name (codes "enclosure"))
is_around (end_element name) = not (is_item name)
is_around (characters t blank) = true
is_around other = true
is_around premature = true
is_around malformed = false

pub last_tag : List Token → QString → QString
last_tag [] tag = tag
last_tag (start_element name attrs ∷ ts) tag = last_tag ts name
last_tag (t ∷ ts) tag = last_tag ts tag

-- Behind tokens around the items, outside every item.
abbrev pub around_done : List Token → Parse → Parse
around_done ts p = record p { xml = record x { current_tag = last_tag ts x.current_tag } }
  where
    open p use {xml as x}

module _ (f : FeedText) (u : UrlApi) (w : World) where
  parse_around :
      (around ts : List Token) (p : Parse)
      → p.xml.pila ≡ []
      → All (λ t. is_around t ≡ true) around
      → parse_tokens f u w (around ++ ts) p ≡ parse_tokens f u w ts (around_done around p)
  unfolding last_tag parse_tokens on_token on_start
  parse_around [] ts p e h = refl
  parse_around (start_element name attrs ∷ around) ts p e (t, h) =
      ground
        (arith, parse_around around ts (record p { xml = record p.xml { current_tag = name } }) e h)
  parse_around (end_element name ∷ around) ts p e (t, h) =
      ground (arith, parse_around around ts p e h)
  parse_around (characters t blank ∷ around) ts p e (_, h) =
      ground (arith, parse_around around ts p e h)
  parse_around (other ∷ around) ts p e (_, h) = parse_around around ts p e h
  parse_around (premature ∷ around) ts p e (_, h) = parse_around around ts p e h
  parse_around (malformed ∷ around) ts p e (t, h) = cc

  -- The state in which `parseXml` begins.
  abbrev pub begun : Xml → Rss → List Regexp → Parse
  begun x s lista = record { xml = x; value = []; rss = s; lista = lista; effects = [] }

  -- A reply that is a feed of whole items, none inside another, with any other elements and texts
  -- around them, read outside every item: the result is defined, and it is that of one call of
  -- `miraTitulo` for each item, in their order, each on the state that the call before left, with
  -- the title and the link that the item's own elements put together. What stands around the items
  -- only changes the tag that was read last.
  pub read_data_rss-items_done :
      (before behind : List Token) (is : List Item) (x : Xml) (s : Rss) (lista : List Regexp)
      → x.pila ≡ []
      → All (λ t. is_around t ≡ true) before
      → All (λ t. is_around t ≡ true) behind
      → All HasNoItem is
      → read_data_rss f u w (some (before ++ (items_tokens is ++ behind))) x s lista
        ≡ some (around_done behind (items_done f u w is (around_done before (begun x s lista))))
  unfolding read_data_rss
  read_data_rss-items_done before behind is x s lista e b a h =
      let p = around_done before (begun x s lista) in
      parse_around before (items_tokens is ++ behind) (begun x s lista) e b
      ∙ parse_tokens-items_done f u w is behind p h
      ∙ ap (λ l. parse_tokens f u w l (items_done f u w is p)) (sym (append-nil behind))
      ∙ parse_around behind [] (items_done f u w is p) (items_done-pila f u w is p ∙ e) a
      ∙ unfold parse_tokens in refl
