-- ===== src/Rss/Xml.antt =====
-- `Rss_lite::parseXml` and `readDataRSS`. `QXmlStreamReader` is Qt's and enters as the tokens that it
-- gives for the data of a reply. The loop ends with the reader at its end, which is then cleared, so
-- the next reply is read afresh; and `clear` behind a malformed token leaves nothing to read. The date
-- that is computed and not used, and the traces to stdout, are left out.
pub mod Items
pub mod Parsed
pub mod Feed
pub mod Returns
pub mod Leak
pub mod Recent
mod Tests
use rssani.Base.{
  ℕ, Bool, true, false, not, ◌&&◌, Option, none, some, List, [], ◌∷◌, ◌++◌, if◌then◌else◌, QString,
  codes, text_eq, QHash, lookup,
}
use rssani.Model.{Regexp}
use rssani.Rss.Types.{Effect, Rss}
use rssani.Rss.Match.{World}
use rssani.Rss.Title.{UrlApi, mira_titulo}

-- A start element has its name and attributes; characters come with `isWhitespace`. `premature` is
-- the end of the data inside the document, and `malformed` any other error.
pub data Token : Type 0 where
  start_element : QString → QHash QString → Token
  end_element : QString → Token
  characters : QString → Bool → Token
  other premature malformed : Token

-- The members that `parseXml` works on; they stay from one reply to the next.
pub record Xml : Type 0 where
  pub pila : List ℕ
  pub current_tag : QString
  pub link_string : QString
  pub title_string : QString
  pub pub_date : QString
  pub description : QString

-- `parseXml` in the middle: its local `value`, and all that it changes.
pub record Parse : Type 0 where
  pub xml : Xml
  pub value : QString
  pub rss : Rss
  pub lista : List Regexp
  pub effects : List Effect

-- What it asks of `QRegularExpression`: the part in brackets of the match of `Category: (\\S+)` and of
-- `^\\[([^]]+)\\]\\s`, if there is one, and a text without the matches of
-- `\\s\\[S\\(\\d+\\)/L\\(\\d+\\)\\]` and then those of the second.
pub record FeedText : Type 0 where
  pub category : QString → Option QString
  pub section : QString → Option QString
  pub trimmed_title : QString → QString

-- `attributes().value( name )`.
abbrev pub attribute : QString → QHash QString → QString
attribute name attrs = elim (lookup name attrs) [ none ↦ [] | some v ↦ v ]

abbrev pub is_item : QString → Bool
is_item name = text_eq name (codes "item")

-- `… += xml->text()`, by the tag.
pub add_text : QString → Xml → Xml
add_text t x =
    if text_eq x.current_tag (codes "title")
    then record x { title_string = x.title_string ++ t }
    else if text_eq x.current_tag (codes "link")
    then record x { link_string = x.link_string ++ t }
    else if text_eq x.current_tag (codes "pubDate")
    then record x { pub_date = x.pub_date ++ t }
    else if text_eq x.current_tag (codes "description")
    then record x { description = x.description ++ t }
    else x

pub on_start : QString → QHash QString → Xml → Xml
on_start name attrs x =
    let opened : Xml =
      if is_item name
      then record x { link_string = attribute (codes "rss:about") attrs; pila = 0 ∷ x.pila }
      else x in
    let linked : Xml =
      if text_eq name (codes "enclosure")
      then record opened { link_string = attribute (codes "url") attrs }
      else opened in
    record linked { current_tag = name }

-- The four `clear`s and `pila.pop()`, which is undefined on an empty stack.
pub on_pop : Xml → Option Xml
on_pop x = elim x.pila [
  | [] ↦ none
  | n ∷ pila ↦ some (record x {
    pila = pila;
    title_string = [];
    link_string = [];
    pub_date = [];
    description = [];
  })
]

module _ (f : FeedText) (u : UrlApi) (w : World) where
  -- `value` at the end of an item.
  abbrev pub value_of : Xml → QString → QString
  value_of x value = elim (f.section x.title_string) [
    | some v ↦ v
    | none ↦ elim (f.category x.description) [ some v ↦ v | none ↦ value ]
  ]

  -- The call of `miraTitulo` at the end of an item.
  pub looked_up : Parse → Parse
  looked_up p =
      let value = value_of p.xml p.value in
      let (rss, lista, effects) =
        mira_titulo u w value (f.trimmed_title p.xml.title_string) p.xml.link_string p.rss
          p.lista in
      record p { value = value; rss = rss; lista = lista; effects = p.effects ++ effects }

  pub on_token : Token → Parse → Option Parse
  on_token (start_element name attrs) p = some (record p { xml = on_start name attrs p.xml })
  on_token (end_element name) p =
      if is_item name
      then elim (on_pop p.xml) [ none ↦ none | some x ↦ some (record (looked_up p) { xml = x }) ]
      else some p
  on_token (characters t blank) p = elim p.xml.pila [
    | [] ↦ some p
    | n ∷ pila ↦ if not blank then some (record p { xml = add_text t p.xml }) else some p
  ]
  on_token other p = some p
  on_token premature p = some p
  on_token malformed p = elim (on_pop p.xml) [ none ↦ none | some x ↦ some (record p { xml = x }) ]

  -- The loop over the tokens; `none` is behaviour that C++ leaves undefined.
  pub parse_tokens : List Token → Parse → Option Parse
  parse_tokens [] p = some p
  parse_tokens (malformed ∷ ts) p = on_token malformed p
  parse_tokens (t ∷ ts) p = elim (on_token t p) [ none ↦ none | some p' ↦ parse_tokens ts p' ]

  pub parse_xml : List Token → Xml → Rss → List Regexp → Option Parse
  unfolding parse_tokens
  parse_xml ts x s lista =
      parse_tokens ts (record { xml = x; value = []; rss = s; lista = lista; effects = [] })

  -- `readDataRSS`; `none` for the tokens is a reply with an error.
  unfoldable pub read_data_rss : Option (List Token) → Xml → Rss → List Regexp → Option Parse
  unfolding parse_xml
  read_data_rss none x s lista =
      some (record { xml = x; value = []; rss = s; lista = lista; effects = [] })
  read_data_rss (some ts) x s lista = parse_xml ts x s lista
