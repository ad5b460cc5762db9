-- ===== src/Rss/Xml/Tests.antt =====
-- Runs of `parseXml` on small feeds, with no trackers and no rules.
use rssani.Base.{
  ◌≡◌, refl, true, false, some, none, [], ◌∷◌, ◌++◌, pos, QString, codes, text_eq, contains, List,
}
use rssani.Model.{default_values}
use rssani.Rss.Types.{Rss}
use rssani.Rss.Match.{World}
use rssani.Rss.Title.{UrlApi, mira_titulo}
use rssani.Rss.Xml.{
  Token, start_element, end_element, other, premature, malformed, Xml, Parse, FeedText,
  parse_tokens, read_data_rss,
}
use rssani.Rss.Xml.Items.{Child, Item, children_tokens, item_tokens, items_tokens, item_xml, concat}
use rssani.Rss.Xml.Parsed.{items_done}
use rssani.Rss.Xml.Feed.{around_done, begun, read_data_rss-items_done}
use rssani.Rss.Xml.Returns.{is_some, is_nested, parse_tokens-is_nested}
use rssani.Rss.Xml.Leak.{texts_under, read_data_rss-leak}

abbrev texto : FeedText
texto = record { category = λ s. none; section = λ s. none; trimmed_title = λ s. s }

abbrev url : UrlApi
url = record { scheme = λ s. s; host = λ s. s; query_item_value = λ a b. [] }

abbrev mundo : World
mundo = record {
  today = pos 100;
  now = 1000;
  date_from_string = λ s. pos 0;
  days_to = λ a b. pos 0;
  search = λ pattern text. contains text pattern;
  url_host = λ u. u;
  matches_opens = true;
  send_mail_result = λ a m. pos 0;
  stamp = [];
}

abbrev xml : Xml
xml = record {
  pila = [];
  current_tag = [];
  link_string = [];
  title_string = [];
  pub_date = [];
  description = [];
}

abbrev inicial : Rss
inicial = record {
  values = default_values;
  recientes = [];
  posts = [];
  trackers = [];
  lista_trackers = [];
  descargas = [];
  ultimo_rss = 0;
  rss_connected = true;
}

abbrev titulo : QString → Child
titulo t = record { tag = codes "title"; attrs = []; texts = t ∷ []; gap = [] }

abbrev noticia : Item
noticia = record { attrs = []; gap = codes " " ∷ []; children = titulo (codes "Uno") ∷ [] }

abbrev canal : List Token
canal = other ∷ start_element (codes "rss") [] ∷ []

abbrev inicio : Parse
inicio = record { xml = xml; value = []; rss = inicial; lista = []; effects = [] }

read_data_rss-items_done_example :
    read_data_rss texto url mundo
      (some (canal ++ (items_tokens (noticia ∷ noticia ∷ []) ++ end_element (codes "rss") ∷ [])))
      xml
      inicial
      []
    ≡ some (
        around_done (end_element (codes "rss") ∷ []) (
          items_done texto url mundo
            (noticia ∷ noticia ∷ [])
            (around_done canal (begun texto url mundo xml inicial []))))
unfolding text_eq
read_data_rss-items_done_example =
    read_data_rss-items_done texto url mundo canal (end_element (codes "rss") ∷ [])
      (noticia ∷ noticia ∷ []) xml inicial [] refl (refl, (refl, tt)) (refl, tt)
      ((refl, tt), ((refl, tt), tt))

parse_tokens-is_nested_example :
    is_some (parse_tokens texto url mundo (start_element (codes "item") [] ∷ malformed ∷ []) inicio)
    ≡ is_nested 0 (start_element (codes "item") [] ∷ malformed ∷ [])
parse_tokens-is_nested_example =
    parse_tokens-is_nested texto url mundo (start_element (codes "item") [] ∷ malformed ∷ []) inicio

-- A document that is broken before its first item pops the empty stack.
malformed_outside : is_nested 0 (canal ++ malformed ∷ []) ≡ false
unfolding is_nested text_eq
malformed_outside = refl

read_data_rss-leak_example :
    (p q : Parse) × (read_data_rss texto url mundo
        (some (
          start_element (codes "item") []
          ∷ (children_tokens (titulo (codes "Uno") ∷ []) ++ premature ∷ [])))
        xml
        inicial
        []
      ≡ some p)
    × (p.effects ≡ [])
    × (read_data_rss texto url mundo (some (item_tokens noticia)) p.xml p.rss p.lista ≡ some q)
    × (q.effects
        ≡ (mira_titulo url mundo q.value
            (codes "UnoUno")
            (item_xml noticia p.xml).link_string
            inicial
            []).2)
unfolding text_eq texts_under concat
read_data_rss-leak_example =
    read_data_rss-leak texto url mundo [] (titulo (codes "Uno") ∷ []) noticia xml inicial [] refl
      (refl, tt) (refl, tt)
