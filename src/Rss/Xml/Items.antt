-- ===== src/Rss/Xml/Items.antt =====
-- A feed of whole items: what `parseXml` makes of it.
use mathlib.Core.List.{append_assoc, append-nil}
use rssani.Base.{
  ℕ, ◌≡◌, refl, ◌∙◌, true, false, List, [], ◌∷◌, ◌++◌, map, arith, All, QString, codes, QHash,
}
use rssani.Rss.Xml.{Token, start_element, end_element, characters, Xml, is_item, add_text, on_start}

-- An element in an item, with its texts and the white space behind it.
pub record Child : Type 0 where
  pub tag : QString
  pub attrs : QHash QString
  pub texts : List QString
  pub gap : List QString

pub record Item : Type 0 where
  pub attrs : QHash QString
  pub gap : List QString
  pub children : List Child

abbrev pub blanks : List QString → List Token
blanks = map (λ t. characters t true)

unfoldable pub child_tokens : Child → List Token
child_tokens c =
    start_element c.tag c.attrs
    ∷ (map (λ t. characters t false) c.texts ++ end_element c.tag ∷ blanks c.gap)

unfoldable pub children_tokens : List Child → List Token
children_tokens [] = []
children_tokens (c ∷ cs) = child_tokens c ++ children_tokens cs

unfoldable pub item_tokens : Item → List Token
item_tokens i =
    start_element (codes "item") i.attrs
    ∷ (blanks i.gap ++ (children_tokens i.children ++ end_element (codes "item") ∷ []))

unfoldable pub items_tokens : List Item → List Token
items_tokens [] = []
items_tokens (i ∷ is) = item_tokens i ++ items_tokens is

unfoldable pub concat : List QString → QString
concat [] = []
concat (t ∷ ts) = t ++ concat ts

-- What an element leaves: an enclosure puts its address in the place of the link, and the text of
-- the element goes behind the member of that name.
unfoldable pub child_xml : Child → Xml → Xml
child_xml c x = add_text (concat c.texts) (on_start c.tag c.attrs x)

unfoldable pub children_xml : List Child → Xml → Xml
children_xml [] x = x
children_xml (c ∷ cs) x = children_xml cs (child_xml c x)

-- The members at the end of an item, and behind it.
unfoldable pub item_xml : Item → Xml → Xml
item_xml i x = children_xml i.children (on_start (codes "item") i.attrs x)

abbrev pub cleared : List ℕ → Xml → Xml
cleared pila x = record x {
  pila = pila;
  title_string = [];
  link_string = [];
  pub_date = [];
  description = [];
}

abbrev pub HasNoItem : Item → Type 0
HasNoItem i = All (λ c. is_item c.tag ≡ false) i.children

pub add_text-pila : (t : QString) (x : Xml) → (add_text t x).pila ≡ x.pila
unfolding add_text
add_text-pila t x = ground arith

pub add_text_none : (x : Xml) → add_text [] x ≡ x
unfolding add_text
add_text_none x = ground (
  arith,
  append-nil x.title_string,
  append-nil x.link_string,
  append-nil x.pub_date,
  append-nil x.description,
)

pub add_text-append : (s t : QString) (x : Xml) → add_text t (add_text s x) ≡ add_text (s ++ t) x
unfolding add_text
add_text-append s t x = ground (
  arith,
  append_assoc x.title_string s t,
  append_assoc x.link_string s t,
  append_assoc x.pub_date s t,
  append_assoc x.description s t,
)

pub on_start-pila :
    (name : QString) (attrs : QHash QString) (x : Xml)
    → is_item name ≡ false
    → (on_start name attrs x).pila ≡ x.pila
unfolding on_start
on_start-pila name attrs x h = rw h (ground arith)

pub child_xml-pila : (c : Child) (x : Xml) → is_item c.tag ≡ false → (child_xml c x).pila ≡ x.pila
unfolding child_xml
child_xml-pila c x h = add_text-pila _ _ ∙ on_start-pila c.tag c.attrs x h

pub children_xml-pila :
    (cs : List Child) (x : Xml)
    → All (λ c. is_item c.tag ≡ false) cs
    → (children_xml cs x).pila ≡ x.pila
unfolding children_xml
children_xml-pila [] x h = refl
children_xml-pila (c ∷ cs) x (e, h) = children_xml-pila cs (child_xml c x) h ∙ child_xml-pila c x e
