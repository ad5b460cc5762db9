-- ===== src/Rss/Xml/Leak.antt =====
-- Proofs about rss_lite.cpp.
-- What an item that the data breaks off leaves for the next reply: the members stay as they are.
use mathlib.Core.List.{append_assoc, append-nil}
use rssani.Base.{
  ◌≡◌, refl, sym, ap, ◌∙◌, false, some, List, [], ◌∷◌, ◌++◌, arith, if◌then◌else◌, All, QString,
  codes, text_eq, QHash,
}
use rssani.Model.{Regexp}
use rssani.Rss.Types.{Rss}
use rssani.Rss.Match.{World}
use rssani.Rss.Title.{UrlApi, mira_titulo}
use rssani.Rss.Xml.{
  start_element, premature, Xml, Parse, FeedText, is_item, add_text, on_start, on_token, looked_up,
  parse_tokens, read_data_rss,
}
use rssani.Rss.Xml.Items.{
  Child, Item, HasNoItem, children_tokens, item_tokens, concat, child_xml, children_xml, item_xml,
}
use rssani.Rss.Xml.Parsed.{item_done, parse_item, parse_children}
use rssani.Rss.Xml.Feed.{begun}

-- The texts of the elements of that name.
unfoldable pub texts_under : QString → List Child → QString
texts_under tag [] = []
texts_under tag (c ∷ cs) = (if text_eq c.tag tag then concat c.texts else []) ++ texts_under tag cs

on_start-title :
    (name : QString) (attrs : QHash QString) (x : Xml)
    → ((on_start name attrs x).title_string ≡ x.title_string)
      × ((on_start name attrs x).current_tag ≡ name)
unfolding on_start
on_start-title name attrs x = ground arith

add_text-title :
    (t : QString) (x : Xml)
    → (add_text t x).title_string
      ≡ x.title_string ++ (if text_eq x.current_tag (codes "title") then t else [])
unfolding add_text
add_text-title t x = ground (arith, append-nil x.title_string)

child_xml-title :
    (c : Child) (x : Xml)
    → (child_xml c x).title_string
      ≡ x.title_string ++ (if text_eq c.tag (codes "title") then concat c.texts else [])
unfolding child_xml
child_xml-title c x =
    let (title, tag) = on_start-title c.tag c.attrs x in
    add_text-title (concat c.texts) (on_start c.tag c.attrs x) ∙ rw tag (rw title refl)

children_xml-title :
    (cs : List Child) (x : Xml)
    → (children_xml cs x).title_string ≡ x.title_string ++ texts_under (codes "title") cs
unfolding children_xml texts_under
children_xml-title [] x = sym (append-nil x.title_string)
children_xml-title (c ∷ cs) x =
    children_xml-title cs (child_xml c x)
    ∙ ap (λ t. t ++ texts_under (codes "title") cs) (child_xml-title c x)
    ∙ append_assoc x.title_string _ _

item_xml-title :
    (i : Item) (x : Xml)
    → (item_xml i x).title_string ≡ x.title_string ++ texts_under (codes "title") i.children
unfolding item_xml
item_xml-title i x =
    children_xml-title i.children (on_start (codes "item") i.attrs x)
    ∙ ap (λ t. t ++ texts_under (codes "title") i.children)
        (on_start-title (codes "item") i.attrs x).0

module _ (f : FeedText) (u : UrlApi) (w : World) where
  parse_cut :
      (attrs : QHash QString) (cs : List Child) (p : Parse)
      → All (λ c. is_item c.tag ≡ false) cs
      → parse_tokens f u w
          (start_element (codes "item") attrs ∷ (children_tokens cs ++ premature ∷ []))
          p
        ≡ some (record p { xml = children_xml cs (on_start (codes "item") attrs p.xml) })
  unfolding parse_tokens on_token
  parse_cut attrs cs p h =
      let x = on_start (codes "item") attrs p.xml in
      parse_children f u w cs (premature ∷ []) (record p { xml = x }) 0 p.xml.pila h
        (unfold on_start in unfold text_eq in refl)

  parse_one :
      (i : Item) (x : Xml) (s : Rss) (lista : List Regexp)
      → HasNoItem i
      → read_data_rss f u w (some (item_tokens i)) x s lista
        ≡ some (item_done f u w i (begun f u w x s lista))
  unfolding read_data_rss parse_tokens
  parse_one i x s lista h =
      let p = begun f u w x s lista in
      ap (λ ts. parse_tokens f u w ts p) (sym (append-nil (item_tokens i)))
      ∙ parse_item f u w i [] p h

  looked_up-title :
      (p : Parse) (title : QString)
      → p.xml.title_string ≡ title
      → (looked_up f u w p).effects
        ≡ p.effects
          ++ (mira_titulo u w
              (looked_up f u w p).value
              (f.trimmed_title title)
              p.xml.link_string
              p.rss
              p.lista).2
  unfolding looked_up
  looked_up-title p title h = rw (sym h) refl

  -- A reply whose data ends inside an item, after some of its elements, looks nothing up, but leaves
  -- their texts in the members. The item that the next reply begins with is then looked up with the
  -- title of the item that was cut off in front of its own.
  pub read_data_rss-leak :
      (attrs : QHash QString) (cs : List Child) (i : Item) (x : Xml) (s : Rss) (lista : List Regexp)
      → x.title_string ≡ []
      → All (λ c. is_item c.tag ≡ false) cs
      → HasNoItem i
      → (p q : Parse) × (read_data_rss f u w
            (some (start_element (codes "item") attrs ∷ (children_tokens cs ++ premature ∷ [])))
            x
            s
            lista
          ≡ some p)
        × (p.effects ≡ [])
        × (read_data_rss f u w (some (item_tokens i)) p.xml p.rss p.lista ≡ some q)
        × (q.effects
            ≡ (mira_titulo u w q.value
                (f.trimmed_title
                  (texts_under (codes "title") cs ++ texts_under (codes "title") i.children))
                (item_xml i p.xml).link_string
                s
                lista).2)
  unfolding read_data_rss
  read_data_rss-leak attrs cs i x s lista e h hi =
      let y = children_xml cs (on_start (codes "item") attrs x) in
      let p = record (begun f u w x s lista) { xml = y } in
      let title : y.title_string ≡ texts_under (codes "title") cs =
        children_xml-title cs (on_start (codes "item") attrs x)
        ∙ ap (λ t. t ++ texts_under (codes "title") cs)
            ((on_start-title (codes "item") attrs x).0 ∙ e) in
      let next : (item_xml i y).title_string
          ≡ texts_under (codes "title") cs ++ texts_under (codes "title") i.children =
        item_xml-title i y ∙ ap (λ t. t ++ texts_under (codes "title") i.children) title in
      (
        p,
        item_done f u w i (begun f u w y s lista),
        parse_cut attrs cs (begun f u w x s lista) h,
        refl,
        parse_one i y s lista hi,
        looked_up-title (record (begun f u w y s lista) { xml = item_xml i y }) _ next,
      )
