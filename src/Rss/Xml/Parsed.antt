-- ===== src/Rss/Xml/Parsed.antt =====
-- Proofs about rss_lite.cpp.
-- Items, read by `parseXml`.
use mathlib.Core.List.{append_assoc}
use rssani.Base.{
  ℕ, ◌≡◌, refl, sym, ap, ◌∙◌, true, false, Option, List, [], ◌∷◌, ◌++◌, map, arith, All, QString,
  codes, text_eq,
}
use rssani.Rss.Match.{World}
use rssani.Rss.Title.{UrlApi}
use rssani.Rss.Xml.{
  Token, end_element, characters, Parse, FeedText, is_item, add_text, on_start, on_pop, looked_up,
  on_token, parse_tokens,
}
use rssani.Rss.Xml.Items.{
  Child, Item, blanks, child_tokens, children_tokens, item_tokens, items_tokens, concat, child_xml,
  children_xml, item_xml, cleared, HasNoItem, add_text-pila, add_text_none, add_text-append,
  on_start-pila, child_xml-pila, children_xml-pila,
}

module _ (f : FeedText) (u : UrlApi) (w : World) where
  abbrev pub parse : List Token → Parse → Option Parse
  parse = parse_tokens f u w

  parse_text :
      (t : QString) (ts : List Token) (p : Parse) (n : ℕ) (pila : List ℕ)
      → p.xml.pila ≡ n ∷ pila
      → parse (characters t false ∷ ts) p ≡ parse ts (record p { xml = add_text t p.xml })
  unfolding parse_tokens on_token
  parse_text t ts p n pila open_ = rw open_ refl

  parse_blank :
      (t : QString) (ts : List Token) (p : Parse) → parse (characters t true ∷ ts) p ≡ parse ts p
  unfolding parse_tokens on_token
  parse_blank t ts p = ground arith

  parse-blanks :
      (gap : List QString) (ts : List Token) (p : Parse) → parse (blanks gap ++ ts) p ≡ parse ts p
  parse-blanks [] ts p = refl
  parse-blanks (t ∷ gap) ts p = parse_blank t (blanks gap ++ ts) p ∙ parse-blanks gap ts p

  parse_texts :
      (texts : List QString) (ts : List Token) (p : Parse) (n : ℕ) (pila : List ℕ)
      → p.xml.pila ≡ n ∷ pila
      → parse (map (λ t. characters t false) texts ++ ts) p
        ≡ parse ts (record p { xml = add_text (concat texts) p.xml })
  unfolding concat
  parse_texts [] ts p n pila h =
      ap (λ x. parse ts (record p { xml = x })) (sym (add_text_none p.xml))
  parse_texts (t ∷ texts) ts p n pila h =
      parse_text t (map (λ t. characters t false) texts ++ ts) p n pila h
      ∙ parse_texts texts ts (record p { xml = add_text t p.xml }) n pila
          (add_text-pila t p.xml ∙ h)
      ∙ ap (λ x. parse ts (record p { xml = x })) (add_text-append t (concat texts) p.xml)

  parse_end :
      (name : QString) (ts : List Token) (p : Parse)
      → is_item name ≡ false
      → parse (end_element name ∷ ts) p ≡ parse ts p
  unfolding parse_tokens on_token
  parse_end name ts p h = ground arith

  parse_child :
      (c : Child) (ts : List Token) (p : Parse) (n : ℕ) (pila : List ℕ)
      → is_item c.tag ≡ false
      → p.xml.pila ≡ n ∷ pila
      → parse (child_tokens c ++ ts) p ≡ parse ts (record p { xml = child_xml c p.xml })
  unfolding child_tokens child_xml
  parse_child c ts p n pila e h =
      let x = on_start c.tag c.attrs p.xml in
      let started : parse (child_tokens c ++ ts) p
          ≡ parse
              ((map (λ t. characters t false) c.texts ++ end_element c.tag ∷ blanks c.gap) ++ ts)
              (record p { xml = x }) =
        unfold parse_tokens in unfold on_token in refl in
      started
      ∙ ap (λ l. parse l (record p { xml = x }))
          (append_assoc (map (λ t. characters t false) c.texts) (end_element c.tag ∷ blanks c.gap)
            ts)
      ∙ parse_texts c.texts _ (record p { xml = x }) n pila
          (on_start-pila c.tag c.attrs p.xml e ∙ h)
      ∙ parse_end c.tag _ (record p { xml = add_text (concat c.texts) x }) e
      ∙ parse-blanks c.gap ts (record p { xml = add_text (concat c.texts) x })

  pub parse_children :
      (cs : List Child) (ts : List Token) (p : Parse) (n : ℕ) (pila : List ℕ)
      → All (λ c. is_item c.tag ≡ false) cs
      → p.xml.pila ≡ n ∷ pila
      → parse (children_tokens cs ++ ts) p ≡ parse ts (record p { xml = children_xml cs p.xml })
  unfolding children_tokens children_xml
  parse_children [] ts p n pila e h = refl
  parse_children (c ∷ cs) ts p n pila (e, es) h =
      ap (λ l. parse l p) (append_assoc (child_tokens c) (children_tokens cs) ts)
      ∙ parse_child c (children_tokens cs ++ ts) p n pila e h
      ∙ parse_children cs ts (record p { xml = child_xml c p.xml }) n pila es
          (child_xml-pila c p.xml e ∙ h)

  -- An item in front of other tokens: `miraTitulo` is called with what the item has put together.
  abbrev pub item_done : Item → Parse → Parse
  item_done i p =
      let x = item_xml i p.xml in
      record (looked_up f u w (record p { xml = x })) { xml = cleared p.xml.pila x }

  parse_close :
      (ts : List Token) (p : Parse) (n : ℕ) (pila : List ℕ)
      → p.xml.pila ≡ n ∷ pila
      → parse (end_element (codes "item") ∷ ts) p
        ≡ parse ts (record (looked_up f u w p) { xml = cleared pila p.xml })
  unfolding parse_tokens on_token on_pop text_eq
  parse_close ts p n pila h = rw h refl

  pub parse_item :
      (i : Item) (ts : List Token) (p : Parse)
      → HasNoItem i
      → parse (item_tokens i ++ ts) p ≡ parse ts (item_done i p)
  unfolding item_tokens item_xml
  parse_item i ts p h =
      let x = on_start (codes "item") i.attrs p.xml in
      let open_ : x.pila ≡ 0 ∷ p.xml.pila = unfold on_start in unfold text_eq in refl in
      let y = children_xml i.children x in
      let started : parse (item_tokens i ++ ts) p
          ≡ parse
              ((blanks i.gap ++ (children_tokens i.children ++ end_element (codes "item") ∷ []))
                ++ ts)
              (record p { xml = x }) =
        unfold parse_tokens in unfold on_token in refl in
      started
      ∙ ap (λ l. parse l (record p { xml = x }))
          (append_assoc (blanks i.gap)
              (children_tokens i.children ++ end_element (codes "item") ∷ []) ts
            ∙ ap (◌++◌ (blanks i.gap))
                (append_assoc (children_tokens i.children) (end_element (codes "item") ∷ []) ts))
      ∙ parse-blanks i.gap _ (record p { xml = x })
      ∙ parse_children i.children _ (record p { xml = x }) 0 p.xml.pila h open_
      ∙ parse_close ts (record p { xml = y }) 0 p.xml.pila
          (children_xml-pila i.children x h ∙ open_)

  unfoldable pub items_done : List Item → Parse → Parse
  items_done [] p = p
  items_done (i ∷ is) p = items_done is (item_done i p)

  pub items_done-pila : (is : List Item) (p : Parse) → (items_done is p).xml.pila ≡ p.xml.pila
  unfolding items_done
  items_done-pila [] p = refl
  items_done-pila (i ∷ is) p = items_done-pila is (item_done i p)

  -- A feed of whole items, none inside another: the result is defined, and it is that of one call of
  -- `miraTitulo` for each item, in their order, with the link and the title that `item_xml` puts
  -- together, on the state that the call before left.
  pub parse_tokens-items_done :
      (is : List Item) (ts : List Token) (p : Parse)
      → All HasNoItem is
      → parse_tokens f u w (items_tokens is ++ ts) p ≡ parse_tokens f u w ts (items_done is p)
  unfolding items_tokens items_done
  parse_tokens-items_done [] ts p h = refl
  parse_tokens-items_done (i ∷ is) ts p (h, hs) =
      ap (λ l. parse l p) (append_assoc (item_tokens i) (items_tokens is) ts)
      ∙ parse_item i (items_tokens is ++ ts) p h
      ∙ parse_tokens-items_done is ts (item_done i p) hs
