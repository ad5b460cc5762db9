-- ===== src/Rss/Torrent/Names.antt =====
-- Proofs about rss_lite.cpp.
-- The names that the files get.
use mathlib.Core.List.{reverse-append, reverse-cons, map-append}
use rssani.Base.{
  ℕ, ◌≡◌, refl, sym, ap, ◌∙◌, true, false, some, [], ◌∷◌, ◌++◌, ◌==◌, map, reverse, arith,
  if◌then◌else◌, All, QString, starts_with, starts_with-append, Option-cases, codes, inl, inr,
  lookup,
}
use rssani.Rss.Types.{Rss}
use rssani.Rss.Title.{UrlApi}
use rssani.Rss.Torrent.{
  NetworkReply, Disk, slash, backslash, dash, ends_with, replace, torrent_suffix, plain_name,
  fichero, id_name, post_of, reply_url,
}

-- A name of a file in the directory itself: no slash, no backslash, and `.torrent` at its end.
abbrev pub IsTorrentName : QString → Type 0
IsTorrentName name =
    All (λ c. ((c == slash) ≡ false) × ((c == backslash) ≡ false)) name
    × (ends_with name torrent_suffix ≡ true)

reverse-map : (f : ℕ → ℕ) (s : QString) → reverse (map f s) ≡ map f (reverse s)
reverse-map f [] = refl
reverse-map f (c ∷ s) =
    reverse-cons (f c) (map f s)
    ∙ ap (λ t. t ++ f c ∷ []) (reverse-map f s)
    ∙ sym (map-append f (reverse s) (c ∷ []))
    ∙ ap (map f) (sym (reverse-cons c s))

starts_with-map :
    (f : ℕ → ℕ) (s p : QString) → starts_with s p ≡ true → starts_with (map f s) (map f p) ≡ true
unfolding starts_with
starts_with-map f s [] h = refl
starts_with-map f [] (c ∷ p) h = cc
starts_with-map f (x ∷ s) (c ∷ p) h = ground (arith, starts_with-map f s p)

ends_with-map :
    (f : ℕ → ℕ) (s p : QString) → ends_with s p ≡ true → ends_with (map f s) (map f p) ≡ true
unfolding ends_with
ends_with-map f s p h =
    rw (reverse-map f s) (rw (reverse-map f p) (starts_with-map f (reverse s) (reverse p) h))

ends_with-append : (s p : QString) → ends_with (s ++ p) p ≡ true
unfolding ends_with
ends_with-append s p = rw (reverse-append s p) (starts_with-append (reverse p) (reverse s))

plain_name-All :
    (s : QString) → All (λ c. ((c == slash) ≡ false) × ((c == backslash) ≡ false)) (plain_name s)
unfolding plain_name
plain_name-All [] = tt
plain_name-All (c ∷ s) = ((ground arith, ground arith), plain_name-All s)

-- The replacements keep the ending.
pub plain_name-IsTorrentName :
    (s : QString) → ends_with s torrent_suffix ≡ true → IsTorrentName (plain_name s)
unfolding plain_name
plain_name-IsTorrentName s h = (
  plain_name-All s,
  ends_with-map (λ c. if c == backslash then dash else c) (replace slash dash s) torrent_suffix
      (ends_with-map (λ c. if c == slash then dash else c) s torrent_suffix h),
)

module _ (u : UrlApi) (d : Disk) where
  id_name-ends :
      (r : NetworkReply) (s : Rss) (n : QString)
      → id_name u d r s ≡ some n
      → ends_with n torrent_suffix ≡ true
  unfolding id_name
  id_name-ends r s n h =
      elim (Option-cases
        (lookup (u.scheme r.address ++ (codes "://" ++ u.host (reply_url u d r))) s.trackers)) [
          | inl e ↦ ground (arith, e)
          | inr (t, e) ↦ ground (
            arith,
            e,
            ends_with-append (u.query_item_value (reply_url u d r) t.id) torrent_suffix,
          )
        ]

  -- The name that is found ends in `.torrent`, wherever it comes from.
  pub fichero-ends :
      (r : NetworkReply) (s : Rss) (n : QString)
      → (fichero u d r s).0 ≡ some n
      → ends_with n torrent_suffix ≡ true
  unfolding fichero
  fichero-ends r s n h =
      ground (arith, id_name-ends r s n, ends_with-append (post_of u d r s) torrent_suffix)
