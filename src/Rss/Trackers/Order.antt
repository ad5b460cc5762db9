-- ===== src/Rss/Trackers/Order.antt =====
-- Proofs about `iniciaTrackers` and `fetch` of rss_lite.cpp.
-- The order in which the hash of credentials is read does not matter.
use mathlib.Core.List.Perm
use mathlib.Core.List.{
  Perm, Mem, mem-cons_self, mem-cons_of_mem, not-mem-nil, eq-or-mem_of_mem-cons,
}
use mathlib.Core.Logic.{∥∥₁_elim}
use mathlib.Core.Option
use mathlib.Core.Path.{subst, Path}
use rssani.Base.{
  ◌≡◌, sym, ap, ◌∙◌, inl, inr, false, Option, some, [], ◌∷◌, arith, Option-cases, Bool-cases,
  QString, is_empty, text_eq, text_eq_iff, QHash, lookup,
}
use rssani.Model.{Auth, DateTime}
use rssani.Rss.Types.{gets_rss, Rss}
use rssani.Rss.Trackers.{tracker_of, inicia_trackers, rss_request, fetch}
use rssani.Rss.Trackers.Init.{IsAuthHash, inicia_trackers-lookup}
use rssani.Rss.Trackers.Feed.{fetch-inicia_trackers}

lookup_set : (o o' : Option Auth) → IsProp (o ≡ o')
lookup_set = hlevel

lookup-Mem : (t : QString) (a : Auth) (m : QHash Auth) → lookup t m ≡ some a → Mem (t, a) m
unfolding lookup
lookup-Mem t a [] h = cc
lookup-Mem t a ((k, au) ∷ m) h = elim (Bool-cases (text_eq k t)) [
  | inl e ↦
      subst (λ p. Mem (t, a) (p ∷ m))
        (same t k a au (sym ((text_eq_iff k t).0 e)) (ground (arith, e, h))) mem-cons_self
  | inr e ↦ mem-cons_of_mem (k, au) (lookup-Mem t a m (ground (arith, e, h)))
]
  where
    same : (t k : QString) (a au : Auth) → t ≡ k → au ≡ a → Path (QString × Auth) (t, a) (k, au)
    same t k a au p q = cc

Mem-lookup :
    (t : QString) (a : Auth) (m : QHash Auth) → IsAuthHash m → Mem (t, a) m → lookup t m ≡ some a
unfolding lookup
Mem-lookup t a [] h e = absurd (not-mem-nil e)
Mem-lookup t a ((k, au) ∷ m) (key, fresh, h) e =
    ∥∥₁_elim (eq-or-mem_of_mem-cons e) (lookup_set _ _) (λ c. elim c [
      | inl q ↦ ground (
        arith,
        text_eq_iff k t,
        ap (λ (x : QString × Auth). x.0) q,
        ap (λ (x : QString × Auth). x.1) q,
      )
      | inr later ↦ ground (arith, text_eq_iff k t, Mem-lookup t a m h later, fresh)
    ])

-- The entries in another order.
lookup-Perm :
    (t : QString) (m m' : QHash Auth)
    → IsAuthHash m
    → IsAuthHash m'
    → Perm m m'
    → lookup t m ≡ lookup t m'
lookup-Perm t m m' h h' p = elim (Option-cases (lookup t m)) [
  | inr (a, e) ↦ e ∙ sym (Mem-lookup t a m' h' ((Perm.mem_iff p).0 (lookup-Mem t a m e)))
  | inl n ↦ elim (Option-cases (lookup t m')) [
    | inl n' ↦ n ∙ sym n'
    | inr (a, e) ↦ Mem-lookup t a m h ((Perm.mem_iff p).1 (lookup-Mem t a m' e)) ∙ sym e
  ]
]

-- Two readings of one hash of credentials: the trackers are the same, and so are the requests of a
-- fetch with a download path set, in another order.
pub fetch-Perm :
    (url_host : QString → QString) (now : DateTime) (entries entries' : QHash Auth) (s : Rss)
    (t : QString)
    → IsAuthHash entries
    → IsAuthHash entries'
    → Perm entries entries'
    → s.trackers ≡ []
    → s.lista_trackers ≡ []
    → is_empty s.values.ruta ≡ false
    → (lookup t (inicia_trackers entries s).trackers
        ≡ lookup t (inicia_trackers entries' s).trackers)
      × Perm
          (fetch url_host now (inicia_trackers entries s)).1
          (fetch url_host now (inicia_trackers entries' s)).1
fetch-Perm url_host now entries entries' s t h h' p e f path = (
  inicia_trackers-lookup t entries s h e
      ∙ ap (Option.map tracker_of) (lookup-Perm t entries entries' h h' p)
      ∙ sym (inicia_trackers-lookup t entries' s h' e),
  rw
      (
        fetch-inicia_trackers url_host now entries s h e f path,
        fetch-inicia_trackers url_host now entries' s h' e f path,
      )
      (Perm.map (λ (e : QString × Auth). gets_rss (rss_request url_host (tracker_of e.1))) p),
)
