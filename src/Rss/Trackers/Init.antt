-- ===== src/Rss/Trackers/Init.antt =====
-- The trackers that `iniciaTrackers` builds are those of the hash of credentials.
use mathlib.Core.List.{append_assoc, append-nil}
use mathlib.Core.Option
use rssani.Base.{
  ◌≡◌, refl, sym, ◌∙◌, Option, none, some, [], ◌∷◌, ◌++◌, map, arith, QString, text_eq_iff, QHash,
  lookup, insert, lookup-insert,
}
use rssani.Model.{Auth}
use rssani.Rss.Types.{Rss}
use rssani.Rss.Trackers.{tracker_of, inicia_trackers}

-- The entries of a hash of credentials: each key is the tracker of its entry, and none stands twice.
abbrev pub IsAuthHash : QHash Auth → Type 0
IsAuthHash [] = Unit
IsAuthHash ((k, au) ∷ entries) = (au.tracker ≡ k) × (lookup k entries ≡ none) × IsAuthHash entries

-- An entry of `m` if it has one, and otherwise `o`.
abbrev or_else : {A : Type 0} → Option A → Option A → Option A
or_else o none = o
or_else o (some a) = some a

from_none : {A : Type 0} (o : Option A) → or_else none o ≡ o
from_none none = refl
from_none (some a) = refl

-- The state behind one round.
abbrev stored : Auth → Rss → Rss
stored au s = record s {
  lista_trackers = s.lista_trackers ++ au.tracker ∷ [];
  trackers = insert au.tracker (tracker_of au) s.trackers;
}

inicia_trackers-from :
    (t : QString) (entries : QHash Auth) (s : Rss)
    → IsAuthHash entries
    → lookup t (inicia_trackers entries s).trackers
      ≡ or_else (lookup t s.trackers) (Option.map tracker_of (lookup t entries))
unfolding inicia_trackers lookup
inicia_trackers-from t [] s h = refl
inicia_trackers-from t ((k, au) ∷ entries) s (e, fresh, h) =
    inicia_trackers-from t entries (stored au s) h
    ∙ ground (
      arith,
      text_eq_iff k t,
      text_eq_iff au.tracker t,
      lookup-insert au.tracker t (tracker_of au) s.trackers,
    )

-- From no trackers, the tracker of an address is the one built from its credentials, and an address
-- without credentials has none: whatever the order in which the hash is read.
pub inicia_trackers-lookup :
    (t : QString) (entries : QHash Auth) (s : Rss)
    → IsAuthHash entries
    → s.trackers ≡ []
    → lookup t (inicia_trackers entries s).trackers ≡ Option.map tracker_of (lookup t entries)
unfolding lookup
inicia_trackers-lookup t entries s h e =
    inicia_trackers-from t entries s h ∙ rw e (from_none (Option.map tracker_of (lookup t entries)))

pub inicia_trackers-lista :
    (entries : QHash Auth) (s : Rss)
    → (inicia_trackers entries s).lista_trackers
      ≡ s.lista_trackers ++ map (λ e. e.1.tracker) entries
unfolding inicia_trackers
inicia_trackers-lista [] s = sym (append-nil s.lista_trackers)
inicia_trackers-lista ((k, au) ∷ entries) s =
    inicia_trackers-lista entries (stored au s) ∙ append_assoc s.lista_trackers (au.tracker ∷ []) _

pub inicia_trackers-values :
    (entries : QHash Auth) (s : Rss) → (inicia_trackers entries s).values ≡ s.values
unfolding inicia_trackers
inicia_trackers-values [] s = refl
inicia_trackers-values ((k, au) ∷ entries) s = inicia_trackers-values entries (stored au s)
