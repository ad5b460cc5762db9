-- ===== src/Daemon/Sound.antt =====
-- Proofs about rssani_lite.cpp and rss_lite.cpp.
-- What holds in every state of the program, and the parts of a step that keep it.
use mathlib.Core.Path.{subst}
use rssani.Base.{
  ℕ, ◌≡◌, ◌≤◌, refl, sym, Bool, true, false, Option, none, some, List, [], ◌∷◌, ◌*ℤ◌, arith, length,
  lookup, if◌then◌else◌, QString, QHash, Bool-cases, inl, inr,
}
use rssani.Model.{Auth, Regexp, DateTime}
use rssani.Core.{Core, ms_per_min, fits_int}
use rssani.Core.Agree.{AuthsAgree, last_auth}
use rssani.Settings.Store.{QSettings}
use rssani.Settings.{read_settings}
use rssani.Settings.Start.{read_settings-AuthsAgree}
use rssani.Rpc.{Outcome}
use rssani.Rpc.Invariant.{IsValid, after}
use rssani.Rss.Types.{Rss}
use rssani.Rss.Trackers.{inicia_trackers, fetch}
use rssani.Rss.Xml.{Parse}
use rssani.Rss.Xml.Recent.{IsBounded}
use rssani.Rss.Torrent.{Torrents}
use rssani.Rss.Torrent.Kept.{Keeps}
use rssani.Daemon.{Daemon, first_core, first_xml, first_rss, rssani_lite, with_rss}

-- The core is valid, at most 31 titles are remembered, no download is open, and the `.torrent` files of
-- the start are as they were.
pub record IsSound (files : QHash (List ℕ)) (a : Daemon) : Type 0 where
  pub valid : IsValid a.core
  pub bounded : length a.torrents.rss.recientes ≤ 31
  pub closed : a.torrents.downloads ≡ []
  pub kept : Keeps files a.torrents.files

inicia_trackers-recientes :
    (entries : QHash Auth) (s : Rss) → (inicia_trackers entries s).recientes ≡ s.recientes
unfolding inicia_trackers
inicia_trackers-recientes [] s = refl
inicia_trackers-recientes ((k, au) ∷ entries) s = inicia_trackers-recientes entries _

pub fetch-recientes :
    (url_host : QString → QString) (now : DateTime) (s : Rss)
    → (fetch url_host now s).0.recientes ≡ s.recientes
unfolding fetch
fetch-recientes url_host now s = ground arith

-- The rules are no part of it.
with_lista-IsValid :
    (c : Core) (lista : List Regexp) → IsValid c → IsValid (record c { lista = lista })
with_lista-IsValid c lista v = record {
  auths = v.auths;
  timer = record { positive = v.timer.positive; in_ms = v.timer.in_ms; fits = v.timer.fits };
}

-- The state behind the constructors.
unfoldable pub built : (q : QSettings) → q.Store → DateTime → QHash (List ℕ) → Daemon
built q store now files =
    let c = read_settings q store first_core in
    record {
      core = record c { intervalo = c.tiempo *ℤ ms_per_min };
      xml = first_xml;
      torrents = record {
        rss = inicia_trackers c.hash_auths (first_rss c.values now);
        downloads = [];
        files = files;
      };
    }

-- The constructors, where the interval fits.
pub rssani_lite-built :
    (q : QSettings) (store : q.Store) (now : DateTime) (files : QHash (List ℕ))
    → fits_int ((read_settings q store first_core).tiempo *ℤ ms_per_min) ≡ true
    → rssani_lite q store now files ≡ some (built q store now files)
unfolding rssani_lite built
rssani_lite-built q store now files e = ground (arith, e)

pub first-AuthsAgree : AuthsAgree first_core
unfolding lookup last_auth
first-AuthsAgree t = refl

built-IsSound :
    (q : QSettings) (store : q.Store) (now : DateTime) (files : QHash (List ℕ))
    → fits_int ((read_settings q store first_core).tiempo *ℤ ms_per_min) ≡ true
    → IsSound files (built q store now files)
unfolding built
built-IsSound q store now files e =
    let c = read_settings q store first_core in
    let (agree, positive) = read_settings-AuthsAgree q store first_core first-AuthsAgree in
    record {
      valid = record {
        auths = agree;
        timer = record { positive = positive; in_ms = refl; fits = e };
      };
      bounded =
          subst (λ l. length l ≤ 31)
            (sym (inicia_trackers-recientes c.hash_auths (first_rss c.values now))) (omega arith);
      closed = refl;
      kept = λ p b n h. h;
    }

-- Of a result, where there is one.
abbrev pub IsSoundAt : QHash (List ℕ) → Option Daemon → Type 0
IsSoundAt files none = Unit
IsSoundAt files (some a) = IsSound files a

pub at_some :
    (files : QHash (List ℕ)) (o : Option Daemon) (a : Daemon)
    → IsSoundAt files o
    → o ≡ some a
    → IsSound files a
at_some files o a h e = subst (IsSoundAt files) e h

pub if-IsSoundAt :
    (files : QHash (List ℕ)) (b : Bool) (x y : Option Daemon)
    → IsSoundAt files x
    → IsSoundAt files y
    → IsSoundAt files (if b then x else y)
if-IsSoundAt files true x y h g = h
if-IsSoundAt files false x y h g = g

pub started-IsSoundAt :
    (q : QSettings) (store : q.Store) (now : DateTime) (files : QHash (List ℕ))
    → IsSoundAt files (rssani_lite q store now files)
unfolding rssani_lite
started-IsSoundAt q store now files =
    let c = read_settings q store first_core in
    elim (Bool-cases (fits_int (c.tiempo *ℤ ms_per_min))) [
      | inl e ↦ rw e (unfold built in built-IsSound q store now files e)
      | inr e ↦ rw e tt
    ]

-- A new core, a new state of `Rss_lite` with new rules, and new downloads.
pub core-IsSoundAt :
    (files : QHash (List ℕ)) (a : Daemon) (o : Option Outcome)
    → IsSound files a
    → IsValid (after a.core o)
    → IsSoundAt files (elim o as (λ x. Option Daemon) [
      | none ↦ none
      | some (reply, c, calls) ↦ some (record a { core = c })
    ])
core-IsSoundAt files a none h v = tt
core-IsSoundAt files a (some (reply, c, calls)) h v = record {
  valid = v;
  bounded = h.bounded;
  closed = h.closed;
  kept = h.kept;
}

pub rss-IsSound :
    (files : QHash (List ℕ)) (a : Daemon) (s : Rss) (lista : List Regexp)
    → IsSound files a
    → length s.recientes ≤ 31
    → IsSound files (with_rss s (record a { core = record (a.core) { lista = lista } }))
rss-IsSound files a s lista h b = record {
  valid = with_lista-IsValid a.core lista h.valid;
  bounded = b;
  closed = h.closed;
  kept = h.kept;
}

pub parse-IsSoundAt :
    (files : QHash (List ℕ)) (a : Daemon) (o : Option Parse)
    → IsSound files a
    → IsBounded o
    → IsSoundAt files (elim o as (λ x. Option Daemon) [
      | none ↦ none
      | some p ↦
          some
            (with_rss p.rss (record a { core = record (a.core) { lista = p.lista }; xml = p.xml }))
    ])
parse-IsSoundAt files a none h b = tt
parse-IsSoundAt files a (some p) h b = record {
  valid = with_lista-IsValid a.core p.lista h.valid;
  bounded = b;
  closed = h.closed;
  kept = h.kept;
}

pub torrents-IsSound :
    (files : QHash (List ℕ)) (a : Daemon) (t : Torrents)
    → IsSound files a
    → t.rss.recientes ≡ a.torrents.rss.recientes
    → t.downloads ≡ []
    → Keeps a.torrents.files t.files
    → IsSound files (record a { torrents = t })
torrents-IsSound files a t h same closed keeps = record {
  valid = h.valid;
  bounded = subst (λ l. length l ≤ 31) (sym same) h.bounded;
  closed = closed;
  kept = λ p b n e. keeps p b n (h.kept p b n e);
}
