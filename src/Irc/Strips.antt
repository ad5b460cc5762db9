-- ===== src/Irc/Strips.antt =====
-- Stripping against a grammar of mIRC text.
use rssani.Base.{
  ℕ, zero, suc, ◌+◌, ◌≡◌, ◌≤◌, ◌↔◌, inl, inr, refl, ap, Bool, true, false, ◌&&◌, ◌||◌, none, some,
  [], ◌∷◌, arith, ◌==◌, if◌then◌else◌, Bool-cases, Option-cases, length, get_elem?, drop, QString,
  All,
}
use rssani.Irc.{
  irc_code, color, is_format, past_digit, past_background, color_end, strip_loop,
  irc_color_strip_from_mirc,
}

module _ (is_digit : ℕ → Bool) where
  -- A text less the digit that it begins with, if it does.
  abbrev pub less_digit : QString → QString
  less_digit [] = []
  less_digit (c ∷ s) = if is_digit c then s else c ∷ s

  -- A text less `,` and one or two digits, if it begins with these.
  abbrev pub less_background : QString → QString
  less_background (c ∷ d ∷ s) = if c == b',' && is_digit d then less_digit s else c ∷ d ∷ s
  less_background s = s

  -- A text less the parameters of a colour code: one or two digits, and a background behind them.
  abbrev pub less_color : QString → QString
  less_color [] = []
  less_color (c ∷ s) = if is_digit c then less_background (less_digit s) else c ∷ s

  -- `Strips s t`: `t` is what a client shows of `s`.
  pub data Strips : QString → QString → Type 0 where
    end : Strips [] []
    format : {c : ℕ} {s t : QString} → is_format c ≡ true → Strips s t → Strips (c ∷ s) t
    colored :
        {c : ℕ} {s t : QString}
        → is_format c ≡ false
        → (c == irc_code color) ≡ true
        → Strips (less_color s) t
        → Strips (c ∷ s) t
    shown :
        {c : ℕ} {s t : QString}
        → is_format c ≡ false
        → (c == irc_code color) ≡ false
        → Strips s t
        → Strips (c ∷ s) (c ∷ t)

  color_end-suc :
      (x : ℕ) (s : QString) (i : ℕ)
      → color_end is_digit (x ∷ s) (suc i) ≡ suc (color_end is_digit s i)
  unfolding color_end
  color_end-suc x s i = ground arith

  drop-past_digit :
      (s : QString) (i : ℕ) → drop (suc (past_digit is_digit s i)) s ≡ less_digit (drop (suc i) s)
  drop-past_digit [] i = ground arith
  drop-past_digit (x ∷ []) zero = refl
  drop-past_digit (x ∷ y ∷ s) zero = ground arith
  drop-past_digit (x ∷ s) (suc i) = ground (arith, drop-past_digit s i)

  drop-past_background :
      (s : QString) (i : ℕ)
      → drop (suc (past_background is_digit s i)) s ≡ less_background (drop (suc i) s)
  drop-past_background [] i = ground arith
  drop-past_background (x ∷ []) zero = refl
  drop-past_background (x ∷ y ∷ []) zero = ground arith
  drop-past_background (x ∷ y ∷ z ∷ s) zero = ground (arith, drop-past_digit (x ∷ y ∷ z ∷ s) 2)
  drop-past_background (x ∷ s) (suc i) = ground (arith, drop-past_background s i)

  drop-color_end :
      (s : QString) (i : ℕ) → drop (suc (color_end is_digit s i)) s ≡ less_color (drop (suc i) s)
  unfolding color_end
  drop-color_end [] i = ground arith
  drop-color_end (x ∷ []) zero = refl
  drop-color_end (x ∷ y ∷ s) zero = ground (
    arith,
    drop-past_background (x ∷ y ∷ s) (past_digit is_digit (x ∷ y ∷ s) 1),
    drop-past_digit (x ∷ y ∷ s) 1,
  )
  drop-color_end (x ∷ s) (suc i) = rw (color_end-suc x s i) (drop-color_end s i)

  le-color_end : (s : QString) (i : ℕ) → i ≤ color_end is_digit s i
  unfolding color_end
  le-color_end s i = ground arith

  drop-get_elem? : (s : QString) (i c : ℕ) → get_elem? s i ≡ some c → drop i s ≡ c ∷ drop (suc i) s
  drop-get_elem? [] i c e = cc
  drop-get_elem? (x ∷ s) zero c e = ground arith
  drop-get_elem? (x ∷ s) (suc i) c e = drop-get_elem? s i c e

  drop_end : (s : QString) (i : ℕ) → get_elem? s i ≡ none → drop i s ≡ []
  drop_end [] zero e = refl
  drop_end [] (suc i) e = refl
  drop_end (x ∷ s) zero e = cc
  drop_end (x ∷ s) (suc i) e = drop_end s i e

  drop-length : (s : QString) (i : ℕ) → length s ≤ i → drop i s ≡ []
  drop-length [] zero h = refl
  drop-length [] (suc i) h = refl
  drop-length (x ∷ s) zero h = absurd (omega arith)
  drop-length (x ∷ s) (suc i) h = drop-length s i (omega arith)

  strip_loop-Strips :
      (fuel : ℕ) (s : QString) (i : ℕ)
      → length s ≤ i + fuel
      → Strips (drop i s) (strip_loop is_digit fuel s i)
  unfolding strip_loop
  strip_loop-Strips zero s i h = rw (drop-length s i (omega arith)) end
  strip_loop-Strips (suc fuel) s i h = elim (Option-cases (get_elem? s i)) [
    | inl e ↦ rw (drop_end s i e, e, strip_loop) end
    | inr (c, e) ↦
        rw (drop-get_elem? s i c e, e, strip_loop)
          (elim (Bool-cases (is_format c)) [
            | inl f ↦ rw f (format f (strip_loop-Strips fuel s (suc i) (omega arith)))
            | inr f ↦ elim (Bool-cases (c == irc_code color)) [
              | inl k ↦
                  rw (f, k)
                    (colored f k (
                      rw (← drop-color_end s i) (
                        strip_loop-Strips fuel s (suc (color_end is_digit s i))
                          (omega (arith, le-color_end s i)))))
              | inr k ↦ rw (f, k) (shown f k (strip_loop-Strips fuel s (suc i) (omega arith)))
            ]
          ])
  ]

  Strips-functional : {s t u : QString} → Strips s t → Strips s u → t ≡ u
  Strips-functional end end = refl
  Strips-functional (format f p) (format g q) = Strips-functional p q
  Strips-functional (format f p) (colored g k q) = cc
  Strips-functional (format f p) (shown g k q) = cc
  Strips-functional (colored f k p) (format g q) = cc
  Strips-functional (colored f k p) (colored g l q) = Strips-functional p q
  Strips-functional (colored f k p) (shown g l q) = cc
  Strips-functional (shown f k p) (format g q) = cc
  Strips-functional (shown f k p) (colored g l q) = cc
  Strips-functional (shown {c} f k p) (shown g l q) = ap (◌∷◌ c) (Strips-functional p q)

  -- `irc_color_strip_from_mirc` returns what the grammar says: every formatting code is dropped,
  -- every colour code with the longest parameters that follow it, and all else is kept.
  pub irc_color_strip_from_mirc-Strips :
      (s t : QString) → (irc_color_strip_from_mirc is_digit s ≡ t) ↔ Strips s t
  unfolding irc_color_strip_from_mirc
  irc_color_strip_from_mirc-Strips s t =
      let holds : Strips s (strip_loop is_digit (length s) s 0) =
        strip_loop-Strips (length s) s 0 (omega arith) in
      (λ e. rw e at holds, λ d. Strips-functional holds d)

  Strips-clean :
      {s t : QString} → Strips s t → All (λ c. (is_format c || c == irc_code color) ≡ false) t
  Strips-clean end = tt
  Strips-clean (format f p) = Strips-clean p
  Strips-clean (colored f k p) = Strips-clean p
  Strips-clean (shown f k p) = (rw (f, k), Strips-clean p)

  Strips-self :
      (s : QString) → All (λ c. (is_format c || c == irc_code color) ≡ false) s → Strips s s
  Strips-self [] h = end
  Strips-self (c ∷ s) h = shown (ground arith) (ground arith) (Strips-self s h.1)

  -- No bold, underline, reverse, reset or colour code is left in what is returned.
  pub irc_color_strip_from_mirc_clean :
      (s : QString)
      → All
          (λ c. (is_format c || c == irc_code color) ≡ false)
          (irc_color_strip_from_mirc is_digit s)
  irc_color_strip_from_mirc_clean s = Strips-clean ((irc_color_strip_from_mirc-Strips s _).0 refl)

  -- A text without these codes is returned as it is.
  pub irc_color_strip_from_mirc_plain :
      (s : QString)
      → All (λ c. (is_format c || c == irc_code color) ≡ false) s
      → irc_color_strip_from_mirc is_digit s ≡ s
  irc_color_strip_from_mirc_plain s h = (irc_color_strip_from_mirc-Strips s s).1 (Strips-self s h)
