-- ===== src/Subida/Cut.antt =====
-- How the text of an announcement is cut.
use mathlib.Core.List.{append_assoc}
use rssani.Base.{
  ℕ, ◌+◌, ◌≡◌, ◌≢◌, sym, ap, ◌∙◌, some, [], ◌∷◌, ◌++◌, arith, ℤ, pos, ◌+ℤ◌, ◌-ℤ◌, QString, All,
  length, length-append, codes,
}
use rssani.Subida.{TextApi, mira_subida}

All-concat :
    (s : QString) (x : ℕ) → All (λ c. c ≢ b'-') s → x ≢ b'-' → All (λ c. c ≢ b'-') (s ++ x ∷ [])
All-concat [] x h n = (n, tt)
All-concat (c ∷ s) x h n = (h.0, All-concat s x h.1 n)

mira_subida-of :
    (api : TextApi) (s url : QString) (p q : ℤ)
    → api.index_of s b'-' ≡ p
    → api.last_index_of s b'-' ≡ q
    → api.address s ≡ some url
    → mira_subida api s
      ≡ some (record {
        seccion = api.mid s (pos 0) (p -ℤ pos 1);
        titulo = api.trimmed (api.mid s (p +ℤ pos 2) (q -ℤ p -ℤ pos 3));
        url = url;
      })
unfolding mira_subida
mira_subida-of api s url p q h k found = rw (found, mira_subida) (rw (h, k))

module _ (api : TextApi) (seccion medio resto : QString) (x : ℕ)
    (no_dash_before : All (λ c. c ≢ b'-') seccion)
    (no_dash_behind : All (λ c. c ≢ b'-') resto) where
  -- `seccion - medio`, a character, a dash and the rest.
  abbrev anuncio : QString
  anuncio = seccion ++ b' ' ∷ b'-' ∷ b' ' ∷ (medio ++ x ∷ b'-' ∷ resto)

  abbrev front : QString
  front = seccion ++ b' ' ∷ b'-' ∷ b' ' ∷ []

  anuncio-front : anuncio ≡ front ++ (medio ++ x ∷ b'-' ∷ resto)
  anuncio-front = sym (append_assoc seccion (b' ' ∷ b'-' ∷ b' ' ∷ []) (medio ++ x ∷ b'-' ∷ resto))

  first_dash : api.index_of anuncio b'-' ≡ pos (length seccion + 1)
  first_dash =
      ap (λ t. api.index_of t b'-')
        (sym (append_assoc seccion (b' ' ∷ []) (b'-' ∷ b' ' ∷ (medio ++ x ∷ b'-' ∷ resto))))
      ∙ api.index_of_first (seccion ++ b' ' ∷ []) _ b'-'
          (All-concat seccion b' ' no_dash_before (omega arith))
      ∙ ap pos (length-append seccion (b' ' ∷ []))

  last_dash : api.last_index_of anuncio b'-' ≡ pos (length seccion + length medio + 4)
  last_dash =
      ap (λ t. api.last_index_of t b'-')
        (anuncio-front
          ∙ ap (◌++◌ front) (sym (append_assoc medio (x ∷ []) (b'-' ∷ resto)))
          ∙ sym (append_assoc front (medio ++ x ∷ []) (b'-' ∷ resto)))
      ∙ api.last_index_of_last (front ++ (medio ++ x ∷ [])) resto b'-' no_dash_behind
      ∙ ap pos (
          omega (
            arith,
            length-append front (medio ++ x ∷ []),
            length-append seccion (b' ' ∷ b'-' ∷ b' ' ∷ []),
            length-append medio (x ∷ []),
          ))

  cut_seccion : api.mid anuncio (pos 0) (pos (length seccion + 1) -ℤ pos 1) ≡ seccion
  cut_seccion =
      let n : pos (length seccion + 1) -ℤ pos 1 ≡ pos (length seccion) = ground arith in
      ap (api.mid anuncio (pos 0)) n ∙ api.mid_part [] seccion _

  cut_titulo :
      api.mid anuncio
        (pos (length seccion + 1) +ℤ pos 2)
        (pos (length seccion + length medio + 4) -ℤ pos (length seccion + 1) -ℤ pos 3)
      ≡ medio
  cut_titulo =
      let n : pos (length seccion + 1) +ℤ pos 2 ≡ pos (length front) =
        ground (arith, length-append seccion (b' ' ∷ b'-' ∷ b' ' ∷ [])) in
      let m : pos (length seccion + length medio + 4) -ℤ pos (length seccion + 1) -ℤ pos 3
          ≡ pos (length medio) =
        ground arith in
      rw (n, m)
        (ap (λ t. api.mid t (pos (length front)) (pos (length medio))) anuncio-front
          ∙ api.mid_part front medio _)

  -- The section ends at the first dash, and the title at the last one, less the character before it.
  pub mira_subida-anuncio :
      (url : QString)
      → api.address anuncio ≡ some url
      → mira_subida api anuncio
        ≡ some (record { seccion = seccion; titulo = api.trimmed medio; url = url })
  mira_subida-anuncio url found =
      mira_subida-of api anuncio url _ _ first_dash last_dash found ∙ rw (cut_seccion, cut_titulo)

abbrev pub separador : QString
separador = codes " - "

-- An announcement `seccion - titulo - url` of a section and an address without a dash gives the
-- section, the title trimmed, and the address, whatever the title holds.
pub mira_subida_plain :
    (api : TextApi) (seccion titulo url : QString)
    → All (λ c. c ≢ b'-') seccion
    → All (λ c. c ≢ b'-') url
    → let subida = seccion ++ (separador ++ (titulo ++ (separador ++ url))) in
      api.address subida ≡ some url
      → mira_subida api subida
        ≡ some (record { seccion = seccion; titulo = api.trimmed titulo; url = url })
mira_subida_plain api seccion titulo url h k found =
    mira_subida-anuncio api seccion titulo (b' ' ∷ url) b' ' h (omega arith, k) url found

-- The title runs on into the address where that has a dash: up to two characters before the last
-- dash of the address.
pub mira_subida_dash :
    (api : TextApi) (seccion titulo url_a url_b : QString) (x : ℕ)
    → All (λ c. c ≢ b'-') seccion
    → All (λ c. c ≢ b'-') url_b
    → let url = url_a ++ x ∷ b'-' ∷ url_b in
      let subida = seccion ++ (separador ++ (titulo ++ (separador ++ url))) in
      api.address subida ≡ some url
      → mira_subida api subida
        ≡ some (record {
          seccion = seccion;
          titulo = api.trimmed (titulo ++ (separador ++ url_a));
          url = url;
        })
mira_subida_dash api seccion titulo url_a url_b x h k found =
    let join = append_assoc titulo (b' ' ∷ b'-' ∷ b' ' ∷ url_a) (x ∷ b'-' ∷ url_b) in
    let same = ap (λ t. seccion ++ b' ' ∷ b'-' ∷ b' ' ∷ t) join in
    ap (mira_subida api) (sym same)
    ∙ mira_subida-anuncio api seccion (titulo ++ b' ' ∷ b'-' ∷ b' ' ∷ url_a) url_b x h k
        (url_a ++ x ∷ b'-' ∷ url_b) (ap api.address same ∙ found)
