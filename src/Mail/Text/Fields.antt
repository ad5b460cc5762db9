-- ===== src/Mail/Text/Fields.antt =====
-- What a reader of the header that mailsender.cpp writes takes for its fields, as RFC 5322 reads one, but
-- with LF for the end of a line, as `mailData` writes it.
use mathlib.Core.List.{append_assoc, append-nil}
use rssani.Base.{
  ◌≡◌, refl, sym, ap, ◌∙◌, Bool, true, false, ◌==◌, List, [], ◌∷◌, ◌++◌, arith, if◌then◌else◌,
  any_of, QString, is_empty, All, ◌||◌,
}
use rssani.Mail.Mime.{line}

-- The lines up to the first empty one; `read` is what the line has so far.
unfoldable pub header_lines : QString → QString → List QString
header_lines read [] = read ∷ []
header_lines read (c ∷ s) =
    let begun = header_lines (read ++ c ∷ []) s in
    let next = header_lines [] s in
    if c == 10 then (if is_empty read then [] else read ∷ next) else begun

-- A line that begins with a blank goes on with the field before it: RFC 5322 unfolds the two.
abbrev pub begins_blank : QString → Bool
begins_blank [] = false
begins_blank (c ∷ t) = c == 32 || c == 9

abbrev pub attach : QString → List QString → List QString
attach l [] = l ∷ []
attach l (f ∷ fs) = if begins_blank f then (l ++ f) ∷ fs else l ∷ f ∷ fs

unfoldable pub unfolded : List QString → List QString
unfolded [] = []
unfolded (l ∷ ls) = attach l (unfolded ls)

-- The fields of the header of a text.
abbrev pub fields_of : QString → List QString
fields_of s = unfolded (header_lines [] s)

-- The text has the end of a line.
abbrev pub has_feed : QString → Bool
has_feed = any_of (λ c. c == 10)

header_lines_more :
    (t read rest : QString)
    → has_feed t ≡ false
    → header_lines read (t ++ rest) ≡ header_lines (read ++ t) rest
unfolding header_lines
header_lines_more [] read rest h = ap (λ r. header_lines r rest) (sym (append-nil read))
header_lines_more (c ∷ t) read rest h =
    ground (arith, h, header_lines_more t (read ++ c ∷ []) rest, append_assoc read (c ∷ []) t)

pub header_lines-line :
    (t rest : QString)
    → has_feed t ≡ false
    → is_empty t ≡ false
    → header_lines [] (line t ++ rest) ≡ t ∷ header_lines [] rest
unfolding header_lines
header_lines-line t rest h e =
    ap (header_lines []) (append_assoc t (10 ∷ []) rest)
    ∙ header_lines_more t [] (10 ∷ rest) h
    ∙ ground (arith, e)

abbrev pub first_blank : List QString → Bool
first_blank [] = false
first_blank (f ∷ fs) = begins_blank f

attach-first : (l : QString) (fs : List QString) → first_blank fs ≡ false → attach l fs ≡ l ∷ fs
attach-first l [] h = refl
attach-first l (f ∷ fs) h = ground (arith, h)

-- The text reads as these fields, where none of them has the end of a line in it.
pub record Reads (s : QString) (fs : List QString) : Type 0 where
  pub reads : All (λ t. has_feed t ≡ false) fs → fields_of s ≡ fs
  pub front : first_blank fs ≡ false

pub line-fields :
    (t s : QString) (fs : List QString)
    → has_feed t ≡ false
    → is_empty t ≡ false
    → first_blank fs ≡ false
    → fields_of s ≡ fs
    → fields_of (line t ++ s) ≡ t ∷ fs
unfolding unfolded
line-fields t s fs h e b g =
    ap unfolded (header_lines-line t s h e) ∙ ap (attach t) g ∙ attach-first t fs b

pub line-Reads :
    (t s : QString) (fs : List QString)
    → is_empty t ≡ false
    → begins_blank t ≡ false
    → Reads s fs
    → Reads (line t ++ s) (t ∷ fs)
line-Reads t s fs e b g = record {
  reads = λ hs. line-fields t s fs hs.0 e g.front (g.reads hs.1);
  front = b;
}

pub line_unless :
    (c : Bool) (t s : QString) (fs : List QString)
    → is_empty t ≡ false
    → begins_blank t ≡ false
    → Reads s fs
    → Reads ((if c then [] else line t) ++ s) ((if c then [] else t ∷ []) ++ fs)
line_unless true t s fs e b g = g
line_unless false t s fs e b g = line-Reads t s fs e b g

pub line_if :
    (c : Bool) (t s : QString) (fs : List QString)
    → is_empty t ≡ false
    → begins_blank t ≡ false
    → Reads s fs
    → Reads ((if c then line t else []) ++ s) ((if c then t ∷ [] else []) ++ fs)
line_if true t s fs e b g = line-Reads t s fs e b g
line_if false t s fs e b g = g

-- The empty line.
pub end-Reads : (rest : QString) → Reads (line [] ++ rest) []
unfolding header_lines unfolded
end-Reads rest = record { reads = λ h. refl; front = refl }
