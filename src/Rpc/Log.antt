-- ===== src/Rpc/Log.antt =====
-- `VerLog`: the loop that counts down through the log never reads out of range.
use mathlib.Core.List.{reverse-append}
use rssani.Base.{
  ℕ, zero, suc, ◌+◌, ◌-◌, ◌<◌, ◌≤◌, ◌≡◌, inl, inr, refl, sym, ap, ◌∙◌, true, false, some, List, [],
  ◌∷◌, ◌++◌, reverse, ℤ, pos, leb_ℤ, ◌-ℤ◌, arith, if◌then◌else◌, Bool-cases, length, get_elem?,
  take, drop, QString, get_elem?-of_lt, ◌==◌,
}
use rssani.Core.{Core}
use rssani.Rpc.{
  Env, ver_log, ok, log_response, handle, at, log_lines, int_of, max_ℤ, is_zero, ver_log_lines,
}

module _ {A : Type 0} where
  take-suc :
      (l : List A) (k : ℕ) (x : A) → get_elem? l k ≡ some x → take (suc k) l ≡ take k l ++ x ∷ []
  take-suc [] k x e = cc
  take-suc (y ∷ l) zero x e = ground arith
  take-suc (y ∷ l) (suc k) x e = ap (◌∷◌ y) (take-suc l k x e)

  get_elem?-drop : (l : List A) (s k : ℕ) → get_elem? (drop s l) k ≡ get_elem? l (s + k)
  get_elem?-drop l zero k = ap (get_elem? l) (omega arith)
  get_elem?-drop [] (suc s) k = refl
  get_elem?-drop (x ∷ l) (suc s) k =
      get_elem?-drop l s k ∙ ap (get_elem? (x ∷ l)) {x = suc (s + k)} {y = suc s + k} (omega arith)

log_lines-stop :
    (fuel : ℕ) (i stop : ℤ) (log : List QString)
    → leb_ℤ stop i ≡ false
    → log_lines (suc fuel) i stop log ≡ some []
unfolding log_lines
log_lines-stop fuel i stop log h = rw (h, log_lines)

log_lines-next :
    (fuel : ℕ) (i stop : ℤ) (log : List QString) (x : QString) (rest : List QString)
    → leb_ℤ stop i ≡ true
    → at log i ≡ some x
    → log_lines fuel (i -ℤ pos 1) stop log ≡ some rest
    → log_lines (suc fuel) i stop log ≡ some (x ∷ rest)
unfolding log_lines
log_lines-next fuel i stop log x rest h e k = rw (h, log_lines) (rw e (rw k))

reverse-take :
    (l : List QString) (k : ℕ) (x : QString)
    → get_elem? l k ≡ some x
    → x ∷ reverse (take k l) ≡ reverse (take (suc k) l)
reverse-take l k x e = rw (take-suc l k x e) (sym (reverse-append (take k l) (x ∷ [])))

-- The `m` lines from `s` on, newest first.
log_lines-down :
    (m fuel s : ℕ) (i : ℤ) (log : List QString)
    → i ≡ pos (s + m) -ℤ pos 1
    → m < fuel
    → s + m ≤ length log
    → log_lines fuel i (pos s) log ≡ some (reverse (take m (drop s log)))
log_lines-down m zero s i log e h b = elim h [ ]
log_lines-down zero (suc f) s i log e h b = log_lines-stop f i (pos s) log (ground arith)
log_lines-down (suc k) (suc f) s i log e h b =
    let (x, found) = get_elem?-of_lt log (s + k) (omega arith) in
    let here : i ≡ pos (s + k) = ground arith in
    rw here (
      log_lines-next f (pos (s + k)) (pos s) log x _ (ground arith) (unfold at in found)
        (log_lines-down k f s (pos (s + k) -ℤ pos 1) log refl (omega arith) (omega arith))
      ∙ ap some (reverse-take (drop s log) k x (get_elem?-drop log s k ∙ found)))

int_of-small : (n : ℕ) → n < 2147483648 → int_of (pos n) ≡ pos n
unfolding int_of
int_of-small n h = ground arith

int_of-below :
    (a b : ℕ)
    → a < 2147483648
    → b < 2147483648
    → int_of (pos a -ℤ pos b -ℤ pos 1) ≡ pos a -ℤ pos b -ℤ pos 1
unfolding int_of
int_of-below a b h k = ground arith

log_lines-slice :
    (fuel s b : ℕ) (log : List QString)
    → length log < fuel
    → s ≤ length log
    → log_lines fuel (pos (length log) -ℤ pos b -ℤ pos 1) (pos s) log
      ≡ some (reverse (take (length log - b - s) (drop s log)))
log_lines-slice zero s b log h k = elim h [ ]
log_lines-slice (suc f) s b log h k =
    elim (Bool-cases (leb_ℤ (pos s) (pos (length log) -ℤ pos b -ℤ pos 1))) [
      | inl more ↦
          log_lines-down (length log - b - s) (suc f) s _ log (ground arith) (omega arith)
            (ground arith)
      | inr over ↦
          let nothing : length log - b - s ≡ 0 = ground arith in
          rw nothing (log_lines-stop f _ (pos s) log over)
    ]

log_start :
    (fin size : ℕ)
    → size < 2147483648
    → max_ℤ (pos size -ℤ (if is_zero (pos fin) then int_of (pos size) else pos fin)) (pos 0)
      ≡ pos (size - (if fin == 0 then size else fin))
log_start fin size h = rw (int_of-small size h) (ground arith)

-- Of a log of fewer than 2 ^ 31 lines, and for indices that are an `int` and not negative,
-- `VerLog` replies with the lines from place `size - fin` up to place `size - ini`, newest first,
-- where a `fin` of 0 stands for the size and places below 0 count as 0.
pub ver_log_lem :
    (env : Env) (ini fin : ℕ) (c : Core)
    → length env.log < 2147483648
    → ini < 2147483648
    → fin < 2147483648
    → let size = length env.log in
      let start = size - (if fin == 0 then size else fin) in
      handle env (ver_log (pos ini) (pos fin)) c
      ≡ some (ok (log_response (reverse (take (size - ini - start) (drop start env.log)))), c, [])
unfolding handle ver_log_lines
ver_log_lem env ini fin c h k l =
    let size = length env.log in
    let start = size - (if fin == 0 then size else fin) in
    let lines : ver_log_lines (pos ini) (pos fin) env.log
        ≡ some (reverse (take (size - ini - start) (drop start env.log))) =
      rw (int_of-below size ini h k, log_start fin size h)
        (log_lines-slice (suc size) start ini env.log (omega arith) (omega arith)) in
    ground (arith, lines)
