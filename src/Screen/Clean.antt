-- ===== src/Screen/Clean.antt =====
-- No escape sequence of a peer reaches the terminal, and plain text does (src/frontend.c,
-- ui_strip_ansi).
use noxtor_cli.Prelude.{
  ℕ, zero, suc, ◌≤◌, ◌≡◌, refl, arith, false, [], ◌∷◌, ◌++◌, ◌==◌, length, length-append,
  Bool-cases, inl, inr,
}
use noxtor_cli.Common.{Bytes}
use noxtor_cli.Screen.Strip.{
  Mode, plain, escape, parameters, string_end, osc, dcs, esc, is_control, on_text, step, strip_from,
  ui_strip_ansi,
}

-- Neither ESC, nor another control character than TAB, LF and CR, nor DEL.
unfoldable pub AllPrintable : Bytes → Type 0
AllPrintable [] = Unit {0}
AllPrintable (c ∷ cs) = ((c == esc) ≡ false) × (is_control c ≡ false) × AllPrintable cs

append-AllPrintable : (xs ys : Bytes) → AllPrintable xs → AllPrintable ys → AllPrintable (xs ++ ys)
unfolding AllPrintable
append-AllPrintable [] ys h k = k
append-AllPrintable (x ∷ xs) ys (h, n, t) k = (h, n, append-AllPrintable xs ys t k)

text-AllPrintable : (c : ℕ) → AllPrintable (on_text c).1
unfolding AllPrintable
text-AllPrintable c = elim (Bool-cases (c == esc)) [
  | inl e ↦ rw e tt
  | inr n ↦ elim (Bool-cases (is_control c)) [
    | inl y ↦ simp (n, y) tt
    | inr z ↦ simp (n, z) (refl, refl, tt)
  ]
]

step-AllPrintable : (m : Mode) (c : ℕ) (cs : Bytes) → AllPrintable (step m c cs).1
unfolding step AllPrintable
step-AllPrintable plain c cs = text-AllPrintable c
step-AllPrintable escape c cs = ground arith
step-AllPrintable parameters c cs = ground arith
step-AllPrintable string_end c cs = tt
step-AllPrintable (osc zero) c cs = ground (arith, text-AllPrintable c)
step-AllPrintable (osc (suc n)) c cs = ground arith
step-AllPrintable (dcs zero) c cs = ground (arith, text-AllPrintable c)
step-AllPrintable (dcs (suc n)) c cs = ground arith

from-AllPrintable : (m : Mode) (cs : Bytes) → AllPrintable (strip_from m cs)
unfolding strip_from AllPrintable
from-AllPrintable m [] = tt
from-AllPrintable m (c ∷ cs) =
    append-AllPrintable (step m c cs).1 _ (step-AllPrintable m c cs)
      (from-AllPrintable (step m c cs).0 cs)

strip_id : (cs : Bytes) → AllPrintable cs → strip_from plain cs ≡ cs
unfolding strip_from step AllPrintable
strip_id [] h = refl
strip_id (c ∷ cs) (h, n, t) = simp (h, n, strip_id cs t)

kept_once : (m : Mode) (c : ℕ) (cs : Bytes) → length (step m c cs).1 ≤ 1
unfolding step
kept_once plain c cs = ground arith
kept_once escape c cs = ground arith
kept_once parameters c cs = ground arith
kept_once string_end c cs = ground arith
kept_once (osc zero) c cs = ground arith
kept_once (osc (suc n)) c cs = ground arith
kept_once (dcs zero) c cs = ground arith
kept_once (dcs (suc n)) c cs = ground arith

from_fits : (m : Mode) (cs : Bytes) → length (strip_from m cs) ≤ length cs
unfolding strip_from
from_fits m [] = omega arith
from_fits m (c ∷ cs) = omega (
  arith,
  length-append (step m c cs).1 (strip_from (step m c cs).0 cs),
  kept_once m c cs,
  from_fits (step m c cs).0 cs,
)

-- What is left of any text has no ESC, no DEL and no control character but TAB, LF and CR; it is
-- not longer than the text; and stripping it again changes nothing.
pub ui_strip_ansi-AllPrintable :
    (str : Bytes)
    → AllPrintable (ui_strip_ansi str)
      × (length (ui_strip_ansi str) ≤ length str)
      × (ui_strip_ansi (ui_strip_ansi str) ≡ ui_strip_ansi str)
unfolding ui_strip_ansi
ui_strip_ansi-AllPrintable str =
    let clean = from-AllPrintable plain str in
    (clean, from_fits plain str, strip_id (strip_from plain str) clean)

-- Text without ESC, DEL and control characters other than TAB, LF and CR reaches the screen as it
-- is.
pub ui_strip_ansi_id : (str : Bytes) → AllPrintable str → ui_strip_ansi str ≡ str
unfolding ui_strip_ansi
ui_strip_ansi_id str h = strip_id str h
