-- ===== src/Screen/Strip.antt =====
-- ui_strip_ansi of src/frontend.c. The two pointers of its loops are a mode and the rest of the
-- text, whose end is the NUL; a character is an unsigned byte.
use noxtor_cli.Prelude.{
  ℕ, zero, suc, Bool, not, ◌&&◌, ◌||◌, [], ◌∷◌, ◌++◌, leb, ltb, ◌==◌, if◌then◌else◌, get_or,
}
use noxtor_cli.Common.{Bytes}

-- Where the loops are: in plain text, behind an ESC, among the parameters of a CSI sequence, in an
-- OSC or DCS string with so many characters left to scan, or before the '\' of its end.
pub data Mode : Type 0 where
  plain escape parameters string_end : Mode
  osc dcs : ℕ → Mode

abbrev pub esc : ℕ
esc = 27

abbrev is_parameter : ℕ → Bool
is_parameter c = (leb 48 c && leb c 63) || (leb 32 c && leb c 47)

-- A control character other than TAB, LF and CR, or DEL.
abbrev pub is_control : ℕ → Bool
is_control c = (ltb c 32 && not (c == 9) && not (c == 10) && not (c == 13)) || c == 127

abbrev pub on_text : ℕ → Mode × Bytes
on_text c = if c == esc then (escape, []) else if is_control c then (plain, []) else (plain, c ∷ [])

-- ESC '\', of which `c` is the first character.
abbrev ends_string : ℕ → Bytes → Bool
ends_string c cs = c == esc && get_or cs 0 0 == 92

-- One character: the mode behind it and what is kept of it.
unfoldable pub step : Mode → ℕ → Bytes → Mode × Bytes
step plain c cs = on_text c
step escape c cs =
    if c == 91
    then (parameters, [])
    else if c == 93
    then (osc 256, [])
    else if c == 80
    then (dcs 256, [])
    else (plain, [])
step parameters c cs = if is_parameter c then (parameters, []) else (plain, [])
step string_end c cs = (plain, [])
step (osc zero) c cs =
    if c == 7 then (plain, []) else if ends_string c cs then (string_end, []) else on_text c
step (osc (suc n)) c cs =
    if c == 7 then (plain, []) else if ends_string c cs then (string_end, []) else (osc n, [])
step (dcs zero) c cs = if ends_string c cs then (string_end, []) else on_text c
step (dcs (suc n)) c cs = if ends_string c cs then (string_end, []) else (dcs n, [])

unfoldable pub strip_from : Mode → Bytes → Bytes
strip_from m [] = []
strip_from m (c ∷ cs) = let (m', out) = step m c cs in out ++ strip_from m' cs

unfoldable pub ui_strip_ansi : Bytes → Bytes
ui_strip_ansi str = strip_from plain str
