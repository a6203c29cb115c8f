-- ===== src/File/Kept.antt =====
-- sanitize_filename of src/file_transfer.c leaves a safe name alone.
use noxtor_cli.Prelude.{
  ℕ, zero, suc, ◌-◌, ◌≤◌, ◌≡◌, refl, ap, arith, length, true, false, [], ◌∷◌, map, ◌==◌, take,
}
use noxtor_cli.Common.{Bytes}
use noxtor_cli.File.Name.{
  slash, base_name, allowed, filter_char, undot_from, undot, visible, or_generated,
  sanitize_filename,
}
use noxtor_cli.File.SafeName.{AllAllowed, NoDots, Starts, IsSafe}

no_slash : (c : ℕ) → allowed c ≡ true → (c == slash) ≡ false
unfolding allowed
no_slash c h = ground arith

base_name_id : (found cs : Bytes) → AllAllowed cs → base_name found cs ≡ found
unfolding base_name AllAllowed
base_name_id found [] h = refl
base_name_id found (c ∷ cs) (h, t) = rw (no_slash c h) (base_name_id found cs t)

pub take_id : (n : ℕ) (cs : Bytes) → length cs ≤ n → take n cs ≡ cs
take_id zero [] h = refl
take_id zero (c ∷ cs) h = absurd (omega arith)
take_id (suc n) [] h = refl
take_id (suc n) (c ∷ cs) h = ap (λ ds. c ∷ ds) (take_id n cs (omega arith))

filter_id : (cs : Bytes) → AllAllowed cs → map filter_char cs ≡ cs
unfolding AllAllowed
filter_id [] h = refl
filter_id (c ∷ cs) (h, t) = rw (h, filter_id cs t) refl

undot_from_id : (a : ℕ) (cs : Bytes) → NoDots (a ∷ cs) → undot_from a cs ≡ a ∷ cs
unfolding undot_from NoDots
undot_from_id a [] h = refl
undot_from_id a (b ∷ bs) (h, t) = rw (h, undot_from_id b bs t) refl

safe_id :
    (max_len rnd : ℕ) (cs : Bytes)
    → NoDots cs
    → Starts cs
    → or_generated max_len rnd (visible (undot cs)) ≡ cs
unfolding Starts
safe_id max_len rnd [] n s = absurd s
safe_id max_len rnd (c ∷ cs) n s = rw (undot_from_id c cs n, s) refl

-- A name that is safe for the buffer is used as the peer sent it, whatever the random number is.
pub sanitize_filename_id :
    (max_len rnd : ℕ) (name : Bytes)
    → IsSafe max_len name
    → sanitize_filename name max_len rnd ≡ name
unfolding sanitize_filename
sanitize_filename_id max_len rnd name v =
    let fits = v.fits in
    let room : (max_len == 0) ≡ false = ground arith in
    rw
      (
        room,
        base_name_id name name v.characters,
        take_id (max_len - 1) name (omega arith),
        filter_id name v.characters,
      )
      (safe_id max_len rnd name v.no_parent v.visible_name)
