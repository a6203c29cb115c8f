-- ===== src/Prelude/Cuts.antt =====
-- Lists that are cut and put together again.
use Prim.Native.Nat.{ℕ, zero, suc, ◌+◌, ◌≤◌}
use mathlib.Core.Path.{◌≡◌, refl, ap}
use mathlib.Core.List.{List, [], ◌∷◌, ◌++◌}
use native.Mathlib.Omega.{arith}
use noxtor_cli.Prelude.Lists.{length, take, drop, length-take, length-drop}

module _ {ℓ} {A : Type ℓ} where
  -- All pieces, one behind the other.
  abbrev pub join : List (List A) → List A
  join [] = []
  join (p ∷ ps) = p ++ join ps

  pub append_assoc : (xs ys zs : List A) → (xs ++ ys) ++ zs ≡ xs ++ (ys ++ zs)
  append_assoc [] ys zs = refl
  append_assoc (x ∷ xs) ys zs = ap (λ ws. x ∷ ws) (append_assoc xs ys zs)

  pub append_nil : (xs : List A) → xs ++ [] ≡ xs
  append_nil [] = refl
  append_nil (x ∷ xs) = ap (λ ws. x ∷ ws) (append_nil xs)

  pub take_all : (xs : List A) → take (length xs) xs ≡ xs
  take_all [] = refl
  take_all (x ∷ xs) = ap (λ ws. x ∷ ws) (take_all xs)

  pub drop_all : (xs : List A) → drop (length xs) xs ≡ []
  drop_all [] = refl
  drop_all (x ∷ xs) = drop_all xs

  drop_none : (m n : ℕ) → drop {A = A} m [] ≡ drop n []
  drop_none zero zero = refl
  drop_none zero (suc n) = refl
  drop_none (suc m) zero = refl
  drop_none (suc m) (suc n) = refl

  pub drop_add : (m n : ℕ) (xs : List A) → drop (m + n) xs ≡ drop n (drop m xs)
  drop_add zero n xs = ground arith
  drop_add (suc m) n [] = drop_none (suc m + n) n
  drop_add (suc m) n (x ∷ xs) =
      let ih = drop_add m n xs in let e : suc m + n ≡ suc (m + n) = omega arith in rw e ih

  -- A piece from the middle has its length.
  pub length-piece :
      (xs : List A) (offset size : ℕ)
      → offset + size ≤ length xs
      → length (take size (drop offset xs)) ≡ size
  length-piece xs offset size h =
      let d = length-drop offset xs in let t = length-take size (drop offset xs) in omega arith
