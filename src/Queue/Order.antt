-- ===== src/Queue/Order.antt =====
-- db_process_queue of src/database.c sends in order, and stops at the first failure.
use noxtor_cli.Prelude.{
  ◌≡◌, refl, ap, sym, ◌∙◌, ◌⊎◌, arith, true, false, List, [], ◌∷◌, ◌++◌, Option, none, some,
  Bool-cases, inl, inr,
}
use noxtor_cli.Common.{Bytes, Err, Result, ok, err}
use noxtor_cli.Peer.Types.{App}
use noxtor_cli.Queue.{Row, deleted, after_send, terminated, text_of, send_plain, send_rows}

-- The rows before the one that failed were all handled, and those after it are as they were.
pub record Stopped (send : App → Bytes → App × Result (Unit {0})) (rows : List Row) (a b : App)
    (e : Err) : Type 0 where
  pub handled : List Row
  pub row : Row
  pub left : List Row
  pub before : App
  pub parted : rows ≡ handled ++ row ∷ left
  pub done : send_rows send handled a ≡ (before, ok tt)
  pub failed :
      ((row.plain_alloc ≡ false) × (b ≡ before) × (e ≡ Err.alloc))
      ⊎ ((p : Bytes) × (row.plain ≡ some p) × (send before (text_of p) ≡ (b, err e)))

app_of : App × Result (Unit {0}) → App
app_of r = r.0

err_of : App × Result (Unit {0}) → Err
err_of (a, ok u) = Err.net
err_of (a, err e) = e

no_success : (a b : App) (e : Err) → ◌≡◌ {A = App × Result (Unit {0})} (a, ok tt) (b, err e) → ⊥
no_success a b e h = ground arith

module _ (send : App → Bytes → App × Result (Unit {0})) where
  head_fails :
      (r : Row) (rs : List Row) (a b : App) (e : Err)
      → ((r.plain_alloc ≡ false) × (b ≡ a) × (e ≡ Err.alloc))
        ⊎ ((p : Bytes) × (r.plain ≡ some p) × (send a (text_of p) ≡ (b, err e)))
      → Stopped send (r ∷ rs) a b e
  unfolding send_rows
  head_fails r rs a b e f = record {
    handled = [];
    row = r;
    left = rs;
    before = a;
    parted = refl;
    done = refl;
    failed = f;
  }

  -- A row that was handled, before those that stop.
  head_done :
      (r : Row) (rs : List Row) (a c b : App) (e : Err)
      → ((hs : List Row) → send_rows send (r ∷ hs) a ≡ send_rows send hs c)
      → Stopped send rs c b e
      → Stopped send (r ∷ rs) a b e
  head_done r rs a c b e step s = record {
    handled = r ∷ s.handled;
    row = s.row;
    left = s.left;
    before = s.before;
    parted = ap (λ xs. r ∷ xs) s.parted;
    done = step s.handled ∙ s.done;
    failed = s.failed;
  }

  sent_row :
      (r : Row) (rs : List Row) (a b : App) (e : Err) (p : Bytes) (o : App × Result (Unit {0}))
      → r.plain_alloc ≡ true
      → r.plain ≡ some p
      → terminated p ≡ true
      → send a (text_of p) ≡ o
      → after_send r.id (λ c. send_rows send rs c) o ≡ (b, err e)
      → ((c : App) → send_rows send rs c ≡ (b, err e) → Stopped send rs c b e)
      → Stopped send (r ∷ rs) a b e
  unfolding send_rows app_of err_of
  sent_row r rs a b e p (c, err x) alloc q t s h ih = head_fails r rs a b e (inr (p, q, s ∙ h))
  sent_row r rs a b e p (c, ok u) alloc q t s h ih =
      head_done r rs a (deleted r.id c) b e (λ hs. simp (alloc, q, t, s) refl)
        (ih (deleted r.id c) h)

  readable :
      (r : Row) (rs : List Row) (a b : App) (e : Err)
      → ((c : App) → send_rows send rs c ≡ (b, err e) → Stopped send rs c b e)
      → (o : Option Bytes) → r.plain ≡ o
      → r.plain_alloc ≡ true
      → send_plain send r.id (λ c. send_rows send rs c) a o ≡ (b, err e)
      → Stopped send (r ∷ rs) a b e
  unfolding send_rows
  readable r rs a b e ih none q alloc k =
      head_done r rs a (deleted r.id a) b e (λ hs. simp (alloc, q) refl) (ih (deleted r.id a) k)
  readable r rs a b e ih (some p) q alloc k = elim (Bool-cases (terminated p)) [
    | inr cut_off ↦
        head_done r rs a (deleted r.id a) b e (λ hs. simp (alloc, q, cut_off) refl)
          (ih (deleted r.id a) (simp cut_off refl ∙ k))
    | inl whole ↦
        sent_row r rs a b e p (send a (text_of p)) alloc q whole refl (simp whole refl ∙ k) ih
  ]

  -- If sending the queue ends with an error, the rows are some that were all handled, one that
  -- failed, and the rest: for the one that failed the plaintext could not be allocated or the
  -- callback refused its text with that error, and the state is as that left it, so that
  -- nothing after it was sent or deleted.
  pub send_rows-Stopped :
      (rows : List Row) (a b : App) (e : Err)
      → send_rows send rows a ≡ (b, err e)
      → Stopped send rows a b e
  unfolding send_rows app_of err_of
  send_rows-Stopped [] a b e h = absurd (no_success a b e h)
  send_rows-Stopped (r ∷ rs) a b e h = elim (Bool-cases r.plain_alloc) [
    | inr lacking ↦
        let q : ◌≡◌ {A = App × Result (Unit {0})} (a, err Err.alloc) (b, err e) =
          simp lacking refl ∙ h in
        head_fails r rs a b e (inl (lacking, sym (ap app_of q), sym (ap err_of q)))
    | inl alloc ↦
        readable r rs a b e (λ c k. send_rows-Stopped rs c b e k) r.plain refl alloc
          (simp alloc refl ∙ h)
  ]
