-- ===== src/Noise/Traces.antt =====
-- Any sequence of calls on one handshake (src/noise.c, section 3).
use noxtor_cli.Prelude.{
  ℕ, ◌+◌, ◌≤◌, ◌≡◌, refl, ap, sym, subst, ◌∙◌, Bool, true, false, List, [], ◌∷◌, arith, ◌⊎◌, inl,
  inr,
}
use noxtor_cli.Common.{Bytes, Result, ok, err, Err, key_len, hash_len, zeros}
use noxtor_cli.Sodium.{Sodium}
use noxtor_cli.Noise.Cipher.{Session, cipher_init}
use noxtor_cli.Noise.Symmetric.{symmetric_split}
use noxtor_cli.Noise.Messages.{Handshake}
use noxtor_cli.Noise.Handshake.{
  fail, handshake_init, handshake_write, handshake_read, handshake_is_complete, handshake_split,
}
use noxtor_cli.Noise.Lifecycle.{IsWiped, Outcome, handshake_write-Outcome, handshake_read-Outcome}

pub data Call : Type 0 where
  writes : Bytes → Bytes → ℕ → Call
  reads : Bytes → ℕ → Call
  splits : Call

unfoldable pub after_call : Sodium → Handshake → Call → Handshake
after_call S hs (writes eph payload room) = (handshake_write S hs eph payload room).0
after_call S hs (reads msg room) = (handshake_read S hs msg room).0
after_call S hs splits = (handshake_split S hs).0

unfoldable pub after : Sodium → Handshake → List Call → Handshake
after S hs [] = hs
after S hs (c ∷ cs) = after S (after_call S hs c) cs

abbrev one_if_ok {ℓ} : {A : Type ℓ} → Result A → ℕ
one_if_ok (ok a) = 1
one_if_ok (err e) = 0

abbrev message_ok : Sodium → Handshake → Call → ℕ
message_ok S hs (writes eph payload room) = one_if_ok (handshake_write S hs eph payload room).1
message_ok S hs (reads msg room) = one_if_ok (handshake_read S hs msg room).1
message_ok S hs splits = 0

-- How many messages were written or read with success.
unfoldable pub messages : Sodium → Handshake → List Call → ℕ
messages S hs [] = 0
messages S hs (c ∷ cs) = message_ok S hs c + messages S (after_call S hs c) cs

-- What is left of a handshake that was split.
record IsSpent (hs : Handshake) : Type 0 where
  complete : hs.msg_index ≡ 3
  static : (hs.s ≡ zeros key_len) × (hs.s_pub ≡ zeros key_len)
  ephemeral : (hs.e ≡ zeros key_len) × (hs.e_pub ≡ zeros key_len)
  remote : (hs.rs ≡ zeros key_len) × (hs.re ≡ zeros key_len)
  transcript : (hs.ss.ck ≡ zeros hash_len) × (hs.ss.h ≡ zeros hash_len)
  cipher : hs.ss.cs.k ≡ zeros key_len

pub record Inv (hs : Handshake) : Type 0 where
  stage : hs.msg_index ≤ 3
  wiped : hs.failed ≡ true → IsWiped hs
  spent : hs.split_done ≡ true → IsSpent hs

of_outcome : (hs : Handshake) (r : Handshake × Result Bytes) → Outcome hs r → Inv hs → Inv r.0
of_outcome hs (hs', ok m) o v = ground arith
of_outcome hs (hs', err e) (inl q) v = rw q v
of_outcome hs (hs', err e) (inr w) v = ground arith

split-Inv : (S : Sodium) (hs : Handshake) → Inv hs → Inv (handshake_split S hs).0
unfolding handshake_split handshake_is_complete symmetric_split cipher_init fail
split-Inv S hs v = ground arith

after_call-Inv : (S : Sodium) (hs : Handshake) (c : Call) → Inv hs → Inv (after_call S hs c)
unfolding after_call
after_call-Inv S hs (writes eph payload room) v =
    of_outcome hs _ (handshake_write-Outcome S hs eph payload room) v
after_call-Inv S hs (reads msg room) v = of_outcome hs _ (handshake_read-Outcome S hs msg room) v
after_call-Inv S hs splits v = split-Inv S hs v

-- Every sequence of calls keeps the invariant.
after-Inv : (S : Sodium) (hs : Handshake) (cs : List Call) → Inv hs → Inv (after S hs cs)
unfolding after
after-Inv S hs [] v = v
after-Inv S hs (c ∷ cs) v = after-Inv S (after_call S hs c) cs (after_call-Inv S hs c v)

init-Inv : (S : Sodium) (role : Bool) (s s_pub : Bytes) → Inv (handshake_init S role s s_pub)
unfolding handshake_init
init-Inv S role s s_pub = ground arith

counts :
    (hs : Handshake) (r : Handshake × Result Bytes)
    → Outcome hs r
    → r.0.msg_index ≡ hs.msg_index + one_if_ok r.1
counts hs (hs', ok m) o = omega arith
counts hs (hs', err e) (inl q) = ground arith
counts hs (hs', err e) (inr w) = omega arith

after_call-counts :
    (S : Sodium) (hs : Handshake) (c : Call)
    → (after_call S hs c).msg_index ≡ hs.msg_index + message_ok S hs c
unfolding after_call
after_call-counts S hs (writes eph payload room) =
    counts hs _ (handshake_write-Outcome S hs eph payload room)
after_call-counts S hs (reads msg room) = counts hs _ (handshake_read-Outcome S hs msg room)
after_call-counts S hs splits = unfold handshake_split symmetric_split fail in ground arith

after-messages :
    (S : Sodium) (hs : Handshake) (cs : List Call)
    → (after S hs cs).msg_index ≡ hs.msg_index + messages S hs cs
unfolding after messages
after-messages S hs [] = omega arith
after-messages S hs (c ∷ cs) =
    omega (arith, after_call-counts S hs c, after-messages S (after_call S hs c) cs)

-- A handshake that was split, or that failed, stays as it is under every sequence of calls, and
-- refuses each of them.
IsOver : Handshake → Type 0
IsOver hs = (hs.split_done ≡ true) ⊎ (hs.failed ≡ true)

over_refuses :
    (S : Sodium) (hs : Handshake)
    → IsOver hs
    → ((eph payload : Bytes) (room : ℕ)
        → handshake_write S hs eph payload room ≡ (hs, err Err.state))
      × ((msg : Bytes) (room : ℕ) → handshake_read S hs msg room ≡ (hs, err Err.state))
      × (handshake_split S hs ≡ (hs, err Err.state))
unfolding IsOver handshake_write handshake_read handshake_split
over_refuses S hs o = (λ eph payload room. ground arith, λ msg room. ground arith, ground arith)

after_call_over : (S : Sodium) (hs : Handshake) (c : Call) → IsOver hs → after_call S hs c ≡ hs
unfolding after_call
after_call_over S hs (writes eph payload room) o =
    ap (λ (r : Handshake × Result Bytes). r.0) ((over_refuses S hs o).0 eph payload room)
after_call_over S hs (reads msg room) o =
    ap (λ (r : Handshake × Result Bytes). r.0) ((over_refuses S hs o).1 msg room)
after_call_over S hs splits o =
    ap (λ (r : Handshake × Result Session). r.0) ((over_refuses S hs o).2)

over_after : (S : Sodium) (hs : Handshake) (cs : List Call) → IsOver hs → after S hs cs ≡ hs
unfolding after
over_after S hs [] o = refl
over_after S hs (c ∷ cs) o =
    ap (λ h. after S h cs) (after_call_over S hs c o) ∙ over_after S hs cs o

init_stage :
    (S : Sodium) (role : Bool) (s s_pub : Bytes) → (handshake_init S role s s_pub).msg_index ≡ 0
unfolding handshake_init
init_stage S role s s_pub = refl

split_marks :
    (S : Sodium) (hs : Handshake) (s : Session)
    → (handshake_split S hs).1 ≡ ok s
    → (hs.split_done ≡ false) × (3 ≤ hs.msg_index) × ((handshake_split S hs).0.split_done ≡ true)
unfolding handshake_split handshake_is_complete symmetric_split fail
split_marks S hs s e = ground arith

-- The call changes nothing, and its result is the error NOX_ERR_STATE.
pub Refused : Sodium → Handshake → Call → Type 0
Refused S hs (writes eph payload room) = handshake_write S hs eph payload room ≡ (hs, err Err.state)
Refused S hs (reads msg room) = handshake_read S hs msg room ≡ (hs, err Err.state)
Refused S hs splits = handshake_split S hs ≡ (hs, err Err.state)

over-Refused : (S : Sodium) (hs : Handshake) (c : Call) → IsOver hs → Refused S hs c
unfolding Refused
over-Refused S hs (writes eph payload room) o = (over_refuses S hs o).0 eph payload room
over-Refused S hs (reads msg room) o = (over_refuses S hs o).1 msg room
over-Refused S hs splits o = (over_refuses S hs o).2

-- A session comes from a handshake after exactly three messages, whatever calls were made, and at
-- most once: after it, and after any further calls, every write, read or split is refused with
-- NOX_ERR_STATE and changes nothing.
pub split_once :
    (S : Sodium) (role : Bool) (s_priv s_pub : Bytes) (before later : List Call) (c : Call)
    (s : Session)
    → (handshake_split S (after S (handshake_init S role s_priv s_pub) before)).1 ≡ ok s
    → (messages S (handshake_init S role s_priv s_pub) before ≡ 3)
      × (hs : Handshake) × (hs
          ≡ (handshake_split S (after S (handshake_init S role s_priv s_pub) before)).0)
      × (after S hs later ≡ hs)
      × Refused S (after S hs later) c
unfolding IsOver
split_once S role s_priv s_pub before later c s e =
    let i = handshake_init S role s_priv s_pub in
    let hs = after S i before in
    let (fresh, complete, marked) = split_marks S hs s e in
    let still = over_after S (handshake_split S hs).0 later (inl marked) in
    let v = after-Inv S i before (init-Inv S role s_priv s_pub) in
    (
      omega (arith, after-messages S i before, v.stage, init_stage S role s_priv s_pub),
      (handshake_split S hs).0,
      refl,
      still,
      subst (λ h. Refused S h c) (sym still)
          (over-Refused S (handshake_split S hs).0 c (inl marked)),
    )

-- The handshake has failed, or was split.
unfoldable pub IsDead : Handshake → Type 0
IsDead hs = (hs.failed ≡ true) ⊎ (hs.split_done ≡ true)

-- No key of either end, static or ephemeral, private or public, and no chaining key, transcript
-- hash or cipher key is left.
pub NoSecrets : Handshake → Type 0
NoSecrets hs =
    (hs.s ≡ zeros key_len)
    × (hs.s_pub ≡ zeros key_len)
    × (hs.e ≡ zeros key_len)
    × (hs.e_pub ≡ zeros key_len)
    × (hs.rs ≡ zeros key_len)
    × (hs.re ≡ zeros key_len)
    × (hs.ss.ck ≡ zeros hash_len)
    × (hs.ss.h ≡ zeros hash_len)
    × (hs.ss.cs.k ≡ zeros key_len)

-- After any sequence of calls on a new handshake that ends with the handshake failed or split, no
-- key of either end, static or ephemeral, private or public, and no chaining key, transcript hash
-- or cipher key is left in it.
pub secrets_wiped :
    (S : Sodium) (role : Bool) (s_priv s_pub : Bytes) (calls : List Call)
    → IsDead (after S (handshake_init S role s_priv s_pub) calls)
    → NoSecrets (after S (handshake_init S role s_priv s_pub) calls)
unfolding IsDead NoSecrets
secrets_wiped S role s_priv s_pub calls o =
    let i = handshake_init S role s_priv s_pub in
    let v = after-Inv S i calls (init-Inv S role s_priv s_pub) in ground arith
