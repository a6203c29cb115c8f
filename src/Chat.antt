-- ===== src/Chat.antt =====
-- src/stdin_handler.c and src/event_loop.c together: a message that one end sends is shown at the other.
use noxtor_cli.Prelude.{
  join, ℕ, ◌+◌, ◌%◌, ◌≤◌, ◌<◌, ◌≡◌, refl, ap, sym, subst, ◌∙◌, arith, true, List, [], ◌∷◌, ◌++◌,
  map, Option, none, some, ◌==◌, length, length-append, append_assoc,
}
use noxtor_cli.Common.{Bytes, Result, ok, u32_mod, c_string, uint64_max}
use noxtor_cli.Sodium.{Sodium, SodiumLaws}
use noxtor_cli.Noise.Cipher.{Session, noise_decrypt}
use noxtor_cli.Noise.Transport.{receive_all, stream_round_trip, AllShort, cons_sent}
use noxtor_cli.Wire.{frame_header_encode}
use noxtor_cli.Peer.Types.{App, Env, Effect}
use noxtor_cli.File.Writes.{file_bytes}
use noxtor_cli.Send.Segmented.{Kernel, text_frame, nul, send_segmented_message_to}
use noxtor_cli.Send.Frames.{frames}
use noxtor_cli.Send.Delivery.{AllChunks, send_segmented-delivers}
use noxtor_cli.Onion.Honest.{NoNul}
use noxtor_cli.Receive.Stream.{stream}
use noxtor_cli.Receive.Pieces.{nothing_waits}
use noxtor_cli.Receive.Frames.{World, ui_print_incoming}
use noxtor_cli.Receive.Texts.{Ready, Got, Decrypts, text_frames, number_after, shown}
use noxtor_cli.Receive.Conversation.{text_frames-AllSent}
use noxtor_cli.Receive.Feed.{feed, feed-Got}

-- The pieces of a message on the screen.
unfoldable pub displayed : List Bytes → List Effect
displayed [] = []
displayed (t ∷ ts) = ui_print_incoming t ++ displayed ts

same_fd : (fd : ℕ) → (fd == fd) ≡ true
same_fd fd = ground arith

-- The bytes on the connection are the frames, one behind the other.
written_stream :
    (fd seq : ℕ) (cs : List Bytes)
    → file_bytes fd (frames fd seq cs) ≡ stream (text_frames seq cs) []
unfolding file_bytes frames stream text_frames text_frame
written_stream fd seq [] = refl
written_stream fd seq (c ∷ cs) =
    rw (same_fd fd, written_stream fd ((seq + 1) % u32_mod) cs)
      (append_assoc (frame_header_encode _) c (stream (text_frames ((seq + 1) % u32_mod) cs) []))

front-NoNul : (xs ys : Bytes) → NoNul (xs ++ ys) → NoNul xs × NoNul ys
unfolding NoNul
front-NoNul [] ys h = (tt, h)
front-NoNul (x ∷ xs) ys (n, h) = let (k, l) = front-NoNul xs ys h in ((n, k), l)

nul_text : (t : Bytes) → NoNul t → c_string (length (nul t)) (nul t) ≡ t
unfolding NoNul
nul_text [] h = refl
nul_text (x ∷ xs) (n, h) = rw n (ap (λ cs. x ∷ cs) (nul_text xs h))

shown-displayed : (ts : List Bytes) → NoNul (join ts) → shown (map nul ts) ≡ displayed ts
unfolding shown displayed
shown-displayed [] h = refl
shown-displayed (t ∷ ts) h =
    let (k, l) = front-NoNul t (join ts) h in rw (nul_text t k, shown-displayed ts l) refl

texts-AllShort : (ts : List Bytes) → AllChunks ts → AllShort (map nul ts)
unfolding AllChunks
texts-AllShort [] h = tt
texts-AllShort (t ∷ ts) (lo, hi, h) =
    (let l = length-append t (0 ∷ []) in omega arith, texts-AllShort ts h)

few_texts : (ts : List Bytes) → AllChunks ts → length (map nul ts) ≤ length (join ts)
unfolding AllChunks
few_texts [] h = omega arith
few_texts (t ∷ ts) (lo, hi, h) =
    let l = length-append t (join ts) in let ih = few_texts ts h in omega arith

refused :
    (s t : Session) (ms : List Bytes)
    → ◌≡◌ {A = Session × Option (List Bytes)} (s, none) (t, some ms)
    → ⊥
refused s t ms h = ground arith

list_of : Option (List Bytes) → List Bytes
list_of none = []
list_of (some xs) = xs

session_of : Session × Option (List Bytes) → Session
session_of r = r.0

texts_of : Session × Option (List Bytes) → List Bytes
unfolding list_of
texts_of r = list_of r.1

first_of : List Bytes → Bytes
first_of [] = []
first_of (x ∷ xs) = x

rest_of : List Bytes → List Bytes
rest_of [] = []
rest_of (x ∷ xs) = xs

AllFull : List Bytes → Type 0
AllFull [] = Unit {0}
AllFull (m ∷ ms) = (1 ≤ length m) × AllFull ms

nuls-AllFull : (ts : List Bytes) → AllFull (map nul ts)
unfolding AllFull
nuls-AllFull [] = tt
nuls-AllFull (t ∷ ts) = (let l = length-append t (0 ∷ []) in omega arith, nuls-AllFull ts)

-- What is received, message by message.
received-Decrypts :
    (S : Sodium) (t u : Session) (cs ms : List Bytes)
    → AllFull ms
    → receive_all S t cs ≡ (u, some ms)
    → Decrypts S t cs ms u
unfolding receive_all Decrypts AllFull session_of texts_of list_of first_of rest_of
received-Decrypts S t u [] [] full e = ap session_of e
received-Decrypts S t u [] (m ∷ ms) full e =
    absurd (let l : 0 ≡ length (m ∷ ms) = ap (λ r. length (texts_of r)) e in omega arith)
received-Decrypts S t u (c ∷ cs) ms full e =
    opened (noise_decrypt S t c) refl (receive_all S (noise_decrypt S t c).0 cs) refl ms full e
      (λ ns f q. received-Decrypts S (noise_decrypt S t c).0 u cs ns f q)
  where
    opened :
        (r : Session × Option Bytes)
        → noise_decrypt S t c ≡ r
        → (q : Session × Option (List Bytes)) → receive_all S r.0 cs ≡ q
        → (ms : List Bytes) → AllFull ms
        → cons_sent r.1 q ≡ (u, some ms)
        → ((ns : List Bytes)
            → AllFull ns
            → receive_all S r.0 cs ≡ (u, some ns)
            → Decrypts S r.0 cs ns u)
        → Decrypts S t (c ∷ cs) ms u
    opened (v, none) p (w, o) q ms full e ih = absurd (refused w u ms e)
    opened (v, some m) p (w, none) q ms full e ih = absurd (refused w u ms e)
    opened (v, some m) p (w, some ns) q [] full e ih =
        absurd (let l : length (m ∷ ns) ≡ 0 = ap (λ r. length (texts_of r)) e in omega arith)
    opened (v, some m) p (w, some ns) q (k ∷ ks) (full_k, full) e ih =
        let first : m ≡ k = ap (λ r. first_of (texts_of r)) e in
        let others : ns ≡ ks = ap (λ r. rest_of (texts_of r)) e in
        let same : w ≡ u = ap session_of e in
        (
          v,
          subst (λ x. noise_decrypt S t c ≡ (v, some x)) first p,
          full_k,
          ih ks full (q ∙ ap (λ x. (x, some ns)) same ∙ ap (λ xs. (u, some xs)) others),
        )

-- What the other end gets of a message: its pieces on the screen, and a session that is still paired.
pub record Arrived (S : Sodium) (env : Env) (W : World) (j : ℕ) (gd : ℕ) (cut : Bytes → List Bytes)
    (fd i : ℕ) (msg : Bytes) (a b : App) (r : App × Result (Unit {0})) : Type 0 where
  pub texts : List Bytes
  pub sent : App
  pub new : List Effect
  pub result : r ≡ (sent, ok tt)
  pub whole : join texts ≡ msg
  pub recorded : sent.effects ≡ a.effects ++ new
  pub next : Session
  pub other : Session
  pub number : ℕ
  pub has : (sent.peers i).session ≡ some next
  pub paired : other.rx ≡ next.tx
  pub got :
      Got j other number
        (b.effects ++ displayed texts)
        []
        (feed S env W j gd b (cut (file_bytes fd new)))

-- Where memory is not exhausted, the system takes every frame, the sending slot has a keyed
-- session with a nonce for each byte, the receiving slot has the session that is paired with it,
-- expects the sequence number of the sender and has nothing to send from its queue, its buffer is
-- empty, and the message has no NUL: however the connection cuts the bytes that are sent into
-- pieces, after the last piece the pieces of the message, which join to it, were handed to the
-- screen in their order without those that are blank; nothing stays in the receive buffer, and
-- the two sessions are still paired.
pub message_arrives :
    (S : Sodium) (L : SodiumLaws S) (env env' : Env) (os : Kernel) (W : World) (i fd j gd : ℕ)
    (a b : App) (s t : Session) (msg : Bytes) (cut : Bytes → List Bytes)
    → ((k n : ℕ) → os.writev k n ≡ some n)
    → os.buffers ≡ true
    → (a.peers i).fd ≡ some fd
    → (a.peers i).session ≡ some s
    → s.tx.has_key ≡ true
    → s.tx.n + length msg ≤ uint64_max
    → (a.peers i).tx_seq < u32_mod
    → NoNul msg
    → W.payload_alloc ≡ true
    → W.text_alloc ≡ true
    → t.rx ≡ s.tx
    → Ready j t (a.peers i).tx_seq b
    → (b.peers j).recv_buf ≡ []
    → ((bytes : Bytes) → join (cut bytes) ≡ bytes)
    → Arrived S env' W j gd cut fd i msg a b (send_segmented_message_to S env os i a msg)
unfolding texts_of session_of
message_arrives S L env env' os W i fd j gd a b s t msg cut full room on e key n small plain alloc
      text_alloc pair ready empty cuts =
    let d = send_segmented-delivers S L env os i fd a s msg full room on e key n in
    let count = few_texts d.texts d.pieces in
    let size = ap (λ (x : Bytes). length x) d.whole in
    let (s', t', cs, es, ds, same, n') =
      stream_round_trip S L s t (map nul d.texts) pair key (omega arith)
        (texts-AllShort d.texts d.pieces) in
    let both : (s', some cs) ≡ (d.next, some d.cts) = sym es ∙ d.encrypted in
    let cts : cs ≡ d.cts = ap texts_of both in
    let dec =
      subst (λ xs. Decrypts S t xs (map nul d.texts) t') cts
        (received-Decrypts S t t' cs (map nul d.texts) (nuls-AllFull d.texts) ds) in
    let seq = (a.peers i).tx_seq in
    let new = frames fd seq d.cts in
    let got =
      feed-Got S env' W j gd alloc text_alloc (cut (file_bytes fd new)) d.cts (map nul d.texts) t t'
        seq [] b.effects b (text_frames-AllSent S t t' d.cts (map nul d.texts) seq small dec) dec
        nothing_waits (cuts (file_bytes fd new) ∙ written_stream fd seq d.cts)
        (record { ready = ready; effects = refl; buffer = empty }) in
    record {
      texts = d.texts;
      sent = d.app;
      new = new;
      result = d.result;
      whole = d.whole;
      recorded = d.written;
      next = d.next;
      other = t';
      number = number_after seq d.cts;
      has = d.has_session;
      paired = same ∙ ap (λ x. x.tx) (ap session_of both);
      got =
          subst
            (λ fs.
              Got j t' (number_after seq d.cts) (b.effects ++ fs) []
                (feed S env' W j gd b (cut (file_bytes fd new))))
            (shown-displayed d.texts (subst NoNul (sym d.whole) plain)) got;
    }
