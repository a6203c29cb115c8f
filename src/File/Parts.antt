-- ===== src/File/Parts.antt =====
-- The write of file_transfer_handle_tx of src/file_transfer.c: a part of a frame, or its end.
use noxtor_cli.Prelude.{
  join, ℕ, zero, suc, ◌+◌, ◌-◌, ◌%◌, ◌≤◌, ◌<◌, ◌≡◌, refl, ap, sym, subst, ◌∙◌, arith, true, List,
  [], ◌∷◌, ◌++◌, Option, none, some, leb, ◌==◌, length, take, drop, append_assoc, append_nil,
  take_all, Bool-cases, inl, inr,
}
use noxtor_cli.Common.{Bytes, u32_mod}
use noxtor_cli.Sodium.{Sodium}
use noxtor_cli.Peer.Types.{Peer, App, Env, Effect, write, set_peer}
use noxtor_cli.Peer.Actions.{no_tx, close_fd}
use noxtor_cli.Peer.Slot.{slot_same}
use noxtor_cli.File.Receive.{emit}
use noxtor_cli.File.Writes.{file_bytes, file_bytes-append}
use noxtor_cli.File.Sending.{Written, Taken, end_tx, file_frame, chunk_sent, wrote_part}
use noxtor_cli.File.Progress.{
  file_stream, next_number, stream_one_more, number_one_more, join_one_more, Origin, Within,
  Stopped, MovesOn, Sent,
}

no_take : (k : ℕ) → ◌≡◌ {A = Bytes} (take k []) []
no_take zero = refl
no_take (suc k) = refl

-- What is written in two steps.
take_more : (n k : ℕ) (xs : Bytes) → take n xs ++ take k (drop n xs) ≡ take (n + k) xs
take_more zero k xs = let e : k ≡ 0 + k = omega arith in ap (λ j. take j xs) e
take_more (suc n) k [] = no_take k ∙ sym (no_take (suc n + k))
take_more (suc n) k (x ∷ xs) =
    let e : suc (n + k) ≡ suc n + k = omega arith in
    ap (λ ys. x ∷ ys) (take_more n k xs) ∙ ap (λ j. take j (x ∷ xs)) e

module _ (S : Sodium) (env : Env) (o : Origin) (i : ℕ) (a : App) (put : ℕ → Written)
    (get : ℕ → Taken) where
  ended : (b : App) → ((end_tx i b).peers i).tx_file ≡ no_tx
  ended b =
      let c = emit b (close_fd (b.peers i).tx_file.fd) in
      ap (λ p. p.tx_file) (slot_same c i (record (c.peers i) { tx_file = no_tx }))

  pub dropped :
      (b : App)
      → Stopped S (a.peers i) put get
      → b.effects ++ close_fd (b.peers i).tx_file.fd ≡ a.effects ++ close_fd (a.peers i).tx_file.fd
      → Sent S o i a put get (end_tx i b)
  unfolding Sent
  dropped b w e = inr (inr (inr (inr (record { off = ended b; reason = w; recorded = e }))))

  close_bytes : (fd : Option ℕ) → file_bytes o.fd (close_fd fd) ≡ []
  unfolding file_bytes
  close_bytes none = refl
  close_bytes (some d) = refl

  -- The last bytes of a frame were written.
  whole-Sent :
      (v : Within S o i a) (new : List Effect) (b : App) (x t : ℕ)
      → b.peers i ≡ record (a.peers i) {
        tx_file = record (a.peers i).tx_file { tx_offset = x };
        last_active = t;
      }
      → b.effects ≡ o.base ++ new
      → file_bytes o.fd new ≡ file_stream o.seq v.cs ++ file_frame (next_number o.seq v.cs) v.c
      → Sent S o i a put get (chunk_sent env i b)
  unfolding Sent chunk_sent
  whole-Sent v new b x t slot e w =
      let f = (b.peers i).tx_file in
      let sent = f.sent_bytes + f.current_chunk_size in
      let p = record (b.peers i) {
        tx_seq = ((b.peers i).tx_seq + 1) % u32_mod;
        tx_file = record f {
          tx_buf = [];
          tx_offset = 0;
          sent_bytes = sent;
          current_chunk_size = 0;
        };
      } in
      let c = set_peer b i p in
      let same = slot_same b i p in
      let d = emit c (close_fd (c.peers i).tx_file.fd) in
      let counted : sent ≡ length (join (v.ms ++ v.m ∷ [])) =
        ap (λ (q : Peer). q.tx_file.sent_bytes + q.tx_file.current_chunk_size) slot
        ∙ (let n = v.counted in let y = v.chunk in let z = join_one_more v.ms v.m in omega arith) in
      let total : f.total_size ≡ o.size = ap (λ q. q.tx_file.total_size) slot ∙ v.total in
      let stream = w ∙ sym (stream_one_more o.seq v.cs v.c) in
      let fits = v.fits in
      let size = join_one_more v.ms v.m in
      elim (Bool-cases (leb f.total_size sent)) [
        | inl all ↦ rw all (
            inr (
              inr (
                inr (
                  inl (record {
                    ms = v.ms ++ v.m ∷ [];
                    cs = v.cs ++ v.c ∷ [];
                    current = v.current;
                    rest = v.rest;
                    new = new ++ close_fd (c.peers i).tx_file.fd;
                    off = ended c;
                    encrypted = v.encrypted;
                    complete = ground arith;
                    parted = v.parted;
                    recorded =
                        ap (λ xs. xs ++ close_fd (c.peers i).tx_file.fd) e
                        ∙ append_assoc o.base new (close_fd (c.peers i).tx_file.fd);
                    written =
                        file_bytes-append o.fd new (close_fd (c.peers i).tx_file.fd)
                        ∙ ap (λ x. file_bytes o.fd new ++ x) (close_bytes (c.peers i).tx_file.fd)
                        ∙ append_nil (file_bytes o.fd new)
                        ∙ stream;
                  })))))
        | inr part ↦ rw part (
            inr (
              inl (
                record {
                  ms = v.ms ++ v.m ∷ [];
                  cs = v.cs ++ v.c ∷ [];
                  current = v.current;
                  rest = v.rest;
                  new = new;
                  on = ap (λ q. q.tx_file.active) same ∙ ap (λ q. q.tx_file.active) slot ∙ v.on;
                  connected = ap (λ q. q.fd) same ∙ ap (λ q. q.fd) slot ∙ v.connected;
                  has = ap (λ q. q.session) same ∙ ap (λ q. q.session) slot ∙ v.has;
                  encrypted = v.encrypted;
                  numbered =
                      ap (λ q. q.tx_seq) same
                      ∙ ap (λ (q : Peer). (q.tx_seq + 1) % u32_mod) slot
                      ∙ ap (λ n. (n + 1) % u32_mod) v.numbered
                      ∙ sym (number_one_more o.seq v.cs v.c);
                  total = ap (λ q. q.tx_file.total_size) same ∙ total;
                  counted = ap (λ q. q.tx_file.sent_bytes) same ∙ counted;
                  left = ground arith;
                  parted = v.parted;
                  empty = ap (λ q. q.tx_file.tx_buf) same;
                  recorded = e;
                  written = stream;
                },
                subst (λ (q : Peer). (a.peers i).tx_file.sent_bytes < q.tx_file.sent_bytes)
                    (sym same)
                    (let n = v.counted in
                      let z = join_one_more v.ms v.m in
                      let y = v.some_bytes in omega (arith, counted)),
              )))
      ]

  one_write : (x : Bytes) → file_bytes o.fd (write o.fd x ∷ []) ≡ x
  unfolding file_bytes
  one_write x = let e : (o.fd == o.fd) ≡ true = ground arith in rw e (append_nil x)

  pub part-Sent :
      (v : Within S o i a) (n : ℕ)
      → 1 ≤ n
      → n ≤ length (a.peers i).tx_file.tx_buf - (a.peers i).tx_file.tx_offset
      → Sent S o i a put get (wrote_part env i o.fd a n)
  unfolding Sent MovesOn wrote_part
  part-Sent v n lo hi =
      let f = (a.peers i).tx_file in
      let ws = write o.fd (take n (drop f.tx_offset f.tx_buf)) ∷ [] in
      let p = record (a.peers i) {
        tx_file = record f { tx_offset = f.tx_offset + n };
        last_active = env.now;
      } in
      let b = set_peer (emit a ws) i p in
      let same = slot_same (emit a ws) i p in
      let whole = file_frame (next_number o.seq v.cs) v.c in
      let recorded : b.effects ≡ o.base ++ (v.new ++ ws) =
        ap (λ xs. xs ++ ws) v.recorded ∙ append_assoc o.base v.new ws in
      let size : length f.tx_buf ≡ length whole = ap (λ (x : Bytes). length x) v.buffered in
      let inside = v.unwritten in
      let written : file_bytes o.fd (v.new ++ ws)
          ≡ file_stream o.seq v.cs ++ take (f.tx_offset + n) whole =
        file_bytes-append o.fd v.new ws
        ∙ ap (λ x. file_bytes o.fd v.new ++ x) (one_write (take n (drop f.tx_offset f.tx_buf)))
        ∙ ap (λ x. x ++ take n (drop f.tx_offset f.tx_buf)) v.written
        ∙ append_assoc (file_stream o.seq v.cs) (take f.tx_offset whole)
            (take n (drop f.tx_offset f.tx_buf))
        ∙ ap
            (λ x. file_stream o.seq v.cs ++ (take f.tx_offset whole ++ take n (drop f.tx_offset x)))
            v.buffered
        ∙ ap (λ x. file_stream o.seq v.cs ++ x) (take_more f.tx_offset n whole) in
      elim (Bool-cases (f.tx_offset + n == length f.tx_buf)) [
        | inl all ↦
            let end : f.tx_offset + n ≡ length whole = ground arith in
            rw all (
              whole-Sent v (v.new ++ ws) b (f.tx_offset + n) env.now same recorded (
                written
                ∙ ap (λ x. file_stream o.seq v.cs ++ x)
                    (ap (λ k. take k whole) end ∙ take_all whole)))
        | inr part ↦ rw part (
            inr (
              inr (
                inl (
                  record {
                    ms = v.ms;
                    cs = v.cs;
                    m = v.m;
                    c = v.c;
                    current = v.current;
                    rest = v.rest;
                    new = v.new ++ ws;
                    on = ap (λ q. q.tx_file.active) same ∙ v.on;
                    connected = ap (λ q. q.fd) same ∙ v.connected;
                    has = ap (λ q. q.session) same ∙ v.has;
                    encrypted = v.encrypted;
                    numbered = ap (λ q. q.tx_seq) same ∙ v.numbered;
                    total = ap (λ q. q.tx_file.total_size) same ∙ v.total;
                    counted = ap (λ q. q.tx_file.sent_bytes) same ∙ v.counted;
                    chunk = ap (λ q. q.tx_file.current_chunk_size) same ∙ v.chunk;
                    parted = v.parted;
                    fits = v.fits;
                    some_bytes = v.some_bytes;
                    buffered = ap (λ q. q.tx_file.tx_buf) same ∙ v.buffered;
                    unwritten =
                        subst (λ (q : Peer). q.tx_file.tx_offset < length whole) (sym same)
                          (ground arith);
                    recorded = recorded;
                    written =
                        written
                        ∙ ap
                            (λ (q : Peer). file_stream o.seq v.cs ++ take q.tx_file.tx_offset whole)
                            (sym same);
                  },
                  inr (
                      subst (λ (q : Peer). f.tx_offset < q.tx_file.tx_offset) (sym same)
                        (omega arith)),
                ))))
      ]
