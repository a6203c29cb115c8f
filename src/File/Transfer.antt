-- ===== src/File/Transfer.antt =====
-- What file_transfer_handle_rx of src/file_transfer.c keeps true of a file that is being received.
use noxtor_cli.Prelude.{
  ℕ, ◌-◌, ◌≤◌, ◌≡◌, refl, ap, sym, subst, ◌∙◌, arith, true, false, List, [], ◌∷◌, ◌++◌, Option,
  none, some, leb, ◌==◌, length, take, append_assoc, append_nil, length-append, length-take,
  Bool-cases, inl, inr,
}
use noxtor_cli.Common.{Bytes, Result, ok, err, bytes_eq, bytes_eq-eq}
use noxtor_cli.Sodium.{Sodium}
use noxtor_cli.Peer.Types.{App, Env, Effect, close, unlink, fsync, file_received}
use noxtor_cli.Peer.Actions.{no_rx, unlink_partial}
use noxtor_cli.Peer.Slot.{slot_same}
use noxtor_cli.Peer.Quiet.{file_done-Quiet}
use noxtor_cli.File.Storage.{Storage, write_to_file}
use noxtor_cli.File.Writes.{
  file_bytes, reports, file_bytes-append, reports-append, Wrote, write_to_file-Wrote,
}
use noxtor_cli.File.Receive.{
  be64, emit, set_rx, done, abort_with, check_hash, after_chunk, with_bytes, after_write, rx_chunk,
  sync_close, sync_dir,
}
use noxtor_cli.File.Stages.{Announced, local, transfer, Receiving, Stored, Dropped, Outcome}

module _ (S : Sodium) (env : Env) (i : ℕ) where
  pub done_rx : (a : App) → ((done S env i a).0.peers i).rx_file ≡ no_rx
  done_rx a =
      let b = set_rx a i no_rx in
      let q = file_done-Quiet S env i b in
      ap (λ p. p.rx_file) q.slot
      ∙ ap (λ p. p.rx_file) (slot_same a i (record (a.peers i) { rx_file = no_rx }))

  done_effects : (a : App) → (done S env i a).0.effects ≡ a.effects
  done_effects a = (file_done-Quiet S env i (set_rx a i no_rx)).effects

  finished :
      (a : App) (base new es : List Effect)
      → a.effects ≡ base ++ new
      → (done S env i (emit a es)).0.effects ≡ base ++ (new ++ es)
  finished a base new es e =
      done_effects (emit a es) ∙ (ap (λ fs. fs ++ es) e ∙ append_assoc base new es)

  remove-Dropped :
      (base new mid later : List Effect) (n : Announced) (a : App)
      → a.effects ≡ base ++ new
      → reports new ≡ []
      → reports mid ≡ []
      → reports later ≡ []
      → Dropped base n i (done S env i (emit a (mid ++ unlink (local n) ∷ later))).0
  unfolding reports
  remove-Dropped base new mid later n a e s m l = record {
    rx = done_rx (emit a (mid ++ unlink (local n) ∷ later));
    earlier = new ++ mid;
    later = later;
    recorded =
        finished a base new (mid ++ unlink (local n) ∷ later) e
        ∙ ap (λ fs. base ++ fs) (sym (append_assoc new mid (unlink (local n) ∷ later)));
    silent =
        rw (reports-append (new ++ mid) (unlink (local n) ∷ later), reports-append new mid, s, m, l)
          refl;
  }

  pub abort-Dropped :
      (base new : List Effect) (n : Announced) (a : App) (bytes : Bytes) (time : ℕ)
      → a.effects ≡ base ++ new
      → a.downloads_dir_fd ≡ some n.dir
      → reports new ≡ []
      → Dropped base n i (abort_with S env i a (transfer n bytes time)).0
  unfolding abort_with reports
  abort-Dropped base new n a bytes time e d s =
      subst
        (λ o. Dropped base n i (done S env i (emit a (close n.fd ∷ unlink_partial o (local n)))).0)
        (sym d) (remove-Dropped base new (close n.fd ∷ []) [] n a e s refl refl)

  hash-Stored :
      (D : Storage) (base new : List Effect) (n : Announced) (a : App) (bytes : Bytes)
      → a.effects ≡ base ++ new
      → a.downloads_dir_fd ≡ some n.dir
      → reports new ≡ []
      → file_bytes n.fd new ≡ bytes
      → length bytes ≡ n.size
      → D.hash_final (be64 n.size ++ bytes) ≡ some n.hash
      → Stored D base n i
          (done S env i (
            emit a (
              sync_close (some n.fd)
              ++ (sync_dir a.downloads_dir_fd ++ file_received n.name ∷ [])))).0
          bytes
  unfolding reports file_bytes
  hash-Stored D base new n a bytes e d s w z h =
      subst
        (λ o.
          Stored D base n i
            (done S env i
              (emit a (sync_close (some n.fd) ++ (sync_dir o ++ file_received n.name ∷ [])))).0
            bytes)
        (sym d)
        (let es = fsync n.fd ∷ close n.fd ∷ fsync n.dir ∷ file_received n.name ∷ [] in
          record {
            rx = done_rx (emit a es);
            new = new ++ es;
            recorded = finished a base new es e;
            written = rw (file_bytes-append n.fd new es, w) (append_nil bytes);
            reported = rw (reports-append new es, s) refl;
            sized = z;
            hashed = h;
          })

  check_hash-Outcome :
      (D : Storage) (base new : List Effect) (n : Announced) (a : App) (bytes : Bytes) (time : ℕ)
      (o : Option Bytes)
      → a.effects ≡ base ++ new
      → a.downloads_dir_fd ≡ some n.dir
      → reports new ≡ []
      → file_bytes n.fd new ≡ bytes
      → length bytes ≡ n.size
      → D.hash_final (be64 n.size ++ bytes) ≡ o
      → Outcome D base n i bytes (check_hash S env i a (transfer n bytes time) o).0
  unfolding check_hash Outcome reports
  check_hash-Outcome D base new n a bytes time none e d s w z h =
      inr (inr (remove-Dropped base new [] (close n.fd ∷ []) n a e s refl refl))
  check_hash-Outcome D base new n a bytes time (some digest) e d s w z h =
      elim (Bool-cases (bytes_eq digest n.hash)) [
        | inl same ↦ rw same (
            inr (
              inl (
                hash-Stored D base new n a bytes e d s w z
                  (h ∙ ap some (bytes_eq-eq digest n.hash same)))))
        | inr other ↦ rw other (
            inr (inr (remove-Dropped base new (fsync n.fd ∷ close n.fd ∷ []) [] n a e s refl refl)))
      ]

  after_chunk-Outcome :
      (D : Storage) (base new : List Effect) (n : Announced) (a : App) (bytes : Bytes) (time : ℕ)
      → (a.peers i).rx_file ≡ transfer n bytes time
      → a.effects ≡ base ++ new
      → a.downloads_dir_fd ≡ some n.dir
      → reports new ≡ []
      → file_bytes n.fd new ≡ bytes
      → length bytes ≤ n.size
      → Outcome D base n i bytes (after_chunk S env D i a (transfer n bytes time)).0
  unfolding after_chunk Outcome
  after_chunk-Outcome D base new n a bytes time rx e d s w z =
      elim (Bool-cases (leb n.size (length bytes))) [
        | inl all ↦
            let exact : length bytes ≡ n.size = ground arith in
            let eq : (length bytes == n.size) ≡ true = ground arith in
            rw (all, eq)
              (check_hash-Outcome D base new n a bytes time (D.hash_final (be64 n.size ++ bytes)) e
                d s w exact refl)
        | inr part ↦ rw part (
            inl (record {
              time = time;
              rx = rx;
              dir_open = d;
              new = new;
              recorded = e;
              written = w;
              silent = s;
              incomplete = ground arith;
            }))
      ]

  grown :
      (n : Announced) (bytes more : Bytes) (time : ℕ)
      → with_bytes env (transfer n bytes time) more ≡ transfer n (bytes ++ more) env.now
  grown n bytes more time =
      rw (length-append bytes more, append_assoc (be64 n.size) bytes more) refl

  more_effects :
      (a : App) (base new : List Effect) (es : List Effect)
      → a.effects ≡ base ++ new
      → (emit a es).effects ≡ base ++ (new ++ es)
  more_effects a base new es e = ap (λ fs. fs ++ es) e ∙ append_assoc base new es

  after_write-Outcome :
      (D : Storage) (base : List Effect) (n : Announced) (a : App) (bytes more : Bytes)
      (r : List Effect × Result (Unit {0}))
      → (v : Receiving base n i a bytes) → length (bytes ++ more) ≤ n.size
      → Wrote n.fd more r
      → Outcome D base n i
          (bytes ++ more)
          (after_write S env D i a (transfer n bytes v.time) more r).0
  unfolding after_write Outcome Wrote
  after_write-Outcome D base n a bytes more (es, err e) v l (io, later, w, s) = inr (
      inr (
        abort-Dropped base (v.new ++ es) n (emit a es) bytes v.time
          (more_effects a base v.new es v.recorded) v.dir_open
          (rw (reports-append v.new es, v.silent, s) refl)))
  after_write-Outcome D base n a bytes more (es, ok u) v l (w, s) =
      let silent : reports (v.new ++ es) ≡ [] = rw (reports-append v.new es, v.silent, s) refl in
      elim (Bool-cases (D.hash_update more)) [
        | inl updated ↦ simp updated (
            subst
              (λ f.
                Outcome D base n i (bytes ++ more)
                  (after_chunk S env D i (set_rx (emit a es) i f) f).0)
              (sym (grown n bytes more v.time))
              (after_chunk-Outcome D base (v.new ++ es) n
                (set_rx (emit a es) i (transfer n (bytes ++ more) env.now)) (bytes ++ more) env.now
                (ap (λ p. p.rx_file)
                  (slot_same (emit a es) i
                    (record (a.peers i) { rx_file = transfer n (bytes ++ more) env.now })))
                (more_effects a base v.new es v.recorded) v.dir_open silent
                (rw (file_bytes-append n.fd v.new es, v.written, w) refl) l))
        | inr lost ↦ simp lost (
            inr (
              inr (
                abort-Dropped base (v.new ++ es) n (emit a es) bytes v.time
                  (more_effects a base v.new es v.recorded) v.dir_open silent)))
      ]

  -- One chunk of a file.
  pub rx_chunk-Outcome :
      (D : Storage) (base : List Effect) (n : Announced) (a : App) (bytes pt : Bytes)
      → (v : Receiving base n i a bytes)
      → Outcome D base n i
          (bytes ++ take (n.size - length bytes) pt)
          (rx_chunk S env D i a (transfer n bytes v.time) pt).0
  unfolding rx_chunk
  rx_chunk-Outcome D base n a bytes pt v =
      let part = v.incomplete in
      let more = take (n.size - length bytes) pt in
      let t = length-take (n.size - length bytes) pt in
      let some_left : leb n.size (length bytes) ≡ false = ground arith in
      rw some_left (
        after_write-Outcome D base n a bytes more (write_to_file D n.fd more) v
          (rw (length-append bytes more) (omega arith)) (write_to_file-Wrote D n.fd more))
