-- ===== src/Tests/Chats.antt =====
-- The theorems on messages and the queue (src/event_loop.c, src/database.c) at concrete inputs.
use noxtor_cli.Prelude.{
  join, ◌≡◌, refl, ap, ◌∙◌, true, List, [], ◌∷◌, ◌++◌, some, none, arith, take, drop,
  take-append-drop, append_nil,
}
use noxtor_cli.Common.{Bytes, Err, Result, ok, err}
use noxtor_cli.Peer.Types.{App}
use noxtor_cli.Send.Segmented.{send_segmented_message_to}
use noxtor_cli.Onion.Honest.{NoNul}
use noxtor_cli.Queue.{Row, send_rows, deleted}
use noxtor_cli.Queue.Order.{Stopped, send_rows-Stopped}
use noxtor_cli.Receive.Frames.{World, frames_loop, process_peer_frames}
use noxtor_cli.Receive.Rounds.{process_peer_frames_ends}
use noxtor_cli.Receive.InTime.{InTime}
use noxtor_cli.Chat.{Arrived, message_arrives}
use noxtor_cli.Tests.Toy.{
  toy, toy_laws, env, kernel, session, other_end, online, empty, two, connected_app,
}
use noxtor_cli.Tests.Files.{disk}
use noxtor_cli.Tests.Onions.{host}

abbrev world : World
world = record {
  host = host;
  disk = disk;
  kernel = kernel;
  payload_alloc = true;
  text_alloc = true;
  queue = λ o. ok [];
}

abbrev listening : App
listening = record connected_app {
  peers = two (record online { session = some other_end; queue_flushed = true }) empty;
}

abbrev hello : Bytes
hello = 104 ∷ 101 ∷ 121 ∷ []

hello-NoNul : NoNul hello
unfolding NoNul
hello-NoNul = (refl, (refl, (refl, tt)))

-- The connection brings five bytes first.
abbrev five : Bytes → List Bytes
five bytes = take 5 bytes ∷ drop 5 bytes ∷ []

join-five : (bytes : Bytes) → join (five bytes) ≡ bytes
join-five bytes = ap (λ b. take 5 bytes ++ b) (append_nil (drop 5 bytes)) ∙ take-append-drop 5 bytes

message_arrives_example :
    Arrived toy env world 0 6 five 6 0 hello connected_app listening
      (send_segmented_message_to toy env kernel 0 connected_app hello)
message_arrives_example =
    message_arrives toy toy_laws env env kernel world 0 6 0 6 connected_app listening session
      other_end hello five (λ k n. refl) refl refl refl refl (omega arith) (omega arith) hello-NoNul
      refl refl refl (record { has = refl; expects = refl; flushed = refl }) refl join-five

abbrev offline : App → Bytes → App × Result (Unit {0})
offline b text = (b, err Err.net)

abbrev queued : List Row
queued =
    record {
      id = 1;
      nonce_bytes = 24;
      cipher_bytes = 20;
      cipher_alloc = true;
      plain_alloc = true;
      plain = none;
    }
    ∷ record {
      id = 2;
      nonce_bytes = 24;
      cipher_bytes = 20;
      cipher_alloc = true;
      plain_alloc = true;
      plain = some (104 ∷ 105 ∷ 0 ∷ []);
    }
    ∷ []

abbrev one_deleted : App
one_deleted = deleted 1 connected_app

fails : send_rows offline queued connected_app ≡ (one_deleted, err Err.net)
unfolding send_rows
fails = refl

send_rows-Stopped_example : Stopped offline queued connected_app one_deleted Err.net
send_rows-Stopped_example = send_rows-Stopped offline queued connected_app one_deleted Err.net fails

-- A buffer with the first bytes of a frame and a byte that does not belong to it.
abbrev noisy : App
noisy = record connected_app {
  peers = two (record online { recv_buf = 0xDE ∷ 0xAD ∷ 7 ∷ [] }) empty;
}

process_peer_frames_ends_example :
    frames_loop toy env world 0 6 9 noisy ≡ process_peer_frames toy env world 0 6 noisy
process_peer_frames_ends_example = process_peer_frames_ends toy env world 0 6 noisy 9 (omega arith)
