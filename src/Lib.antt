-- ===== src/Lib.antt =====
-- A model of noxtor-cli, an encrypted messenger over Tor, and what is shown of it.
--
-- Two programs meet over a Tor connection. They agree on keys with the Noise XX handshake, the user
-- confirms the key of an unknown peer (trust on first use), and then they exchange text and files in
-- frames of a 13-byte header and a ciphertext. The modules follow the files of the repository.
--
-- Prelude holds shared list functions and tests; Common the error codes, byte strings and limits of
-- include/common.h and include/noise.h; Sodium is libsodium as a parameter with its documented laws.
--
-- Noise is src/noise.c. Noise/Cipher is the cipher state with its 64-bit nonce counter and the
-- transport functions noise_encrypt and noise_decrypt; Noise/Symmetric is the symmetric state (HMAC,
-- HKDF, MixHash, MixKey, EncryptAndHash, Split) and the Diffie-Hellman helper; Noise/Messages has
-- write_msg0 to write_msg2 and read_msg0 to read_msg2 in a state monad that keeps the state of a
-- failure; Noise/Handshake has handshake_init, handshake_write, handshake_read and handshake_split.
-- Noise/Agreement runs a whole handshake between two ends, Noise/Lifecycle and Noise/Traces are about
-- calls in any order, Noise/Nonces and Noise/Transport about the counter. A new ephemeral key is an
-- argument of the writer that generates it.
--
-- Peer is src/state_machine.c with tofu_user_response of src/stdin_handler.c. Peer/Types has struct
-- peer_session and struct app_state, with the 16 slots as a function of their index and the effects
-- on descriptors, files and the database as a list in the order of the code. Peer/Table is the
-- transition table, Peer/Actions the action functions, Peer/Dispatch the dispatcher; the dispatcher
-- calls itself through an action, so it takes a bound on the depth, and two levels are enough.
--
-- Wire is frame_header_encode and frame_header_decode of src/network.c.
--
-- Send is how src/stdin_handler.c sends text: Send/Chunks is nox_next_chunk_size, Send/Segmented is
-- send_segmented_message_to and send_queued_callback. Its loop takes one round for each byte of the
-- message and one more, which is enough since each round sends at least one byte. The answers of
-- writev are a parameter. Send/Frames has the list of the frames of a message and Send/Answers what a
-- call may leave by what the system answers; Send/OneFrame, Send/Loop, Send/InStep and Send/Delivery
-- are about it.
--
-- Onion is how an address and a static key are tied together. Onion/Address is onion_b32_decode and
-- crypto_onion_pubkey of src/crypto.c and validate_onion_address of src/network.c; Onion/Claim is
-- onion_bind_msg, crypto_onion_sign and crypto_onion_verify, with hs_build_claim_payload and the
-- checks of a received claim in src/event_loop.c. SHA3 and Ed25519 are a parameter. Onion/Base32 reads
-- an address as a number, Onion/Unique and Onion/Bound are about what is accepted, and Onion/Honest
-- about the claim that the code builds.
--
-- Queue is db_process_queue of src/database.c: its two loops over the rows that SQLite gives, where a
-- row carries what decrypt_payload makes of it.
--
-- Receive is process_peer_frames in src/event_loop.c. Receive/Framing takes the next frame off the
-- receive buffer, and its loop takes fuel, for which one round for each byte and one more are enough;
-- Receive/Pieces runs it after each piece that the connection brings, and Receive/Room is about the
-- room in the buffer. Receive/Control is the CTRL frame, with the reply, the claim and what follows
-- from the contacts; Receive/Shaking, Receive/Verdict, Receive/Claimed and Receive/Admission are about
-- it.
-- Receive/Frames is the rest: the sequence check, TEXT and FILE frames, the loop, with one round for
-- each byte of the buffer and one more, and the EPOLLIN branch of event_loop. Receive/Buffer,
-- Receive/ControlBuffer and Receive/Rounds are about the rounds of that loop. Receive/Texts,
-- Receive/Conversation and Receive/Feed follow text frames through it, and Chat puts Send and Receive
-- together. Receive/Timeouts is the loop over the slots that looks for timeouts, with
-- Receive/InTime, Receive/Deadlines and Receive/Sweep about it; it has one time for all slots, where the
-- code reads the clock again for each.
--
-- File is src/file_transfer.c. File/Name is sanitize_filename, with the random
-- number as an argument; File/Storage has verify_downloads_dir_fd, open_recv_file and write_to_file,
-- with the answers of the disk and of the hash as a parameter; File/Receive is
-- file_transfer_handle_rx. The loop of write_to_file takes one round for each byte and one more.
-- File/SafeName and File/Kept are about the name. File/Writes, File/Stages, File/Transfer,
-- File/Incoming and File/Announce follow a file from its METADATA frame to its last byte. File/Sending
-- is file_transfer_handle_tx; File/Progress, File/Parts and File/Handing follow a file that is sent.
-- Peer/Quiet is what the two events of a transfer do with the slot.
--
-- Screen is ui_strip_ansi of src/frontend.c, as a mode for each of its loops.
--
-- Not modelled: how the sending of a file begins (file_transfer_start); the epoll loop, sockets, Tor's
-- process, the SQL of the database and the terminal, which are input and output; seccomp, landlock and
-- the other hardening, which acts on the kernel; the vendored linenoise and termbox2. NULL pointers that a caller never passes have no counterpart, and the
-- memory that is overwritten before it is released is modelled by its last contents.
--
-- Tests holds the theorems at concrete inputs, with a libsodium small enough to compute with.
pub mod Prelude
pub mod Common
pub mod Sodium
pub mod Onion
pub mod Noise
pub mod Peer
pub mod Wire
pub mod Send
pub mod Queue
pub mod Receive
pub mod File
pub mod Chat
pub mod Screen
pub mod Tests
