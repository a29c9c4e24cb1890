-- ===== src/Transfer.antt =====
-- crates/decentgpu-common/src/transfer.rs: the frames of the P2P streams and the transfer of a file in
-- chunks. A byte is a number below 256. The Protobuf encoding and SHA-256 are parameters. A file is
-- its bytes; a `transfer_id` and a hash, texts that are only compared, are numbers. What arrives for a
-- party is a list: each entry is a frame, the end of the stream or the timeout of the wait for it, and
-- past its end the party waits until the timeout. The errors of the disk (`fs::read`, `create_dir_all`,
-- `fs::write`), those of the writes to the stream, and a frame above the limit, which the loops would
-- end on too, are left out.
pub mod Frames
pub mod Chunks
pub mod RoundTrip
pub mod Sent
mod Tests
use decentralized_gpu_p2p_ne.Base.{
  ℕ, String, Bool, true, false, Option, none, some, List, [], ◌∷◌, ◌++◌, ◌+◌, ◌*◌, ◌/◌, ◌%◌, ◌≡◌,
  ltb, ◌==◌, if◌then◌else◌, length, take, drop,
}

abbrev pub Bytes : Type 0
Bytes = List ℕ

pub data TransferError : Type 0 where
  stream_ended too_large timed_out undecodable rejected invalid_ack unexpected_payload
        integrity_failed :
      TransferError

pub data Outcome (A : Type 0) : Type 0 where
  done : A → Outcome A
  failed : TransferError → Outcome A

-- `u32::to_be_bytes`
abbrev pub to_be_bytes : ℕ → Bytes
to_be_bytes n = n / 16777216 % 256 ∷ n / 65536 % 256 ∷ n / 256 % 256 ∷ n % 256 ∷ []

-- `write_length_prefixed`: what it puts on the stream; `as u32` keeps the low 32 bits
unfoldable pub write_length_prefixed : Bytes → Bytes
write_length_prefixed bytes = to_be_bytes (length bytes % 4294967296) ++ bytes

-- `read_exact` of `n` bytes
abbrev pub read_exact : ℕ → Bytes → Outcome (Bytes × Bytes)
read_exact n stream =
    if ltb (length stream) n then failed stream_ended else done (take n stream, drop n stream)

-- the length that the first bytes tell, and what follows them; 512 MiB at most
abbrev pub read_body : ℕ → Bytes → Outcome (Bytes × Bytes)
read_body len stream = if ltb 536870912 len then failed too_large else read_exact len stream

-- `read_length_prefixed`: the message and the rest of the stream
unfoldable pub read_length_prefixed : Bytes → Outcome (Bytes × Bytes)
read_length_prefixed (a ∷ b ∷ c ∷ d ∷ stream) =
    read_body (a * 16777216 + b * 65536 + c * 256 + d) stream
read_length_prefixed _ = failed stream_ended

pub record TransferChunk : Type 0 where
  pub transfer_id : ℕ
  pub offset : ℕ
  pub data_bytes : Bytes
  pub is_last : Bool
  pub sha256 : ℕ

pub record TransferAck : Type 0 where
  pub transfer_id : ℕ
  pub offset : ℕ
  pub is_ok : Bool

-- `Envelope`, by its payload
pub data Envelope : Type 0 where
  transfer_chunk : TransferChunk → Envelope
  transfer_ack : TransferAck → Envelope
  another_payload : Envelope
  no_payload : Envelope

-- `Envelope::encode`, `Envelope::decode` and SHA-256 in hexadecimal digits, a number here
pub record Codec : Type 0 where
  pub encode : Envelope → Bytes
  pub decode : Bytes → Option Envelope
  pub sha256 : Bytes → ℕ

-- What Protobuf documents: a message is decoded as it was encoded.
pub record IsCodec (c : Codec) : Type 0 where
  pub decode-encode : (e : Envelope) → c.decode (c.encode e) ≡ some e

pub data Incoming : Type 0 where
  frame : Bytes → Incoming
  ended : Incoming
  timeout : Incoming

-- `CHUNK_SIZE`
unfoldable pub chunk_size : ℕ
chunk_size = 65536

abbrev pub is_empty : Bytes → Bool
is_empty [] = true
is_empty (_ ∷ _) = false

-- the chunk that the sender cuts off
abbrev pub next_chunk : Codec → ℕ → ℕ → Bytes → TransferChunk
next_chunk c transfer_id offset remaining = record {
  transfer_id = transfer_id;
  offset = offset;
  data_bytes = take chunk_size remaining;
  is_last = is_empty (drop chunk_size remaining);
  sha256 = c.sha256 (take chunk_size remaining);
}

-- what the sender makes of an answer: none, if it goes on
abbrev pub refusal : Option Envelope → Option TransferError
refusal none = some undecodable
refusal (some (transfer_ack a)) = if a.is_ok then none else some rejected
refusal (some (transfer_chunk _)) = some invalid_ack
refusal (some another_payload) = some invalid_ack
refusal (some no_payload) = some invalid_ack

abbrev pub answer : Codec → Incoming → Option TransferError
answer c (frame bytes) = refusal (c.decode bytes)
answer c ended = some stream_ended
answer c timeout = some timed_out

-- a message in front of those that follow
abbrev pub sending : {A : Type 0} → Bytes → Outcome A × List Bytes → Outcome A × List Bytes
sending m (r, ms) = (r, m ∷ ms)

-- after the answer to a message: the rest of the loop, or its end
abbrev pub after_answer :
    {A : Type 0} → Bytes → Option TransferError → Outcome A × List Bytes → Outcome A × List Bytes
after_answer message none rest = sending message rest
after_answer message (some e) rest = (failed e, message ∷ [])

-- the loop of `send_file_chunked`: its result and the messages that it has sent
abbrev pub send_loop : Codec → ℕ → ℕ → ℕ → Bytes → List Incoming → Outcome ℕ × List Bytes
send_loop c id size offset remaining [] =
    if is_empty remaining
    then (done size, [])
    else (failed timed_out, c.encode (transfer_chunk (next_chunk c id offset remaining)) ∷ [])
send_loop c id size offset remaining (a ∷ answers) =
    let message = c.encode (transfer_chunk (next_chunk c id offset remaining)) in
    let rest =
      send_loop c id size (offset + length (take chunk_size remaining)) (drop chunk_size remaining)
        answers in
    if is_empty remaining then (done size, []) else after_answer message (answer c a) rest

unfoldable pub send_file_chunked : Codec → ℕ → Bytes → List Incoming → Outcome ℕ × List Bytes
send_file_chunked c transfer_id file incoming =
    send_loop c transfer_id (length file) 0 file incoming

abbrev pub ack_of : Codec → TransferChunk → Bytes
ack_of c chunk = c.encode (
    transfer_ack (record {
      transfer_id = chunk.transfer_id;
      offset = chunk.offset;
      is_ok = c.sha256 chunk.data_bytes == chunk.sha256;
    }))

-- the body of the loop of `receive_file_chunked` on a chunk; `rest` is what the loop does after it
abbrev pub receive_chunk :
    Codec
    → Bytes
    → ℕ
    → TransferChunk
    → Outcome (Bytes × ℕ) × List Bytes
    → Outcome (Bytes × ℕ) × List Bytes
receive_chunk c file total chunk rest =
    if c.sha256 chunk.data_bytes == chunk.sha256
    then sending (ack_of c chunk) (
        if chunk.is_last
        then (done (file ++ chunk.data_bytes, total + length chunk.data_bytes), [])
        else rest)
    else (failed integrity_failed, ack_of c chunk ∷ [])

-- what a frame holds; anything but a chunk ends the loop
abbrev pub chunk_in : Option Envelope → Outcome TransferChunk
chunk_in none = failed undecodable
chunk_in (some (transfer_chunk chunk)) = done chunk
chunk_in (some (transfer_ack _)) = failed unexpected_payload
chunk_in (some another_payload) = failed unexpected_payload
chunk_in (some no_payload) = failed unexpected_payload

abbrev pub arrived : Codec → Incoming → Outcome TransferChunk
arrived c (frame bytes) = chunk_in (c.decode bytes)
arrived c ended = failed stream_ended
arrived c timeout = failed timed_out

-- a turn of the loop of `receive_file_chunked`; `next` is the loop after a chunk
abbrev pub receive_turn :
    Codec
    → Bytes
    → ℕ
    → Outcome TransferChunk
    → (TransferChunk → Outcome (Bytes × ℕ) × List Bytes)
    → Outcome (Bytes × ℕ) × List Bytes
receive_turn c file total (failed e) next = (failed e, [])
receive_turn c file total (done chunk) next = receive_chunk c file total chunk (next chunk)

-- the loop of `receive_file_chunked`: the file and its length, and the messages that it has sent
abbrev pub receive_loop : Codec → Bytes → ℕ → List Incoming → Outcome (Bytes × ℕ) × List Bytes
receive_loop c file total [] = (failed timed_out, [])
receive_loop c file total (m ∷ ms) =
    receive_turn c file total (arrived c m)
      (λ chunk. receive_loop c (file ++ chunk.data_bytes) (total + length chunk.data_bytes) ms)

unfoldable pub receive_file_chunked : Codec → List Incoming → Outcome (Bytes × ℕ) × List Bytes
receive_file_chunked c incoming = receive_loop c [] 0 incoming
