-- ===== src/Transfer/Tests.antt =====
-- A frame and a small file, and the theorems on them, with a codec of tagged bytes.
use decentralized_gpu_p2p_ne.Base.{
  ℕ, Bool, true, false, Option, none, some, List, [], ◌∷◌, ◌++◌, ◌≡◌, refl, length, map, arith,
  if◌then◌else◌, ◌==◌, ◌↔◌,
}
use decentralized_gpu_p2p_ne.Transfer.{
  Bytes, Codec, IsCodec, Envelope, transfer_chunk, transfer_ack, another_payload, no_payload, done,
  failed, Incoming, frame, write_length_prefixed, read_length_prefixed, send_file_chunked,
  receive_file_chunked, timed_out,
}
use decentralized_gpu_p2p_ne.Transfer.Frames.{frame_roundtrip}
use decentralized_gpu_p2p_ne.Transfer.RoundTrip.{transfer_roundtrip, empty_file_lem}
use decentralized_gpu_p2p_ne.Transfer.Sent.{Accepted, sent_iff}
use decentralized_gpu_p2p_ne.Transfer.Chunks.{Arrived, received_lem}

short_frame : write_length_prefixed (7 ∷ 8 ∷ []) ≡ 0 ∷ 0 ∷ 0 ∷ 2 ∷ 7 ∷ 8 ∷ []
unfolding write_length_prefixed
short_frame = refl

frame_roundtrip_example :
    read_length_prefixed (write_length_prefixed (7 ∷ 8 ∷ []) ++ (9 ∷ []))
    ≡ done (7 ∷ 8 ∷ [], 9 ∷ [])
frame_roundtrip_example = frame_roundtrip (7 ∷ 8 ∷ []) (9 ∷ []) (omega arith)

abbrev flag : Bool → ℕ
flag true = 1
flag false = 0

-- A codec: a number for the payload, then the fields. The hash is the number of bytes.
abbrev encode : Envelope → Bytes
encode (transfer_chunk k) = 1 ∷ k.transfer_id ∷ k.offset ∷ flag k.is_last ∷ k.sha256 ∷ k.data_bytes
encode (transfer_ack a) = 2 ∷ a.transfer_id ∷ a.offset ∷ flag a.is_ok ∷ 0 ∷ []
encode another_payload = 3 ∷ 0 ∷ 0 ∷ 0 ∷ 0 ∷ []
encode no_payload = 4 ∷ 0 ∷ 0 ∷ 0 ∷ 0 ∷ []

abbrev decode : Bytes → Option Envelope
decode (kind ∷ id ∷ offset ∷ f ∷ hash ∷ bytes) =
    if kind == 1
    then some (
        transfer_chunk (record {
          transfer_id = id;
          offset = offset;
          data_bytes = bytes;
          is_last = f == 1;
          sha256 = hash;
        }))
    else if kind == 2
    then some (transfer_ack (record { transfer_id = id; offset = offset; is_ok = f == 1 }))
    else some (if kind == 3 then another_payload else no_payload)
decode _ = none

abbrev codec : Codec
codec = record { encode = encode; decode = decode; sha256 = λ bytes. length bytes }

flag_lem : (b : Bool) → (flag b == 1) ≡ b
flag_lem true = refl
flag_lem false = refl

codec-IsCodec : IsCodec codec
codec-IsCodec = record { decode-encode = decoded }
  where
    decoded : (e : Envelope) → decode (encode e) ≡ some e
    decoded (transfer_chunk k) = rw (flag_lem k.is_last) refl
    decoded (transfer_ack a) = rw (flag_lem a.is_ok) refl
    decoded another_payload = refl
    decoded no_payload = refl

transfer_roundtrip_example :
    (acks : List Bytes) × let (sent, messages) =
        send_file_chunked codec 5 (1 ∷ 2 ∷ 3 ∷ []) (map frame acks) in
      let (received, replies) = receive_file_chunked codec (map frame messages) in
      (sent ≡ done 3) × (received ≡ done (1 ∷ 2 ∷ 3 ∷ [], 3)) × (replies ≡ acks)
transfer_roundtrip_example = transfer_roundtrip codec codec-IsCodec 5 (1 ∷ 2 ∷ 3 ∷ []) refl

empty_file_lem_example :
    let (sent, messages) = send_file_chunked codec 5 [] (frame [] ∷ []) in
    (sent ≡ done 0) × ((receive_file_chunked codec (map frame messages)).0 ≡ failed timed_out)
empty_file_lem_example = empty_file_lem codec 5 (frame [] ∷ [])

-- one chunk of two bytes, marked as the last
abbrev arriving : List Incoming
arriving = frame (1 ∷ 5 ∷ 0 ∷ 1 ∷ 2 ∷ 8 ∷ 9 ∷ []) ∷ []

arriving_ok : (receive_file_chunked codec arriving).0 ≡ done (8 ∷ 9 ∷ [], 2)
unfolding receive_file_chunked
arriving_ok = refl

received_lem_example : Arrived codec arriving (8 ∷ 9 ∷ []) × (2 ≡ length {A = ℕ} (8 ∷ 9 ∷ []))
received_lem_example = received_lem codec arriving (8 ∷ 9 ∷ []) 2 arriving_ok

abbrev ack : Bytes
ack = encode (transfer_ack (record { transfer_id = 5; offset = 0; is_ok = true }))

abbrev bytes_sent : Bytes
bytes_sent = 7 ∷ 8 ∷ []

sent_iff_example :
    ((send_file_chunked codec 5 bytes_sent (frame ack ∷ [])).0 ≡ done 2)
    ↔ ((2 ≡ length bytes_sent) × Accepted codec (length bytes_sent) (frame ack ∷ []))
sent_iff_example = sent_iff codec 5 bytes_sent (frame ack ∷ []) 2
