-- ===== src/Transfer/RoundTrip.antt =====
-- The transfer of a file, from `send_file_chunked` to `receive_file_chunked`.
use decentralized_gpu_p2p_ne.Base.{
  append_assoc, ℕ, true, false, none, List, [], ◌∷◌, ◌++◌, ◌+◌, ◌-◌, ◌≡◌, ◌≤◌, refl, ap, sym, ◌∙◌,
  map, length, take, drop, zero, suc, arith, ==_refl, inl, inr, Bool-cases, length-append,
}
use decentralized_gpu_p2p_ne.Transfer.{
  Bytes, Codec, IsCodec, done, failed, Incoming, frame, transfer_chunk, TransferChunk, send_loop,
  send_file_chunked, receive_loop, receive_file_chunked, next_chunk, ack_of, answer, arrived,
  is_empty, chunk_size, timed_out,
}

take-drop : (n : ℕ) (xs : Bytes) → take n xs ++ drop n xs ≡ xs
take-drop zero xs = refl
take-drop (suc n) [] = refl
take-drop (suc n) (x ∷ xs) = ap (λ ys. x ∷ ys) (take-drop n xs)

pub length-drop : (n : ℕ) (xs : Bytes) → length (drop n xs) ≡ length xs - n
length-drop zero xs = omega arith
length-drop (suc n) [] = omega arith
length-drop (suc n) (x ∷ xs) = omega (arith, length-drop n xs)

append_nil : (xs : Bytes) → xs ++ [] ≡ xs
append_nil [] = refl
append_nil (x ∷ xs) = ap (λ ws. x ∷ ws) (append_nil xs)

empty_nil : (xs : Bytes) → is_empty xs ≡ true → xs ≡ []
empty_nil [] h = refl
empty_nil (x ∷ xs) h = cc

shorter : (xs : Bytes) (n : ℕ) → length xs ≤ suc n → length (drop chunk_size xs) ≤ n
unfolding chunk_size
shorter xs n h = omega (arith, length-drop 65536 xs)

module _ (c : Codec) (codec : IsCodec c) (id : ℕ) where
  -- the answers of the receiver and the messages of the sender, from here to the end of the file
  record Deal (size offset total : ℕ) (got remaining : Bytes) : Type 0 where
    pub acks : List Bytes
    pub messages : List Bytes
    pub sent : send_loop c id size offset remaining (map frame acks) ≡ (done size, messages)
    pub received :
        receive_loop c got total (map frame messages)
        ≡ (done (got ++ remaining, total + length remaining), acks)

  module _ (size offset total : ℕ) (got remaining : Bytes) where
    abbrev chunk : TransferChunk
    chunk = next_chunk c id offset remaining

    accepted : answer c (frame (ack_of c chunk)) ≡ none
    accepted = rw (codec.decode-encode, ==_refl (c.sha256 chunk.data_bytes)) refl

    opened : arrived c (frame (c.encode (transfer_chunk chunk))) ≡ done chunk
    opened = rw codec.decode-encode refl

    last-Deal :
        is_empty remaining ≡ false
        → is_empty (drop chunk_size remaining) ≡ true
        → Deal size offset total got remaining
    last-Deal more last = record {
      acks = ack_of c chunk ∷ [];
      messages = c.encode (transfer_chunk chunk) ∷ [];
      sent = rw (more, accepted, last) refl;
      received =
          let whole : take chunk_size remaining ≡ remaining =
            let parts = take-drop chunk_size remaining in
            let nothing = empty_nil (drop chunk_size remaining) last in
            sym (append_nil (take chunk_size remaining)) ∙ (rw nothing at parts) in
          rw (opened, ==_refl (c.sha256 chunk.data_bytes), last, whole) refl;
    }

    joined : (got ++ take chunk_size remaining) ++ drop chunk_size remaining ≡ got ++ remaining
    joined =
        append_assoc got (take chunk_size remaining) (drop chunk_size remaining)
        ∙ ap (λ xs. got ++ xs) (take-drop chunk_size remaining)

    counted :
        total + length (take chunk_size remaining) + length (drop chunk_size remaining)
        ≡ total + length remaining
    counted =
        let parts = length-append (take chunk_size remaining) (drop chunk_size remaining) in
        let all = rw (take-drop chunk_size remaining) at parts in omega (arith, all)

    next-Deal :
        is_empty remaining ≡ false
        → is_empty (drop chunk_size remaining) ≡ false
        → Deal size
            (offset + length (take chunk_size remaining))
            (total + length (take chunk_size remaining))
            (got ++ take chunk_size remaining)
            (drop chunk_size remaining)
        → Deal size offset total got remaining
    next-Deal more again d = record {
      acks = ack_of c chunk ∷ d.acks;
      messages = c.encode (transfer_chunk chunk) ∷ d.messages;
      sent = rw (more, accepted, d.sent) refl;
      received =
          rw (opened, ==_refl (c.sha256 chunk.data_bytes), again, d.received)
            (rw (joined, counted) refl);
    }

  -- by the number of bytes that are left
  deal :
      (n size offset total : ℕ) (got remaining : Bytes)
      → length remaining ≤ n
      → is_empty remaining ≡ false
      → Deal size offset total got remaining
  deal n size offset total got [] h more = cc
  deal zero size offset total got (x ∷ xs) h more = absurd (omega arith)
  deal (suc n) size offset total got (x ∷ xs) h more =
      elim (Bool-cases (is_empty (drop chunk_size (x ∷ xs)))) [
        | inl last ↦ last-Deal size offset total got (x ∷ xs) more last
        | inr again ↦
            next-Deal size offset total got (x ∷ xs) more again
              (deal n size _ _ _ (drop chunk_size (x ∷ xs)) (shorter (x ∷ xs) n h) again)
      ]

-- A file of at least one byte: there are answers to which `send_file_chunked` sends messages, to which
-- `receive_file_chunked` gives these same answers; the sender reports the length of the file, and the
-- receiver writes the very file and reports its length. So the transfer ends, and is right, as far as
-- Protobuf decodes what it encodes.
pub transfer_roundtrip :
    (c : Codec)
    → IsCodec c
    → (id : ℕ) (file : Bytes) → is_empty file ≡ false
    → (acks : List Bytes) × let (sent, messages) = send_file_chunked c id file (map frame acks) in
        let (received, replies) = receive_file_chunked c (map frame messages) in
        (sent ≡ done (length file)) × (received ≡ done (file, length file)) × (replies ≡ acks)
unfolding send_file_chunked receive_file_chunked
transfer_roundtrip c codec id file more =
    let d = deal c codec id (length file) (length file) 0 0 [] file (omega arith) more in
    let from_zero : 0 + length file ≡ length file = omega arith in
    let both : receive_loop c [] 0
          (map frame (send_loop c id (length file) 0 file (map frame d.acks)).1)
        ≡ (done (file, length file), d.acks) =
      rw d.sent (d.received ∙ ap (λ n. (done (file, n), d.acks)) from_zero) in
    (d.acks, (ap (λ x. x.0) d.sent, ap (λ x. x.0) both, ap (λ x. x.1) both))

-- An empty file is sent without any message, whatever arrives, and the sender reports its length, 0,
-- while the receiver, to whom no message comes, fails with the timeout and writes nothing.
pub empty_file_lem :
    (c : Codec) (id : ℕ) (incoming : List Incoming)
    → let (sent, messages) = send_file_chunked c id [] incoming in
      (sent ≡ done 0) × ((receive_file_chunked c (map frame messages)).0 ≡ failed timed_out)
unfolding send_file_chunked receive_file_chunked
empty_file_lem c id [] = (refl, refl)
empty_file_lem c id (a ∷ answers) = (refl, refl)
