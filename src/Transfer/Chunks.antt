-- ===== src/Transfer/Chunks.antt =====
-- What `receive_file_chunked` accepts.
use decentralized_gpu_p2p_ne.Base.{
  append_assoc, ℕ, true, false, List, [], ◌∷◌, ◌++◌, ◌+◌, ◌≡◌, refl, ap, ◌∙◌, sym, length, arith,
  length-append, Bool-cases, inl, inr, ◌==◌,
}
use decentralized_gpu_p2p_ne.Transfer.{
  Bytes, Codec, Outcome, done, failed, Incoming, TransferChunk, receive_loop, receive_turn,
  receive_file_chunked, arrived, ack_of, sending,
}

-- the chunks that have arrived as frames, up to the first that is marked as the last
pub data Arrived (c : Codec) : List Incoming → Bytes → Type 0 where
  last_chunk :
      {m : Incoming} {ms : List Incoming} (chunk : TransferChunk)
      → arrived c m ≡ done chunk
      → (c.sha256 chunk.data_bytes == chunk.sha256) ≡ true
      → chunk.is_last ≡ true
      → Arrived c (m ∷ ms) chunk.data_bytes
  more_chunks :
      {m : Incoming} {ms : List Incoming} {rest : Bytes} (chunk : TransferChunk)
      → arrived c m ≡ done chunk
      → (c.sha256 chunk.data_bytes == chunk.sha256) ≡ true
      → chunk.is_last ≡ false
      → Arrived c ms rest
      → Arrived c (m ∷ ms) (chunk.data_bytes ++ rest)

abbrev value : {A : Type 0} → Outcome A → A → A
value (done a) d = a
value (failed e) d = d

module _ (c : Codec) where
  -- the file is what came before and what has arrived
  abbrev Whole : Bytes → ℕ → List Incoming → Bytes → ℕ → Type 0
  Whole got total ms file n =
      (rest : Bytes) × Arrived c ms rest × (file ≡ got ++ rest) × (n ≡ total + length rest)

  sent_on : {A : Type 0} (m : Bytes) (x : Outcome A × List Bytes) → (sending m x).0 ≡ x.0
  sent_on m (r, ms) = refl

  turn-Whole :
      (got : Bytes) (total : ℕ) (m : Incoming) (ms : List Incoming)
      → ((g : Bytes) (t : ℕ) (file : Bytes) (n : ℕ)
          → (receive_loop c g t ms).0 ≡ done (file, n)
          → Whole g t ms file n)
      → (o : Outcome TransferChunk) → arrived c m ≡ o
      → (file : Bytes) (n : ℕ)
      → (receive_turn c got total o
          (λ k. receive_loop c (got ++ k.data_bytes) (total + length k.data_bytes) ms)).0
        ≡ done (file, n)
      → Whole got total (m ∷ ms) file n
  turn-Whole got total m ms later (failed e) a file n h = cc
  turn-Whole got total m ms later (done k) a file n h =
      elim (Bool-cases (c.sha256 k.data_bytes == k.sha256)) [
        | inr bad ↦ let never = rw bad at h in cc
        | inl good ↦ elim (Bool-cases k.is_last) [
          | inl last ↦
              let over = rw (good, last) at h in
              (
                k.data_bytes,
                last_chunk k a good last,
                sym (ap (λ x. (value {A = Bytes × ℕ} x (file, n)).0) over),
                sym (ap (λ x. (value {A = Bytes × ℕ} x (file, n)).1) over),
              )
          | inr more ↦
              let on =
                sym (
                  sent_on (ack_of c k)
                    (receive_loop c (got ++ k.data_bytes) (total + length k.data_bytes) ms))
                ∙ (rw (good, more) at h) in
              let (rest, there, e, q) =
                later (got ++ k.data_bytes) (total + length k.data_bytes) file n on in
              (
                k.data_bytes ++ rest,
                more_chunks k a good more there,
                e ∙ append_assoc got k.data_bytes rest,
                omega (arith, q, length-append k.data_bytes rest),
              )
        ]
      ]

  accepted-Whole :
      (got : Bytes) (total : ℕ) (ms : List Incoming) (file : Bytes) (n : ℕ)
      → (receive_loop c got total ms).0 ≡ done (file, n)
      → Whole got total ms file n
  accepted-Whole got total [] file n h = cc
  accepted-Whole got total (m ∷ ms) file n h =
      turn-Whole got total m ms (λ g t. accepted-Whole g t ms) (arrived c m) refl file n h

-- `receive_file_chunked` reports a file only where frames have arrived that hold chunks, each with the
-- hash that it names, up to one that is marked as the last; the file is their bytes one after another,
-- and the length it reports is that of the file.
pub received_lem :
    (c : Codec) (ms : List Incoming) (file : Bytes) (n : ℕ)
    → (receive_file_chunked c ms).0 ≡ done (file, n)
    → Arrived c ms file × (n ≡ length file)
unfolding receive_file_chunked
received_lem c ms file n h =
    let (rest, there, e, q) = accepted-Whole c [] 0 ms file n h in
    (rw e there, rw e (omega (arith, q)))
