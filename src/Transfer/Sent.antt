-- ===== src/Transfer/Sent.antt =====
-- When `send_file_chunked` reports success.
use decentralized_gpu_p2p_ne.Transfer.RoundTrip.{length-drop}
use decentralized_gpu_p2p_ne.Base.{
  ℕ, true, none, some, List, [], ◌∷◌, ◌≡◌, Option, length, refl, ◌-◌, Option-cases, arith, drop,
  ◌↔◌, inl, ◌+◌, ◌∙◌, Bool-cases, ap, take, inr, sym,
}
use decentralized_gpu_p2p_ne.Transfer.{
  Bytes, Codec, done, Incoming, frame, ended, timeout, transfer_ack, TransferAck, answer,
  chunk_size, send_file_chunked, send_loop, Envelope, refusal, transfer_chunk, another_payload,
  no_payload,
}

-- what has arrived is an acknowledgement that accepts a chunk
pub data IsAccepting (c : Codec) (m : Incoming) : Type 0 where
  accepting :
      (bytes : Bytes) (ack : TransferAck)
      → m ≡ frame bytes
      → c.decode bytes ≡ some (transfer_ack ack)
      → ack.is_ok ≡ true
      → IsAccepting c m

-- Of what arrives, as many as `n` bytes have chunks of 64 KiB, the last one perhaps shorter, accept a
-- chunk, before anything else arrives.
pub data Accepted (c : Codec) : ℕ → List Incoming → Type 0 where
  all_sent : {n : ℕ} {ms : List Incoming} → n ≡ 0 → Accepted c n ms
  one_more :
      {n : ℕ} {m : Incoming} {ms : List Incoming}
      → IsAccepting c m
      → Accepted c (n - 65536) ms
      → Accepted c n (m ∷ ms)

module _ (c : Codec) where
  refusal-none :
      (bytes : Bytes) (o : Option Envelope)
      → c.decode bytes ≡ o
      → refusal o ≡ none
      → IsAccepting c (frame bytes)
  refusal-none bytes none e h = absurd cc
  refusal-none bytes (some (transfer_ack a)) e h = elim (Bool-cases a.is_ok) [
    | inl ok ↦ accepting bytes a refl e ok
    | inr bad ↦ absurd (let r = rw bad at h in cc)
  ]
  refusal-none bytes (some (transfer_chunk k)) e h = absurd cc
  refusal-none bytes (some another_payload) e h = absurd cc
  refusal-none bytes (some no_payload) e h = absurd cc

  answer-none : (m : Incoming) → answer c m ≡ none → IsAccepting c m
  answer-none (frame bytes) h = refusal-none bytes (c.decode bytes) refl h
  answer-none ended h = absurd cc
  answer-none timeout h = absurd cc

  none-answer : (m : Incoming) → IsAccepting c m → answer c m ≡ none
  none-answer m (accepting bytes a e d ok) = rw (e, d, ok) refl

  cut : (xs : Bytes) → length (drop chunk_size xs) ≡ length xs - 65536
  unfolding chunk_size
  cut xs = length-drop 65536 xs

  module _ (id size : ℕ) where
    loop_sends :
        (n offset : ℕ) (remaining : Bytes) (ms : List Incoming)
        → length remaining ≡ n
        → Accepted c n ms
        → (send_loop c id size offset remaining ms).0 ≡ done size
    loop_sends n offset [] [] e h = refl
    loop_sends n offset [] (m ∷ ms) e h = refl
    loop_sends n offset (x ∷ xs) ms e (all_sent z) = absurd (omega arith)
    loop_sends n offset (x ∷ xs) (m ∷ ms) e (one_more a h) = rw (none-answer m a) (
        loop_sends (n - 65536) (offset + length (take chunk_size (x ∷ xs)))
          (drop chunk_size (x ∷ xs)) ms (cut (x ∷ xs) ∙ ap (λ k. k - 65536) e) h)

    loop-Accepted :
        (k offset : ℕ) (remaining : Bytes) (ms : List Incoming)
        → (send_loop c id size offset remaining ms).0 ≡ done k
        → (k ≡ size) × Accepted c (length remaining) ms
    loop-Accepted k offset [] [] h = (cc, all_sent refl)
    loop-Accepted k offset [] (m ∷ ms) h = (cc, all_sent refl)
    loop-Accepted k offset (x ∷ xs) [] h = absurd cc
    loop-Accepted k offset (x ∷ xs) (m ∷ ms) h = elim (Option-cases (answer c m)) [
      | inl good ↦
          let (same, more) =
            loop-Accepted k (offset + length (take chunk_size (x ∷ xs))) (drop chunk_size (x ∷ xs))
              ms (rw good at h) in
          (same, one_more (answer-none m good) (rw (cut (x ∷ xs)) at more))
      | inr (e, bad) ↦ absurd (let r = rw bad at h in cc)
    ]

-- Whatever arrives, `send_file_chunked` reports success exactly when, for each chunk of 64 KiB of the
-- file, the last one perhaps shorter, an acknowledgement that accepts a chunk has arrived, in a row and
-- before anything else: a rejection, an answer that is no acknowledgement or cannot be decoded, the end
-- of the stream and the timeout make it fail. What it reports then is the length of the file.
pub sent_iff :
    (c : Codec) (id : ℕ) (file : Bytes) (incoming : List Incoming) (n : ℕ)
    → ((send_file_chunked c id file incoming).0 ≡ done n)
      ↔ ((n ≡ length file) × Accepted c (length file) incoming)
unfolding send_file_chunked
sent_iff c id file incoming n = (
  λ h. loop-Accepted c id (length file) n 0 file incoming h,
  λ h.
      loop_sends c id (length file) (length file) 0 file incoming refl h.1
      ∙ ap (λ k. done k) (sym h.0),
)
