-- ===== src/Transfer/Frames.antt =====
-- A frame that is written is read back, up to the limit on its length.
use decentralized_gpu_p2p_ne.Base.{
  ℕ, [], ◌∷◌, ◌++◌, ◌+◌, ◌*◌, ◌/◌, ◌%◌, ◌≡◌, ◌≤◌, ◌<◌, refl, length, take, drop, arith, false, ltb,
  ap, length-append, true,
}
use decentralized_gpu_p2p_ne.Transfer.{
  Bytes, done, failed, too_large, write_length_prefixed, read_length_prefixed, read_body,
}

be_value :
    (n : ℕ)
    → n < 4294967296
    → n / 16777216 % 256 * 16777216 + n / 65536 % 256 * 65536 + n / 256 % 256 * 256 + n % 256 ≡ n
be_value n h = omega arith

take_own : (xs ys : Bytes) → take (length xs) (xs ++ ys) ≡ xs
take_own [] ys = refl
take_own (x ∷ xs) ys = ap (λ zs. x ∷ zs) (take_own xs ys)

drop_own : (xs ys : Bytes) → drop (length xs) (xs ++ ys) ≡ ys
drop_own [] ys = refl
drop_own (x ∷ xs) ys = drop_own xs ys

own_length : (xs ys : Bytes) → ltb (length (xs ++ ys)) (length xs) ≡ false
own_length xs ys = let total = length-append xs ys in ground arith

body_read :
    (m rest : Bytes) → length m ≤ 536870912 → read_body (length m) (m ++ rest) ≡ done (m, rest)
body_read m rest h =
    let fits : ltb 536870912 (length m) ≡ false = ground arith in
    rw (fits, own_length m rest, take_own m rest, drop_own m rest) refl

body_refused : (n : ℕ) (stream : Bytes) → 536870912 < n → read_body n stream ≡ failed too_large
body_refused n stream h = let long : ltb 536870912 n ≡ true = ground arith in rw long refl

-- A message of at most 512 MiB that `write_length_prefixed` puts on a stream is what
-- `read_length_prefixed` reads from it, whatever follows, and what follows is left on the stream.
pub frame_roundtrip :
    (m rest : Bytes)
    → length m ≤ 536870912
    → read_length_prefixed (write_length_prefixed m ++ rest) ≡ done (m, rest)
unfolding write_length_prefixed read_length_prefixed
frame_roundtrip m rest h =
    let small : length m % 4294967296 ≡ length m = omega arith in
    rw (small, be_value (length m) (omega arith)) (body_read m rest h)

-- A message of more than 512 MiB, and less than 4 GiB, is written and then refused by the reader.
pub frame_refused :
    (m rest : Bytes)
    → 536870912 < length m
    → length m < 4294967296
    → read_length_prefixed (write_length_prefixed m ++ rest) ≡ failed too_large
unfolding write_length_prefixed read_length_prefixed
frame_refused m rest h k =
    let small : length m % 4294967296 ≡ length m = omega arith in
    rw (small, be_value (length m) k) (body_refused (length m) (m ++ rest) h)
