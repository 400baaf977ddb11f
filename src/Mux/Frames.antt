-- ===== src/Mux/Frames.antt =====
-- What one side of a connection writes, and what the other side makes of it.
use ossa.Prelude.{
  ℕ, ◌-◌, ◌<◌, ◌≤◌, ◌^◌, ◌≡◌, refl, sym, ap, ◌∙◌, List, [], ◌∷◌, ◌++◌, length, take, drop,
  replicate, Run, done, ◌>>=◌, arith, true, false, ltb, contains, nat_ord, All, length-append,
}
use ossa.Mux.{
  processing_body, new, Sent, header_length, max_message_length, from_be_bytes, to_be_bytes,
  copy_to_slice, parse_header, write_message,
}
use ossa.Mux.Bytewise.{feed_all, after, read, flush}
use ossa.Mux.Steps.{read-header_full, read-body_full, read-new}

-- Four bytes hold every number below 2 ^ 32.
pub from_be_bytes-to_be_bytes : (n : ℕ) → n < 2 ^ 32 → from_be_bytes (to_be_bytes n) ≡ n
unfolding from_be_bytes to_be_bytes
from_be_bytes-to_be_bytes n l = omega arith

take-length_append : (xs ys : List ℕ) → take (length xs) (xs ++ ys) ≡ xs
take-length_append [] ys = refl
take-length_append (x ∷ xs) ys = ap (◌∷◌ x) (take-length_append xs ys)

drop-length_append : (xs ys : List ℕ) → drop (length xs) (xs ++ ys) ≡ ys
drop-length_append [] ys = refl
drop-length_append (x ∷ xs) ys = drop-length_append xs ys

-- A message that may be sent: its stream is known to the reader, and it is not too long.
pub record IsSendable (streams : List ℕ) (s : Sent) : Type 0 where
  pub known : contains s.stream streams ≡ true
  pub word : s.stream < 2 ^ 32
  pub fits : length s.message ≤ max_message_length

abbrev frame : Sent → List ℕ
frame s = to_be_bytes s.stream ++ (to_be_bytes (length s.message) ++ s.message)

-- the bytes of some messages, written one after the other
unfoldable pub write_all : List Sent → Run (List ℕ)
write_all [] = done []
write_all (s ∷ ss) =
    write_message s.stream s.message >>= λ bytes. write_all ss >>= λ more. done (bytes ++ more)

module _ (streams : List ℕ) where
  parse_header-frame :
      (i n : ℕ)
      → contains i streams ≡ true
      → i < 2 ^ 32
      → n ≤ max_message_length
      → parse_header streams (to_be_bytes i ++ to_be_bytes n) ≡ done (processing_body n i [])
  unfolding parse_header
  parse_header-frame i n k w f =
      let i' = from_be_bytes-to_be_bytes i w in
      let n' = from_be_bytes-to_be_bytes n (omega arith) in
      let short : ltb max_message_length n ≡ false = ground arith in
      let split : take 4 (to_be_bytes i ++ to_be_bytes n) ≡ to_be_bytes i =
        unfold to_be_bytes in refl in
      let split' : take 4 (drop 4 (to_be_bytes i ++ to_be_bytes n)) ≡ to_be_bytes n =
        unfold to_be_bytes in refl in
      rw (split, split') (rw (i', n') (rw (k, short) refl))

  read-body_frame :
      (i : ℕ) (m rest : List ℕ)
      → read streams (processing_body (length m) i []) (m ++ rest)
        ≡ (feed_all streams new rest >>= after (record { stream = i; message = m } ∷ []))
  read-body_frame i m rest =
      let z : length m - 0 ≡ length m = omega arith in
      read-body_full streams (length m) i [] (m ++ rest) (omega arith)
        (omega (arith, length-append m rest))
      ∙ rw (z, take-length_append m rest, drop-length_append m rest) refl

  read-frame :
      (s : Sent) (rest : List ℕ)
      → IsSendable streams s
      → read streams new (frame s ++ rest) ≡ (read streams new rest >>= after (s ∷ []))
  unfolding new
  read-frame s rest h =
      let n = length s.message in
      let head : copy_to_slice (replicate header_length 0) 0
            (take (header_length - 0) (frame s ++ rest))
          ≡ to_be_bytes s.stream ++ to_be_bytes n =
        unfold to_be_bytes in refl in
      let tail : drop (header_length - 0) (frame s ++ rest) ≡ s.message ++ rest =
        unfold to_be_bytes in refl in
      read-header_full streams 0 (replicate header_length 0) (frame s ++ rest) (omega arith) refl
        (unfold to_be_bytes in omega arith)
      ∙ ap
          (λ h. parse_header streams h >>= λ s'.
            read streams s' (drop (header_length - 0) (frame s ++ rest)))
          head
      ∙ ap
          (λ l. parse_header streams (to_be_bytes s.stream ++ to_be_bytes n) >>= λ s'.
            read streams s' l)
          tail
      ∙ ap (λ r. r >>= λ s'. read streams s' (s.message ++ rest))
          (parse_header-frame s.stream n h.known h.word h.fits)
      ∙ read-body_frame s.stream s.message rest
      ∙ ap (λ r. r >>= after (s ∷ [])) (sym (read-new streams rest))

  read-nil : read streams new [] ≡ done (new, [])
  unfolding new feed_all flush
  read-nil = refl

  -- Messages that may be sent are all written, and what was written, followed by anything, is read as
  -- the same messages in the same order.
  pub write_all-read :
      (ss : List Sent)
      → All (IsSendable streams) ss
      → (bytes : List ℕ) × (write_all ss ≡ done bytes) × (read streams new bytes ≡ done (new, ss))
  unfolding write_all
  write_all-read [] h = ([], refl, read-nil)
  write_all-read (s ∷ ss) (h, hs) =
      let (bytes, e, r) = write_all-read ss hs in
      let fits = h.fits in
      let word : ltb (length s.message) (2 ^ 32) ≡ true = ground arith in
      let wrote : write_message s.stream s.message ≡ done (frame s) =
        unfold write_message in rw word refl in
      (
        frame s ++ bytes,
        rw (wrote, e) refl,
        read-frame s bytes h ∙ ap (λ q. q >>= after (s ∷ [])) r,
      )
