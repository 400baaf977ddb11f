-- ===== src/Mux/Steps.antt =====
-- One call of `receive_step` and the reader of `Bytewise` on the same bytes, case by case.
use ossa.Prelude.{
  ℕ, zero, suc, ◌+◌, ◌-◌, ◌<◌, ◌≤◌, ◌*◌, min, ◌≡◌, refl, sym, ap, ◌∙◌, List, [], ◌∷◌, ◌++◌, length,
  take, drop, Run, done, panic, ◌>>=◌, arith, length-take, length-append, take-append-drop, true,
  false, ◌==◌,
}
use mathlib.Core.List.{append-nil}
use native.Mathlib.Decide.{dec_lt}
use ossa.Mux.{
  from_be_bytes, ReadState, processing_header, processing_body, new, Sent, header_length,
  parse_header, stay, go_on, deliver, receive_step, Received, received, sent_first, handle_receive,
  copy_to_slice,
}
use ossa.Mux.Bytewise.{
  flush, feed_all, after, read, after-nil, feed_all-append, feed_all-header_full, feed_all-body,
  flush-room, flush-full,
}

abbrev pub outcome : ReadState × List Sent → Run Received
outcome (s, out) = done (received s out)

pub handle_receive-stay :
    (fuel : ℕ) (streams : List ℕ) (s s' : ReadState) (buf : List ℕ) (out : List Sent)
    → receive_step streams s buf ≡ done (stay s' out)
    → handle_receive (suc fuel) streams s buf ≡ done (received s' out)
unfolding handle_receive
handle_receive-stay fuel streams s s' buf out e = rw (e, ◌>>=◌) refl

pub handle_receive-go_on :
    (fuel : ℕ) (streams : List ℕ) (s s' : ReadState) (buf rest : List ℕ) (out : List Sent)
    → receive_step streams s buf ≡ done (go_on s' out rest)
    → handle_receive (suc fuel) streams s buf
      ≡ (handle_receive fuel streams s' rest >>= sent_first out)
unfolding handle_receive
handle_receive-go_on fuel streams s s' buf rest out e = rw (e, ◌>>=◌) refl

pub handle_receive-panic :
    (fuel : ℕ) (streams : List ℕ) (s : ReadState) (buf : List ℕ)
    → receive_step streams s buf ≡ panic
    → handle_receive (suc fuel) streams s buf ≡ panic
unfolding handle_receive
handle_receive-panic fuel streams s buf e = rw (e, ◌>>=◌) refl

pub outcome-after :
    (out : List Sent) (r : Run (ReadState × List Sent))
    → ((r >>= outcome) >>= sent_first out) ≡ ((r >>= after out) >>= outcome)
outcome-after out (done (s, more)) = refl
outcome-after out panic = refl

pub take-all : (xs : List ℕ) (n : ℕ) → length xs ≤ n → take n xs ≡ xs
take-all [] zero l = refl
take-all [] (suc n) l = refl
take-all (x ∷ xs) zero l = absurd (omega arith)
take-all (x ∷ xs) (suc n) l = ap (◌∷◌ x) (take-all xs n (omega arith))

-- the fuel that a state and a buffer need
abbrev pub need : ReadState → List ℕ → ℕ
need (processing_header p h) buf = 2 * length buf + 1
need (processing_body n s b) buf = 2 * length buf + 2

pub parse_header-body :
    (streams header : List ℕ) (s : ReadState)
    → parse_header streams header ≡ done s
    → (n : ℕ) × (i : ℕ) × (s ≡ processing_body n i [])
unfolding parse_header
parse_header-body streams header s e =
    (from_be_bytes (take 4 (drop 4 header)), from_be_bytes (take 4 header), ground arith)

module _ (streams : List ℕ) where
  -- the header still has room after the buffer
  pub step-header :
      (p : ℕ) (h buf : List ℕ)
      → p + length buf < header_length
      → receive_step streams (processing_header p h) buf
        ≡ done (stay (processing_header (p + length buf) (copy_to_slice h p buf)) [])
  unfolding receive_step
  step-header p h buf l =
      let c : min (length buf) (header_length - p) ≡ length buf = omega arith in
      let t : (p + length buf == header_length) ≡ false = ground arith in
      rw c (rw (take-all buf (length buf) (omega arith)) (rw t refl))

  pub step-header_full :
      (p : ℕ) (h buf : List ℕ)
      → p < header_length
      → header_length ≤ p + length buf
      → receive_step streams (processing_header p h) buf ≡ (
          parse_header streams (copy_to_slice h p (take (header_length - p) buf)) >>= λ s.
          done (go_on s [] (drop (header_length - p) buf)))
  unfolding receive_step
  step-header_full p h buf l f =
      let c : min (length buf) (header_length - p) ≡ header_length - p = omega arith in
      let t : (p + (header_length - p) == header_length) ≡ true = ground arith in rw c (rw t refl)

  pub step-body :
      (n i : ℕ) (b buf : List ℕ)
      → length b + length buf < n
      → receive_step streams (processing_body n i b) buf
        ≡ done (stay (processing_body n i (b ++ buf)) [])
  unfolding receive_step
  step-body n i b buf l =
      let c : min (length buf) (n - length b) ≡ length buf = omega arith in
      let size = length-append b buf in
      let t : (length (b ++ buf) == n) ≡ false = ground arith in
      rw c (rw (take-all buf (length buf) (omega arith)) (rw t refl))

  module _ (n i : ℕ) (b buf : List ℕ) (v : length b ≤ n) (f : n ≤ length b + length buf) where
    abbrev pub whole : List ℕ
    whole = b ++ take (n - length b) buf

    abbrev pub left : List ℕ
    left = drop (n - length b) buf

    abbrev pub sent : Sent
    sent = record { stream = i; message = whole }

    pub length-whole : length whole ≡ n
    length-whole =
        omega (arith, length-append b (take (n - length b) buf), length-take (n - length b) buf)

    pub step-body_full : receive_step streams (processing_body n i b) buf ≡ deliver sent left
    unfolding receive_step
    step-body_full =
        let c : min (length buf) (n - length b) ≡ n - length b = omega arith in
        let size = length-whole in
        let t : (length whole == n) ≡ true = ground arith in rw c (rw t refl)

    pub read-body_full :
        read streams (processing_body n i b) buf ≡ (feed_all streams new left >>= after (sent ∷ []))
    read-body_full = elim (dec_lt (length b) n) [
      | yes l ↦
          let piece =
            feed_all-body streams b (take (n - length b) buf) n i l
              (omega (arith, length-take (n - length b) buf)) in
          let full = flush-full n i whole length-whole in
          let joined =
            feed_all-append streams (processing_body n i b) (take (n - length b) buf) left in
          rw (flush-room n i b l) (
            after-nil _
            ∙ ap (feed_all streams (processing_body n i b))
                (sym (take-append-drop (n - length b) buf))
            ∙ joined
            ∙ rw piece (rw full refl))
      | no l ↦
          let same : length b ≡ n = omega arith in
          let none_left : n - length b ≡ 0 = omega arith in
          rw (flush-full n i b same) (rw none_left (rw (append-nil b) refl))
    ]

  pub read-header :
      (p : ℕ) (h buf : List ℕ)
      → read streams (processing_header p h) buf ≡ feed_all streams (processing_header p h) buf
  unfolding flush
  read-header p h buf = after-nil _

  pub read-new : (buf : List ℕ) → read streams new buf ≡ feed_all streams new buf
  unfolding new
  read-new buf = read-header 0 _ buf

  pub flush_both :
      (r : Run ReadState) (rest : List ℕ)
      → ((r >>= λ s. done (flush s)) >>= λ (s1, out). feed_all streams s1 rest >>= after out)
        ≡ (r >>= λ s. read streams s rest)
  flush_both (done s) rest = refl
  flush_both panic rest = refl

  pub read-header_full :
      (p : ℕ) (h buf : List ℕ)
      → p < header_length
      → length h ≡ header_length
      → header_length ≤ p + length buf
      → read streams (processing_header p h) buf ≡ (
          parse_header streams (copy_to_slice h p (take (header_length - p) buf)) >>= λ s.
          read streams s (drop (header_length - p) buf))
  read-header_full p h buf l e f =
      let k = header_length - p in
      let size = length-take k buf in
      let piece = feed_all-header_full streams h (take k buf) p l (omega arith) e in
      read-header p h buf
      ∙ ap (feed_all streams (processing_header p h)) (sym (take-append-drop k buf))
      ∙ feed_all-append streams (processing_header p h) (take k buf) (drop k buf)
      ∙ ap (λ r. r >>= λ (s1, out). feed_all streams s1 (drop k buf) >>= after out) piece
      ∙ flush_both (parse_header streams (copy_to_slice h p (take k buf))) (drop k buf)

  pub read-body :
      (n i : ℕ) (b buf : List ℕ)
      → length b + length buf < n
      → read streams (processing_body n i b) buf ≡ done (processing_body n i (b ++ buf), [])
  read-body n i b buf l =
      let size = length-append b buf in
      rw (flush-room n i b (omega arith)) (
        after-nil _
        ∙ feed_all-body streams b buf n i (omega arith) (omega arith)
        ∙ ap done (flush-room n i (b ++ buf) (omega arith)))
