-- ===== src/Mux/Split.antt =====
-- The loop of `run_with_miniprotocols`, as far as it reads: one call of `handle_receive` for each buffer
-- that the connection hands over.
use ossa.Prelude.{
  ℕ, suc, ◌+◌, ◌<◌, ◌≤◌, ◌*◌, ◌≡◌, refl, sym, ap, ◌∙◌, List, [], ◌∷◌, ◌++◌, length, set, Run, done,
  panic, ◌>>=◌, Run-cases, >>=-eq-done, arith, ◌==◌, Bool-cases, inl, inr, All, length-set,
  length-append,
}
use mathlib.Core.Path.{subst}
use ossa.Mux.{
  ReadState, processing_header, processing_body, new, Sent, header_length, parse_header, received,
  out_of_fuel, handle_receive,
}
use ossa.Mux.Bytewise.{
  flush, feed, feed_all, after, IsValid, feed_all-append, flush-room, after-nil,
}
use ossa.Mux.Steps.{outcome, need, parse_header-body, read-new}
use ossa.Mux.Chunks.{handle_receive_reads}
use ossa.Mux.Frames.{IsSendable, write_all, write_all-read}

-- `state.read_state` over the buffers, with the messages sent
unfoldable pub receive_all : List ℕ → ReadState → List (List ℕ) → Run (ReadState × List Sent)
receive_all streams s [] = done (s, [])
receive_all streams s (buf ∷ bufs) = handle_receive (2 * length buf + 2) streams s buf >>= λ r.
    elim r [ received s1 out ↦ receive_all streams s1 bufs >>= after out | out_of_fuel ↦ panic ]

abbrev pub concat : List (List ℕ) → List ℕ
concat [] = []
concat (buf ∷ bufs) = buf ++ concat bufs

-- a reader with nothing left to send
abbrev pub IsReady : ReadState → Type 0
IsReady (processing_header p h) = (p < header_length) × (length h ≡ header_length)
IsReady (processing_body n s b) = length b < n

IsReady-IsValid : (s : ReadState) → IsReady s → IsValid s
IsReady-IsValid (processing_header p h) r = r
IsReady-IsValid (processing_body n s b) r = omega arith

flush-IsReady : (s : ReadState) → IsValid s → IsReady (flush s).0
unfolding flush new
flush-IsReady (processing_header p h) v = v
flush-IsReady (processing_body n s b) v = elim (Bool-cases (length b == n)) [
  | inl full ↦ rw full (omega arith)
  | inr room ↦ rw room (ground arith)
]

flush_ready : (s : ReadState) → IsReady s → flush s ≡ (s, [])
flush_ready (processing_header p h) r = unfold flush in refl
flush_ready (processing_body n s b) r = flush-room n s b r

done_fst :
    {s t : ReadState} {a b : List Sent}
    → ◌≡◌ {A = Run (ReadState × List Sent)} (done (s, a)) (done (t, b))
    → s ≡ t
done_fst e = cc

feed-IsReady :
    (streams : List ℕ) (s s1 : ReadState) (out : List Sent) (x : ℕ)
    → IsReady s
    → feed streams s x ≡ done (s1, out)
    → IsReady s1
unfolding feed
feed-IsReady streams (processing_header p h) s1 out x r e =
    elim (Bool-cases (suc p == header_length)) [
      | inl last ↦
          let (s, f, g) = >>=-eq-done (parse_header streams (set h p x)) _ (rw last at e) in
          let (n, i, same) = parse_header-body streams _ s f in
          subst IsReady (done_fst g) (flush-IsReady s (subst IsValid (sym same) (omega arith)))
      | inr more ↦ subst IsReady (done_fst (rw more at e)) (ground arith, length-set h p x ∙ r.1)
    ]
feed-IsReady streams (processing_body n i b) s1 out x r e =
    let size = length-append b (x ∷ []) in
    subst IsReady (done_fst e) (flush-IsReady (processing_body n i (b ++ x ∷ [])) (omega arith))

feed_all-IsReady :
    (streams : List ℕ) (s s1 : ReadState) (out : List Sent) (xs : List ℕ)
    → IsReady s
    → feed_all streams s xs ≡ done (s1, out)
    → IsReady s1
unfolding feed_all
feed_all-IsReady streams s s1 out [] r e = subst IsReady (done_fst e) r
feed_all-IsReady streams s s1 out (x ∷ xs) r e =
    let (p, f, g) = >>=-eq-done (feed streams s x) _ e in
    let (q, f', g') = >>=-eq-done (feed_all streams p.0 xs) _ g in
    subst IsReady (done_fst g')
      (feed_all-IsReady streams p.0 q.0 q.1 xs (feed-IsReady streams s p.0 p.1 x r f) f')

module _ (streams : List ℕ) where
  handle_receive_ready :
      (s : ReadState) (buf : List ℕ)
      → IsReady s
      → handle_receive (2 * length buf + 2) streams s buf ≡ (feed_all streams s buf >>= outcome)
  handle_receive_ready s buf r =
      handle_receive_reads streams (2 * length buf + 2) s buf (IsReady-IsValid s r) (enough s)
      ∙ rw (flush_ready s r) (ap (λ q. q >>= outcome) (after-nil _))
    where
      enough : (t : ReadState) → need t buf ≤ 2 * length buf + 2
      enough (processing_header p h) = omega arith
      enough (processing_body n i b) = omega arith

  receive_all_ready :
      (s : ReadState) (bufs : List (List ℕ))
      → IsReady s
      → receive_all streams s bufs ≡ feed_all streams s (concat bufs)
  unfolding receive_all
  receive_all_ready s [] r = unfold feed_all in refl
  receive_all_ready s (buf ∷ bufs) r = elim (Run-cases (feed_all streams s buf)) [
    | inl ((s1, out), e) ↦
        let ih = receive_all_ready s1 bufs (feed_all-IsReady streams s s1 out buf r e) in
        let step : handle_receive (2 * length buf + 2) streams s buf ≡ done (received s1 out) =
          handle_receive_ready s buf r ∙ ap (λ q. q >>= outcome) e in
        rw (step, whole, e) (ap (λ q. q >>= after out) ih)
    | inr e ↦
        let step : handle_receive (2 * length buf + 2) streams s buf ≡ panic =
          handle_receive_ready s buf r ∙ ap (λ q. q >>= outcome) e in
        rw (step, whole, e) refl
  ]
    where
      whole :
          feed_all streams s (buf ++ concat bufs)
          ≡ (feed_all streams s buf >>= λ (s2, o). feed_all streams s2 (concat bufs) >>= after o)
      whole = feed_all-append streams s buf (concat bufs)

  new-IsReady : IsReady new
  unfolding new
  new-IsReady = omega arith

  -- Messages that may be sent are all written; and however the connection cuts what was written into
  -- buffers, the multiplexer never panics and hands over exactly these messages, in order, and
  -- waits for the next header.
  pub write_all-receive_all :
      (ss : List Sent)
      → All (IsSendable streams) ss
      → (bytes : List ℕ) × (write_all ss ≡ done bytes)
        × ((bufs : List (List ℕ))
            → concat bufs ≡ bytes
            → receive_all streams new bufs ≡ done (new, ss))
  write_all-receive_all ss h =
      let (bytes, w, r) = write_all-read streams ss h in
      (
        bytes,
        w,
        λ bufs e.
            receive_all_ready new bufs new-IsReady
            ∙ ap (feed_all streams new) e
            ∙ sym (read-new streams bytes)
            ∙ r,
      )

  -- From a reader with nothing left to send, the messages and the state after some buffers, or a panic,
  -- depend on the bytes alone, and not on how they are cut into buffers.
  pub receive_all-concat :
      (s : ReadState) (bufs bufs' : List (List ℕ))
      → IsReady s
      → concat bufs ≡ concat bufs'
      → receive_all streams s bufs ≡ receive_all streams s bufs'
  receive_all-concat s bufs bufs' r e =
      receive_all_ready s bufs r ∙ ap (feed_all streams s) e ∙ sym (receive_all_ready s bufs' r)
