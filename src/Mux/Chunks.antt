-- ===== src/Mux/Chunks.antt =====
-- `handle_receive` with its recursion, and the reader of `Bytewise`.
use ossa.Prelude.{
  ℕ, zero, suc, ◌+◌, ◌-◌, ◌<◌, ◌≤◌, ◌*◌, ◌≡◌, refl, sym, ap, ◌∙◌, inl, inr, List, [], ◌∷◌, length,
  take, drop, done, ◌>>=◌, Run-cases, arith, length-drop,
}
use native.Mathlib.Decide.{dec_lt}
use ossa.Mux.{
  ReadState, processing_header, processing_body, new, header_length, parse_header, deliver,
  sent_first, handle_receive, copy_to_slice,
}
use ossa.Mux.Bytewise.{feed_all, after, read, IsValid, after-nil, feed_all-header}
use ossa.Mux.Steps.{
  outcome, handle_receive-stay, handle_receive-go_on, handle_receive-panic, outcome-after, need,
  parse_header-body, step-header, step-header_full, step-body, step-body_full, left, sent,
  read-header, read-header_full, read-body, read-body_full, read-new,
}

module _ (streams : List ℕ) where
  feed_all-nil : feed_all streams new [] ≡ done (new, [])
  unfolding feed_all
  feed_all-nil = refl

  body_end :
      (fuel n i : ℕ) (b buf : List ℕ) (v : length b ≤ n) (f : n ≤ length b + length buf)
      (rest : List ℕ)
      → left streams n i b buf v f ≡ rest
      → handle_receive fuel streams new rest ≡ (read streams new rest >>= outcome)
      → handle_receive (suc fuel) streams (processing_body n i b) buf
        ≡ (read streams (processing_body n i b) buf >>= outcome)
  body_end fuel n i b buf v f [] e ih =
      handle_receive-stay fuel streams _ new buf (sent streams n i b buf v f ∷ [])
        (step-body_full streams n i b buf v f ∙ rw e (unfold deliver in refl))
      ∙ sym (
          ap (λ r. r >>= outcome) (read-body_full streams n i b buf v f)
          ∙ ap
              (λ l.
                (feed_all streams new l >>= after (sent streams n i b buf v f ∷ [])) >>= outcome)
              e
          ∙ ap (λ r. (r >>= after (sent streams n i b buf v f ∷ [])) >>= outcome) feed_all-nil)
  body_end fuel n i b buf v f (x ∷ rest) e ih =
      handle_receive-go_on fuel streams _ new buf (x ∷ rest) (sent streams n i b buf v f ∷ [])
        (step-body_full streams n i b buf v f ∙ rw e (unfold deliver in refl))
      ∙ ap (λ r. r >>= sent_first (sent streams n i b buf v f ∷ [])) ih
      ∙ outcome-after (sent streams n i b buf v f ∷ []) (read streams new (x ∷ rest))
      ∙ ap (λ r. (r >>= after (sent streams n i b buf v f ∷ [])) >>= outcome)
          (read-new streams (x ∷ rest))
      ∙ sym (
          ap (λ r. r >>= outcome) (read-body_full streams n i b buf v f)
          ∙ ap
              (λ l.
                (feed_all streams new l >>= after (sent streams n i b buf v f ∷ [])) >>= outcome)
              e)

  header_end :
      (fuel p : ℕ) (h buf : List ℕ)
      → p < header_length
      → length h ≡ header_length
      → header_length ≤ p + length buf
      → ((n i : ℕ)
          → handle_receive fuel streams (processing_body n i []) (drop (header_length - p) buf)
            ≡ (read streams (processing_body n i []) (drop (header_length - p) buf) >>= outcome))
      → handle_receive (suc fuel) streams (processing_header p h) buf
        ≡ (read streams (processing_header p h) buf >>= outcome)
  header_end fuel p h buf l e f ih =
      let rest = drop (header_length - p) buf in
      let parsed = parse_header streams (copy_to_slice h p (take (header_length - p) buf)) in
      elim (Run-cases parsed) [
        | inl (s, g) ↦
            let (n, i, same) = parse_header-body streams _ s g in
            let g' : parsed ≡ done (processing_body n i []) = g ∙ ap done same in
            handle_receive-go_on fuel streams _ (processing_body n i []) buf rest []
              (step-header_full streams p h buf l f ∙ rw g' refl)
            ∙ ap (λ r. r >>= sent_first []) (ih n i)
            ∙ outcome-after [] (read streams (processing_body n i []) rest)
            ∙ ap (λ r. r >>= outcome) (after-nil _)
            ∙ sym (
                ap (λ r. r >>= outcome) (read-header_full streams p h buf l e f)
                ∙ ap (λ r. (r >>= λ s. read streams s rest) >>= outcome) g')
        | inr g ↦
            handle_receive-panic fuel streams _ buf
              (step-header_full streams p h buf l f ∙ rw g refl)
            ∙ sym (
                ap (λ r. r >>= outcome) (read-header_full streams p h buf l e f)
                ∙ ap (λ r. (r >>= λ s. read streams s rest) >>= outcome) g)
      ]

  new-need : (buf : List ℕ) (fuel : ℕ) → 2 * length buf + 1 ≤ fuel → need new buf ≤ fuel
  unfolding new
  new-need buf fuel l = l

  pub new-IsValid : IsValid new
  unfolding new
  new-IsValid = omega arith

  -- Any buffer, in any valid state of the reader and with the fuel that it needs: `handle_receive`
  -- returns what reading the bytes one at a time gives, and panics where that does.
  pub handle_receive_reads :
      (fuel : ℕ) (s : ReadState) (buf : List ℕ)
      → IsValid s
      → need s buf ≤ fuel
      → handle_receive fuel streams s buf ≡ (read streams s buf >>= outcome)
  handle_receive_reads zero (processing_header p h) buf v l = absurd (omega arith)
  handle_receive_reads zero (processing_body n i b) buf v l = absurd (omega arith)
  handle_receive_reads (suc fuel) (processing_header p h) buf v l =
      elim (dec_lt (p + length buf) header_length) [
        | yes room ↦
            handle_receive-stay fuel streams _ _ buf [] (step-header streams p h buf room)
            ∙ sym (
                ap (λ r. r >>= outcome)
                  (read-header streams p h buf ∙ feed_all-header streams h buf p room v.1))
        | no full ↦ header_end fuel p h buf v.0 v.1 (omega arith) (λ n i.
            handle_receive_reads fuel (processing_body n i []) (drop (header_length - p) buf)
              (omega arith) (omega (arith, length-drop (header_length - p) buf)))
      ]
  handle_receive_reads (suc fuel) (processing_body n i b) buf v l =
      elim (dec_lt (length b + length buf) n) [
        | yes room ↦
            handle_receive-stay fuel streams _ _ buf [] (step-body streams n i b buf room)
            ∙ sym (ap (λ r. r >>= outcome) (read-body streams n i b buf room))
        | no full ↦ body_end fuel n i b buf v (omega arith) _ refl (
            handle_receive_reads fuel new (drop (n - length b) buf) new-IsValid (
              new-need (drop (n - length b) buf) fuel
                (omega (arith, length-drop (n - length b) buf))))
      ]
