-- ===== src/Mux/Bytewise.antt =====
-- A description of the reader of ossa-core/src/network/multiplexer.rs one byte at a time.
use ossa.Prelude.{
  ℕ, zero, suc, ◌+◌, ◌<◌, ◌≤◌, ◌≡◌, refl, sym, ap, ◌∙◌, List, [], ◌∷◌, ◌++◌, length, set, Run, done,
  panic, ◌>>=◌, true, ◌==◌, if◌then◌else◌, arith, length-append, length-set, take-append-drop,
}
use mathlib.Core.List.{append_assoc, append-nil}
use ossa.Mux.{
  ReadState, processing_header, processing_body, new, Sent, header_length, parse_header,
  copy_to_slice,
}

-- A message is sent as soon as its last byte is there; an empty one at once.
unfoldable pub flush : ReadState → ReadState × List Sent
flush (processing_header p h) = (processing_header p h, [])
flush (processing_body n s b) =
    if length b == n
    then (new, record { stream = s; message = b } ∷ [])
    else (processing_body n s b, [])

unfoldable pub feed : List ℕ → ReadState → ℕ → Run (ReadState × List Sent)
feed streams (processing_header p h) x =
    if suc p == header_length
    then (parse_header streams (set h p x) >>= λ s. done (flush s))
    else done (processing_header (suc p) (set h p x), [])
feed streams (processing_body n s b) x = done (flush (processing_body n s (b ++ x ∷ [])))

abbrev pub after : List Sent → ReadState × List Sent → Run (ReadState × List Sent)
after out (s, more) = done (s, out ++ more)

unfoldable pub feed_all : List ℕ → ReadState → List ℕ → Run (ReadState × List Sent)
feed_all streams s [] = done (s, [])
feed_all streams s (x ∷ xs) = feed streams s x >>= λ (s1, out). feed_all streams s1 xs >>= after out

-- the reader as it stands, its full message sent, and then byte by byte
abbrev pub read : List ℕ → ReadState → List ℕ → Run (ReadState × List Sent)
read streams s buf = let (s1, out) = flush s in feed_all streams s1 buf >>= after out

-- What `handle_receive` is called with: a header with room, or a body that is not too long.
abbrev pub IsValid : ReadState → Type 0
IsValid (processing_header p h) = (p < header_length) × (length h ≡ header_length)
IsValid (processing_body n s b) = length b ≤ n

pub after-nil : (r : Run (ReadState × List Sent)) → (r >>= after []) ≡ r
after-nil (done (s, out)) = refl
after-nil panic = refl

pub after-after :
    (a b : List Sent) (r : Run (ReadState × List Sent))
    → ((r >>= after b) >>= after a) ≡ (r >>= after (a ++ b))
after-after a b (done (s, out)) = rw append_assoc
after-after a b panic = refl

pub feed_all-append :
    (streams : List ℕ) (s : ReadState) (xs ys : List ℕ)
    → feed_all streams s (xs ++ ys)
      ≡ (feed_all streams s xs >>= λ (s1, out). feed_all streams s1 ys >>= after out)
unfolding feed_all
feed_all-append streams s [] ys = sym (after-nil _)
feed_all-append streams s (x ∷ xs) ys =
    go (λ s1. feed_all-append streams s1 xs ys) (feed streams s x)
  where
    then_both : List Sent → Run (ReadState × List Sent) → Run (ReadState × List Sent)
    then_both out r = (r >>= after out) >>= λ (s2, o). feed_all streams s2 ys >>= after o

    regroup :
        (out : List Sent) (r : Run (ReadState × List Sent))
        → ((r >>= λ (s2, o). feed_all streams s2 ys >>= after o) >>= after out) ≡ then_both out r
    regroup out (done (s2, o)) = after-after out o _
    regroup out panic = refl

    go :
        ((s1 : ReadState)
          → feed_all streams s1 (xs ++ ys)
            ≡ (feed_all streams s1 xs >>= λ (s2, o). feed_all streams s2 ys >>= after o))
        → (r : Run (ReadState × List Sent))
        → (r >>= λ (s1, out). feed_all streams s1 (xs ++ ys) >>= after out) ≡ (
            (r >>= λ (s1, out). feed_all streams s1 xs >>= after out) >>= λ (s2, o).
            feed_all streams s2 ys >>= after o)
    go ih (done (s1, out)) =
        ap (λ r. r >>= after out) (ih s1) ∙ regroup out (feed_all streams s1 xs)
    go ih panic = refl

copy_to_slice-cons :
    (h : List ℕ) (p b : ℕ) (bs : List ℕ)
    → p < length h
    → copy_to_slice h p (b ∷ bs) ≡ copy_to_slice (set h p b) (suc p) bs
copy_to_slice-cons [] p b bs l = absurd (omega arith)
copy_to_slice-cons (x ∷ h) zero b bs l =
    let e : 1 + length bs ≡ suc (length bs) = omega arith in
    let e' : 0 + suc (length bs) ≡ suc (length bs) = omega arith in rw (e, e') refl
copy_to_slice-cons (x ∷ h) (suc p) b bs l =
    let e : suc p + suc (length bs) ≡ suc (p + suc (length bs)) = omega arith in
    let e' : suc (suc p) + length bs ≡ suc (suc p + length bs) = omega arith in
    rw (e, e') (ap (◌∷◌ x) (copy_to_slice-cons h p b bs (omega arith)))

pub copy_to_slice-nil : (h : List ℕ) (p : ℕ) → copy_to_slice h p [] ≡ h
copy_to_slice-nil h p = let e : p + 0 ≡ p = omega arith in rw e (take-append-drop p h)

feed_all-cons :
    (streams : List ℕ) (s s1 : ReadState) (out : List Sent) (x : ℕ) (xs : List ℕ)
    → feed streams s x ≡ done (s1, out)
    → feed_all streams s (x ∷ xs) ≡ (feed_all streams s1 xs >>= after out)
unfolding feed_all
feed_all-cons streams s s1 out x xs e =
    ap (λ r. r >>= λ (s2, o). feed_all streams s2 xs >>= after o) e

feed-header :
    (streams h : List ℕ) (p x : ℕ)
    → suc p < header_length
    → feed streams (processing_header p h) x ≡ done (processing_header (suc p) (set h p x), [])
unfolding feed
feed-header streams h p x l = ground arith

feed-header_last :
    (streams h : List ℕ) (p x : ℕ)
    → suc p ≡ header_length
    → feed streams (processing_header p h) x
      ≡ (parse_header streams (set h p x) >>= λ s. done (flush s))
unfolding feed
feed-header_last streams h p x e =
    let t : (suc p == header_length) ≡ true = ground arith in rw t refl

-- header bytes that leave room for more
pub feed_all-header :
    (streams h bs : List ℕ) (p : ℕ)
    → p + length bs < header_length
    → length h ≡ header_length
    → feed_all streams (processing_header p h) bs
      ≡ done (processing_header (p + length bs) (copy_to_slice h p bs), [])
feed_all-header streams h [] p l e =
    let z : p + 0 ≡ p = omega arith in
    unfold feed_all in
    rw (copy_to_slice-nil h p) (ap (λ q. done (processing_header q h, [])) (sym z))
feed_all-header streams h (b ∷ bs) p l e =
    let z : suc p + length bs ≡ p + suc (length bs) = omega arith in
    feed_all-cons streams _ _ [] b bs (feed-header streams h p b (omega arith))
    ∙ after-nil _
    ∙ feed_all-header streams (set h p b) bs (suc p) (omega arith) (length-set h p b ∙ e)
    ∙ ap (λ q. done (processing_header q (copy_to_slice (set h p b) (suc p) bs), [])) z
    ∙ rw (copy_to_slice-cons h p b bs (omega arith)) refl

-- the bytes that complete a header
pub feed_all-header_full :
    (streams h bs : List ℕ) (p : ℕ)
    → p < header_length
    → p + length bs ≡ header_length
    → length h ≡ header_length
    → feed_all streams (processing_header p h) bs
      ≡ (parse_header streams (copy_to_slice h p bs) >>= λ s. done (flush s))
feed_all-header_full streams h [] p l f e = absurd (omega arith)
feed_all-header_full streams h (b ∷ []) p l f e =
    let last = feed-header_last streams h p b (omega arith) in
    let whole = copy_to_slice-cons h p b [] (omega arith) ∙ copy_to_slice-nil (set h p b) (suc p) in
    unfold feed_all in rw (last, whole) (one (parse_header streams (set h p b)))
  where
    one :
        (r : Run ReadState)
        → ((r >>= λ s. done (flush s)) >>= λ (s1, out). done (s1, []) >>= after out)
          ≡ (r >>= λ s. done (flush s))
    one (done s) = ap (λ o. done ((flush s).0, o)) (append-nil (flush s).1)
    one panic = refl
feed_all-header_full streams h (b ∷ c ∷ bs) p l f e =
    feed_all-cons streams _ _ [] b (c ∷ bs) (feed-header streams h p b (omega arith))
    ∙ after-nil _
    ∙ feed_all-header_full streams (set h p b) (c ∷ bs) (suc p) (omega arith) (omega arith)
        (length-set h p b ∙ e)
    ∙ rw (copy_to_slice-cons h p b (c ∷ bs) (omega arith)) refl

pub flush-room :
    (n s : ℕ) (b : List ℕ)
    → length b < n
    → flush (processing_body n s b) ≡ (processing_body n s b, [])
unfolding flush
flush-room n s b l = ground arith

pub flush-full :
    (n s : ℕ) (b : List ℕ)
    → length b ≡ n
    → flush (processing_body n s b) ≡ (new, record { stream = s; message = b } ∷ [])
unfolding flush
flush-full n s b e = let t : (length b == n) ≡ true = ground arith in rw t refl

-- body bytes, up to the last one
pub feed_all-body :
    (streams b bs : List ℕ) (n s : ℕ)
    → length b < n
    → length b + length bs ≤ n
    → feed_all streams (processing_body n s b) bs ≡ done (flush (processing_body n s (b ++ bs)))
feed_all-body streams b [] n s l f =
    rw (append-nil b) (unfold feed_all in ap done (sym (flush-room n s b l)))
feed_all-body streams b (x ∷ []) n s l f =
    unfold feed_all feed in
    ap (λ o. done ((flush (processing_body n s (b ++ x ∷ []))).0, o)) (append-nil _)
feed_all-body streams b (x ∷ y ∷ bs) n s l f =
    let longer = length-append b (x ∷ []) in
    feed_all-cons streams (processing_body n s b) (processing_body n s (b ++ x ∷ [])) [] x (y ∷ bs)
      (unfold feed in ap done (flush-room n s (b ++ x ∷ []) (omega arith)))
    ∙ after-nil _
    ∙ feed_all-body streams (b ++ x ∷ []) (y ∷ bs) n s (omega arith) (omega arith)
    ∙ rw (append_assoc b (x ∷ []) (y ∷ bs)) refl
