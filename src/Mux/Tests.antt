-- ===== src/Mux/Tests.antt =====
-- The reader on small inputs.
use ossa.Prelude.{ℕ, ◌≡◌, refl, List, [], ◌∷◌, done, panic, ◌>>=◌, contains, All, arith, nat_ord}
use ossa.Mux.{
  processing_header, processing_body, new, Sent, parse_header, receive_step, handle_receive,
  from_be_bytes,
}
use ossa.Mux.Bytewise.{read}
use ossa.Mux.Steps.{outcome}
use ossa.Mux.Chunks.{handle_receive_reads}
use ossa.Mux.Frames.{IsSendable, write_all}
use ossa.Mux.Split.{receive_all, concat, write_all-receive_all, receive_all-concat}

abbrev streams : List ℕ
streams = 0 ∷ 7 ∷ []

abbrev hello : Sent
hello = record { stream = 7; message = 104 ∷ 105 ∷ [] }

abbrev bytes : List ℕ
bytes = 0 ∷ 0 ∷ 0 ∷ 7 ∷ 0 ∷ 0 ∷ 0 ∷ 2 ∷ 104 ∷ 105 ∷ []

-- the header is cut in two, and the second buffer ends in the next header
cut_header :
    receive_all streams new ((0 ∷ 0 ∷ 0 ∷ []) ∷ (7 ∷ 0 ∷ 0 ∷ 0 ∷ 2 ∷ 104 ∷ 105 ∷ 0 ∷ []) ∷ [])
    ≡ done (processing_header 1 (0 ∷ 0 ∷ 0 ∷ 0 ∷ 0 ∷ 0 ∷ 0 ∷ 0 ∷ []), hello ∷ [])
unfolding receive_all handle_receive receive_step parse_header from_be_bytes new contains
cut_header = refl

-- an empty message is sent as soon as its header is complete
empty_message :
    receive_all streams new ((0 ∷ 0 ∷ 0 ∷ 7 ∷ 0 ∷ 0 ∷ 0 ∷ 0 ∷ []) ∷ [])
    ≡ done (new, record { stream = 7; message = [] } ∷ [])
unfolding receive_all handle_receive receive_step parse_header from_be_bytes new contains
empty_message = refl

unknown_stream : receive_all streams new ((0 ∷ 0 ∷ 0 ∷ 8 ∷ 0 ∷ 0 ∷ 0 ∷ 0 ∷ []) ∷ []) ≡ panic
unfolding receive_all handle_receive receive_step parse_header from_be_bytes new contains
unknown_stream = refl

hello-IsSendable : All (IsSendable streams) (hello ∷ [])
unfolding contains
hello-IsSendable = (record { known = refl; word = omega arith; fits = omega arith }, tt)

write_all-receive_all_example :
    (bs : List ℕ) × (write_all (hello ∷ []) ≡ done bs)
    × ((bufs : List (List ℕ))
        → concat bufs ≡ bs
        → receive_all streams new bufs ≡ done (new, hello ∷ []))
write_all-receive_all_example = write_all-receive_all streams (hello ∷ []) hello-IsSendable

receive_all-concat_example :
    receive_all streams (processing_body 3 7 (104 ∷ [])) ((105 ∷ []) ∷ (106 ∷ 0 ∷ []) ∷ [])
    ≡ receive_all streams (processing_body 3 7 (104 ∷ [])) ((105 ∷ 106 ∷ []) ∷ [] ∷ (0 ∷ []) ∷ [])
receive_all-concat_example =
    receive_all-concat streams (processing_body 3 7 (104 ∷ [])) ((105 ∷ []) ∷ (106 ∷ 0 ∷ []) ∷ [])
      ((105 ∷ 106 ∷ []) ∷ [] ∷ (0 ∷ []) ∷ []) (omega arith) refl

handle_receive_reads_example :
    handle_receive 30 streams (processing_body 2 7 (104 ∷ [])) (105 ∷ bytes)
    ≡ (read streams (processing_body 2 7 (104 ∷ [])) (105 ∷ bytes) >>= outcome)
handle_receive_reads_example =
    handle_receive_reads streams 30 (processing_body 2 7 (104 ∷ [])) (105 ∷ bytes) (omega arith)
      (omega arith)
