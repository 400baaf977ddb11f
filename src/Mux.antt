-- ===== src/Mux.antt =====
-- ossa-core/src/network/multiplexer.rs: how received bytes are cut into messages. A byte is a number
-- below 256; a channel to a mini protocol is its stream id, and what is sent on it is recorded in order.
pub mod Bytewise
pub mod Steps
pub mod Chunks
pub mod Frames
pub mod Split
mod Tests
use ossa.Prelude.{
  ℕ, zero, suc, ◌+◌, ◌-◌, ◌*◌, ◌/◌, ◌%◌, ◌^◌, min, Bool, true, false, List, [], ◌∷◌, ◌++◌, length,
  take, drop, replicate, Run, done, panic, ◌>>=◌, ◌==◌, ltb, if◌then◌else◌, contains, nat_ord,
}

abbrev pub header_length : ℕ
header_length = 8

abbrev pub max_message_length : ℕ
max_message_length = 1000 * 1000 * 1024

-- `MultiplexerReadState`
pub data ReadState : Type 0 where
  processing_header : (position : ℕ) → (header : List ℕ) → ReadState
  processing_body : (msg_length : ℕ) → (sender : ℕ) → (send_buffer : List ℕ) → ReadState

unfoldable pub new : ReadState
new = processing_header 0 (replicate header_length 0)

-- A message, with the stream that it was sent on.
pub record Sent : Type 0 where
  pub stream : ℕ
  pub message : List ℕ

-- `copy_to_slice(&mut header[low_i..high_i])`
abbrev pub copy_to_slice : List ℕ → ℕ → List ℕ → List ℕ
copy_to_slice header low bytes = take low header ++ (bytes ++ drop (low + length bytes) header)

-- `u32::from_be_bytes` of four bytes
unfoldable pub from_be_bytes : List ℕ → ℕ
from_be_bytes (a ∷ b ∷ c ∷ d ∷ []) = ((a * 256 + b) * 256 + c) * 256 + d
from_be_bytes _ = 0

-- `write_u32`
unfoldable pub to_be_bytes : ℕ → List ℕ
to_be_bytes n = n / 2 ^ 24 % 256 ∷ n / 2 ^ 16 % 256 ∷ n / 256 % 256 ∷ n % 256 ∷ []

-- What `run_with_miniprotocols` writes for an outgoing message: its stream, its length, its bytes. The
-- length is made a `u32` by `try_into().expect`.
unfoldable pub write_message : ℕ → List ℕ → Run (List ℕ)
write_message stream_id msg =
    if ltb (length msg) (2 ^ 32)
    then done (to_be_bytes stream_id ++ (to_be_bytes (length msg) ++ msg))
    else panic

-- The header is complete: the stream id is looked up and the length is checked.
unfoldable pub parse_header : List ℕ → List ℕ → Run ReadState
parse_header streams header =
    let stream_id = from_be_bytes (take 4 header) in
    let msg_length = from_be_bytes (take 4 (drop 4 header)) in
    if contains stream_id streams
    then (if ltb max_message_length msg_length
        then panic
        else done (processing_body msg_length stream_id []))
    else panic

-- what one call of `handle_receive` leads to: a state to stay in, or a state to go on with
pub data Next : Type 0 where
  stay : ReadState → List Sent → Next
  go_on : ReadState → List Sent → List ℕ → Next

-- The whole message is there: it is sent, and what is left of the buffer is worked on.
unfoldable pub deliver : Sent → List ℕ → Run Next
deliver message [] = done (stay new (message ∷ []))
deliver message (b ∷ rest) = done (go_on new (message ∷ []) (b ∷ rest))

-- The body of `handle_receive`, up to its recursive call.
unfoldable pub receive_step : List ℕ → ReadState → List ℕ → Run Next
unfolding deliver
receive_step streams (processing_header position header) buf =
    let remaining_c = header_length - position in
    let received_c = min (length buf) remaining_c in
    let header' = copy_to_slice header position (take received_c buf) in
    let position' = position + received_c in
    if position' == header_length
    then (parse_header streams header' >>= λ next_state.
        done (go_on next_state [] (drop received_c buf)))
    else done (stay (processing_header position' header') [])
receive_step streams (processing_body msg_length sender send_buffer) buf =
    let remaining_c = msg_length - length send_buffer in
    let received_c = min (length buf) remaining_c in
    let send_buffer' = send_buffer ++ take received_c buf in
    let message : Sent = record { stream = sender; message = send_buffer' } in
    if length send_buffer' == msg_length
    then deliver message (drop received_c buf)
    else done (stay (processing_body msg_length sender send_buffer') [])

pub data Received : Type 0 where
  received : ReadState → List Sent → Received
  out_of_fuel : Received

-- messages sent before the recursive call
abbrev pub sent_first : List Sent → Received → Run Received
sent_first sent (received self more) = done (received self (sent ++ more))
sent_first sent out_of_fuel = done out_of_fuel

-- `handle_receive`, on fuel for its recursive calls.
unfoldable pub handle_receive : ℕ → List ℕ → ReadState → List ℕ → Run Received
handle_receive zero streams self buf = done out_of_fuel
handle_receive (suc fuel) streams self buf = receive_step streams self buf >>= λ next. elim next [
  | stay self' sent ↦ done (received self' sent)
  | go_on self' sent rest ↦ handle_receive fuel streams self' rest >>= sent_first sent
]
