-- ===== src/Queue/Fifo.antt =====
-- What the ring of common/src/queue.rs promises: a bounded queue of messages, oldest first.
pub mod Send
pub mod Receive
pub mod Run
use privasys_enclave_os_mini.Common.{
  ℕ, ◌+◌, ◌≤◌, ◌<◌, ◌≡◌, ◌&&◌, Option, none, some, List, [], ◌∷◌, ◌++◌, leb, ltb, drop,
  if◌then◌else◌, length, All,
}
use privasys_enclave_os_mini.Common.Bytes.{Bytes, to_le_bytes}
use privasys_enclave_os_mini.Common.Words.{u64_modulus, wrapping_add}
use privasys_enclave_os_mini.Queue.Capacity.{max_message_bytes}
use privasys_enclave_os_mini.Queue.Ring.{Ring}
use privasys_enclave_os_mini.Queue.Ring.Window.{window}
use privasys_enclave_os_mini.Queue.Consumer.{IntoResult, empty, received, too_short}
use privasys_enclave_os_mini.Queue.Producer.{SendResult, sent, refused}

-- The messages with their length prefixes, as they stand in the ring.
abbrev pub frames : List Bytes → Bytes
frames [] = []
frames (msg ∷ msgs) = to_le_bytes 4 (length msg) ++ (msg ++ frames msgs)

-- The queue that a client sees: a message is refused if it is too long, or if its frame does not fit
-- beside those that wait.
module _ (c : ℕ) where
  unfoldable pub enqueue : List Bytes → Bytes → SendResult × List Bytes
  enqueue msgs msg =
      if leb (length msg) (max_message_bytes c) && leb (length (frames msgs) + 4 + length msg) c
      then (sent, msgs ++ msg ∷ [])
      else (refused, msgs)

unfoldable pub dequeue : List Bytes → Option Bytes × List Bytes
dequeue [] = (none, [])
dequeue (msg ∷ msgs) = (some msg, msgs)

-- The same into storage of the client's, which is overwritten from its front.
unfoldable pub dequeue_into : List Bytes → Bytes → IntoResult × Bytes × List Bytes
dequeue_into [] output = (empty, output, [])
dequeue_into (msg ∷ msgs) output =
    if ltb (length output) (length msg)
    then (too_short (length msg), output, msg ∷ msgs)
    else (received (length msg), msg ++ drop (length msg) output, msgs)

-- The ring of capacity `c` holds these messages, between its two positions.
pub record Holds (c : ℕ) (ring : Ring) (msgs : List Bytes) : Type 0 where
  pub tail_word : ring.tail < u64_modulus
  pub head_at : ring.head ≡ wrapping_add ring.tail (length (frames msgs))
  pub fits : length (frames msgs) ≤ c
  pub sizes : All (λ msg. length msg ≤ max_message_bytes c) msgs
  pub content : window c ring.memory ring.tail (length (frames msgs)) ≡ frames msgs
