-- ===== src/Queue/Fifo/Run.antt =====
-- Whole runs of the ring of common/src/queue.rs: sends and receives in any order, and the blocking
-- operations.
use privasys_enclave_os_mini.Common.{
  ℕ, ◌≤◌, ◌<◌, ◌≡◌, ◌≢◌, ◌⊎◌, refl, sym, ap, ◌∙◌, true, false, Option, some, List, [], ◌∷◌, arith,
  length, replicate, leb, inl, inr,
}
use privasys_enclave_os_mini.Common.Bytes.{Bytes}
use privasys_enclave_os_mini.Queue.Capacity.{
  IsCapacity, max_message_bytes, max_message_bytes-bounds, SpscQueueHeader, new, valid-IsCapacity,
  new_lem,
}
use privasys_enclave_os_mini.Queue.Memory.{Memory}
use privasys_enclave_os_mini.Queue.Ring.{Ring}
use privasys_enclave_os_mini.Queue.Ring.Window.{window}
use privasys_enclave_os_mini.Queue.Producer.{
  SpscProducer, SendResult, sent, refused, try_send, message_len_valid, send_loop, send_bounded,
}
use privasys_enclave_os_mini.Queue.Consumer.{try_recv}
use privasys_enclave_os_mini.Queue.Fifo.{enqueue, dequeue, Holds}
use privasys_enclave_os_mini.Queue.Fifo.Send.{try_send_refines}
use privasys_enclave_os_mini.Queue.Fifo.Receive.{try_recv_refines}

-- One call of either side, with the addresses of its storage.
pub data Op : Type 0 where
  put : (local from : ℕ) → Bytes → Op
  get : (local to : ℕ) → Op

-- What a call returns.
pub data Reply : Type 0 where
  put_reply : SendResult → Reply
  get_reply : Option Bytes → Reply

-- The calls of both sides on one ring, in the order in which they take effect.
unfoldable pub run : ℕ → Ring → List Op → List Reply
run c ring [] = []
run c ring (put local from msg ∷ ops) =
    let (r, ring') = try_send (record { capacity = c }) local from ring msg in
    put_reply r ∷ run c ring' ops
run c ring (get local to ∷ ops) =
    let (r, ring') = try_recv (record { capacity = c }) local to ring in
    get_reply r ∷ run c ring' ops

-- The same calls on the bounded queue.
unfoldable pub run_queue : ℕ → List Bytes → List Op → List Reply
run_queue c msgs [] = []
run_queue c msgs (put local from msg ∷ ops) =
    let (r, msgs') = enqueue c msgs msg in put_reply r ∷ run_queue c msgs' ops
run_queue c msgs (get local to ∷ ops) =
    let (r, msgs') = dequeue msgs in get_reply r ∷ run_queue c msgs' ops

-- A header that was created has a valid capacity, and a ring over it holds no message.
pub new-Holds :
    (c base : ℕ) (m : Memory) {header : SpscQueueHeader}
    → new c ≡ some header
    → IsCapacity c × Holds c (record { header = header; base = base; memory = m }) []
unfolding window
new-Holds c base m {header} e =
    let (valid, head, tail, cap) = new_lem c e in
    (
      valid-IsCapacity c valid,
      record {
        tail_word = omega (arith, tail);
        head_at = omega (arith, head, tail);
        fits = omega arith;
        sizes = tt;
        content = refl;
      },
    )

-- For a capacity that passes the checks: no sequence of sends and receives, starting at a ring
-- that holds some messages, tells the ring from a bounded first-in first-out queue of the same
-- messages.
pub run_refines :
    {c : ℕ} (v : IsCapacity c) (ops : List Op) {ring : Ring} {msgs : List Bytes}
    → Holds c ring msgs
    → run c ring ops ≡ run_queue c msgs ops
unfolding run run_queue
run_refines v [] h = refl
run_refines {c} v (put local from msg ∷ ops) {ring} {msgs} h =
    let (e, h') = try_send_refines v h local from msg in
    rw e (ap (λ t. put_reply (enqueue c msgs msg).0 ∷ t) (run_refines v ops h'))
run_refines {c} v (get local to ∷ ops) {ring} {msgs} h =
    let (e, h') = try_recv_refines v msgs h local to in
    rw e (ap (λ t. get_reply (dequeue msgs).0 ∷ t) (run_refines v ops h'))

SendResult-cases : (s : SendResult) → (s ≡ sent) ⊎ (s ≡ refused)
SendResult-cases sent = inl refl
SendResult-cases refused = inr refl

send_loop-ne-refused :
    (p : SpscProducer) (local from : ℕ) (others : List (Ring → Ring)) (ring : Ring) (msg : Bytes)
    → (send_loop p local from others ring msg).0 ≢ some refused
unfolding send_loop
send_loop-ne-refused p local from [] ring msg =
    elim (SendResult-cases (try_send p local from ring msg).0) [
      | inl e ↦ rw (e, send_loop) (λ q. cc)
      | inr e ↦ rw (e, send_loop) (λ q. cc)
    ]
send_loop-ne-refused p local from (other ∷ others) ring msg =
    elim (SendResult-cases (try_send p local from ring msg).0) [
      | inl e ↦ rw (e, send_loop) (λ q. cc)
      | inr e ↦
          rw (e, send_loop)
            (send_loop-ne-refused p local from others (other (try_send p local from ring msg).1)
              msg)
    ]

-- `send_bounded` refuses every message that is longer than the ring can ever take, at once and
-- without a change; any other message it never refuses, whatever the other side does.
pub send_bounded-refuses :
    (c local from : ℕ) (others : List (Ring → Ring)) (ring : Ring) (msg : Bytes)
    → (max_message_bytes c < length msg
        → send_bounded (record { capacity = c }) local from others ring msg ≡ (some refused, ring))
      × (length msg ≤ max_message_bytes c
          → (send_bounded (record { capacity = c }) local from others ring msg).0 ≢ some refused)
unfolding send_bounded message_len_valid
send_bounded-refuses c local from others ring msg = (
  (λ large. let t : leb (length msg) (max_message_bytes c) ≡ false = ground arith in rw t),
  (λ small.
      let t : leb (length msg) (max_message_bytes c) ≡ true = ground arith in
      rw t (send_loop-ne-refused (record { capacity = c }) local from others ring msg)),
)

enqueue-empty :
    {c : ℕ} (v : IsCapacity c) (msg : Bytes)
    → length msg ≤ max_message_bytes c
    → (enqueue c [] msg).0 ≡ sent
unfolding enqueue
enqueue-empty v msg small = ground (arith, max_message_bytes-bounds v)

enqueue-refused :
    (c : ℕ) (msgs : List Bytes) (msg : Bytes)
    → (enqueue c msgs msg).0 ≡ refused
    → (enqueue c msgs msg).1 ≡ msgs
unfolding enqueue
enqueue-refused c msgs msg h = ground arith

-- The consumer takes one message.
abbrev pub taken : ℕ → (local to : ℕ) → Ring → Ring
taken c local to ring = (try_recv (record { capacity = c }) local to ring).1

send_loop_completes :
    {c : ℕ} (v : IsCapacity c) (local from local' to : ℕ) (msgs : List Bytes) {ring : Ring}
    (msg : Bytes)
    → Holds c ring msgs
    → length msg ≤ max_message_bytes c
    → (ring' : Ring) × (send_loop
          (record { capacity = c })
          local
          from
          (replicate (length msgs) (taken c local' to))
          ring
          msg
        ≡ (some sent, ring'))
unfolding send_loop
send_loop_completes {c} v local from local' to [] {ring} msg h small =
    let e = (try_send_refines v h local from msg).0 ∙ enqueue-empty v msg small in
    ((try_send (record { capacity = c }) local from ring msg).1, rw (e, send_loop))
send_loop_completes {c} v local from local' to (m ∷ msgs) {ring} msg h small =
    let (e, h') = try_send_refines v h local from msg in
    elim (SendResult-cases (try_send (record { capacity = c }) local from ring msg).0) [
      | inl s ↦ ((try_send (record { capacity = c }) local from ring msg).1, rw (s, send_loop))
      | inr r ↦
          let kept : Holds c (try_send (record { capacity = c }) local from ring msg).1 (m ∷ msgs) =
            rw (enqueue-refused c (m ∷ msgs) msg (sym e ∙ r)) at h' in
          let next : Holds c
              (taken c local' to (try_send (record { capacity = c }) local from ring msg).1) msgs =
            (unfold dequeue in (try_recv_refines v (m ∷ msgs) kept local' to).1) in
          rw (r, send_loop) (send_loop_completes v local from local' to msgs msg next small)
    ]

-- On a ring of valid capacity that holds some messages, a sender whose message is no longer than
-- the largest one gets it through when the consumer takes one message before each retry, after no
-- more retries than there were messages.
pub send_bounded_completes :
    {c : ℕ} (v : IsCapacity c) (local from local' to : ℕ) (msgs : List Bytes) {ring : Ring}
    (msg : Bytes)
    → Holds c ring msgs
    → length msg ≤ max_message_bytes c
    → (ring' : Ring) × (send_bounded
          (record { capacity = c })
          local
          from
          (replicate (length msgs) (taken c local' to))
          ring
          msg
        ≡ (some sent, ring'))
unfolding send_bounded message_len_valid
send_bounded_completes {c} v local from local' to msgs msg h small =
    let t : leb (length msg) (max_message_bytes c) ≡ true = ground arith in
    rw t (send_loop_completes v local from local' to msgs msg h small)
