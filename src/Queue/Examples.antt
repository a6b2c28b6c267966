-- ===== src/Queue/Examples.antt =====
-- The theorems on common/src/queue.rs at concrete rings and messages.
use privasys_enclave_os_mini.Common.{
  ℕ, ◌%◌, ◌-◌, ◌≤◌, ◌<◌, ◌≡◌, ◌≢◌, refl, ap, bit_and, true, some, [], ◌∷◌, arith, length, replicate,
}
use privasys_enclave_os_mini.Common.Bytes.{Bytes}
use privasys_enclave_os_mini.Queue.Capacity.{
  IsCapacity, SpscQueueHeader, new, max_message_bytes, shared_queue_capacity_valid, mask_mod,
  is_power_of_two, is_power_below,
}
use privasys_enclave_os_mini.Queue.Memory.{Memory}
use privasys_enclave_os_mini.Queue.Ring.{Ring}
use privasys_enclave_os_mini.Queue.Producer.{sent, refused, try_send, send_bounded}
use privasys_enclave_os_mini.Queue.Consumer.{
  Owned, buffer, try_recv, try_recv_into, try_recv_with, readable_frame,
}
use privasys_enclave_os_mini.Queue.Fifo.{Holds, enqueue, dequeue, dequeue_into}
use privasys_enclave_os_mini.Queue.Fifo.Send.{try_send_refines}
use privasys_enclave_os_mini.Queue.Fifo.Receive.{
  try_recv_refines, try_recv_into_refines, try_recv_with_refines, Gets, readable_frame-message,
}
use privasys_enclave_os_mini.Queue.Fifo.Run.{
  Op, get, run, run_queue, new-Holds, run_refines, send_bounded-refuses, send_bounded_completes,
  taken,
}
use privasys_enclave_os_mini.Queue.Safety.{try_recv_bounded, try_send-outside, try_recv-inside}

abbrev blank : Memory
blank i = 0

abbrev header : SpscQueueHeader
header = record { head = 0; tail = 0; capacity = 4096 }

abbrev ring0 : Ring
ring0 = record { header = header; base = 64; memory = blank }

-- A header whose positions the other side made inconsistent.
abbrev hostile : Ring
hostile = record { header = record header { head = 9000; tail = 1 }; base = 64; memory = blank }

abbrev msg : Bytes
msg = 7 ∷ 8 ∷ 9 ∷ []

abbrev long : Bytes
long = replicate 5000 1

valid : shared_queue_capacity_valid 4096 ≡ true
unfolding shared_queue_capacity_valid is_power_of_two is_power_below
valid = refl

v : IsCapacity 4096
v = record { exponent = 12; power = refl; least = omega arith; greatest = omega arith }

created : new 4096 ≡ some header
unfolding new shared_queue_capacity_valid is_power_of_two is_power_below
created = refl

ring0-Holds : Holds 4096 ring0 []
ring0-Holds = (new-Holds 4096 64 blank created).1

ring1 : Ring
ring1 = (try_send (record { capacity = 4096 }) 0 8 ring0 msg).1

ring1-Holds : Holds 4096 ring1 (msg ∷ [])
unfolding enqueue max_message_bytes ring1
ring1-Holds = (try_send_refines v ring0-Holds 0 8 msg).1

run_refines_example :
    run 4096 ring0 (Op.put 0 8 msg ∷ get 0 8 ∷ get 0 8 ∷ [])
    ≡ run_queue 4096 [] (Op.put 0 8 msg ∷ get 0 8 ∷ get 0 8 ∷ [])
run_refines_example = run_refines v (Op.put 0 8 msg ∷ get 0 8 ∷ get 0 8 ∷ []) ring0-Holds

try_send_refines_example :
    ((try_send (record { capacity = 4096 }) 0 8 ring1 msg).0 ≡ (enqueue 4096 (msg ∷ []) msg).0)
    × Holds 4096
        (try_send (record { capacity = 4096 }) 0 8 ring1 msg).1
        (enqueue 4096 (msg ∷ []) msg).1
try_send_refines_example = try_send_refines v ring1-Holds 0 8 msg

try_recv_refines_example :
    ((try_recv (record { capacity = 4096 }) 0 8 ring1).0 ≡ (dequeue (msg ∷ [])).0)
    × Holds 4096 (try_recv (record { capacity = 4096 }) 0 8 ring1).1 (dequeue (msg ∷ [])).1
try_recv_refines_example = try_recv_refines v (msg ∷ []) ring1-Holds 0 8

try_recv_into_refines_example :
    let (result, output', ring') =
      try_recv_into (record { capacity = 4096 }) 0 8 ring1 (1 ∷ 2 ∷ []) in
    (result ≡ (dequeue_into (msg ∷ []) (1 ∷ 2 ∷ [])).0)
    × (output' ≡ (dequeue_into (msg ∷ []) (1 ∷ 2 ∷ [])).1)
    × Holds 4096 ring' (dequeue_into (msg ∷ []) (1 ∷ 2 ∷ [])).2
try_recv_into_refines_example = try_recv_into_refines v (msg ∷ []) ring1-Holds 0 8 (1 ∷ 2 ∷ [])

abbrev owner : ℕ → Bytes → Owned ℕ
owner len prefix = buffer (0 ∷ 0 ∷ 0 ∷ 0 ∷ [])

try_recv_with_refines_example :
    let (result, ring') = try_recv_with (record { capacity = 4096 }) 2 0 8 owner ring1 in
    Gets (owner 3 (7 ∷ 8 ∷ [])) msg result × Holds 4096 ring' []
try_recv_with_refines_example = try_recv_with_refines v msg [] ring1-Holds 2 0 8 owner

send_bounded-refuses_example :
    (max_message_bytes 4096 < length long
      → send_bounded (record { capacity = 4096 }) 0 8 [] ring0 long ≡ (some refused, ring0))
    × (length long ≤ max_message_bytes 4096
        → (send_bounded (record { capacity = 4096 }) 0 8 [] ring0 long).0 ≢ some refused)
send_bounded-refuses_example = send_bounded-refuses 4096 0 8 [] ring0 long

fits : length msg ≤ max_message_bytes 4096
unfolding max_message_bytes
fits = omega arith

send_bounded_completes_example :
    (ring' : Ring) × (send_bounded
        (record { capacity = 4096 })
        0
        8
        (replicate 1 (taken 4096 0 8))
        ring1
        msg
      ≡ (some sent, ring'))
send_bounded_completes_example = send_bounded_completes v 0 8 0 8 (msg ∷ []) msg ring1-Holds fits

readable_msg : (readable_frame (record { capacity = 4096 }) 0 ring1).0 ≡ some (ring1.tail, 3)
readable_msg = ap (λ p. p.0) (readable_frame-message v ring1-Holds 0)

received_msg : (try_recv (record { capacity = 4096 }) 0 8 ring1).0 ≡ some msg
unfolding dequeue
received_msg = (try_recv_refines v (msg ∷ []) ring1-Holds 0 8).0

try_recv_bounded_example : length msg ≤ max_message_bytes 4096
try_recv_bounded_example = try_recv_bounded v 0 8 ring1 msg received_msg

try_send-outside_example :
    ((i : ℕ)
      → 4096 ≤ i
      → (try_send (record { capacity = 4096 }) 0 8 hostile msg).1.memory i ≡ hostile.memory i)
    × ((try_send (record { capacity = 4096 }) 0 8 hostile msg).0 ≡ refused
        → (try_send (record { capacity = 4096 }) 0 8 hostile msg).1 ≡ hostile)
try_send-outside_example = try_send-outside v 0 8 hostile msg

try_recv-inside_example :
    (try_recv (record { capacity = 4096 }) 0 8 (record hostile { memory = blank })).0
    ≡ (try_recv (record { capacity = 4096 }) 0 8 hostile).0
try_recv-inside_example = try_recv-inside v 0 8 hostile blank (λ i h. refl)

mask_mod_example : bit_and 9000 (4096 - 1) ≡ 9000 % 4096
mask_mod_example = mask_mod v 9000
