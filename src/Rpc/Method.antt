-- ===== src/Rpc/Method.antt =====
-- `RpcMethod` of common/src/rpc.rs and its numbers on the wire.
use privasys_enclave_os_mini.Common.{
  ℕ, ◌<◌, ◌≡◌, ◌↔◌, refl, sym, ap, ◌∙◌, Option, none, some, arith, ◌==◌, if◌then◌else◌,
}

pub data RpcMethod : Type 0 where
  net_tcp_listen net_tcp_accept net_tcp_connect net_send net_recv net_close : RpcMethod
  kv_put kv_get kv_delete kv_list_keys kv_write_batch kv_multi_get kv_scan : RpcMethod
  kv_put_durable worker_storage : RpcMethod
  get_current_time log : RpcMethod
  qe_get_target_info qe_get_quote : RpcMethod
  shutdown : RpcMethod

-- `method as u16`
unfoldable pub to_u16 : RpcMethod → ℕ
to_u16 net_tcp_listen = 0x0100
to_u16 net_tcp_accept = 0x0101
to_u16 net_tcp_connect = 0x0102
to_u16 net_send = 0x0103
to_u16 net_recv = 0x0104
to_u16 net_close = 0x0105
to_u16 kv_put = 0x0200
to_u16 kv_get = 0x0201
to_u16 kv_delete = 0x0202
to_u16 kv_list_keys = 0x0203
to_u16 kv_write_batch = 0x0204
to_u16 kv_multi_get = 0x0205
to_u16 kv_scan = 0x0206
to_u16 kv_put_durable = 0x0207
to_u16 worker_storage = 0x0208
to_u16 get_current_time = 0x0300
to_u16 log = 0x0301
to_u16 qe_get_target_info = 0x0400
to_u16 qe_get_quote = 0x0401
to_u16 shutdown = 0xFF00

unfoldable pub from_u16 : ℕ → Option RpcMethod
from_u16 val =
    if val == 0x0100
    then some net_tcp_listen
    else if val == 0x0101
    then some net_tcp_accept
    else if val == 0x0102
    then some net_tcp_connect
    else if val == 0x0103
    then some net_send
    else if val == 0x0104
    then some net_recv
    else if val == 0x0105
    then some net_close
    else if val == 0x0200
    then some kv_put
    else if val == 0x0201
    then some kv_get
    else if val == 0x0202
    then some kv_delete
    else if val == 0x0203
    then some kv_list_keys
    else if val == 0x0204
    then some kv_write_batch
    else if val == 0x0205
    then some kv_multi_get
    else if val == 0x0206
    then some kv_scan
    else if val == 0x0207
    then some kv_put_durable
    else if val == 0x0208
    then some worker_storage
    else if val == 0x0300
    then some get_current_time
    else if val == 0x0301
    then some log
    else if val == 0x0400
    then some qe_get_target_info
    else if val == 0x0401
    then some qe_get_quote
    else if val == 0xFF00
    then some shutdown
    else none

pub from_u16-to_u16 : (m : RpcMethod) → from_u16 (to_u16 m) ≡ some m
unfolding from_u16 to_u16
from_u16-to_u16 net_tcp_listen = refl
from_u16-to_u16 _ = refl

pub to_u16-from_u16 : (val : ℕ) (m : RpcMethod) → from_u16 val ≡ some m → to_u16 m ≡ val
unfolding from_u16 to_u16
to_u16-from_u16 val m h = ground arith

-- A number is read as a method exactly when it is the number of that method.
pub from_u16_iff : (val : ℕ) (m : RpcMethod) → (from_u16 val ≡ some m) ↔ (to_u16 m ≡ val)
from_u16_iff val m = (to_u16-from_u16 val m, λ e. ap from_u16 (sym e) ∙ from_u16-to_u16 m)

pub to_u16-lt : (m : RpcMethod) → to_u16 m < 65536
unfolding to_u16
to_u16-lt net_tcp_listen = omega arith
to_u16-lt _ = omega arith
