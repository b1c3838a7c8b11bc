-- ===== src/Tcp.antt =====
-- The sockets of Lab15/16-tcp_stack: tcp_sock.h, tcp.h, tcp.c and the sending side of tcp_out.c and
-- tcp_sock.c. A segment is the fields of its header and its data; its bytes are in Wire.antt. Sequence
-- numbers, windows and counters wrap around as the types of the source do.
pub mod Input
pub mod Timer
pub mod Table
pub mod Calls
pub mod Stack
mod Tests
use Prim.Native.Nat.{bit_and}
use ucas_computer_network_la.Prelude.{
  ℕ, zero, suc, ◌+◌, ◌-◌, ◌*◌, ◌/◌, ◌%◌, ◌^◌, Bool, true, false, not, ◌&&◌, ◌||◌, List, [], ◌∷◌,
  ◌++◌, Option, none, some, ltb, leb, ◌==◌, if◌then◌else◌, length, min,
}
use ucas_computer_network_la.Ring.{
  RingBuffer, alloc_ring_buffer, ring_buffer_empty, read_ring_buffer,
}

-- 1514 bytes less the Ethernet, IP and TCP headers.
abbrev pub mss : ℕ
mss = 1460

abbrev pub tcp_default_window : ℕ
tcp_default_window = 65535

abbrev pub tcp_retrans_interval_initial : ℕ
tcp_retrans_interval_initial = 200000

abbrev pub port_min : ℕ
port_min = 12345

abbrev pub port_max : ℕ
port_max = 23456

-- The values of the flags.
abbrev pub flag_fin : ℕ
flag_fin = 1

abbrev pub flag_syn : ℕ
flag_syn = 2

abbrev pub flag_psh : ℕ
flag_psh = 8

abbrev pub flag_ack : ℕ
flag_ack = 16

-- `enum tcp_state`.
pub data TcpState : Type 0 where
  closed listen syn_recv syn_sent established close_wait last_ack fin_wait_1 : TcpState
  fin_wait_2 closing time_wait : TcpState

-- `nrstate`.
pub data NrState : Type 0 where
  loss open_state recover : NrState

-- A TCP packet, with the addresses of its IP header.
pub record Segment : Type 0 where
  pub saddr : ℕ
  pub daddr : ℕ
  pub sport : ℕ
  pub dport : ℕ
  pub seq : ℕ
  pub ack : ℕ
  pub flags : ℕ
  pub rwnd : ℕ
  pub payload : List ℕ

-- `struct tcp_cb`.
pub record Cb : Type 0 where
  pub saddr : ℕ
  pub daddr : ℕ
  pub sport : ℕ
  pub dport : ℕ
  pub seq : ℕ
  pub seq_end : ℕ
  pub ack : ℕ
  pub rwnd : ℕ
  pub flags : ℕ
  pub payload : List ℕ
  pub pl_len : ℕ

-- `struct send_buffer`.
pub record SendBuffer : Type 0 where
  pub packet : Segment
  pub seq_end : ℕ
  pub times : ℕ
  pub timeout : ℕ

-- `struct ofo_buffer`.
pub record OfoBuffer : Type 0 where
  pub seq : ℕ
  pub seq_end : ℕ
  pub payload : List ℕ
  pub pl_len : ℕ

-- `struct tcp_sock`; `has_parent` is whether the parent pointer is set.
pub record TcpSock : Type 0 where
  pub sk_sip : ℕ
  pub sk_sport : ℕ
  pub sk_dip : ℕ
  pub sk_dport : ℕ
  pub has_parent : Bool
  pub backlog : ℕ
  pub state : TcpState
  pub iss : ℕ
  pub snd_una : ℕ
  pub snd_nxt : ℕ
  pub rcv_nxt : ℕ
  pub recovery_point : ℕ
  pub snd_wnd : ℕ
  pub adv_wnd : ℕ
  pub rcv_wnd : ℕ
  pub nrstate : NrState
  pub ack_time : ℕ
  pub cwnd : ℕ
  pub cnt : ℕ
  pub ssthresh : ℕ
  pub inflight : ℕ
  pub rcv_buf : RingBuffer
  pub send_buf : List SendBuffer
  pub rcv_ofo_buf : List OfoBuffer

-- What a call does besides changing the socket, in the order of the source.
pub data Event : Type 0 where
  wake_connect wake_accept wake_send wake_recv : Event
  accept_enqueue bind_unhash unhash timewait_timer : Event
  wild_read : Event
  transmit : Segment → Event
  new_child : TcpSock → Event

pub alloc_tcp_sock : TcpSock
alloc_tcp_sock = record {
  sk_sip = 0;
  sk_sport = 0;
  sk_dip = 0;
  sk_dport = 0;
  has_parent = false;
  backlog = 0;
  state = closed;
  iss = 0;
  snd_una = 0;
  snd_nxt = 0;
  rcv_nxt = 0;
  recovery_point = 0;
  snd_wnd = 0;
  adv_wnd = 0;
  rcv_wnd = tcp_default_window;
  nrstate = open_state;
  ack_time = 0;
  cwnd = 1;
  cnt = 0;
  ssthresh = tcp_default_window / mss;
  inflight = 0;
  rcv_buf = alloc_ring_buffer tcp_default_window;
  send_buf = [];
  rcv_ofo_buf = [];
}

pub tcp_set_state : TcpSock → TcpState → TcpSock
tcp_set_state tsk state = record tsk { state = state }

-- The comparisons of tcp.h: the difference of two 32-bit numbers, as a signed one that wraps around.
abbrev pub difference_32b : ℕ → ℕ → ℕ
difference_32b a b = (a + 2 ^ 32 - b) % 2 ^ 32

pub less_than_32b : ℕ → ℕ → Bool
less_than_32b a b = leb (2 ^ 31) (difference_32b a b)

pub less_or_equal_32b : ℕ → ℕ → Bool
less_or_equal_32b a b = less_than_32b a b || difference_32b a b == 0

-- `flags & flag`.
pub has_flag : ℕ → ℕ → Bool
has_flag flags flag = not (bit_and flags flag == 0)

unfoldable pub tcp_cb_init : Segment → Cb
tcp_cb_init s = record {
  saddr = s.saddr;
  daddr = s.daddr;
  sport = s.sport;
  dport = s.dport;
  seq = s.seq;
  seq_end = (s.seq + length s.payload + (if has_flag s.flags 3 then 1 else 0)) % 2 ^ 32;
  ack = s.ack;
  rwnd = s.rwnd;
  flags = s.flags;
  payload = s.payload;
  pl_len = length s.payload;
}

-- A segment of the socket as it stands, with the flags and the data given.
pub tcp_init_hdr : TcpSock → ℕ → List ℕ → Segment
tcp_init_hdr tsk flags data_bytes = record {
  saddr = tsk.sk_sip;
  daddr = tsk.sk_dip;
  sport = tsk.sk_sport;
  dport = tsk.sk_dport;
  seq = tsk.snd_nxt;
  ack = tsk.rcv_nxt;
  flags = flags;
  rwnd = tsk.rcv_wnd;
  payload = data_bytes;
}

pub tcp_sndbuf_push : TcpSock → Segment → TcpSock
tcp_sndbuf_push tsk packet =
    let buf : SendBuffer = record {
      packet = packet;
      seq_end = tsk.snd_nxt;
      times = 1;
      timeout = tcp_retrans_interval_initial;
    } in
    record tsk { send_buf = tsk.send_buf ++ buf ∷ []; inflight = tsk.inflight + 1 }

-- tcp_sndbuf_pop of the first entry, whose successors are `rest`.
pub tcp_sndbuf_pop : TcpSock → List SendBuffer → TcpSock
tcp_sndbuf_pop tsk rest = record tsk { send_buf = rest; inflight = tsk.inflight - 1 }

-- The socket after it, and the segment that is sent.
pub tcp_send_packet : TcpSock → List ℕ → TcpSock × Segment
tcp_send_packet tsk data_bytes =
    let packet = tcp_init_hdr tsk (flag_psh + flag_ack) data_bytes in
    (
      tcp_sndbuf_push
          (record tsk {
            snd_nxt = (tsk.snd_nxt + length data_bytes) % 2 ^ 32;
            snd_wnd = (tsk.snd_wnd + 2 ^ 32 - length data_bytes) % 2 ^ 32;
          })
          packet,
      packet,
    )

pub tcp_send_control_packet : TcpSock → ℕ → TcpSock × Segment
tcp_send_control_packet tsk flags =
    let packet = tcp_init_hdr tsk flags [] in
    (
      if has_flag flags 3
          then tcp_sndbuf_push (record tsk { snd_nxt = (tsk.snd_nxt + 1) % 2 ^ 32 }) packet
          else tsk,
      packet,
    )

pub tcp_send_reset : Cb → Segment
tcp_send_reset cb = record {
  saddr = cb.daddr;
  daddr = cb.saddr;
  sport = cb.dport;
  dport = cb.sport;
  seq = 0;
  ack = cb.seq_end;
  flags = 20;
  rwnd = 0;
  payload = [];
}

pub tcp_sock_close : TcpSock → TcpSock × List Event
tcp_sock_close tsk = elim tsk.state [
  | established ↦
      let (tsk', packet) = tcp_send_control_packet (tcp_set_state tsk fin_wait_1) flag_fin in
      (tsk', transmit packet ∷ [])
  | close_wait ↦
      let (tsk', packet) = tcp_send_control_packet (tcp_set_state tsk last_ack) flag_fin in
      (tsk', transmit packet ∷ [])
  | _ ↦ (tsk, [])
]

-- tcp_sock_read, once the wait for data is over; none while the buffer is empty.
pub tcp_sock_read : TcpSock → ℕ → Option (ℕ × List ℕ × TcpSock)
tcp_sock_read tsk len =
    if ring_buffer_empty tsk.rcv_buf
    then none
    else (let (plen, out, rcv_buf) = read_ring_buffer tsk.rcv_buf len in
        some (plen, out, record tsk { rcv_buf = rcv_buf; rcv_wnd = (tsk.rcv_wnd + plen) % 2 ^ 16 }))
