-- ===== src/Tcp/Tests.antt =====
-- The theorems on sockets at concrete ones.
use ucas_computer_network_la.Prelude.{
  ℕ, ◌≡◌, refl, List, [], ◌∷◌, take, arith, length, if◌then◌else◌, set,
}
use ucas_computer_network_la.Ring.Contents.{alloc_ring_buffer_lem}
use ucas_computer_network_la.Tcp.{
  TcpSock, Cb, Segment, SendBuffer, alloc_tcp_sock, established, loss, flag_fin, tcp_sock_close,
}
use ucas_computer_network_la.Tcp.Calls.{strlen, tcp_sock_connected, tcp_sock_write}
use ucas_computer_network_la.Tcp.Calls.Lifecycle.{
  IsUsed, Steps-IsUsed, start, next, connected, closed_by_user,
}
use ucas_computer_network_la.Tcp.Calls.Sending.{Sent, tcp_sock_write-Sent}
use ucas_computer_network_la.Tcp.Input.{new_ack, receive, ofo_of, tcp_process}
use ucas_computer_network_la.Tcp.Input.Moves.{Conforms, tcp_process-Conforms}
use ucas_computer_network_la.Tcp.Input.Congestion.{Acked, new_ack-Acked}
use ucas_computer_network_la.Tcp.Input.Stream.{Delivered, receive-Delivered}
use ucas_computer_network_la.Tcp.Timer.{scan_entries}
use ucas_computer_network_la.Tcp.Timer.Retrans.{Ticks, any_runs_out, scan_entries_lem}
use ucas_computer_network_la.Tcp.Table.{
  Sock, TcpHashTable, init_tcp_stack, tcp_hash_function, tcp_hash, tcp_sock_lookup_established,
  find_connection,
}
use ucas_computer_network_la.Hash.{hash8, hash8_from}
use ucas_computer_network_la.Tcp.Table.Lookup.{IsWhole}
use ucas_computer_network_la.Tcp.Table.{tcp_sock_set_sport, tcp_get_port}
use ucas_computer_network_la.Tcp.Calls.{entry_of, tcp_sock_connect}
use ucas_computer_network_la.Tcp.Input.Handshake.{listener, Leads, tcp_sock_connect-Leads}
use ucas_computer_network_la.Tcp.Stack.{Stack, handle_ip_packet, tcp_packet, null_socket}
use ucas_computer_network_la.Tcp.Stack.Delivery.{Delivers, handle_ip_packet-make_packet}
use ucas_computer_network_la.Wire.{make_packet}
use ucas_computer_network_la.Wire.Roundtrip.{InRange}
use ucas_computer_network_la.Route.{RtEntry, longest_prefix_match}

-- Two segments in flight, that end at 100 and at 200.
abbrev packet : Segment
packet = record {
  saddr = 1;
  daddr = 2;
  sport = 3;
  dport = 4;
  seq = 0;
  ack = 0;
  flags = 24;
  rwnd = 9;
  payload = 7 ∷ [];
}

abbrev sent_to : ℕ → ℕ → SendBuffer
sent_to seq_end timeout = record {
  packet = packet;
  seq_end = seq_end;
  times = 1;
  timeout = timeout;
}

abbrev busy : TcpSock
busy = record alloc_tcp_sock {
  send_buf = sent_to 100 200000 ∷ sent_to 200 100000 ∷ [];
  inflight = 2;
  snd_nxt = 200;
}

new_ack-Acked_example : Acked 150 busy (new_ack 150 busy).0
unfolding alloc_tcp_sock
new_ack-Acked_example = new_ack-Acked 150 busy (refl, refl, omega arith, omega arith)

-- The bytes from 10 on, with those from 12 on that came early.
abbrev cb : Cb
cb = record {
  saddr = 1;
  daddr = 2;
  sport = 3;
  dport = 4;
  seq = 10;
  seq_end = 12;
  ack = 0;
  rwnd = 9;
  flags = 24;
  payload = 5 ∷ 6 ∷ [];
  pl_len = 2;
}

abbrev waiting : TcpSock
waiting = record alloc_tcp_sock {
  rcv_nxt = 10;
  rcv_ofo_buf = record { seq = 12; seq_end = 13; payload = 7 ∷ []; pl_len = 1 } ∷ [];
}

receive-Delivered_example :
    Delivered 10 (ofo_of cb ∷ waiting.rcv_ofo_buf) waiting (receive waiting cb)
unfolding alloc_tcp_sock ofo_of
receive-Delivered_example =
    receive-Delivered cb waiting (alloc_ring_buffer_lem 65535).0 refl
      (refl, omega arith, (refl, omega arith, tt))

scan_entries_lem_example :
    let (es', tsk', events) = scan_entries busy.send_buf busy in
    Ticks es'
    × (length es' ≡ length busy.send_buf)
    × (tsk'.cwnd ≡ (if any_runs_out busy.send_buf then 1 else busy.cwnd))
    × (tsk'.nrstate ≡ (if any_runs_out busy.send_buf then loss else busy.nrstate))
unfolding alloc_tcp_sock
scan_entries_lem_example = scan_entries_lem busy.send_buf busy (
  (refl, omega arith, omega arith, omega arith),
  ((refl, omega arith, omega arith, omega arith), tt),
)

abbrev client : Sock
client = record { id = 1; sk_sip = 167772161; sk_dip = 167772162; sk_sport = 12345; sk_dport = 80 }

init_tcp_stack-IsWhole : IsWhole init_tcp_stack
unfolding init_tcp_stack
init_tcp_stack-IsWhole = record { established_lists = refl; bind_lists = refl }

-- A FIN at an open connection.
tcp_process-Conforms_example :
    let tsk : TcpSock = record busy { state = established } in
    Conforms established flag_fin (tcp_process 4711 tsk (record cb { flags = flag_fin }))
tcp_process-Conforms_example =
    tcp_process-Conforms 4711 (record busy { state = established }) (record cb { flags = flag_fin })

Steps-IsUsed_example : IsUsed (tcp_sock_close (tcp_sock_connected alloc_tcp_sock).0).0.state
unfolding alloc_tcp_sock
Steps-IsUsed_example = Steps-IsUsed (next (next start connected) closed_by_user) tt

-- Two letters, and a NUL behind them; the window opens again where it was shut.
tcp_sock_write-Sent_example :
    let wait = λ (t : TcpSock). record t { snd_wnd = 65535 } in
    let text : List ℕ = 72 ∷ 105 ∷ 0 ∷ [] in
    Sent busy.snd_nxt 2 (take 2 text) (tcp_sock_write 2 wait text 2 busy)
unfolding strlen
tcp_sock_write-Sent_example =
    tcp_sock_write-Sent (λ t. record t { snd_wnd = 65535 }) (72 ∷ 105 ∷ 0 ∷ []) 2 busy (λ t. refl)
      (omega arith)

-- A host whose first connection is that of the segment.
no_sockets : Stack
no_sockets = record { tcp_sock_table = init_tcp_stack; socks = λ n. alloc_tcp_sock }

abbrev connection : Sock
connection = record { id = 6; sk_sip = 2; sk_dip = 1; sk_sport = 4; sk_dport = 3 }

abbrev with_connection : TcpHashTable
with_connection = record init_tcp_stack {
  established_table =
      set init_tcp_stack.established_table (tcp_hash_function 2 1 4 3) (connection ∷ []);
}

packet-InRange : InRange packet
packet-InRange = omega arith

handle_ip_packet-make_packet_example :
    Delivers 5 2 no_sockets connection with_connection (make_packet 77 0 packet) packet
    × (handle_ip_packet 5 2
          (record no_sockets { tcp_sock_table = init_tcp_stack })
          (make_packet 77 0 packet)
        ≡ tcp_packet null_socket)
unfolding no_sockets init_tcp_stack tcp_hash tcp_sock_lookup_established find_connection
    tcp_hash_function hash8 hash8_from
handle_ip_packet-make_packet_example =
    handle_ip_packet-make_packet 5 2 77 0 no_sockets connection with_connection packet
      packet-InRange (record { established_lists = refl; bind_lists = refl }) refl

-- A client at 10.0.0.1 connects to port 10001 of 10.0.0.2.
abbrev routes : List RtEntry
routes = record { dest = 0x0a000000; mask = 0xffffff00; gw = 0; iface = 0 } ∷ []

tcp_sock_connect-Leads_example :
    Leads 8 9
      (listener 3 10 10001 init_tcp_stack)
      (tcp_sock_set_sport (entry_of 4 alloc_tcp_sock) (tcp_get_port init_tcp_stack) init_tcp_stack)
      (longest_prefix_match 0x0a000002 routes)
      (tcp_sock_connect 4 70000 0x0a000002 10001 routes
        (0x0a000001 ∷ [])
        init_tcp_stack
        alloc_tcp_sock)
tcp_sock_connect-Leads_example =
    tcp_sock_connect-Leads 8 9 3 10 init_tcp_stack 4 70000 0x0a000002 10001 routes (0x0a000001 ∷ [])
      init_tcp_stack
