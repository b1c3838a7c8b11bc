-- ===== src/Lib.antt =====
-- Verification of the laboratory programs of a course on computer networks. Each lab is a program of
-- its own, and the later ones build on the earlier: the learning switch of Lab4, the spanning tree
-- of Lab5, the prefix trees of Lab8, the link state routing of Lab9, the router with address
-- translation of Lab10, and the TCP stack of Lab15. A component that several labs copy is modelled
-- from one of the copies.
--
-- Parts and files:
-- - Hash.antt: include/hash.h, the 8-bit hash that the tables of the switch, of the translation and
--   of the TCP sockets share (Lab10/12-nat/include/hash.h).
-- - ListHead.antt: Lab15/16-tcp_stack/include/list.h, the doubly linked lists, as pointers in a
--   memory. ListHead/Chains.antt says which list of nodes they stand for; proofs in
--   ListHead/Insert.antt, ListHead/Delete.antt, ListHead/Loop.antt and, for a node that goes from one
--   list to another, ListHead/Move.antt. The other parts have a list for such a list.
-- - Checksum.antt: the checksums of Lab10/12-nat/include/checksum.h, ip.h and icmp.h, of
--   Lab9/11-mopsf/include/mospf_proto.h and of Lab15/16-tcp_stack/include/tcp.h, over bytes; proofs in
--   Checksum/Sum.antt, Checksum/Store.antt, Checksum/Verify.antt and Checksum/Pseudo.antt.
-- - Wire.antt: the bytes of a TCP segment with its headers, as Lab15/16-tcp_stack/tcp_out.c writes and
--   tcp.c reads them; a proof in Wire/Roundtrip.antt. It is what lets Tcp.antt speak of segments.
-- - Ring.antt: the receive buffer, Lab15/16-tcp_stack/include/ring_buffer.h. Ring/Contents.antt has
--   the abstract view, a list of bytes; Ring/Transfer.antt the reads and writes.
-- - Trie.antt: the two prefix trees of Lab8/10-lookup/main.c, of one and of two bits a step, with
--   proofs in Trie/Binary.antt, Trie/Pairs.antt, Trie/Quad.antt and Trie/Longest.antt. What the
--   pointers of a new node hold is a parameter.
-- - Switch.antt: the port table of Lab4/05-switching/mac.c and the frame handler of main.c there;
--   proofs in Switch/Table.antt, Switch/Learning.antt, Switch/Sweep.antt and, over sequences of
--   frames, Switch/Runs.antt.
-- - Stp.antt: Lab5/06-stp/stp.c and stp_timer.c, with costs as words of 32 bits; proofs in Stp/Priority.antt, Stp/Status.antt,
--   Stp/Handle.antt and Stp/Hello.antt.
-- - Route.antt: Lab10/12-nat/rtable.c and ip_base.c; proofs in Route/Longest.antt,
--   Route/Forward.antt.
-- - Nat.antt: the translation of Lab10/12-nat/nat.c, which uses the routes; its start, sweep and end
--   are in Nat/Upkeep.antt; proofs in Nat/Ports.antt, Nat/Reply.antt, Nat/Answers.antt, Nat/Expiry.antt,
--   and on any sequence of packets and sweeps in Nat/Counts.antt, Nat/Exact.antt and Nat/Runs.antt.
-- - Mospf.antt: the state and the neighbours of Lab9/11-mopsf/mospf_daemon.c, with the updates of
--   the database in Mospf/Updates.antt; proofs in Mospf/Neighbours.antt and Mospf/Database.antt.
--   Mospf/Graph.antt: its graph and its Dijkstra, with proofs on a round in Mospf/Graph/Walks.antt
--   and Mospf/Graph/Round.antt and on the result in Mospf/Graph/Shortest.antt. Mospf/Routes.antt:
--   the table it makes, which is that of Route.antt; proofs in Mospf/Routes/Hops.antt and
--   Mospf/Routes/Table.antt. A use of an array outside its bounds is an outcome of its own.
-- - Icmp.antt: Lab10/12-nat/icmp.c, with a proof in Icmp/Quotes.antt.
-- - Arp.antt: the cache of Lab10/12-nat/arpcache.c; a proof on its sweep in Arp/Sweep.antt.
--   Arp/Messages.antt: arp.c; a proof on a question and its answer in Arp/Exchange.antt.
-- - Tcp.antt: the sockets of Lab15/16-tcp_stack: their state (include/tcp_sock.h), segments and the
--   sending side (tcp_out.c, tcp.c). Tcp/Input.antt: tcp_process of tcp_in.c; proofs on data in
--   Tcp/Input/Stream.antt, on acknowledgements in Tcp/Input/Congestion.antt, and on the states in
--   Tcp/Input/Keeps.antt, Tcp/Input/States.antt and, against RFC 793, Tcp/Input/Moves.antt.
--   Tcp/Timer.antt: tcp_timer.c, with a proof in Tcp/Timer/Retrans.antt. Tcp/Table.antt: the hash
--   tables and ports of tcp_sock.c, with proofs in Tcp/Table/Lookup.antt and Tcp/Table/Search.antt. Tcp/Calls.antt: connect,
--   listen, accept and write of tcp_sock.c, cut where they sleep, with proofs in
--   Tcp/Calls/Sending.antt, Tcp/Calls/Accepting.antt and Tcp/Calls/Lifecycle.antt; `wait`, in a
--   write, is what the other threads make of the socket. A socket has its receive buffer from
--   Ring.antt.
-- - Tcp/Stack.antt: the way of the bytes of a packet to its socket, Lab15/16-tcp_stack/ip.c and
--   handle_tcp_packet of tcp.c; a proof in Tcp/Stack/Delivery.antt. Tcp/Input/Handshake.antt has a
--   proof on the opening of a connection by connect, listen and tcp_process.
-- - Wait.antt: Lab15/16-tcp_stack/include/synch_wait.h, with returns of pthread_cond_wait without a
--   signal; proofs on its runs in Wait/Runs.antt.
-- - Nat/Bytes.antt: what the translation writes into the bytes of a packet, with a proof in
--   Nat/Bytes/Rewritten.antt. Router.antt: the router of Lab10/12-nat put together, handle_packet of
--   main.c and handle_ip_packet of ip.c over routes, translation, ARP and ICMP; a proof on a
--   connection from inside in Router/Answers.antt.
-- - Http.antt: the end of the header and the URL of a request, Lab15/16-tcp_stack/http_utils.c;
--   proofs in Http/Header.antt and Http/Url.antt. Http/Server.antt: the answer to a request,
--   http_server.c beside it, with proofs in Http/Server/Pieces.antt and
--   Http/Server/Body.antt; what a write returns and the text of the status line are parameters.
-- - Prelude.antt: what the other files share.
-- A file Tests.antt below a part runs it on concrete inputs.
--
-- The functions keep the names of the source. The state of a component is a record that its
-- operations take and return; a C array or list is a List, a packet the fields that the code reads.
-- A critical section is one step. The time of day is an argument. A null dereference is a `none`,
-- or an outcome with a name, where the source does not test for it. Loops run over lists or over a number of turns that the
-- source bounds: 32 bits of an address, the ports from 12345 to 23456, the ports of a switch. Fuel
-- stands for the turns of these loops: the fold of a checksum, for which two turns are enough; a
-- loop over linked nodes, which needs one for each node; the sending of a file, which needs one for
-- each 8192 bytes; that of nat_exit, which has no bound; that of a write, which is given one turn
-- for each byte; and the search of the next hop in Lab9, which is given 127 turns, since each turn
-- comes at least 1 nearer and a router that is reached is nearer than 127.
--
-- tcp_process gives the socket and the events that it causes, in their order; where it would sleep
-- for room in the receive buffer, fail an assertion or damage its list of early segments, it gives
-- that as the outcome. The effect of an event on another socket is not part of the model.
--
-- Not modelled: raw sockets, start-up code, the log, the byte layout of headers other than those of
-- IP and TCP, memory allocation (but for the new nodes of the tries), the locks, reference counts, the sending of hellos (which keeps no
-- state), the loading of files, the reading of requests and the threads of the HTTP server,
-- http_header_str_val, the programs of Lab2 (calls of the system's sockets), and the other copies
-- of each file.
pub mod Prelude
pub mod Ring
pub mod Trie
pub mod Switch
pub mod Stp
pub mod Hash
pub mod ListHead
pub mod Checksum
pub mod Wire
pub mod Wait
pub mod Router
pub mod Http
pub mod Route
pub mod Nat
pub mod Icmp
pub mod Mospf
pub mod Tcp
pub mod Arp
