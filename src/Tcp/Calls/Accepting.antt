-- ===== src/Tcp/Calls/Accepting.antt =====
-- The queue of children of a listening socket, tcp_sock.c of Lab15/16-tcp_stack.
use ucas_computer_network_la.Prelude.{
  ℕ, zero, suc, ◌-◌, ◌≡◌, refl, sym, ap, ◌∙◌, List, [], ◌∷◌, ◌++◌, Option, none, some, arith,
  length, map, length-append,
}
use mathlib.Core.List.{append_assoc, append-nil}
use ucas_computer_network_la.Tcp.{TcpSock, established, tcp_set_state}
use ucas_computer_network_la.Tcp.Table.{TcpHashTable, tcp_hash}
use ucas_computer_network_la.Tcp.Calls.{
  Listener, entry_of, hashed, tcp_sock_accept_enqueue, tcp_sock_accept,
}

-- The children that a listener is given, one after another.
abbrev pub enqueue_all : List (ℕ × TcpSock) → Listener → Listener
enqueue_all [] l = l
enqueue_all (c ∷ cs) l = enqueue_all cs (tcp_sock_accept_enqueue c l)

-- `n` calls of accept: the sockets that they return, and the listener and the tables after them.
abbrev pub accepts :
    ℕ → Listener → TcpHashTable → Option (List (ℕ × TcpSock) × Listener × TcpHashTable)
accepts zero l t = some ([], l, t)
accepts (suc n) l t = elim (tcp_sock_accept l t) [
  | none ↦ none
  | some (c, l', t') ↦ elim (accepts n l' t') [
    | none ↦ none
    | some (cs, l'', t'') ↦ some (c ∷ cs, l'', t'')
  ]
]

-- The tables after each child has been entered.
abbrev pub tables : List (ℕ × TcpSock) → TcpHashTable → TcpHashTable
tables [] t = t
tables ((id, c) ∷ cs) t =
    tables cs (hashed t (tcp_hash established (entry_of id (tcp_set_state c established)) t))

abbrev pub made_established : ℕ × TcpSock → ℕ × TcpSock
made_established c = (c.0, tcp_set_state c.1 established)

-- A listener whose count is that of its queue.
abbrev pub counted : TcpSock → List (ℕ × TcpSock) → Listener
counted sock queue = record { sock = sock; accept_queue = queue; accept_backlog = length queue }

enqueue_all-counted :
    (sock : TcpSock) (queue cs : List (ℕ × TcpSock))
    → enqueue_all cs (counted sock queue) ≡ counted sock (queue ++ cs)
unfolding tcp_sock_accept_enqueue
enqueue_all-counted sock queue [] = ap (counted sock) (sym (append-nil queue))
enqueue_all-counted sock queue (c ∷ cs) =
    ap
      (λ n.
        enqueue_all cs (record { sock = sock; accept_queue = queue ++ c ∷ []; accept_backlog = n }))
      {y = length (queue ++ c ∷ [])} (omega (arith, length-append queue (c ∷ [])))
    ∙ enqueue_all-counted sock (queue ++ c ∷ []) cs
    ∙ ap (counted sock) (append_assoc queue (c ∷ []) cs)

accepts-counted :
    (sock : TcpSock) (cs more : List (ℕ × TcpSock)) (t : TcpHashTable)
    → accepts (length cs) (counted sock (cs ++ more)) t
      ≡ some (map made_established cs, counted sock more, tables cs t)
unfolding tcp_sock_accept
accepts-counted sock [] more t = refl
accepts-counted sock (c ∷ cs) more t =
    let t' = hashed t (tcp_hash established (entry_of c.0 (tcp_set_state c.1 established)) t) in
    let one_less : suc (length (cs ++ more)) - 1 ≡ length (cs ++ more) = omega arith in
    rw (one_less, accepts-counted sock cs more t') refl

-- Children are accepted in the order in which they came, each once, established and entered into the
-- tables in that order; afterwards the queue is empty and its count is 0. The queue may hold others
-- before, and its count is right.
pub accepts-enqueue_all :
    (sock : TcpSock) (queue cs : List (ℕ × TcpSock)) (t : TcpHashTable)
    → accepts (length (queue ++ cs)) (enqueue_all cs (counted sock queue)) t
      ≡ some (map made_established (queue ++ cs), counted sock [], tables (queue ++ cs) t)
accepts-enqueue_all sock queue cs t =
    ap (λ l. accepts (length (queue ++ cs)) l t)
      (enqueue_all-counted sock queue cs ∙ ap (counted sock) (sym (append-nil (queue ++ cs))))
    ∙ accepts-counted sock (queue ++ cs) [] t
