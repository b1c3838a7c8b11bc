-- ===== src/Tcp/Calls/Sending.antt =====
-- tcp_sock_write of Lab15/16-tcp_stack/tcp_sock.c: what it sends, and where it does not end.
use ucas_computer_network_la.Prelude.{
  ℕ, zero, suc, ◌+◌, ◌-◌, ◌*◌, ◌%◌, ◌^◌, ◌≤◌, ◌<◌, ◌≡◌, refl, sym, subst, ap, ◌∙◌, inl, inr, true,
  false, List, [], ◌∷◌, Option, none, some, arith, ltb, Bool-cases, min, take, drop, length,
  length-take, length-drop,
}
use ucas_computer_network_la.Tcp.{
  TcpSock, Segment, mss, tcp_send_packet, tcp_init_hdr, tcp_sndbuf_push,
}
use ucas_computer_network_la.Tcp.Calls.{
  strlen, next_len, write_one, put_packet, write_from, tcp_sock_write,
}

-- The segments carry the bytes, in order, each at the sequence number where the one before it ends;
-- none is empty or longer than the maximum.
abbrev pub Carries : ℕ → List Segment → List ℕ → Type 0
Carries seq [] bytes = bytes ≡ []
Carries seq (p ∷ ps) bytes =
    (p.seq ≡ seq)
    × (0 < length p.payload)
    × (length p.payload ≤ mss)
    × (p.payload ≡ take (length p.payload) bytes)
    × Carries ((seq + length p.payload) % 2 ^ 32) ps (drop (length p.payload) bytes)

-- The result of a write of `bytes` whose first byte has the number `seq`.
abbrev pub Sent : ℕ → ℕ → List ℕ → Option (ℕ × TcpSock × List Segment) → Type 0
Sent seq len bytes none = ⊥
Sent seq len bytes (some (n, tsk, packets)) = (n ≡ len) × Carries seq packets bytes

take-nil : {A : Type 0} (n : ℕ) → take {A = A} n [] ≡ []
take-nil zero = refl
take-nil (suc n) = refl

drop-nil : {A : Type 0} (n : ℕ) → drop {A = A} n [] ≡ []
drop-nil zero = refl
drop-nil (suc n) = refl

take-take : {A : Type 0} (k n : ℕ) (xs : List A) → k ≤ n → take k (take n xs) ≡ take k xs
take-take zero n xs h = refl
take-take (suc k) zero xs h = absurd (omega (arith, h))
take-take (suc k) (suc n) [] h = refl
take-take (suc k) (suc n) (x ∷ xs) h = ap (λ ys. x ∷ ys) (take-take k n xs (omega (arith, h)))

drop-take : {A : Type 0} (k n : ℕ) (xs : List A) → drop k (take n xs) ≡ take (n - k) (drop k xs)
drop-take zero n xs = ap (λ m. take m xs) (omega arith)
drop-take (suc k) zero xs = ap (λ m. take m (drop (suc k) xs)) {x = 0} (omega arith)
drop-take (suc k) (suc n) [] = sym (take-nil (suc n - suc k))
drop-take (suc k) (suc n) (x ∷ xs) = drop-take k n xs ∙ ap (λ m. take m (drop k xs)) (omega arith)

drop-drop : {A : Type 0} (k n : ℕ) (xs : List A) → drop k (drop n xs) ≡ drop (n + k) xs
drop-drop k zero xs = ap (λ m. drop m xs) (omega arith)
drop-drop k (suc n) [] = drop-nil k ∙ sym (drop-nil (suc n + k))
drop-drop k (suc n) (x ∷ xs) =
    drop-drop k n xs ∙ ap (λ m. drop m (x ∷ xs)) {x = suc (n + k)} (omega arith)

strlen-le : (bs : List ℕ) → strlen bs ≤ length bs
unfolding strlen
strlen-le [] = omega arith
strlen-le (b ∷ bs) = ground (arith, strlen-le bs)

write_one_lem :
    (wait : TcpSock → TcpSock) (bytes : List ℕ) (tsk : TcpSock)
    → ((t : TcpSock) → (wait t).snd_nxt ≡ t.snd_nxt)
    → let (tsk', p) = write_one wait bytes tsk in
      (tsk'.snd_nxt ≡ (tsk.snd_nxt + length bytes) % 2 ^ 32)
      × (p.seq ≡ tsk.snd_nxt)
      × (p.payload ≡ bytes)
unfolding write_one tcp_send_packet tcp_init_hdr tcp_sndbuf_push
write_one_lem wait bytes tsk keeps = (
  elim (Bool-cases (ltb sent.snd_wnd (mss * sent.inflight))) [
    | inl b ↦ rw b (keeps sent)
    | inr b ↦ rw b refl
  ],
  refl,
  refl,
)
  where
    sent : TcpSock
    sent = (tcp_send_packet tsk bytes).0

next_len-bounds :
    (buf : List ℕ) (len sent : ℕ)
    → len ≤ strlen buf
    → sent < len
    → let n = next_len buf len sent in
      (0 < n) × (n ≤ mss) × (n ≤ len - sent) × (length (take n (drop sent buf)) ≡ n)
unfolding next_len
next_len-bounds buf len sent inside more =
    let n = min mss (min len (strlen buf) - sent) in
    (
      omega (arith, inside, more),
      omega arith,
      omega (arith, inside, more),
      omega
          (arith, length-take n (drop sent buf), length-drop sent buf, strlen-le buf, inside, more),
    )

put_packet-Sent :
    (seq seq' len n : ℕ) (p : Segment) (bytes bytes' : List ℕ)
    (o : Option (ℕ × TcpSock × List Segment))
    → p.seq ≡ seq
    → p.payload ≡ take n bytes
    → length p.payload ≡ n
    → 0 < n
    → n ≤ mss
    → seq' ≡ (seq + n) % 2 ^ 32
    → bytes' ≡ drop n bytes
    → Sent seq' len bytes' o
    → Sent seq len bytes (put_packet p o)
unfolding put_packet
put_packet-Sent seq seq' len n p bytes bytes' none e same size some_there fits next left h = h
put_packet-Sent seq seq' len n p bytes bytes' (some r) e same size some_there fits next left h =
    let rest : Carries ((seq + n) % 2 ^ 32) r.2 (drop n bytes) =
      subst (λ q. Carries q r.2 (drop n bytes)) next (subst (Carries seq' r.2) left h.1) in
    (
      h.0,
      (
        e,
        omega (arith, size, some_there),
        omega (arith, size, fits),
        same ∙ ap (λ k. take k bytes) (sym size),
        subst (λ k. Carries ((seq + k) % 2 ^ 32) r.2 (drop k bytes)) (sym size) rest,
      ),
    )

write_from-Sent :
    (fuel : ℕ) (wait : TcpSock → TcpSock) (buf : List ℕ) (len sent : ℕ) (tsk : TcpSock)
    → ((t : TcpSock) → (wait t).snd_nxt ≡ t.snd_nxt)
    → len ≤ strlen buf
    → sent ≤ len
    → len ≤ sent + fuel
    → Sent tsk.snd_nxt len
        (take (len - sent) (drop sent buf))
        (write_from fuel wait buf len sent tsk)
unfolding write_from
write_from-Sent zero wait buf len sent tsk keeps inside below enough =
    let over : ltb sent len ≡ false = ground (arith, enough) in
    let none_left : len - sent ≡ 0 = omega (arith, enough) in
    rw (over, Sent) (omega (arith, below, enough), rw none_left refl)
write_from-Sent (suc fuel) wait buf len sent tsk keeps inside below enough =
    elim (Bool-cases (ltb sent len)) [
      | inr over ↦
          let none_left : len - sent ≡ 0 = ground (arith, over) in
          rw (over, Sent) (ground (arith, over, below), rw none_left refl)
      | inl more ↦
          let n = next_len buf len sent in
          let left = drop sent buf in
          let bytes = take n left in
          let bound = next_len-bounds buf len sent inside (ground (arith, more)) in
          let one = write_one_lem wait bytes tsk keeps in
          let rest =
            write_from-Sent fuel wait buf len (sent + n) (write_one wait bytes tsk).0 keeps inside
              (omega (arith, bound, below)) (omega (arith, bound, enough)) in
          let p = (write_one wait bytes tsk).1 in
          rw more (
            put_packet-Sent tsk.snd_nxt (write_one wait bytes tsk).0.snd_nxt len n p
              (take (len - sent) left) (take (len - (sent + n)) (drop (sent + n) buf))
              (write_from fuel wait buf len (sent + n) (write_one wait bytes tsk).0) one.1
              (one.2 ∙ sym (take-take n (len - sent) left bound.2)) (ap length one.2 ∙ bound.3)
              bound.0 bound.1 (one.0 ∙ ap (λ k. (tsk.snd_nxt + k) % 2 ^ 32) bound.3)
              (sym (
                drop-take n (len - sent) left
                ∙ ap (λ k. take k (drop n left)) {y = len - (sent + n)} (omega arith)
                ∙ ap (take (len - (sent + n))) (drop-drop n sent buf)))
              rest)
    ]

-- A write of `len` bytes, none of which is NUL, returns `len`, after at most as many turns, and the
-- segments that it sends carry the bytes in order, with consecutive sequence numbers, each of at
-- least 1 byte and at most 1460. The other threads may change all of the socket but its next number.
pub tcp_sock_write-Sent :
    (wait : TcpSock → TcpSock) (buf : List ℕ) (len : ℕ) (tsk : TcpSock)
    → ((t : TcpSock) → (wait t).snd_nxt ≡ t.snd_nxt)
    → len ≤ strlen buf
    → Sent tsk.snd_nxt len (take len buf) (tcp_sock_write len wait buf len tsk)
unfolding tcp_sock_write
tcp_sock_write-Sent wait buf len tsk keeps inside =
    subst (λ m. Sent tsk.snd_nxt len (take m buf) (write_from len wait buf len 0 tsk)) (omega arith)
      (write_from-Sent len wait buf len 0 tsk keeps inside (omega arith) (omega arith))

write_from-none :
    (fuel : ℕ) (wait : TcpSock → TcpSock) (buf : List ℕ) (len sent : ℕ) (tsk : TcpSock)
    → strlen buf < len
    → sent ≤ strlen buf
    → write_from fuel wait buf len sent tsk ≡ none
unfolding write_from next_len put_packet
write_from-none zero wait buf len sent tsk past below =
    let more : ltb sent len ≡ true = ground (arith, past, below) in rw more refl
write_from-none (suc fuel) wait buf len sent tsk past below =
    let more : ltb sent len ≡ true = ground (arith, past, below) in
    let n = next_len buf len sent in
    rw
      (
        more,
        write_from-none fuel wait buf len (sent + n) (write_one wait (take n (drop sent buf)) tsk).0
            past (omega (arith, past, below)),
      )
      refl

-- Where a NUL comes before the last byte the write does not return, whatever the number of turns: it
-- goes on with segments without data.
pub tcp_sock_write-none :
    (fuel : ℕ) (wait : TcpSock → TcpSock) (buf : List ℕ) (len : ℕ) (tsk : TcpSock)
    → strlen buf < len
    → tcp_sock_write fuel wait buf len tsk ≡ none
unfolding tcp_sock_write
tcp_sock_write-none fuel wait buf len tsk past =
    write_from-none fuel wait buf len 0 tsk past (omega arith)
