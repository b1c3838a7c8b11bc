-- ===== src/Checksum/Tests.antt =====
-- Checksums of packets.
use ucas_computer_network_la.Prelude.{
  ℕ, suc, ◌+◌, ◌/◌, ◌%◌, ◌<◌, ◌≡◌, refl, List, [], ◌∷◌, arith, take,
}
use ucas_computer_network_la.Checksum.{
  add_words, fold_carries, checksum, load16, load32, net16, htons, store16, sum_without,
  ip_checksum, ip_hdr_size, tcp_length, tcp_checksum,
}
use ucas_computer_network_la.Checksum.Sum.{fold_carries-ends, word_sum}
use ucas_computer_network_la.Checksum.Verify.{Accepts, sum_without-Valid, sum_without-detects}
use ucas_computer_network_la.Checksum.Pseudo.{pseudo_words, unbounded_sum, tcp_checksum-carries}

-- A header of 20 bytes from 192.168.0.1 to 192.168.0.199, without its checksum.
abbrev header : List ℕ
header =
    69 ∷ 0 ∷ 0 ∷ 115 ∷ 0 ∷ 0 ∷ 64 ∷ 0 ∷ 64 ∷ 17 ∷ 0 ∷ 0 ∷ 192 ∷ 168 ∷ 0 ∷ 1 ∷ 192 ∷ 168 ∷ 0 ∷ 199
    ∷ []

-- 0xb861 in network order.
ip_checksum-header : (ip_checksum header).0 ≡ 25016
unfolding ip_checksum sum_without checksum add_words fold_carries load16 store16 ip_hdr_size
ip_checksum-header = refl

fold_carries-ends_example :
    (fold_carries 2 4294967295 < 65536)
    × (fold_carries (suc (suc 7)) 4294967295 ≡ fold_carries 2 4294967295)
fold_carries-ends_example = fold_carries-ends 7 4294967295 (omega arith)

sum_without-Valid_example :
    (sum_without 5 20 0 (store16 5 (sum_without 5 20 0 header).0 header)
      ≡ ((sum_without 5 20 0 header).0, store16 5 (sum_without 5 20 0 header).0 header))
    × (checksum (store16 5 (sum_without 5 20 0 header).0 header) 20 0 ≡ 0)
sum_without-Valid_example =
    sum_without-Valid 5 20 header (omega arith) (omega arith) (omega arith) (omega arith)

abbrev signed : List ℕ
signed =
    69 ∷ 0 ∷ 0 ∷ 115 ∷ 0 ∷ 0 ∷ 64 ∷ 0 ∷ 64 ∷ 17 ∷ 184 ∷ 97 ∷ 192 ∷ 168 ∷ 0 ∷ 1 ∷ 192 ∷ 168 ∷ 0 ∷ 199
    ∷ []

signed-Accepts : Accepts 5 20 0 signed
unfolding sum_without checksum add_words fold_carries load16 store16
signed-Accepts = refl

other-Accepts : Accepts 5 20 0 (store16 2 65535 signed)
unfolding sum_without checksum add_words fold_carries load16 store16
other-Accepts = refl

-- The identifier 0xffff for 0 goes unnoticed.
sum_without-detects_example : 65535 % 65535 ≡ load16 signed 2 % 65535
sum_without-detects_example =
    sum_without-detects 2 5 20 0 65535 signed (omega arith) (omega arith) (omega arith)
      (omega arith) (omega arith) (omega arith) (omega arith) signed-Accepts other-Accepts

-- A SYN between these hosts: the last bytes of the addresses make the sum of the addresses and the
-- segment lose a carry.
abbrev ip : List ℕ
ip =
    69 ∷ 0 ∷ 0 ∷ 40 ∷ 0 ∷ 0 ∷ 64 ∷ 0 ∷ 64 ∷ 6 ∷ 0 ∷ 0 ∷ 192 ∷ 168 ∷ 0 ∷ 100 ∷ 192 ∷ 168 ∷ 0 ∷ 199
    ∷ []

abbrev tcp : List ℕ
tcp = 48 ∷ 57 ∷ 39 ∷ 17 ∷ 0 ∷ 0 ∷ 0 ∷ 1 ∷ 0 ∷ 0 ∷ 0 ∷ 0 ∷ 80 ∷ 2 ∷ 255 ∷ 255 ∷ 0 ∷ 0 ∷ 0 ∷ 0 ∷ []

tcp_length-ip : tcp_length ip ≡ 20
unfolding tcp_length net16 ip_hdr_size
tcp_length-ip = refl

lost_carry : unbounded_sum ip tcp / 4294967296 ≡ 1
unfolding load32 load16 htons tcp_length net16 ip_hdr_size store16
lost_carry = refl

tcp_checksum-carries_example :
    ((tcp_checksum ip (store16 8 (tcp_checksum ip tcp).0 tcp)).0 ≡ (tcp_checksum ip tcp).0)
    × ((pseudo_words ip + word_sum (take (tcp_length ip) (store16 8 (tcp_checksum ip tcp).0 tcp)))
          % 65535
        ≡ unbounded_sum ip tcp / 4294967296)
tcp_checksum-carries_example =
    tcp_checksum-carries ip tcp (omega arith) (omega arith) (omega (arith, tcp_length-ip))
      (omega (arith, tcp_length-ip)) (omega (arith, tcp_length-ip))
