-- ===== src/Checksum/Pseudo.antt =====
-- tcp_checksum of Lab15/16-tcp_stack/include/tcp.h against the sum of the words that the standard
-- takes: the pseudo-header and the segment.
use ucas_computer_network_la.Prelude.{
  ℕ, ◌+◌, ◌*◌, ◌/◌, ◌%◌, ◌<◌, ◌≤◌, ◌≡◌, List, length, take, get_or, arith, ap, refl, suc,
}
use ucas_computer_network_la.Checksum.{
  checksum, load16, load32, store16, sum_without, htons, tcp_length, pseudo_sum, tcp_checksum,
}
use ucas_computer_network_la.Checksum.Sum.{word_sum, AllBytes, checksum-carries}
use ucas_computer_network_la.Checksum.Store.{word_sum-small, AllBytes-store16, load16-bound}
use ucas_computer_network_la.Checksum.Verify.{sum_without-stored, checksum-bound, stored_sum}

-- The words of the pseudo-header, as the standard adds them.
abbrev pub pseudo_words : List ℕ → ℕ
pseudo_words ip =
    load16 ip 6
    + load16 ip 7
    + load16 ip 8
    + load16 ip 9
    + htons (get_or ip 9 0)
    + htons (tcp_length ip)

-- What the code adds, without the bound of a u32.
abbrev pub unbounded_sum : (ip tcp : List ℕ) → ℕ
unbounded_sum ip tcp =
    load32 ip 6
    + load32 ip 8
    + htons (get_or ip 9 0)
    + htons (tcp_length ip)
    + word_sum (take (tcp_length ip) (store16 8 0 tcp))

htons-bound : (v : ℕ) → htons v < 65536
unfolding htons
htons-bound v = omega arith

load32_lem : (buf : List ℕ) (k : ℕ) → load32 buf k ≡ load16 buf k + 65536 * load16 buf (suc k)
unfolding load32
load32_lem buf k = refl

pseudo_sum_lem :
    (ip : List ℕ)
    → pseudo_sum ip
      ≡ (load32 ip 6 + load32 ip 8 + htons (get_or ip 9 0) + htons (tcp_length ip)) % 4294967296
unfolding pseudo_sum
pseudo_sum_lem ip = refl

pseudo_sum-bound : (ip : List ℕ) → pseudo_sum ip < 4294967296
pseudo_sum-bound ip = omega (arith, pseudo_sum_lem ip)

pseudo_carries :
    (a b c d w s r : ℕ)
    → a < 4294967296
    → b < 4294967296
    → c < 65536
    → d < 65536
    → w < 2147483648
    → s ≡ (a + b + c + d) % 4294967296
    → (s + w + r) % 65535 ≡ (s + w) / 4294967296 % 65535
    → (a + b + c + d + w + r) % 65535 ≡ (a + b + c + d + w) / 4294967296
pseudo_carries a b c d w s r ha hb hc hd hw e h = omega (arith, ha, hb, hc, hd, hw, e, h)

-- For a segment of bytes, no shorter than the IP header says, with room for its checksum: once this is
-- stored the segment passes the test of the code itself. The words that the standard adds up, the
-- stored one among them, give the number of carries that the u32 lost: a multiple of 65535, which a
-- receiver after the standard accepts, exactly where the sum stayed below 2 ^ 32.
pub tcp_checksum-carries :
    (ip tcp : List ℕ)
    → AllBytes ip
    → AllBytes tcp
    → 18 ≤ tcp_length ip
    → tcp_length ip ≤ length tcp
    → tcp_length ip < 65536
    → ((tcp_checksum ip (store16 8 (tcp_checksum ip tcp).0 tcp)).0 ≡ (tcp_checksum ip tcp).0)
      × ((pseudo_words ip + word_sum (take (tcp_length ip) (store16 8 (tcp_checksum ip tcp).0 tcp)))
            % 65535
          ≡ unbounded_sum ip tcp / 4294967296)
unfolding tcp_checksum sum_without
tcp_checksum-carries ip tcp a b h l m =
    let n = tcp_length ip in
    let z = store16 8 0 tcp in
    let c = checksum z n (pseudo_sum ip) in
    let w = word_sum (take n z) in
    let bound = checksum-bound z n (pseudo_sum ip) in
    let code = checksum-carries z n (pseudo_sum ip) (pseudo_sum-bound ip) in
    let k6 = load16-bound 6 ip a in
    let k7 = load16-bound 7 ip a in
    let k8 = load16-bound 8 ip a in
    let k9 = load16-bound 9 ip a in
    let small = word_sum-small n z (AllBytes-store16 8 0 tcp b) m in
    let wide =
      pseudo_carries (load32 ip 6) (load32 ip 8) (htons (get_or ip 9 0)) (htons n) w (pseudo_sum ip)
        c (omega (arith, load32_lem ip 6, k6, k7)) (omega (arith, load32_lem ip 8, k8, k9))
        (htons-bound _) (htons-bound _) small (pseudo_sum_lem ip) code in
    (
      ap (λ r. r.0) (sum_without-stored 8 n (pseudo_sum ip) c tcp bound (omega (arith, h, l))),
      omega (
        arith,
        wide,
        stored_sum 8 n c tcp bound (omega (arith, h)) l,
        load32_lem ip 6,
        load32_lem ip 8,
      ),
    )
