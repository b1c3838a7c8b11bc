-- ===== src/Checksum.antt =====
-- The checksums: Lab10/12-nat/include/checksum.h, ip_checksum and icmp_checksum of ip.h and icmp.h
-- beside it, mospf_checksum of Lab9/11-mopsf/include/mospf_proto.h, and tcp_checksum of
-- Lab15/16-tcp_stack/include/tcp.h. A packet is its bytes; a u16 of it is read and written in the
-- order of a little-endian host, and its index counts pairs of bytes.
pub mod Sum
pub mod Store
pub mod Verify
pub mod Pseudo
mod Tests
use ucas_computer_network_la.Prelude.{
  ℕ, zero, suc, ◌+◌, ◌-◌, ◌*◌, ◌/◌, ◌%◌, Bool, List, [], ◌∷◌, ◌==◌, if◌then◌else◌, get_or, take,
  drop,
}

-- The loop over the u16 words, and the byte that is left behind them; `sum` is a u32.
pub add_words : List ℕ → ℕ → ℕ
add_words [] sum = sum
add_words (x ∷ []) sum = (sum + x) % 4294967296
add_words (x ∷ y ∷ buf) sum = add_words buf ((sum + (x + 256 * y)) % 4294967296)

-- while (sum >> 16).
pub fold_carries : ℕ → ℕ → ℕ
fold_carries zero sum = sum
fold_carries (suc fuel) sum =
    if sum / 65536 == 0 then sum else fold_carries fuel (sum / 65536 + sum % 65536)

-- Two turns fold a u32.
unfoldable pub checksum : List ℕ → (nbytes sum : ℕ) → ℕ
checksum buf nbytes sum = (4294967295 - fold_carries 2 (add_words (take nbytes buf) sum)) % 65536

unfoldable pub load16 : List ℕ → ℕ → ℕ
load16 (x ∷ y ∷ buf) zero = x + 256 * y
load16 (x ∷ y ∷ buf) (suc k) = load16 buf k
load16 (x ∷ []) k = 0
load16 [] k = 0

unfoldable pub store16 : ℕ → ℕ → List ℕ → List ℕ
store16 zero v (x ∷ y ∷ buf) = v % 256 ∷ v / 256 % 256 ∷ buf
store16 (suc k) v (x ∷ y ∷ buf) = x ∷ y ∷ store16 k v buf
store16 k v (x ∷ []) = x ∷ []
store16 k v [] = []

-- A sum over a header or a message whose word `k` is the checksum: the word is 0 meanwhile, and is
-- then put back. The result is the sum and the bytes that are left.
unfoldable pub sum_without : (k nbytes sum : ℕ) → List ℕ → ℕ × List ℕ
sum_without k nbytes sum buf =
    let tmp = load16 buf k in
    let buf' = store16 k 0 buf in (checksum buf' nbytes sum, store16 k tmp buf')

-- IP_HDR_SIZE: `ihl` is the low half of the first byte.
unfoldable pub ip_hdr_size : List ℕ → ℕ
ip_hdr_size hdr = get_or hdr 0 0 % 16 * 4

unfoldable pub ip_checksum : List ℕ → ℕ × List ℕ
ip_checksum hdr = sum_without 5 (ip_hdr_size hdr) 0 hdr

unfoldable pub icmp_checksum : List ℕ → ℕ → ℕ × List ℕ
icmp_checksum icmp len = sum_without 1 len 0 icmp

-- A number of two bytes in network order at byte `i`.
unfoldable pub net16 : List ℕ → ℕ → ℕ
net16 buf i = get_or buf i 0 * 256 + get_or buf (i + 1) 0

-- The length of the message is its second field.
unfoldable pub mospf_checksum : List ℕ → ℕ × List ℕ
mospf_checksum mospf = sum_without 6 (net16 mospf 2) 0 mospf

-- A u32 as the host loads it.
unfoldable pub load32 : List ℕ → ℕ → ℕ
load32 buf k = load16 buf k + 65536 * load16 buf (suc k)

unfoldable pub htons : ℕ → ℕ
htons v = v % 256 * 256 + v / 256 % 256

-- `u16 tcp_len`.
unfoldable pub tcp_length : List ℕ → ℕ
tcp_length ip = (net16 ip 2 + 65536 - ip_hdr_size ip) % 65536

-- The addresses, the protocol and the length, added as u32.
unfoldable pub pseudo_sum : List ℕ → ℕ
pseudo_sum ip =
    (load32 ip 6 + load32 ip 8 + htons (get_or ip 9 0) + htons (tcp_length ip)) % 4294967296

unfoldable pub tcp_checksum : (ip tcp : List ℕ) → ℕ × List ℕ
tcp_checksum ip tcp = sum_without 8 (tcp_length ip) (pseudo_sum ip) tcp
