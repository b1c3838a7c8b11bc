-- ===== src/Checksum/Verify.antt =====
-- A checksum that was stored, and what a receiver finds: Lab10/12-nat/include/checksum.h and ip.h.
use native.Mathlib.Decide.{ℕ_discrete}
use ucas_computer_network_la.Prelude.{
  ℕ, ◌+◌, ◌-◌, ◌*◌, ◌%◌, ◌<◌, ◌≤◌, ◌≡◌, ◌≢◌, List, length, take, arith, refl, sym, subst, ◌∙◌, ap,
  length-take,
}
use ucas_computer_network_la.Checksum.{checksum, load16, store16, sum_without, fold_carries}
use ucas_computer_network_la.Checksum.Sum.{
  word_sum, AllBytes, checksum_lem, checksum-carries, fold_carries_lem, fold_carries-bound,
  fold_carries-small,
}
use ucas_computer_network_la.Checksum.Store.{
  word_sum-store16, load16-store16, store16-store16, take-store16, load16-take, load16-store16_ne,
  AllBytes-store16, length-store16, word_sum-small, word_sum-fits,
}

-- What the code computes for a message whose checksum is word `k`.
sum_without-0 :
    (k n sum : ℕ) (buf : List ℕ) → (sum_without k n sum buf).0 ≡ checksum (store16 k 0 buf) n sum
unfolding sum_without
sum_without-0 k n sum buf = refl

-- The words behind the store of the checksum field.
pub stored_sum :
    (k n v : ℕ) (buf : List ℕ)
    → v < 65536
    → k * 2 + 2 ≤ n
    → n ≤ length buf
    → word_sum (take n (store16 k v buf)) ≡ word_sum (take n (store16 k 0 buf)) + v
stored_sum k n v buf h l m =
    let t = take n buf in
    let s : k * 2 + 2 ≤ length t = omega (arith, length-take {0} n buf, l, m) in
    rw (take-store16 k v n buf l) (
      rw (take-store16 k 0 n buf l)
        (omega (arith, word_sum-store16 k v t h s, word_sum-store16 k 0 t (omega arith) s)))

pub sum_without-stored :
    (k n sum c : ℕ) (buf : List ℕ)
    → c < 65536
    → k * 2 + 2 ≤ length buf
    → sum_without k n sum (store16 k c buf) ≡ ((sum_without k n sum buf).0, store16 k c buf)
unfolding sum_without
sum_without-stored k n sum c buf h l =
    rw (store16-store16 k c 0 buf)
      (rw (load16-store16 k c buf h l) (rw (store16-store16 k 0 c buf) refl))

pub checksum-bound : (buf : List ℕ) (n sum : ℕ) → checksum buf n sum < 65536
unfolding checksum
checksum-bound buf n sum = omega arith

checksum-stored :
    (k n : ℕ) (buf : List ℕ)
    → AllBytes buf
    → k * 2 + 2 ≤ n
    → n ≤ length buf
    → n < 65536
    → checksum (store16 k (checksum (store16 k 0 buf) n 0) buf) n 0 ≡ 0
checksum-stored k n buf a l m b =
    let z = store16 k 0 buf in
    let c = checksum z n 0 in
    let buf' = store16 k c buf in
    let w = word_sum (take n z) in
    let w' = word_sum (take n buf') in
    let fits : w < 4294967296 = word_sum-fits n z (AllBytes-store16 k 0 buf a) b in
    let fits' : w' < 4294967296 = word_sum-fits n buf' (AllBytes-store16 k c buf a) b in
    let same : w' ≡ w + c = stored_sum k n c buf (checksum-bound z n 0) l m in
    let start = checksum_lem z n 0 (omega arith) in
    let e : (0 + w) % 4294967296 ≡ w = omega (arith, fits) in
    let e' : (0 + w') % 4294967296 ≡ w' = omega (arith, fits') in
    let c_is : c ≡ 65535 - fold_carries 2 w = start ∙ ap (λ t. 65535 - fold_carries 2 t) e in
    let folded = fold_carries_lem w fits in
    let folded' = fold_carries_lem w' fits' in
    let bound = fold_carries-bound w fits in
    let bound' = fold_carries-bound w' fits' in
    let positive : w' ≢ 0 = λ z0.
      (let w0 : w ≡ 0 = omega (arith, z0, same) in
        let f0 : fold_carries 2 w ≡ 0 =
          ap (fold_carries 2) w0 ∙ fold_carries-small 2 0 (omega arith) in
        omega (arith, f0, c_is, z0, same)) in
    let full = folded'.1 positive in
    checksum_lem buf' n 0 (omega arith)
    ∙ (ap (λ t. 65535 - fold_carries 2 t) e'
        ∙ omega (arith, same, c_is, folded.0, folded'.0, full, bound, bound'))

-- For a message of bytes, of less than 64 KB: once the checksum is stored in word `k`, the sum over the
-- message with the stored word is 0, as the standard asks of a receiver; and the sum that the code
-- takes gives the stored word again and leaves the message as it is.
pub sum_without-Valid :
    (k n : ℕ) (buf : List ℕ)
    → AllBytes buf
    → k * 2 + 2 ≤ n
    → n ≤ length buf
    → n < 65536
    → (sum_without k n 0 (store16 k (sum_without k n 0 buf).0 buf)
        ≡ ((sum_without k n 0 buf).0, store16 k (sum_without k n 0 buf).0 buf))
      × (checksum (store16 k (sum_without k n 0 buf).0 buf) n 0 ≡ 0)
unfolding sum_without
sum_without-Valid k n buf a l m b = (
  sum_without-stored k n 0 (checksum (store16 k 0 buf) n 0) buf (checksum-bound _ n 0)
      (omega (arith, l, m)),
  checksum-stored k n buf a l m b,
)

-- A word that is not the checksum's changes the sum by itself.
changed_sum :
    (j k n v : ℕ) (buf : List ℕ)
    → j ≢ k
    → v < 65536
    → j * 2 + 2 ≤ n
    → k * 2 + 2 ≤ n
    → n ≤ length buf
    → word_sum (take n (store16 k 0 (store16 j v buf))) + load16 buf j
      ≡ word_sum (take n (store16 k 0 buf)) + v
changed_sum j k n v buf d h i l m =
    let t = take n buf in
    let t' = store16 j v t in
    let len = length-take {0} n buf in
    let first =
      take-store16 k 0 n (store16 j v buf) l ∙ ap (store16 k 0) (take-store16 j v n buf i) in
    let c =
      word_sum-store16 k 0 t' (omega arith) (omega (arith, len, length-store16 j v t, l, m)) in
    let c' = word_sum-store16 k 0 t (omega arith) (omega (arith, len, l, m)) in
    let e = word_sum-store16 j v t h (omega (arith, len, i, m)) in
    rw first (
      rw (take-store16 k 0 n buf l)
        (omega (arith, c, c', e, load16-store16_ne j k v t d, load16-take j n buf i)))

-- The test that a receiver makes.
abbrev pub Accepts : (k n sum : ℕ) → List ℕ → Type 0
Accepts k n sum buf = (sum_without k n sum buf).0 ≡ load16 buf k

-- Where a message of bytes, of less than 64 KB, passes the test with a start below 2 ^ 31, and still
-- does when one of its words is another, be it the checksum or a word under it, the two words have the
-- same residue by 65535: no change of a single word goes unnoticed but that of 0x0000 for 0xffff.
pub sum_without-detects :
    (j k n sum v : ℕ) (buf : List ℕ)
    → AllBytes buf
    → v < 65536
    → j * 2 + 2 ≤ n
    → k * 2 + 2 ≤ n
    → n ≤ length buf
    → n < 65536
    → sum < 2147483648
    → Accepts k n sum buf
    → Accepts k n sum (store16 j v buf)
    → v % 65535 ≡ load16 buf j % 65535
sum_without-detects j k n sum v buf a h i l m b s p q = elim (ℕ_discrete j k) [
  | yes e ↦ rw e (
      ap (◌% 65535) (
        sym (load16-store16 k v buf h (omega (arith, l, m)))
        ∙ (sym (subst (λ x. Accepts k n sum (store16 x v buf)) e q)
            ∙ (ap (λ r. r.0) (sum_without-stored k n sum v buf h (omega (arith, l, m))) ∙ p))))
  | no d ↦
      (let z = store16 k 0 buf in
        let z' = store16 k 0 (store16 j v buf) in
        let fits = word_sum-small n z (AllBytes-store16 k 0 buf a) b in
        let fits' = word_sum-small n z' (AllBytes-store16 k 0 _ (AllBytes-store16 j v buf a)) b in
        let same : checksum z n sum ≡ checksum z' n sum =
          (sym (sum_without-0 k n sum buf) ∙ p)
          ∙ (sym (load16-store16_ne j k v buf d)
              ∙ (sym q ∙ sum_without-0 k n sum (store16 j v buf))) in
        omega (
          arith,
          changed_sum j k n v buf d h i l m,
          same,
          fits,
          fits',
          checksum-carries z n sum (omega arith),
          checksum-carries z' n sum (omega arith),
        ))
]
