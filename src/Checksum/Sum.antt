-- ===== src/Checksum/Sum.antt =====
-- The sum of a checksum against the plain sum of the words, for the loop of
-- Lab10/12-nat/include/checksum.h.
use native.Mathlib.Decide.{dec_lt}
use ucas_computer_network_la.Prelude.{
  ℕ, zero, suc, ◌+◌, ◌-◌, ◌*◌, ◌/◌, ◌%◌, ◌<◌, ◌≤◌, ◌≡◌, ◌≢◌, List, [], ◌∷◌, take, arith, refl, sym,
  ◌∙◌,
}
use ucas_computer_network_la.Checksum.{add_words, fold_carries, checksum}

-- The sum of the words of a message, without bound.
abbrev pub word_sum : List ℕ → ℕ
word_sum [] = 0
word_sum (x ∷ []) = x
word_sum (x ∷ y ∷ buf) = x + 256 * y + word_sum buf

abbrev pub AllBytes : List ℕ → Type 0
AllBytes [] = Unit {0}
AllBytes (x ∷ xs) = (x < 256) × AllBytes xs

-- The sum of the loop is the plain one modulo 2 ^ 32.
pub add_words_lem :
    (buf : List ℕ) (sum : ℕ)
    → sum < 4294967296
    → add_words buf sum ≡ (sum + word_sum buf) % 4294967296
unfolding add_words
add_words_lem [] sum h = omega arith
add_words_lem (x ∷ []) sum h = omega arith
add_words_lem (x ∷ y ∷ buf) sum h =
    omega (arith, add_words_lem buf ((sum + (x + 256 * y)) % 4294967296) (omega arith))

pub fold_carries-small : (fuel sum : ℕ) → sum < 65536 → fold_carries fuel sum ≡ sum
unfolding fold_carries
fold_carries-small zero sum h = refl
fold_carries-small (suc fuel) sum h = ground (arith, h)

fold_carries-step :
    (fuel sum : ℕ)
    → 65536 ≤ sum
    → fold_carries (suc fuel) sum ≡ fold_carries fuel (sum / 65536 + sum % 65536)
unfolding fold_carries
fold_carries-step fuel sum h = ground (arith, h)

fold_carries-next : (fuel sum : ℕ) → sum < 131071 → fold_carries (suc fuel) sum ≡ fold_carries 1 sum
fold_carries-next fuel sum h = elim (dec_lt sum 65536) [
  | yes l ↦ fold_carries-small (suc fuel) sum l ∙ sym (fold_carries-small 1 sum l)
  | no l ↦
      (let t : sum / 65536 + sum % 65536 < 65536 = omega (arith, h, l) in
        (fold_carries-step fuel sum (omega (arith, l)) ∙ fold_carries-small fuel _ t)
        ∙ sym (fold_carries-step 0 sum (omega (arith, l)) ∙ fold_carries-small 0 _ t))
]

pub fold_carries-bound : (sum : ℕ) → sum < 4294967296 → fold_carries 2 sum < 65536
unfolding fold_carries
fold_carries-bound sum h = ground arith

-- After two turns no carry is left: the loop comes to an end for each u32, with a sum of 16 bits, and
-- with more turns it gives the same.
pub fold_carries-ends :
    (fuel sum : ℕ)
    → sum < 4294967296
    → (fold_carries 2 sum < 65536) × (fold_carries (suc (suc fuel)) sum ≡ fold_carries 2 sum)
fold_carries-ends fuel sum h = (
  fold_carries-bound sum h,
  elim (dec_lt sum 65536) [
    | yes l ↦ fold_carries-small (suc (suc fuel)) sum l ∙ sym (fold_carries-small 2 sum l)
    | no l ↦
        (let t : sum / 65536 + sum % 65536 < 131071 = omega (arith, h, l) in
          (fold_carries-step (suc fuel) sum (omega (arith, l)) ∙ fold_carries-next fuel _ t)
          ∙ sym (fold_carries-step 1 sum (omega (arith, l)) ∙ fold_carries-next 0 _ t))
  ],
)

-- The result has the residue of the sum by 65535, and is 0 for the sum 0 only.
pub fold_carries_lem :
    (sum : ℕ)
    → sum < 4294967296
    → (fold_carries 2 sum % 65535 ≡ sum % 65535) × (sum ≢ 0 → fold_carries 2 sum ≢ 0)
unfolding fold_carries
fold_carries_lem sum h = ground arith

pub checksum_lem :
    (buf : List ℕ) (nbytes sum : ℕ)
    → sum < 4294967296
    → (checksum buf nbytes sum
        ≡ 65535 - fold_carries 2 ((sum + word_sum (take nbytes buf)) % 4294967296))
unfolding checksum
checksum_lem buf nbytes sum h = rw (add_words_lem (take nbytes buf) sum h) (
    let s = (sum + word_sum (take nbytes buf)) % 4294967296 in
    omega (arith, fold_carries-bound s (omega arith)))

-- The words and their checksum add up to a multiple of 65535, but for the carries that the u32 lost.
pub checksum-carries :
    (buf : List ℕ) (nbytes sum : ℕ)
    → sum < 4294967296
    → (sum + word_sum (take nbytes buf) + checksum buf nbytes sum) % 65535
      ≡ (sum + word_sum (take nbytes buf)) / 4294967296 % 65535
checksum-carries buf nbytes sum h =
    let t = sum + word_sum (take nbytes buf) in
    let s = t % 4294967296 in
    rw (checksum_lem buf nbytes sum h)
      (omega (arith, (fold_carries_lem s (omega arith)).0, fold_carries-bound s (omega arith)))
