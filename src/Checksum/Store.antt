-- ===== src/Checksum/Store.antt =====
-- Stores into the words of a message and their sum, for Lab10/12-nat/include/checksum.h and ip.h.
use ucas_computer_network_la.Prelude.{
  ℕ, zero, suc, ◌+◌, ◌*◌, ◌%◌, ◌<◌, ◌≤◌, ◌≡◌, ◌≢◌, List, [], ◌∷◌, length, take, arith, refl, ap,
  ap₂, length-take,
}
use ucas_computer_network_la.Checksum.{load16, store16}
use ucas_computer_network_la.Checksum.Sum.{word_sum, AllBytes}

-- A store changes the sum by what it writes.
pub word_sum-store16 :
    (k v : ℕ) (buf : List ℕ)
    → v < 65536
    → k * 2 + 2 ≤ length buf
    → word_sum (store16 k v buf) + load16 buf k ≡ word_sum buf + v
unfolding store16 load16
word_sum-store16 zero v [] h l = absurd (omega (arith, l))
word_sum-store16 zero v (x ∷ []) h l = absurd (omega (arith, l))
word_sum-store16 zero v (x ∷ y ∷ buf) h l = omega (arith, h)
word_sum-store16 (suc k) v [] h l = absurd (omega (arith, l))
word_sum-store16 (suc k) v (x ∷ []) h l = absurd (omega (arith, l))
word_sum-store16 (suc k) v (x ∷ y ∷ buf) h l =
    omega (arith, word_sum-store16 k v buf h (omega (arith, l)))

pub load16-store16 :
    (k v : ℕ) (buf : List ℕ) → v < 65536 → k * 2 + 2 ≤ length buf → load16 (store16 k v buf) k ≡ v
unfolding store16 load16
load16-store16 zero v [] h l = absurd (omega (arith, l))
load16-store16 zero v (x ∷ []) h l = absurd (omega (arith, l))
load16-store16 zero v (x ∷ y ∷ buf) h l = omega (arith, h)
load16-store16 (suc k) v [] h l = absurd (omega (arith, l))
load16-store16 (suc k) v (x ∷ []) h l = absurd (omega (arith, l))
load16-store16 (suc k) v (x ∷ y ∷ buf) h l = load16-store16 k v buf h (omega (arith, l))

pub store16-store16 : (k v w : ℕ) (buf : List ℕ) → store16 k w (store16 k v buf) ≡ store16 k w buf
unfolding store16
store16-store16 zero v w [] = refl
store16-store16 zero v w (x ∷ []) = refl
store16-store16 zero v w (x ∷ y ∷ buf) = refl
store16-store16 (suc k) v w [] = refl
store16-store16 (suc k) v w (x ∷ []) = refl
store16-store16 (suc k) v w (x ∷ y ∷ buf) = ap (λ r. x ∷ y ∷ r) (store16-store16 k v w buf)

-- To put back what was read changes nothing.
pub store16-load16 : (k : ℕ) (buf : List ℕ) → AllBytes buf → store16 k (load16 buf k) buf ≡ buf
unfolding store16 load16
store16-load16 zero [] a = refl
store16-load16 zero (x ∷ []) a = refl
store16-load16 zero (x ∷ y ∷ buf) a =
    ap₂ (λ u v. u ∷ v ∷ buf) {x = (x + 256 * y) % 256} (omega (arith, a.0, a.1.0))
      (omega (arith, a.0, a.1.0))
store16-load16 (suc k) [] a = refl
store16-load16 (suc k) (x ∷ []) a = refl
store16-load16 (suc k) (x ∷ y ∷ buf) a = ap (λ r. x ∷ y ∷ r) (store16-load16 k buf a.1.1)

pub take-store16 :
    (k v n : ℕ) (buf : List ℕ) → k * 2 + 2 ≤ n → take n (store16 k v buf) ≡ store16 k v (take n buf)
unfolding store16
take-store16 k v zero buf l = absurd (omega (arith, l))
take-store16 k v (suc zero) buf l = absurd (omega (arith, l))
take-store16 zero v (suc (suc n)) [] l = refl
take-store16 zero v (suc (suc n)) (x ∷ []) l = refl
take-store16 zero v (suc (suc n)) (x ∷ y ∷ buf) l = refl
take-store16 (suc k) v (suc (suc n)) [] l = refl
take-store16 (suc k) v (suc (suc n)) (x ∷ []) l = refl
take-store16 (suc k) v (suc (suc n)) (x ∷ y ∷ buf) l =
    ap (λ r. x ∷ y ∷ r) (take-store16 k v n buf (omega (arith, l)))

pub word_sum-bound : (buf : List ℕ) → AllBytes buf → word_sum buf * 2 ≤ 65535 * (length buf + 1)
word_sum-bound [] a = omega arith
word_sum-bound (x ∷ []) a = omega (arith, a.0)
word_sum-bound (x ∷ y ∷ buf) a = omega (arith, a.0, a.1.0, word_sum-bound buf a.1.1)

pub load16-take : (k n : ℕ) (buf : List ℕ) → k * 2 + 2 ≤ n → load16 (take n buf) k ≡ load16 buf k
unfolding load16
load16-take k zero buf l = absurd (omega (arith, l))
load16-take k (suc zero) buf l = absurd (omega (arith, l))
load16-take k (suc (suc n)) [] l = refl
load16-take k (suc (suc n)) (x ∷ []) l = refl
load16-take zero (suc (suc n)) (x ∷ y ∷ buf) l = refl
load16-take (suc k) (suc (suc n)) (x ∷ y ∷ buf) l = load16-take k n buf (omega (arith, l))

pub load16-bound : (k : ℕ) (buf : List ℕ) → AllBytes buf → load16 buf k < 65536
unfolding load16
load16-bound k [] a = omega arith
load16-bound k (x ∷ []) a = omega arith
load16-bound zero (x ∷ y ∷ buf) a = omega (arith, a.0, a.1.0)
load16-bound (suc k) (x ∷ y ∷ buf) a = load16-bound k buf a.1.1

pub load16-store16_ne :
    (j k v : ℕ) (buf : List ℕ) → j ≢ k → load16 (store16 j v buf) k ≡ load16 buf k
unfolding load16 store16
load16-store16_ne zero k v [] d = refl
load16-store16_ne zero k v (x ∷ []) d = refl
load16-store16_ne zero zero v (x ∷ y ∷ buf) d = absurd (d refl)
load16-store16_ne zero (suc k) v (x ∷ y ∷ buf) d = refl
load16-store16_ne (suc j) k v [] d = refl
load16-store16_ne (suc j) k v (x ∷ []) d = refl
load16-store16_ne (suc j) zero v (x ∷ y ∷ buf) d = refl
load16-store16_ne (suc j) (suc k) v (x ∷ y ∷ buf) d =
    load16-store16_ne j k v buf (λ e. d (ap suc e))

pub AllBytes-take : (n : ℕ) (buf : List ℕ) → AllBytes buf → AllBytes (take n buf)
AllBytes-take zero buf a = tt
AllBytes-take (suc n) [] a = tt
AllBytes-take (suc n) (x ∷ buf) a = (a.0, AllBytes-take n buf a.1)

pub AllBytes-store16 : (k v : ℕ) (buf : List ℕ) → AllBytes buf → AllBytes (store16 k v buf)
unfolding store16
AllBytes-store16 zero v [] a = tt
AllBytes-store16 zero v (x ∷ []) a = a
AllBytes-store16 zero v (x ∷ y ∷ buf) a = (omega arith, (omega arith, a.1.1))
AllBytes-store16 (suc k) v [] a = tt
AllBytes-store16 (suc k) v (x ∷ []) a = a
AllBytes-store16 (suc k) v (x ∷ y ∷ buf) a = (a.0, (a.1.0, AllBytes-store16 k v buf a.1.1))

pub length-store16 : (k v : ℕ) (buf : List ℕ) → length (store16 k v buf) ≡ length buf
unfolding store16
length-store16 zero v [] = refl
length-store16 zero v (x ∷ []) = refl
length-store16 zero v (x ∷ y ∷ buf) = refl
length-store16 (suc k) v [] = refl
length-store16 (suc k) v (x ∷ []) = refl
length-store16 (suc k) v (x ∷ y ∷ buf) = ap (λ m. suc (suc m)) (length-store16 k v buf)

pub word_sum-small :
    (n : ℕ) (buf : List ℕ) → AllBytes buf → n < 65536 → word_sum (take n buf) < 2147483648
word_sum-small n buf a h =
    omega (arith, word_sum-bound (take n buf) (AllBytes-take n buf a), length-take {0} n buf, h)

-- The words of a message of less than 64 KB do not fill a u32.
pub word_sum-fits :
    (n : ℕ) (buf : List ℕ) → AllBytes buf → n < 65536 → word_sum (take n buf) < 4294967296
word_sum-fits n buf a h =
    omega (arith, word_sum-bound (take n buf) (AllBytes-take n buf a), length-take {0} n buf, h)
