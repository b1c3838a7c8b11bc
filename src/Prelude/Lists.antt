-- ===== src/Prelude/Lists.antt =====
-- Lists measured and indexed by native numbers, under the library's names.
use Prim.Native.Nat.{ℕ, zero, suc, ◌+◌, ◌-◌, ◌≤◌, ◌<◌, min}
use mathlib.Core.Path.{◌≡◌, refl, ap, ap₂, ◌∙◌}
use mathlib.Core.Logic.{◌≢◌}
use mathlib.Core.Bool.{Bool, ◌&&◌}
use mathlib.Core.List.{List, [], ◌∷◌, ◌++◌}
use native.Mathlib.Omega.{arith}
use ucas_computer_network_la.Prelude.Tests.{ltb, leb, if◌then◌else◌}

module _ {ℓ} {A : Type ℓ} where
  abbrev pub length : List A → ℕ
  length [] = 0
  length (x ∷ xs) = suc (length xs)

  abbrev pub get_or : List A → ℕ → A → A
  get_or [] i d = d
  get_or (x ∷ xs) zero d = x
  get_or (x ∷ xs) (suc i) d = get_or xs i d

  -- A write out of bounds changes nothing.
  abbrev pub set : List A → ℕ → A → List A
  set [] i v = []
  set (x ∷ xs) zero v = v ∷ xs
  set (x ∷ xs) (suc i) v = x ∷ set xs i v

  abbrev pub take : ℕ → List A → List A
  take zero xs = []
  take (suc n) [] = []
  take (suc n) (x ∷ xs) = x ∷ take n xs

  abbrev pub drop : ℕ → List A → List A
  drop zero xs = xs
  drop (suc n) [] = []
  drop (suc n) (x ∷ xs) = drop n xs

  abbrev pub replicate : ℕ → A → List A
  replicate zero a = []
  replicate (suc n) a = a ∷ replicate n a

  -- The list of the first `n` values of a function.
  abbrev pub tabulate : ℕ → (ℕ → A) → List A
  tabulate zero f = []
  tabulate (suc n) f = f 0 ∷ tabulate n (λ i. f (suc i))

  -- `filter` by a Boolean test, which runs in a test.
  abbrev pub keep_if : (A → Bool) → List A → List A
  keep_if p [] = []
  keep_if p (x ∷ xs) = let rest = keep_if p xs in if p x then x ∷ rest else rest

  pub length-append : (xs ys : List A) → length (xs ++ ys) ≡ length xs + length ys
  length-append [] ys = omega arith
  length-append (x ∷ xs) ys = omega (arith, length-append xs ys)

  pub length-set : (xs : List A) (i : ℕ) (v : A) → length (set xs i v) ≡ length xs
  length-set [] i v = refl
  length-set (x ∷ xs) zero v = refl
  length-set (x ∷ xs) (suc i) v = ap suc (length-set xs i v)

  pub length-tabulate : (n : ℕ) (f : ℕ → A) → length (tabulate n f) ≡ n
  length-tabulate zero f = refl
  length-tabulate (suc n) f = ap suc (length-tabulate n (λ i. f (suc i)))

  pub length-replicate : (n : ℕ) (a : A) → length (replicate n a) ≡ n
  length-replicate zero a = refl
  length-replicate (suc n) a = ap suc (length-replicate n a)

  pub get_or-set_self :
      (xs : List A) (i : ℕ) (v d : A) → i < length xs → get_or (set xs i v) i d ≡ v
  get_or-set_self [] i v d h = absurd (omega arith)
  get_or-set_self (x ∷ xs) zero v d h = refl
  get_or-set_self (x ∷ xs) (suc i) v d h = get_or-set_self xs i v d (omega arith)

  pub get_or-set_ne :
      (xs : List A) (i j : ℕ) (v d : A) → i ≢ j → get_or (set xs i v) j d ≡ get_or xs j d
  get_or-set_ne [] i j v d h = refl
  get_or-set_ne (x ∷ xs) zero zero v d h = absurd (h refl)
  get_or-set_ne (x ∷ xs) zero (suc j) v d h = refl
  get_or-set_ne (x ∷ xs) (suc i) zero v d h = refl
  get_or-set_ne (x ∷ xs) (suc i) (suc j) v d h = get_or-set_ne xs i j v d (λ e. h (ap suc e))

  pub get_or-drop : (xs : List A) (n i : ℕ) (d : A) → get_or (drop n xs) i d ≡ get_or xs (n + i) d
  get_or-drop xs zero i d = ap (λ k. get_or xs k d) (omega arith)
  get_or-drop [] (suc n) i d = refl
  get_or-drop (x ∷ xs) (suc n) i d =
      get_or-drop xs n i d ∙ ap (λ k. get_or (x ∷ xs) k d) {x = suc (n + i)} (omega arith)

  pub tabulate_ext :
      (n : ℕ) (f g : ℕ → A) → ((i : ℕ) → i < n → f i ≡ g i) → tabulate n f ≡ tabulate n g
  tabulate_ext zero f g h = refl
  tabulate_ext (suc n) f g h =
      ap₂ ◌∷◌ (h 0 (omega arith))
        (tabulate_ext n (λ i. f (suc i)) (λ i. g (suc i)) (λ i p. h (suc i) (omega arith)))

  -- Two tables join to one that continues the first by the second.
  pub tabulate-append :
      (n m : ℕ) (f g h : ℕ → A)
      → ((i : ℕ) → i < n → f i ≡ h i)
      → ((i : ℕ) → i < m → g i ≡ h (n + i))
      → tabulate n f ++ tabulate m g ≡ tabulate (n + m) h
  tabulate-append zero m f g h p q =
      tabulate_ext m g h (λ i l. q i l ∙ ap h {x = 0 + i} (omega arith))
      ∙ ap (λ k. tabulate k h) {x = m} (omega arith)
  tabulate-append (suc n) m f g h p q =
      ap₂ ◌∷◌ (p 0 (omega arith)) (
        tabulate-append n m (λ i. f (suc i)) g (λ i. h (suc i)) (λ i l. p (suc i) (omega arith))
          (λ i l. q i l ∙ ap h {x = suc n + i} (omega arith)))
      ∙ ap (λ k. tabulate k h) {x = suc (n + m)} (omega arith)

  -- A list is the table of its elements.
  pub tabulate-get_or : (xs : List A) (d : A) → tabulate (length xs) (λ i. get_or xs i d) ≡ xs
  tabulate-get_or [] d = refl
  tabulate-get_or (x ∷ xs) d = ap (◌∷◌ x) (tabulate-get_or xs d)

  -- `memcpy` to offset `i` of a buffer; what would fall past its end is dropped.
  abbrev pub overlay : List A → List A → List A
  overlay [] src = []
  overlay (x ∷ xs) [] = x ∷ xs
  overlay (x ∷ xs) (y ∷ src) = y ∷ overlay xs src

  abbrev pub blit : List A → ℕ → List A → List A
  blit xs zero src = overlay xs src
  blit [] (suc i) src = []
  blit (x ∷ xs) (suc i) src = x ∷ blit xs i src

  pub length-overlay : (xs src : List A) → length (overlay xs src) ≡ length xs
  length-overlay [] src = refl
  length-overlay (x ∷ xs) [] = refl
  length-overlay (x ∷ xs) (y ∷ src) = ap suc (length-overlay xs src)

  pub length-blit : (xs : List A) (i : ℕ) (src : List A) → length (blit xs i src) ≡ length xs
  length-blit [] zero src = refl
  length-blit (x ∷ xs) zero src = length-overlay (x ∷ xs) src
  length-blit [] (suc i) src = refl
  length-blit (x ∷ xs) (suc i) src = ap suc (length-blit xs i src)

  get_or-overlay :
      (xs src : List A) (j : ℕ) (d : A)
      → j < length xs
      → get_or (overlay xs src) j d ≡ (if ltb j (length src) then get_or src j d else get_or xs j d)
  get_or-overlay [] src j d h = absurd (omega arith)
  get_or-overlay (x ∷ xs) [] j d h = ground arith
  get_or-overlay (x ∷ xs) (y ∷ src) zero d h = ground arith
  get_or-overlay (x ∷ xs) (y ∷ src) (suc j) d h = ground (arith, get_or-overlay xs src j d)

  -- Inside the copied range a read gives the source, and outside it the old buffer.
  pub get_or-blit :
      (xs : List A) (i : ℕ) (src : List A) (j : ℕ) (d : A)
      → j < length xs
      → get_or (blit xs i src) j d
        ≡ (if leb i j && ltb j (i + length src) then get_or src (j - i) d else get_or xs j d)
  get_or-blit xs zero src j d h = ground (arith, get_or-overlay xs src j d)
  get_or-blit [] (suc i) src j d h = absurd (omega arith)
  get_or-blit (x ∷ xs) (suc i) src zero d h = ground arith
  get_or-blit (x ∷ xs) (suc i) src (suc j) d h = ground (arith, get_or-blit xs i src j d)

  pub length-take : (n : ℕ) (xs : List A) → length (take n xs) ≡ min n (length xs)
  length-take zero xs = omega arith
  length-take (suc n) [] = omega arith
  length-take (suc n) (x ∷ xs) = omega (arith, length-take n xs)

  pub length-drop : (n : ℕ) (xs : List A) → length (drop n xs) ≡ length xs - n
  length-drop zero xs = omega arith
  length-drop (suc n) [] = omega arith
  length-drop (suc n) (x ∷ xs) = omega (arith, length-drop n xs)

  -- A stretch of a list is the table of the elements in it.
  pub take-drop-tabulate :
      (n i : ℕ) (xs : List A) (d : A)
      → i + n ≤ length xs
      → take n (drop i xs) ≡ tabulate n (λ k. get_or xs (i + k) d)
  take-drop-tabulate zero i xs d h = refl
  take-drop-tabulate (suc n) zero [] d h = absurd (omega arith)
  take-drop-tabulate (suc n) (suc i) [] d h = absurd (omega arith)
  take-drop-tabulate (suc n) zero (x ∷ xs) d h = ap (◌∷◌ x) (
      take-drop-tabulate n zero xs d (omega arith)
      ∙ tabulate_ext n _ _ (λ k l. ap (λ j. get_or (x ∷ xs) j d) {x = suc (0 + k)} (omega arith)))
  take-drop-tabulate (suc n) (suc i) (x ∷ xs) d h =
      take-drop-tabulate (suc n) i xs d (omega arith)
      ∙ tabulate_ext (suc n) _ _
          (λ k l. ap (λ j. get_or (x ∷ xs) j d) {x = suc (i + k)} {y = suc i + k} (omega arith))

  pub get_or-take :
      (n : ℕ) (xs : List A) (i : ℕ) (d : A) → i < n → get_or (take n xs) i d ≡ get_or xs i d
  get_or-take zero xs i d h = absurd (omega arith)
  get_or-take (suc n) [] i d h = refl
  get_or-take (suc n) (x ∷ xs) zero d h = refl
  get_or-take (suc n) (x ∷ xs) (suc i) d h = get_or-take n xs i d (omega arith)
