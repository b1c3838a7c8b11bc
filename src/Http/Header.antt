-- ===== src/Http/Header.antt =====
-- The end of the header of a request, find_http_header of Lab15/16-tcp_stack/http_utils.c.
use ucas_computer_network_la.Prelude.{
  ℕ, zero, suc, ◌+◌, ◌-◌, ◌≤◌, ◌<◌, ◌≡◌, ◌≢◌, refl, sym, subst, ◌⊎◌, inl, inr, false, List, [], ◌∷◌,
  Option, none, some, arith, ◌==◌, Bool-cases, Option-cases, set, length, get_or,
}
use ucas_computer_network_la.Http.{
  newline, carriage_return, empty_line, find_from, find_http_header,
}

-- Behind the newline at place `k` stands an empty line, a newline or a carriage return and a newline,
-- that ends with the first `n` characters.
abbrev pub EmptyAfter : List ℕ → (k n : ℕ) → Type 0
EmptyAfter text k n =
    (get_or text k 0 ≡ newline)
    × (((get_or text (suc k) 0 ≡ newline) × (n ≡ suc (suc k)))
        ⊎ ((get_or text (suc k) 0 ≡ carriage_return)
            × (get_or text (suc (suc k)) 0 ≡ newline)
            × (n ≡ suc (suc (suc k)))))

-- The first `n` characters are a header: they end with the first empty line that stands behind a
-- newline, and there is no NUL before that newline.
abbrev pub IsHeader : ℕ → List ℕ → Type 0
IsHeader n text =
    (k : ℕ) × EmptyAfter text k n
    × ((j : ℕ) → j < k → get_or text j 0 ≢ 0)
    × ((j m : ℕ) → j < k → EmptyAfter text j m → ⊥)

-- What `empty_line` says of the text behind a newline.
abbrev Blank : List ℕ → Option ℕ → Type 0
Blank cs none = (n : ℕ) → EmptyAfter (newline ∷ cs) 0 n → ⊥
Blank cs (some n) = EmptyAfter (newline ∷ cs) 0 (suc n)

empty_line-Blank : (cs : List ℕ) → Blank cs (empty_line cs)
unfolding empty_line
empty_line-Blank [] = λ n h. ground (arith, h)
empty_line-Blank (x ∷ []) = ground arith
empty_line-Blank (x ∷ y ∷ rest) = ground arith

-- What the search should give, `pos` characters being passed.
abbrev Found : ℕ → List ℕ → ℕ → Type 0
Found pos text r =
    ((r ≡ 0) × ((n : ℕ) → IsHeader n text → ⊥)) ⊎ ((n : ℕ) × (r ≡ pos + n) × IsHeader n text)

-- No empty line stands behind the first character.
abbrev PassesOn : ℕ → List ℕ → Type 0
PassesOn c cs = (n : ℕ) → EmptyAfter (c ∷ cs) 0 n → ⊥

IsHeader-next :
    (c n : ℕ) (cs : List ℕ) → c ≢ 0 → PassesOn c cs → IsHeader n cs → IsHeader (suc n) (c ∷ cs)
IsHeader-next c n cs letter on (k, ends, full, first) =
    (suc k, ground (arith, ends), whole, none_yet)
  where
    whole : (j : ℕ) → j < suc k → get_or (c ∷ cs) j 0 ≢ 0
    whole zero lt = letter
    whole (suc j) lt = full j (omega arith)

    none_yet : (j m : ℕ) → j < suc k → EmptyAfter (c ∷ cs) j m → ⊥
    none_yet zero m lt h = on m h
    none_yet (suc j) zero lt h = absurd (ground (arith, h))
    none_yet (suc j) (suc m) lt h = first j m (omega arith) (ground (arith, h))

-- The search from the next character on.
Found-next :
    (pos c r : ℕ) (cs : List ℕ)
    → c ≢ 0
    → PassesOn c cs
    → Found (suc pos) cs r
    → Found pos (c ∷ cs) r
Found-next pos c r cs letter on (inl (e, none_there)) = inl (e, go)
  where
    go : (n : ℕ) → IsHeader n (c ∷ cs) → ⊥
    go n (zero, ends, full, first) = on n ends
    go zero (suc k, ends, full, first) = absurd (ground (arith, ends))
    go (suc n) (suc k, ends, full, first) = none_there n (
      k,
      ground (arith, ends),
      λ j lt. full (suc j) (omega arith),
      λ j m lt h. first (suc j) (suc m) (omega arith) (ground (arith, h)),
    )
Found-next pos c r cs letter on (inr (n, e, h)) =
    inr (suc n, omega (arith, e), IsHeader-next c n cs letter on h)

find_from-Found : (pos : ℕ) (text : List ℕ) → Found pos text (find_from pos text)
unfolding find_from
find_from-Found pos [] = inl (refl, λ n h. ground (arith, h.1))
find_from-Found pos (c ∷ cs) = elim (Bool-cases (c == 0)) [
  | inl nul ↦ rw nul (inl (refl, go (ground (arith, nul))))
  | inr letter ↦ rw letter (elim (Bool-cases (c == newline)) [
    | inr other ↦ rw other (
        Found-next pos c (find_from (suc pos) cs) cs (ground (arith, letter))
          (λ n h. ground (arith, other, h.0)) (find_from-Found (suc pos) cs))
    | inl line ↦
        let at : c ≡ newline = ground (arith, line) in
        rw line (elim (Option-cases (empty_line cs)) [
          | inl full ↦
              let on : PassesOn newline cs = subst (Blank cs) full (empty_line-Blank cs) in
              rw full (
                Found-next pos c (find_from (suc pos) cs) cs (ground (arith, letter))
                  (subst (λ x. PassesOn x cs) (sym at) on) (find_from-Found (suc pos) cs))
          | inr (n, empty) ↦
              let there : EmptyAfter (newline ∷ cs) 0 (suc n) =
                subst (Blank cs) empty (empty_line-Blank cs) in
              rw empty (
                inr (
                  suc n,
                  omega arith,
                  (
                    0,
                    subst (λ x. EmptyAfter (x ∷ cs) 0 (suc n)) (sym at) there,
                    λ j lt. absurd (omega (arith, lt)),
                    λ j m lt h. absurd (omega (arith, lt)),
                  ),
                ))
        ])
  ])
]
  where
    go : c ≡ 0 → (n : ℕ) → IsHeader n (c ∷ cs) → ⊥
    go e n (zero, ends, full, first) = ground (arith, ends.0)
    go e n (suc k, ends, full, first) = full 0 (omega arith) e

newline-inside : (text : List ℕ) (i : ℕ) → get_or text i 0 ≡ newline → i < length text
newline-inside [] i h = absurd (ground (arith, h))
newline-inside (x ∷ xs) zero h = omega arith
newline-inside (x ∷ xs) (suc i) h = omega (arith, newline-inside xs i h)

IsHeader-bounds : (n : ℕ) (text : List ℕ) → IsHeader n text → (1 ≤ n) × (n ≤ length text)
IsHeader-bounds n text (k, (line, inl (again, e)), full, first) =
    (omega (arith, e), omega (arith, e, newline-inside text (suc k) again))
IsHeader-bounds n text (k, (line, inr (cr, again, e)), full, first) =
    (omega (arith, e), omega (arith, e, newline-inside text (suc (suc k)) again))

-- The length that is returned is that of the header: the characters up to the first empty line that
-- stands behind a newline, a newline or a carriage return and a newline, if there is no NUL before it
-- (a text that starts with an empty line has no header there). It lies within the text, and in the text
-- after the call only the last character of the header has changed, to NUL. Where there is no such line
-- before a NUL the length is 0 and the text is as it was.
pub find_http_header-IsHeader :
    (text : List ℕ)
    → let (n, text') = find_http_header text in
      ((n ≡ 0) × (text' ≡ text) × ((k : ℕ) → IsHeader k text → ⊥))
      ⊎ ((1 ≤ n) × (n ≤ length text) × IsHeader n text × (text' ≡ set text (n - 1) 0))
unfolding find_http_header
find_http_header-IsHeader text = elim (find_from-Found 0 text) [
  | inl (e, none_there) ↦ rw e (inl (refl, refl, none_there))
  | inr (n, e, h) ↦
      let same : find_from 0 text ≡ n = omega (arith, e) in
      let inside = IsHeader-bounds n text h in
      let some_there : (n == 0) ≡ false = ground (arith, inside) in
      rw (same, some_there) (inr (inside.0, inside.1, h, refl))
]
