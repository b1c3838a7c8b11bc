-- ===== src/Http/Url.antt =====
-- The URL of a request, http_get_url of Lab15/16-tcp_stack/http_utils.c.
use ucas_computer_network_la.Prelude.{
  ℕ, zero, suc, ◌-◌, ◌≤◌, ◌<◌, ◌≡◌, ◌≢◌, refl, ap, true, false, not, ◌&&◌, ◌||◌, List, [], ◌∷◌,
  ◌++◌, some, arith, ◌==◌, length,
}
use ucas_computer_network_la.Http.{
  http_get, space, tab, space_or_tab, skip_blanks, copy_word, starts_with, http_get_url,
}

-- Characters of a URL: no NUL, space or tab.
abbrev pub AllUrl : List ℕ → Type 0
AllUrl [] = Unit {0}
AllUrl (c ∷ cs) = (c ≢ 0) × (c ≢ space) × (c ≢ tab) × AllUrl cs

copy_word-AllUrl :
    (room : ℕ) (url rest : List ℕ)
    → AllUrl url
    → length url ≤ room
    → copy_word room (url ++ space ∷ rest) ≡ url
unfolding copy_word
copy_word-AllUrl zero [] rest h l = refl
copy_word-AllUrl zero (c ∷ cs) rest h l = absurd (omega (arith, l))
copy_word-AllUrl (suc room) [] rest h l = refl
copy_word-AllUrl (suc room) (c ∷ cs) rest h l =
    let goes_on : (not (c == 0) && not (c == space)) ≡ true = ground (arith, h.0, h.1) in
    rw goes_on (ap (λ ys. c ∷ ys) (copy_word-AllUrl room cs rest h.3 (omega (arith, l))))

skip_blanks-AllUrl :
    (url rest : List ℕ) → AllUrl url → 0 < length url → skip_blanks (url ++ rest) ≡ url ++ rest
unfolding skip_blanks space_or_tab
skip_blanks-AllUrl [] rest h l = absurd (omega (arith, l))
skip_blanks-AllUrl (c ∷ cs) rest h l =
    let stops : (not (c == 0) && (c == space || c == tab)) ≡ false = ground (arith, h.1, h.2) in
    rw stops refl

-- A request line gives back its URL, where that is not empty, has no NUL, space or tab in it, and
-- fits into the buffer with a NUL behind it.
pub http_get_url-AllUrl :
    (url rest : List ℕ) (value_len : ℕ)
    → AllUrl url
    → 0 < length url
    → length url < value_len
    → http_get_url (http_get ++ space ∷ url ++ space ∷ rest) value_len ≡ some url
unfolding http_get_url starts_with
http_get_url-AllUrl url rest value_len h some_there l =
    rw (skip_blanks-AllUrl url (space ∷ rest) h some_there)
      (ap some (copy_word-AllUrl (value_len - 1) url rest h (omega (arith, l))))
