-- ===== src/Http/Tests.antt =====
-- The theorems on requests at a short one.
use ucas_computer_network_la.Http.Server.{FileCache, ServerVars}
use ucas_computer_network_la.Prelude.{
  ℕ, suc, Bool, true, Option, ◌≡◌, ◌⊎◌, ◌≤◌, ◌-◌, List, [], ◌∷◌, ◌++◌, some, arith, set, length,
}
use ucas_computer_network_la.Http.{http_get, space, find_http_header, http_get_url}
use ucas_computer_network_la.Http.Header.{IsHeader, find_http_header-IsHeader}
use ucas_computer_network_la.Http.Url.{http_get_url-AllUrl}

-- A line with one letter, an empty line, and the letter again.
abbrev lines : List ℕ
lines = 65 ∷ 13 ∷ 10 ∷ 13 ∷ 10 ∷ 65 ∷ []

find_http_header-IsHeader_example :
    let (n, text) = find_http_header lines in
    ((n ≡ 0) × (text ≡ lines) × ((k : ℕ) → IsHeader k lines → ⊥))
    ⊎ ((1 ≤ n) × (n ≤ length lines) × IsHeader n lines × (text ≡ set lines (n - 1) 0))
find_http_header-IsHeader_example = find_http_header-IsHeader lines

-- `GET /a `.
http_get_url-AllUrl_example :
    http_get_url (http_get ++ space ∷ (47 ∷ 97 ∷ []) ++ space ∷ []) 128 ≡ some (47 ∷ 97 ∷ [])
http_get_url-AllUrl_example =
    http_get_url-AllUrl (47 ∷ 97 ∷ []) [] 128
      (
        λ e. omega (arith, e),
        λ e. omega (arith, e),
        λ e. omega (arith, e),
        (λ e. omega (arith, e), λ e. omega (arith, e), λ e. omega (arith, e), tt),
      )
      (omega arith) (omega arith)

-- Two files; the client asks for the second.
abbrev files : List FileCache
files =
    record { fullname = 97 ∷ []; size = 2; file = 104 ∷ 105 ∷ [] }
    ∷ record { fullname = 98 ∷ []; size = 3; file = 1 ∷ 2 ∷ 3 ∷ [] }
    ∷ []

abbrev first_request : ServerVars
first_request = record {
  recv_len = 0;
  request_len = 0;
  total_read = 0;
  total_sent = 0;
  keep_alive = true;
  fidx = 0;
  fname = 98 ∷ [];
  fsize = 0;
}

abbrev write_all : List ℕ → Option ℕ
write_all chunk = some (length chunk)

abbrev status_line : (scode fsize : ℕ) → Bool → List ℕ
status_line scode fsize keep_alive = suc scode ∷ suc fsize ∷ []
