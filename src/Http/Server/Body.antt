-- ===== src/Http/Server/Body.antt =====
-- What the web server of Lab15/16-tcp_stack/http_server.c sends.
use ucas_computer_network_la.Prelude.{ℕ, ◌+◌, ◌≡◌, Bool, true, ◌⊎◌, List, [], Option, none, some}
use ucas_computer_network_la.Http.Server.{
  FileCache, ServerVars, find_file, file_at, same_text, Answer,
}
use ucas_computer_network_la.Http.Server.Pieces.{joined, SendsFile}

-- What a search finds: a file of the name, by its index, with its size.
abbrev Found : List ℕ → ℕ → List FileCache → Option (ℕ × ℕ) → Type 0
Found name i fcache none = Unit {0}
Found name i fcache (some (j, size)) =
    (k : ℕ) × (j ≡ i + k)
    × ((file_at fcache k).size ≡ size)
    × (same_text name (file_at fcache k).fullname ≡ true)

-- The answer with a status of 200 has the file of the name; that with a status of 404 has no body.
abbrev pub Answered :
    ((scode fsize : ℕ) → Bool → List ℕ) → List FileCache → ServerVars → Option Answer → Type 0
Answered header fcache sv none = ⊥
Answered header fcache sv (some out) =
    ((k : ℕ) × (same_text sv.fname (file_at fcache k).fullname ≡ true)
      × (joined out.head ≡ header 200 (file_at fcache k).size sv.keep_alive)
      × SendsFile (file_at fcache k) sv.keep_alive out.body)
    ⊎ ((find_file sv.fname 0 fcache ≡ none)
        × (joined out.head ≡ header 404 0 sv.keep_alive)
        × (out.body.written ≡ []))
