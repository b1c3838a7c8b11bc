-- ===== src/Http/Server.antt =====
-- The answers of the web server, Lab15/16-tcp_stack/http_server.c, from the choice of the file on.
-- `write` is what tcp_sock_write returns for the bytes that it is given (`none` below 0), and
-- `header` the text that sprintf makes of the status, the length and the kind of connection.
pub mod Pieces
pub mod Body
use ucas_computer_network_la.Prelude.{
  ℕ, zero, suc, ◌+◌, ◌-◌, Bool, true, false, List, [], ◌∷◌, Option, none, some, ltb, leb, ◌==◌,
  ◌&&◌, if◌then◌else◌, min, take, drop, length,
}

abbrev pub sndbuf_size : ℕ
sndbuf_size = 8192

-- `struct file_cache`.
pub record FileCache : Type 0 where
  pub fullname : List ℕ
  pub size : ℕ
  pub file : List ℕ

-- `struct server_vars`, without the text of the request.
pub record ServerVars : Type 0 where
  pub recv_len : ℕ
  pub request_len : ℕ
  pub total_read : ℕ
  pub total_sent : ℕ
  pub keep_alive : Bool
  pub fidx : ℕ
  pub fname : List ℕ
  pub fsize : ℕ

unfoldable pub clean_server_variable : ServerVars → ServerVars
clean_server_variable sv = record sv {
  recv_len = 0;
  request_len = 0;
  total_read = 0;
  total_sent = 0;
  keep_alive = false;
}

-- `strcmp(a, b) == 0`.
pub same_text : List ℕ → List ℕ → Bool
same_text [] [] = true
same_text [] (b ∷ bs) = false
same_text (a ∷ as_) [] = false
same_text (a ∷ as_) (b ∷ bs) = a == b && same_text as_ bs

-- The index of the first file of a name, from `i` on, with its size.
pub find_file : List ℕ → ℕ → List FileCache → Option (ℕ × ℕ)
find_file name i [] = none
find_file name i (f ∷ fs) =
    if same_text name f.fullname then some (i, f.size) else find_file name (suc i) fs

-- The status, and the variables after the search; where no file has the name they stay.
unfoldable pub choose_file : List FileCache → ServerVars → ℕ × ServerVars
choose_file fcache sv = elim (find_file sv.fname 0 fcache) [
  | none ↦ (404, sv)
  | some (i, size) ↦ (200, record sv { fsize = size; fidx = i })
]

-- fcache[i], with what the array holds behind the files.
unfoldable pub file_at : List FileCache → ℕ → FileCache
file_at [] i = record { fullname = []; size = 0; file = [] }
file_at (f ∷ fs) zero = f
file_at (f ∷ fs) (suc i) = file_at fs i

-- The loop of send_until_available in `fuel` turns: the number of bytes sent, and what was written.
pub send_pieces :
    ℕ → (write : List ℕ → Option ℕ) → List ℕ → (fsize total_sent : ℕ) → ℕ × List (List ℕ)
send_pieces zero write file fsize total_sent = (0, [])
send_pieces (suc fuel) write file fsize total_sent =
    let len = min sndbuf_size (fsize - total_sent) in
    let chunk = take len (drop total_sent file) in
    if len == 0 then (0, []) else (elim (write chunk) [
      | none ↦ (0, chunk ∷ [])
      | some ret ↦
          let rest = send_pieces fuel write file fsize (total_sent + ret) in
          if ret == 0 then (0, chunk ∷ []) else (ret + rest.0, chunk ∷ rest.1)
    ])

-- The variables after it, what was written, and whether the connection is closed.
pub record Sending : Type 0 where
  pub vars : ServerVars
  pub written : List (List ℕ)
  pub closed : Bool

unfoldable pub send_until_available :
    ℕ → (write : List ℕ → Option ℕ) → List FileCache → ServerVars → Sending
send_until_available fuel write fcache sv =
    let f = file_at fcache sv.fidx in
    let (sent, written) = send_pieces fuel write f.file sv.fsize sv.total_sent in
    let sv' : ServerVars = record sv { total_sent = sv.total_sent + sent } in
    if leb f.size sv'.total_sent
    then record {
      vars = clean_server_variable sv';
      written = written;
      closed = if sv'.keep_alive then false else true;
    }
    else record { vars = sv'; written = written; closed = false }

-- The loop that writes the header, in `fuel` turns: what was written, or `none` where a write fails or
-- the loop has not come to its end.
pub send_text : ℕ → (write : List ℕ → Option ℕ) → List ℕ → Option (List (List ℕ))
send_text zero write text = if length text == 0 then some [] else none
send_text (suc fuel) write text = if length text == 0 then some [] else (elim (write text) [
  | none ↦ none
  | some ret ↦ elim (send_text fuel write (drop ret text)) [
    | none ↦ none
    | some chunks ↦ some (text ∷ chunks)
  ]
])

-- What was written for the header, and then for the file.
pub record Answer : Type 0 where
  pub head : List (List ℕ)
  pub body : Sending

-- handle_connection from the search of the file on; `none` is the result -1.
unfoldable pub answer :
    ℕ
    → (write : List ℕ → Option ℕ) → (header : (scode fsize : ℕ) → Bool → List ℕ) → List FileCache
    → ServerVars
    → Option Answer
answer fuel write header fcache sv =
    let (scode, sv') = choose_file fcache sv in
    elim (send_text fuel write (header scode sv'.fsize sv'.keep_alive)) [
      | none ↦ none
      | some head ↦ some (record { head = head; body = send_until_available fuel write fcache sv' })
    ]
