-- ===== src/Http/Server/Pieces.antt =====
-- The writes of the web server of Lab15/16-tcp_stack/http_server.c, for the header and the file.
use native.Mathlib.Decide.{dec_lt}
use ucas_computer_network_la.Prelude.{
  ℕ, zero, suc, ◌+◌, ◌-◌, ◌*◌, ◌<◌, ◌≤◌, ◌≡◌, ◌≢◌, refl, ap, sym, ◌∙◌, Bool, false, not, List, [],
  ◌∷◌, ◌++◌, Option, some, arith, min, take, drop, length, length-take, length-drop,
}
use ucas_computer_network_la.Http.Server.{
  FileCache, ServerVars, Sending, clean_server_variable, file_at, send_pieces, send_until_available,
  send_text,
}

-- The bytes of several writes.
abbrev pub joined : List (List ℕ) → List ℕ
joined [] = []
joined (c ∷ cs) = c ++ joined cs

-- A text without NUL, at which strlen would stop.
abbrev pub NoNul : List ℕ → Type 0
NoNul [] = Unit {0}
NoNul (x ∷ xs) = (x ≢ 0) × NoNul xs

NoNul-take : (n : ℕ) (xs : List ℕ) → NoNul xs → NoNul (take n xs)
NoNul-take zero xs v = tt
NoNul-take (suc n) [] v = tt
NoNul-take (suc n) (x ∷ xs) v = (v.0, NoNul-take n xs v.1)

NoNul-drop : (n : ℕ) (xs : List ℕ) → NoNul xs → NoNul (drop n xs)
NoNul-drop zero xs v = v
NoNul-drop (suc n) [] v = tt
NoNul-drop (suc n) (x ∷ xs) v = NoNul-drop n xs v.1

-- tcp_sock_write takes all the bytes that it is given, if there is no NUL among them.
abbrev pub TakesAll : (List ℕ → Option ℕ) → Type 0
TakesAll write = (chunk : List ℕ) → NoNul chunk → write chunk ≡ some (length chunk)

take-append-drop : (n : ℕ) (xs : List ℕ) → take n xs ++ drop n xs ≡ xs
take-append-drop zero xs = refl
take-append-drop (suc n) [] = refl
take-append-drop (suc n) (x ∷ xs) = ap (◌∷◌ x) (take-append-drop n xs)

drop-drop : (k n : ℕ) (xs : List ℕ) → drop (k + n) xs ≡ drop n (drop k xs)
drop-drop zero n xs = ap (λ m. drop m xs) {x = 0 + n} (omega arith)
drop-drop (suc k) zero [] = ap (λ m. drop m []) {x = suc k + 0} {y = suc k} (omega arith)
drop-drop (suc k) (suc n) [] =
    ap (λ m. drop m []) {x = suc k + suc n} {y = suc (k + suc n)} (omega arith)
drop-drop (suc k) n (x ∷ xs) =
    ap (λ m. drop m (x ∷ xs)) {x = suc k + n} {y = suc (k + n)} (omega arith) ∙ drop-drop k n xs

drop-all : (k : ℕ) (xs : List ℕ) → length xs ≤ k → drop k xs ≡ []
drop-all zero [] h = refl
drop-all zero (x ∷ xs) h = absurd (omega (arith, h))
drop-all (suc k) [] h = refl
drop-all (suc k) (x ∷ xs) h = drop-all k xs (omega (arith, h))

send_pieces-done :
    (fuel : ℕ) (write : List ℕ → Option ℕ) (file : List ℕ) (fsize total_sent : ℕ)
    → fsize ≤ total_sent
    → send_pieces fuel write file fsize total_sent ≡ (0, [])
unfolding send_pieces
send_pieces-done zero write file fsize total_sent h = refl
send_pieces-done (suc fuel) write file fsize total_sent h = ground (arith, h)

send_pieces-more :
    (fuel : ℕ) (write : List ℕ → Option ℕ) (file : List ℕ) (fsize total_sent ret : ℕ)
    → total_sent < fsize
    → write (take (min 8192 (fsize - total_sent)) (drop total_sent file)) ≡ some ret
    → ret ≢ 0
    → send_pieces (suc fuel) write file fsize total_sent ≡ (
      ret + (send_pieces fuel write file fsize (total_sent + ret)).0,
      take (min 8192 (fsize - total_sent)) (drop total_sent file)
          ∷ (send_pieces fuel write file fsize (total_sent + ret)).1,
    )
unfolding send_pieces
send_pieces-more fuel write file fsize total_sent ret h e d =
    rw (e, send_pieces) (ground (arith, h, d))

-- All that is left of the file is written, in order.
send_pieces-All :
    (fuel : ℕ) (write : List ℕ → Option ℕ) (file : List ℕ) (total_sent : ℕ)
    → TakesAll write
    → NoNul file
    → total_sent ≤ length file
    → length file ≤ total_sent + fuel * 8192
    → ((send_pieces fuel write file (length file) total_sent).0 ≡ length file - total_sent)
      × (joined (send_pieces fuel write file (length file) total_sent).1 ≡ drop total_sent file)
unfolding send_pieces
send_pieces-All zero write file total_sent t v a b =
    (omega (arith, a, b), sym (drop-all total_sent file (omega (arith, b))))
send_pieces-All (suc fuel) write file total_sent t v a b = elim (dec_lt total_sent (length file)) [
  | no l ↦
      rw (send_pieces-done (suc fuel) write file (length file) total_sent (omega (arith, l)))
        (omega (arith, l), sym (drop-all total_sent file (omega (arith, l))))
  | yes l ↦
      (let n = min 8192 (length file - total_sent) in
        let chunk = take n (drop total_sent file) in
        let size : length chunk ≡ n =
          length-take n (drop total_sent file) ∙ omega (arith, length-drop total_sent file) in
        let e : write chunk ≡ some n =
          t chunk (NoNul-take n (drop total_sent file) (NoNul-drop total_sent file v))
          ∙ ap some size in
        let ih =
          send_pieces-All fuel write file (total_sent + n) t v (omega (arith, l))
            (omega (arith, b, l)) in
        rw (send_pieces-more fuel write file (length file) total_sent n l e (omega (arith, l))) (
          omega (arith, ih.0, l),
          ap (λ r. chunk ++ r) (ih.1 ∙ drop-drop total_sent n file)
              ∙ take-append-drop n (drop total_sent file),
        ))
]

-- A file of the cache, as init_server_cache makes them, that is a text without NUL.
abbrev pub Loaded : FileCache → Type 0
Loaded f = (f.size ≡ length f.file) × NoNul f.file

-- What send_until_available does for a request whose file is known and of which nothing was sent: the
-- writes make up the file, the variables are cleaned, `keep_alive` as well, and the connection is closed
-- unless it was to be kept alive.
abbrev pub SendsFile : FileCache → Bool → Sending → Type 0
SendsFile f keep_alive s =
    (joined s.written ≡ f.file)
    × (s.closed ≡ not keep_alive)
    × (s.vars.total_sent ≡ 0)
    × (s.vars.keep_alive ≡ false)

send_pieces-whole :
    (fuel : ℕ) (write : List ℕ → Option ℕ) (file : List ℕ) (fsize total_sent : ℕ)
    → TakesAll write
    → NoNul file
    → fsize ≡ length file
    → total_sent ≡ 0
    → fsize ≤ fuel * 8192
    → ((send_pieces fuel write file fsize total_sent).0 ≡ fsize)
      × (joined (send_pieces fuel write file fsize total_sent).1 ≡ file)
send_pieces-whole fuel write file fsize total_sent t v e z b =
    let s = send_pieces-All fuel write file 0 t v (omega arith) (omega (arith, b, e)) in
    rw (e, z) (s.0 ∙ omega arith, s.1)

pub send_until_available-SendsFile :
    (fuel : ℕ) (write : List ℕ → Option ℕ) (fcache : List FileCache) (sv : ServerVars)
    → TakesAll write
    → Loaded (file_at fcache sv.fidx)
    → sv.fsize ≡ (file_at fcache sv.fidx).size
    → sv.total_sent ≡ 0
    → sv.fsize ≤ fuel * 8192
    → SendsFile (file_at fcache sv.fidx) sv.keep_alive (send_until_available fuel write fcache sv)
unfolding send_until_available clean_server_variable
send_until_available-SendsFile fuel write fcache sv t l e z b =
    let f = file_at fcache sv.fidx in
    let s = send_pieces-whole fuel write f.file sv.fsize sv.total_sent t l.1 (e ∙ l.0) z b in
    (
      ground (arith, s.1),
      ground (arith, s.0, e, z),
      ground (arith, s.0, e, z),
      ground (arith, s.0, e, z),
    )

-- Nothing is written for a size of 0.
pub send_until_available-nothing :
    (fuel : ℕ) (write : List ℕ → Option ℕ) (fcache : List FileCache) (sv : ServerVars)
    → sv.fsize ≡ 0
    → (send_until_available fuel write fcache sv).written ≡ []
unfolding send_until_available
send_until_available-nothing fuel write fcache sv z =
    let f = file_at fcache sv.fidx in
    ground (arith, send_pieces-done fuel write f.file sv.fsize sv.total_sent (omega (arith, z)))

append_nil : (xs : List ℕ) → xs ++ [] ≡ xs
append_nil [] = refl
append_nil (x ∷ xs) = ap (◌∷◌ x) (append_nil xs)

send_text-none : (fuel : ℕ) (write : List ℕ → Option ℕ) → send_text fuel write [] ≡ some []
unfolding send_text
send_text-none zero write = refl
send_text-none (suc fuel) write = refl

pub send_text-All :
    (fuel : ℕ) (write : List ℕ → Option ℕ) (text : List ℕ)
    → TakesAll write
    → NoNul text
    → (chunks : List (List ℕ)) × (send_text (suc fuel) write text ≡ some chunks)
      × (joined chunks ≡ text)
unfolding send_text
send_text-All fuel write [] t v = ([], refl, refl)
send_text-All fuel write (x ∷ xs) t v =
    let none_left : drop (length (x ∷ xs)) (x ∷ xs) ≡ [] = drop-all (length xs) xs (omega arith) in
    (
      (x ∷ xs) ∷ [],
      rw (t (x ∷ xs) v, send_text) (rw (none_left, send_text-none fuel write) (ground arith)),
      append_nil (x ∷ xs),
    )
