-- ===== src/Http.antt =====
-- The requests of the server on the TCP stack, Lab15/16-tcp_stack/http_utils.c. Text is a list of
-- character codes; what is read behind the end of the list is the NUL that the code puts there.
pub mod Header
pub mod Url
pub mod Server
mod Tests
use ucas_computer_network_la.Prelude.{
  ℕ, zero, suc, ◌+◌, ◌-◌, Bool, true, false, not, ◌&&◌, ◌||◌, List, [], ◌∷◌, ◌++◌, Option, none,
  some, ltb, ◌==◌, if◌then◌else◌, get_or, set, take, drop, length,
}

abbrev pub newline : ℕ
newline = 10

abbrev pub carriage_return : ℕ
carriage_return = 13

abbrev pub space : ℕ
space = 32

abbrev pub tab : ℕ
tab = 9

-- `HTTP_GET`.
abbrev pub http_get : List ℕ
http_get = 71 ∷ 69 ∷ 84 ∷ []

-- The number of characters of an empty line at the start of the text, if there is one.
pub empty_line : List ℕ → Option ℕ
empty_line text =
    if get_or text 0 0 == newline
    then some 1
    else if get_or text 0 0 == carriage_return && get_or text 1 0 == newline
    then some 2
    else none

-- The loop of find_http_header, over the text from `temp` on, which is at `temp - data`: strchr goes
-- to the next newline before a NUL.
pub find_from : ℕ → List ℕ → ℕ
find_from pos [] = 0
find_from pos (c ∷ cs) =
    let rest = find_from (suc pos) cs in
    if c == 0
    then 0
    else if c == newline
    then (elim (empty_line cs) [ none ↦ rest | some n ↦ suc pos + n ])
    else rest

-- The length of the header, and the text, in which a NUL ends the header.
pub find_http_header : List ℕ → ℕ × List ℕ
find_http_header text =
    let hdr_len = find_from 0 text in
    (hdr_len, if hdr_len == 0 then text else set text (hdr_len - 1) 0)

-- `SPACE_OR_TAB`.
pub space_or_tab : ℕ → Bool
space_or_tab c = c == space || c == tab

pub skip_blanks : List ℕ → List ℕ
skip_blanks [] = []
skip_blanks (c ∷ cs) =
    let rest = skip_blanks cs in if not (c == 0) && space_or_tab c then rest else c ∷ cs

-- The copy of a word, of at most `room` characters.
pub copy_word : (room : ℕ) → List ℕ → List ℕ
copy_word zero text = []
copy_word (suc room) [] = []
copy_word (suc room) (c ∷ cs) =
    let rest = copy_word room cs in if not (c == 0) && not (c == space) then c ∷ rest else []

-- `strncmp(data, HTTP_GET, 3) == 0`.
pub starts_with : List ℕ → List ℕ → Bool
starts_with [] text = true
starts_with (k ∷ ks) text = get_or text 0 0 == k && starts_with ks (drop 1 text)

-- The URL; none where the request is no GET. `sizeof(HTTP_GET)` counts the NUL, so that the character
-- behind the word is skipped as well.
pub http_get_url : List ℕ → (value_len : ℕ) → Option (List ℕ)
http_get_url text value_len =
    if starts_with http_get text
    then some (copy_word (value_len - 1) (skip_blanks (drop 4 text)))
    else none
