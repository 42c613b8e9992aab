-- ===== src/Web/Request.antt =====
-- `SimpleWebServer::handleRequest`: the answer to a request, by its first two words.
pub mod Status
use mini_container.Prelude.{
  ℕ, Bool, true, false, ◌||◌, [], ◌∷◌, ◌++◌, Option, none, some, if◌then◌else◌, Exec, pure, ◌>>=◌,
}
use mini_container.Text.{Text, text, text_eq, is_space, skip_space}

-- `iss >> word`: the next word, empty at the end, and what is behind it.
unfoldable pub up_to_space : Text → Text × Text
up_to_space [] = ([], [])
up_to_space (c ∷ s) =
    let (word, rest) = up_to_space s in if is_space c then ([], c ∷ s) else (c ∷ word, rest)

unfoldable pub next_word : Text → Text × Text
unfolding skip_space up_to_space
next_word s = up_to_space (skip_space s)

abbrev pub json_head : Text
json_head =
    text
      "HTTP/1.1 200 OK\r\nContent-Type: application/json\r\nAccess-Control-Allow-Origin: *\r\nConnection: close\r\n\r\n"

abbrev pub html_head : Text
html_head = text "HTTP/1.1 200 OK\r\nContent-Type: text/html\r\nConnection: close\r\n\r\n"

abbrev pub options_answer : Text
options_answer =
    text
      "HTTP/1.1 200 OK\r\nAccess-Control-Allow-Origin: *\r\nAccess-Control-Allow-Methods: GET, OPTIONS\r\nAccess-Control-Allow-Headers: Content-Type\r\nConnection: close\r\n\r\n"

abbrev pub not_found : Text
not_found =
    text "HTTP/1.1 404 Not Found\r\nContent-Type: text/plain\r\nConnection: close\r\n\r\nNot Found"

abbrev pub not_allowed : Text
not_allowed =
    text
      "HTTP/1.1 405 Method Not Allowed\r\nContent-Type: text/plain\r\nConnection: close\r\n\r\nMethod Not Allowed"

-- What the paths serve: the page, and the two reports, which can throw.
pub record Pages (S : Type 0) : Type 0 where
  pub html : Text
  pub containers : Exec S Text
  pub system : Exec S Text

module _ {S : Type 0} (pages : Pages S) where
  answer_get : Text → Exec S Text
  answer_get path s =
      let (listed, s1) = pages.containers s in
      let (measured, s2) = pages.system s in
      if text_eq path (text "/") || text_eq path (text "/index.html")
      then (some (html_head ++ pages.html), s)
      else if text_eq path (text "/api/containers")
      then (elim listed [ none ↦ none | some json ↦ some (json_head ++ json) ], s1)
      else if text_eq path (text "/api/system")
      then (elim measured [ none ↦ none | some json ↦ some (json_head ++ json) ], s2)
      else (some not_found, s)

  unfoldable pub answer : Text → Text → Exec S Text
  unfolding answer_get
  answer method path s =
      let got = answer_get path s in
      if text_eq method (text "GET")
      then got
      else if text_eq method (text "OPTIONS")
      then (some options_answer, s)
      else (some not_allowed, s)

  unfoldable pub handle_request : Text → Exec S Text
  unfolding answer next_word
  handle_request request s =
      let (method, rest) = next_word request in
      let (path, behind) = next_word rest in answer method path s
