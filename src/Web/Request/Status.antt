-- ===== src/Web/Request/Status.antt =====
-- The status of every answer of the web server.
use mini_container.Prelude.{
  ◌≡◌, refl, ◌⊎◌, inl, inr, Bool, true, false, ◌||◌, List, [], ◌∷◌, ◌++◌, Option, none, some,
  if◌then◌else◌, arith,
}
use mini_container.Text.{Text, text, text_eq, starts_with}
use mini_container.Web.Request.{
  Pages, next_word, answer_get, answer, handle_request, json_head, html_head, options_answer,
  not_found, not_allowed,
}

-- What HTTP calls the answers.
pub data Status : Type 0 where
  ok unknown_path unknown_method : Status

abbrev pub status_line : Status → Text
status_line ok = text "HTTP/1.1 200 OK\r\n"
status_line unknown_path = text "HTTP/1.1 404 Not Found\r\n"
status_line unknown_method = text "HTTP/1.1 405 Method Not Allowed\r\n"

abbrev served_paths : List Text
served_paths = text "/" ∷ text "/index.html" ∷ text "/api/containers" ∷ text "/api/system" ∷ []

is_among : Text → List Text → Bool
is_among path [] = false
is_among path (p ∷ ps) = text_eq path p || is_among path ps

pub status_of : Text → Text → Status
unfolding is_among
status_of method path =
    if text_eq method (text "GET")
    then (if is_among path served_paths then ok else unknown_path)
    else if text_eq method (text "OPTIONS")
    then ok
    else unknown_method

abbrev IsGet : Text → Text → Text → Type 0
IsGet path method p = (text_eq method (text "GET") ≡ true) × (text_eq path p ≡ true)

-- A report that the request asks for ends with an exception.
abbrev pub Throws : {S : Type 0} → Pages S → Text → Text → S → Type 0
Throws pages method path s =
    (IsGet path method (text "/api/containers") × ((pages.containers s).0 ≡ none))
    ⊎ (IsGet path method (text "/api/system") × ((pages.system s).0 ≡ none))

-- The answer begins with a status line.
abbrev pub Begins : Status → Option Text → Type 0
Begins status r = (t : Text) × (r ≡ some t) × (starts_with t (status_line status) ≡ true)

-- An exception that a report has thrown, or an answer with its status line.
abbrev pub Answers : {S : Type 0} → Pages S → Text → Text → S → Option Text → Type 0
Answers pages method path s r =
    (Throws pages method path s × (r ≡ none)) ⊎ Begins (status_of method path) r

module _ {S : Type 0} (pages : Pages S) where
  with_head-Begins :
      (head : Text) (status : Status) (json : Option Text)
      → ((t : Text) → starts_with (head ++ t) (status_line status) ≡ true)
      → (json ≡ none) ⊎ Begins status (elim json [ none ↦ none | some t ↦ some (head ++ t) ])
  with_head-Begins head status none h = inl refl
  with_head-Begins head status (some t) h = inr (head ++ t, refl, h t)

  html_ok : (t : Text) → starts_with (html_head ++ t) (status_line ok) ≡ true
  unfolding text starts_with
  html_ok t = refl

  json_ok : (t : Text) → starts_with (json_head ++ t) (status_line ok) ≡ true
  unfolding text starts_with
  json_ok t = refl

  options_ok : starts_with options_answer (status_line ok) ≡ true
  unfolding text starts_with
  options_ok = refl

  not_found_ok : starts_with not_found (status_line unknown_path) ≡ true
  unfolding text starts_with
  not_found_ok = refl

  not_allowed_ok : starts_with not_allowed (status_line unknown_method) ≡ true
  unfolding text starts_with
  not_allowed_ok = refl

  answer-Answers :
      (method path : Text) (s : S) → Answers pages method path s (answer pages method path s).0
  unfolding answer answer_get status_of is_among
  answer-Answers method path s =
      let listed = with_head-Begins json_head ok (pages.containers s).0 json_ok in
      let measured = with_head-Begins json_head ok (pages.system s).0 json_ok in
      let page : Begins ok (some (html_head ++ pages.html)) =
        (html_head ++ pages.html, refl, html_ok pages.html) in
      let options : Begins ok (some options_answer) = (options_answer, refl, options_ok) in
      let missing : Begins unknown_path (some not_found) = (not_found, refl, not_found_ok) in
      let refused : Begins unknown_method (some not_allowed) =
        (not_allowed, refl, not_allowed_ok) in
      ground (arith, listed, measured, page, options, missing, refused)

  -- By the first two words of a request: the four paths are served to GET with 200, any other path
  -- gets 404, OPTIONS gets 200 and any other method 405. There is no answer only where the request
  -- is a GET of /api/containers or /api/system and the report of that path ends with an exception.
  pub handle_request-Answers :
      (request : Text) (s : S)
      → Answers pages
          (next_word request).0
          (next_word (next_word request).1).0
          s
          (handle_request pages request s).0
  unfolding handle_request
  handle_request-Answers request s =
      answer-Answers (next_word request).0 (next_word (next_word request).1).0 s
