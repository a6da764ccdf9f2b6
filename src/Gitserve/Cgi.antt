-- ===== src/Gitserve/Cgi.antt =====
-- internal/gitserve/cgi.go: the response of git http-backend, and the end of Handler.ServeHTTP. The
-- order of headers with different names is not fixed in Go; here it is that of the response.
use git_castle.Prelude.{
  ◌==◌, ◌+◌, ◌++◌, false, ◌∷◌, ◌||◌, ◌&&◌, not, none, true, leb, eqb, some, if◌then◌else◌, [], Bool,
  ℕ, String, Option, List,
}
use git_castle.Gitserve.Backend.{
  HttpReply, http_error, Handler, BackendRequest, Process, backend_env, path_info,
}
use git_castle.Prelude.Int.{pos, ℤ}
use git_castle.Prelude.Text.{
  cut_at, trim_right, is_space, trim, split, join_with, contains_text, append, fields,
}
use Prim.Native.Char.{code}
use git_castle.Prelude.Number.{atoi}

abbrev is_break : ℕ → Bool
is_break c = eqb c 13 || eqb c 10

abbrev lower : ℕ → ℕ
lower c = if leb b'A' c && leb c b'Z' then c + 32 else c

-- strings.EqualFold with an ASCII text in lower case
pub folds_to : String → String → Bool
folds_to String.[] String.[] = true
folds_to (String.◌∷◌ c s) (String.◌∷◌ p ps) = eqb (lower (code c)) (code p) && folds_to s ps
folds_to _ _ = false

-- The Status header and the others, as far as they are read
abbrev pub Heads : Type 0
Heads = String × List (String × String)

abbrev pub header_line : Option (String × String) → Heads → Heads
header_line none heads = heads
header_line (some (key, value)) (status, headers) =
    if folds_to (trim is_space key) "status"
    then (trim is_space value, headers)
    else (status, headers ++ (trim is_space key, trim is_space value) ∷ [])

abbrev pub first_code : List String → ℤ
first_code [] = pos 200
first_code (field ∷ _) = elim (atoi field) [ none ↦ pos 200 | some code ↦ code ]

abbrev pub reply_of : Heads → List String → HttpReply
reply_of (status, headers) body = record {
  status = first_code (fields status);
  headers = headers;
  body = join_with "\n" body;
}

-- The lines that are left; the last of them has no line break, and stands for the end of the input.
pub read_heads : Heads → List String → HttpReply
read_heads heads [] = http_error 502 "git backend returned no response"
read_heads heads (_ ∷ []) = http_error 502 "git backend returned no response"
read_heads heads (line ∷ next ∷ rest) =
    let text = trim_right is_break line in
    elim (text == "") [
      | true ↦ reply_of heads (next ∷ rest)
      | false ↦ read_heads (header_line (cut_at b':' text) heads) (next ∷ rest)
    ]

-- parseCGIResponse
pub parse_cgi_response : String → HttpReply
parse_cgi_response output = read_heads ("", []) (split b'\n' output)

abbrev pub started : Process → List String → HttpReply
started p env = elim p.start_error [
  | some text ↦ http_error 500 (append "start git http-backend: " text)
  | none ↦ parse_cgi_response (p.output env)
]

-- ServeHTTP
unfoldable serve_backend : Handler → List String → Process → BackendRequest → HttpReply
serve_backend h environ p r =
    if contains_text (path_info h.prefix r.path) ".."
    then http_error 400 "invalid path"
    else if not p.pipes_work
    then http_error 500 "backend unavailable"
    else started p (backend_env h environ r)
