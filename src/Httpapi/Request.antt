-- ===== src/Httpapi/Request.antt =====
-- Requests of the repository routes: path values, the user that requireUser put into the context,
-- resolveRepo and parseNumber of internal/httpapi/collab.go.
use git_castle.Prelude.{◌^◌, ltb, ◌&&◌, none, ◌==◌, leb, if◌then◌else◌, some, ℕ, Option, String}
use git_castle.Auth.Types.{User}
use git_castle.Repos.Types.{Repository}
use git_castle.Httpapi.Reply.{error_body, write_json, try, Route}
use git_castle.Prelude.Text.{trim_prefix}
use git_castle.Repos.Service.{get}
use git_castle.Prelude.Number.{digits_from}

pub record Request : Type 0 where
  pub owner : String
  pub name : String
  pub number : String
  pub branch : String
  pub state : String
  pub user : User

abbrev positive : Option ℕ → Option ℕ
positive none = none
positive (some n) = if leb 1 n && ltb n (2 ^ 63) then some n else none

-- strconv.ParseInt(text, 10, 64), where it returns a positive number. A sign "-" leads to none.
unfoldable pub parse_positive : String → Option ℕ
unfolding digits_from
parse_positive text =
    let digits = trim_prefix text "+" in
    if digits == "" then none else positive (digits_from 0 digits)

-- resolveRepo
abbrev pub resolve_repo : Request → (Repository → Route) → Route
resolve_repo r = try (get r.owner r.name)

abbrev numbered : Option ℕ → (ℕ → Route) → Route
numbered none rest = write_json 400 (error_body "invalid number")
numbered (some number) rest = rest number

-- parseNumber and badNumber
abbrev pub parse_number : Request → (ℕ → Route) → Route
parse_number r = numbered (parse_positive r.number)

-- decodeJSON; `none` is a body that is no JSON object of the expected fields.
abbrev pub decode : {A : Type 0} → Option A → (A → Route) → Route
decode none rest = write_json 400 (error_body "invalid JSON body")
decode (some input) rest = rest input
