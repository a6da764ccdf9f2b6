-- ===== src/Gitserve/Backend.antt =====
-- Handler of internal/gitserve/handler.go: the path and the environment that git http-backend gets.
-- The process itself is outside of this repository.
use git_castle.Prelude.{
  none, ◌∷◌, ◌||◌, ◌==◌, some, ◌++◌, if◌then◌else◌, filter, [], ℕ, String, Option, List, Bool,
}
use git_castle.Gitserve.Request.{is_slash}
use git_castle.Prelude.Int.{pos, ℤ}
use git_castle.Prelude.Text.{
  join_with, has_suffix, trim_prefix, split_n, append, trim_left, contains_text, before,
}

pub record BackendRequest : Type 0 where
  pub method : String
  pub path : String
  pub raw_query : String
  pub remote_addr : String
  -- headers; empty if missing
  pub content_type : String
  pub content_encoding : String
  pub content_length : String
  -- the name of the basic credentials, if there are any
  pub user : Option String

pub record Handler : Type 0 where
  pub root : String
  pub prefix : String

-- parts[1] += ".git" where there is one, and the parts joined again
abbrev pub with_git : String → List String → String
with_git path [] = path
with_git path (_ ∷ []) = path
with_git path (owner ∷ name ∷ rest) = join_with "/" (owner ∷ append name ".git" ∷ rest)

abbrev pub has_git : String → Bool
has_git path = contains_text path ".git/" || has_suffix path ".git"

unfoldable pub normalised : String → String
normalised path = if has_git path then path else with_git path (split_n b'/' 2 path)

-- pathInfo
unfoldable pub path_info : String → String → String
path_info prefix path = normalised (trim_left is_slash (trim_prefix path prefix))

-- The key of an entry of os.Environ()
abbrev pub is_kept : String → Bool
is_kept entry =
    let key = before b'=' entry in
    key == "PATH" || key == "HOME" || key == "TMPDIR" || key == "LANG" || key == "LC_ALL"

-- systemEnviron
pub system_environ : List String → List String
system_environ environ = filter is_kept environ

-- A variable that is set only for a header that is there
abbrev pub unless_empty : String → String → List String
unless_empty name value = if value == "" then [] else append name value ∷ []

abbrev pub remote_user : Option String → List String
remote_user none = []
remote_user (some user) = append "REMOTE_USER=" user ∷ []

pub backend_env : Handler → List String → BackendRequest → List String
backend_env h environ r =
    system_environ environ
    ++ (append "GIT_PROJECT_ROOT=" h.root
        ∷ "GIT_HTTP_EXPORT_ALL=1"
        ∷ append "PATH_INFO=/" (path_info h.prefix r.path)
        ∷ append "REQUEST_METHOD=" r.method
        ∷ append "QUERY_STRING=" r.raw_query
        ∷ append "REMOTE_ADDR=" r.remote_addr
        ∷ (unless_empty "CONTENT_TYPE=" r.content_type
            ++ (unless_empty "HTTP_CONTENT_ENCODING=" r.content_encoding
                ++ (unless_empty "CONTENT_LENGTH=" r.content_length ++ remote_user r.user))))

-- What starting the process comes to, and what it writes for an environment
pub record Process : Type 0 where
  pub pipes_work : Bool
  pub start_error : Option String
  pub output : List String → String

pub record HttpReply : Type 0 where
  pub status : ℤ
  pub headers : List (String × String)
  pub body : String

-- http.Error
abbrev pub http_error : ℕ → String → HttpReply
http_error status text = record {
  status = pos status;
  headers =
      ("Content-Type", "text/plain; charset=utf-8") ∷ ("X-Content-Type-Options", "nosniff") ∷ [];
  body = append text "\n";
}
