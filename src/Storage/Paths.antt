-- ===== src/Storage/Paths.antt =====
-- Paths of the file system that internal/storage writes to, and those of its object keys. A path is
-- the list of its names, the innermost first; it is absolute and clean.
use git_castle.Prelude.Text.{contains_text, any_char, append, split}
use git_castle.Prelude.{
  ◌++◌, any, false, ◌||◌, ◌&&◌, ◌==◌, true, if◌then◌else◌, eqb, [], ◌∷◌, ℕ, String, List, Bool,
}
use git_castle.Errors.{ok, plain, err, Result}

abbrev pub FilePath : Type 0
FilePath = List String

abbrev pub parent : FilePath → FilePath
parent [] = []
parent (_ ∷ directory) = directory

unfoldable pub same_path : FilePath → FilePath → Bool
same_path [] [] = true
same_path (a ∷ p) (b ∷ q) = a == b && same_path p q
same_path _ _ = false

-- One name of a path that filepath.Clean reads
abbrev pub enter : String → FilePath → FilePath
enter name p = if name == "" || name == "." then p else if name == ".." then parent p else name ∷ p

unfoldable pub clean_from : FilePath → List String → FilePath
clean_from p [] = p
clean_from p (name ∷ rest) = clean_from (enter name p) rest

-- filepath.Clean("/" + key)
unfoldable pub clean : String → FilePath
unfolding clean_from
clean key = clean_from [] (split b'/' key)

abbrev pub is_nul : ℕ → Bool
is_nul c = eqb c 0

-- LocalStore.path; filepath.Join of a clean root. The error does not keep the quoted key.
unfoldable pub object_path : FilePath → String → Result FilePath
object_path root key =
    if any_char is_nul key
    then err (plain "invalid object key")
    else if any (λ name. contains_text name "..") (clean key)
    then err (plain "object key escapes storage root")
    else ok (clean key ++ root)

-- path + ".tmp"
abbrev pub temporary : FilePath → FilePath
temporary [] = ".tmp" ∷ []
temporary (name ∷ directory) = append name ".tmp" ∷ directory
