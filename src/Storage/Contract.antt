-- ===== src/Storage/Contract.antt =====
-- What internal/storage promises as ObjectStore: a map from paths to texts, and the answers that it
-- allows to a sequence of operations.
use git_castle.Errors.{err, object_not_found, ok, Error, Result}
use git_castle.Prelude.{some, none, false, ◌≢◌, ◌≡◌, ◌∷◌, [], if◌then◌else◌, Option, List, String}
use git_castle.Storage.Files.{Volume}
use git_castle.Storage.Paths.{same_path, object_path, FilePath}
use git_castle.Storage.Calls.{is_temporary}
use git_castle.Storage.Local.{delete_object, get_object, put_object}
use git_castle.Storage.Objects.{object_at}

abbrev pub Objects : Type 0
Objects = FilePath → Option String

abbrev pub stored : FilePath → String → Objects → Objects
stored p text o q = if same_path q p then some text else o q

abbrev pub forgotten : FilePath → Objects → Objects
forgotten p o q = if same_path q p then none else o q

pub data ObjectOp : Type 0 where
  put : (key text : String) → ObjectOp
  get : (key : String) → ObjectOp
  remove : (key : String) → ObjectOp

abbrev pub key_of : ObjectOp → String
key_of (put key text) = key
key_of (get key) = key
key_of (remove key) = key

abbrev pub quiet : Result (Unit {0}) × Volume → Result (Option String) × Volume
quiet (ok _, v) = (ok none, v)
quiet (err e, v) = (err e, v)

abbrev pub given : Result String × Volume → Result (Option String) × Volume
given (ok text, v) = (ok (some text), v)
given (err e, v) = (err e, v)

unfoldable pub perform : FilePath → ObjectOp → Volume → Result (Option String) × Volume
perform root (put key text) v = quiet (put_object root key text v)
perform root (get key) v = given (get_object root key v)
perform root (remove key) v = quiet (delete_object root key v)

-- What the store may answer, and the objects afterwards.
pub data Allowed (root : FilePath) (o : Objects)
    : ObjectOp → Result (Option String) → Objects → Type 0 where
  refused : (op : ObjectOp) (e : Error) → e ≢ object_not_found → Allowed root o op (err e) o
  has_put :
      (key text : String) (p : FilePath)
      → object_path root key ≡ ok p
      → Allowed root o (put key text) (ok none) (stored p text o)
  has_got :
      (key text : String) (p : FilePath)
      → object_path root key ≡ ok p
      → o p ≡ some text
      → Allowed root o (get key) (ok (some text)) o
  has_removed :
      (key : String) (p : FilePath)
      → object_path root key ≡ ok p
      → Allowed root o (remove key) (ok none) (forgotten p o)
  none_to_get :
      (key : String) (p : FilePath)
      → object_path root key ≡ ok p
      → o p ≡ none
      → Allowed root o (get key) (err object_not_found) o
  none_to_remove :
      (key : String) (p : FilePath)
      → object_path root key ≡ ok p
      → o p ≡ none
      → Allowed root o (remove key) (err object_not_found) o

-- Answers to a sequence of operations, each allowed after those before
pub data Trace (root : FilePath)
    : Objects → List ObjectOp → List (Result (Option String)) → Type 0 where
  ended : (o : Objects) → Trace root o [] []
  goes_on :
      (o o' : Objects) (op : ObjectOp) (ops : List ObjectOp) (r : Result (Option String))
      (rs : List (Result (Option String)))
      → Allowed root o op r o'
      → Trace root o' ops rs
      → Trace root o (op ∷ ops) (r ∷ rs)

unfoldable pub answers : FilePath → List ObjectOp → Volume → List (Result (Option String))
unfolding perform
answers root [] v = []
answers root (op ∷ ops) v = let (r, w) = perform root op v in r ∷ answers root ops w

-- The objects of the store are those of the file system whose name does not end in ".tmp".
abbrev pub Agree : Objects → Volume → Type 0
Agree o v = (q : FilePath) → is_temporary q ≡ false → object_at q v ≡ o q

-- The object of the key, if the key has one, is not a temporary file.
abbrev pub IsOrdinary : FilePath → ObjectOp → Type 0
IsOrdinary root op = (p : FilePath) → object_path root (key_of op) ≡ ok p → is_temporary p ≡ false

-- One answer, and the objects that it leaves
abbrev pub Step : FilePath → Objects → ObjectOp → Result (Option String) × Volume → Type 0
Step root o op (r, w) = (o' : Objects) × Allowed root o op r o' × Agree o' w
