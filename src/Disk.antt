-- ===== src/Disk.antt =====
-- The folder of a Working copy, as `std::fs` shows it: what stands at each name, relative to the
-- folder. The operating system may refuse any call, as `Os` says, at any state of the folder. A
-- symlink is never followed. What is in `.tidings/` but for `theirs/`, and permissions, do not show.
pub mod Leaves
pub mod Places
use tidings.Base.Tests.{
  ◌&&◌, Bool, true, false, Option, none, some, List, [], ◌∷◌, ◌++◌, map, not, ◌==◌, if◌then◌else◌,
}
use tidings.Base.Lists.{filter, any, find}
use tidings.Base.Results.{Result, ok, err}
use tidings.Base.Text.{strip_prefix, Text, slash, starts_with, text_eq}
use tidings.Base.BTreeMap.{BTreeMap, get, insert, remove, keys}

-- What a directory entry is. A `file` holds UTF-8, a `not_text` does not.
pub data Node : Type 0 where
  file : Text → Node
  not_text symlink special dir : Node

abbrev pub Disk : Type 0
Disk = BTreeMap Node

-- `std::io::ErrorKind`, as far as the source looks at it.
pub data ErrorKind : Type 0 where
  not_found not_a_directory directory_not_empty invalid_data other : ErrorKind

pub record IoError : Type 0 where
  pub kind : ErrorKind
  pub text : Text

pub data Call : Type 0 where
  asks_metadata reads reads_dir removes removes_dir creates_dir : Call
  reads_entry asks_type makes_tempfile writes sets_permissions syncs renames syncs_dir : Call

-- What the operating system answers to a call at a name, where it refuses it, and what it says of
-- an error of a kind.
pub record Os : Type 0 where
  pub refuses : Disk → Call → Text → Option IoError
  pub describe : ErrorKind → Text

-- A call that may change the folder, and may fail.
abbrev pub Io {ℓ κ} : Type ℓ → Type κ → Type (ℓ ⊔ κ)
Io E A = Disk → Disk × Result E A

abbrev pub and_then {ℓ κ μ} :
    {E : Type ℓ} {A : Type κ} {B : Type μ} → Disk × Result E A → (A → Io E B) → Disk × Result E B
and_then (d, err e) next = (d, err e)
and_then (d, ok a) next = next a d

infixl 5 ◌>>=◌ ◌>>◌
abbrev pub ◌>>=◌ {ℓ κ μ} : {E : Type ℓ} {A : Type κ} {B : Type μ} → Io E A → (A → Io E B) → Io E B
(first >>= next) d = and_then (first d) next

abbrev pub ◌>>◌ {ℓ κ μ} : {E : Type ℓ} {A : Type κ} {B : Type μ} → Io E A → Io E B → Io E B
(first >> next) d = and_then (first d) (λ _. next)

abbrev pub pure {ℓ κ} : {E : Type ℓ} {A : Type κ} → A → Io E A
pure a d = (d, ok a)

abbrev pub fail {ℓ κ} : {E : Type ℓ} {A : Type κ} → E → Io E A
fail e d = (d, err e)

-- A result that is there already.
abbrev pub given {ℓ κ} : {E : Type ℓ} {A : Type κ} → Result E A → Io E A
given r d = (d, r)

-- `map_err`, of a result and of a call.
abbrev pub map_error {ℓ κ μ} :
    {E : Type ℓ} {F : Type κ} {A : Type μ} → (E → F) → Result E A → Result F A
map_error f (err e) = err (f e)
map_error f (ok a) = ok a

abbrev pub map_err {ℓ κ μ} : {E : Type ℓ} {F : Type κ} {A : Type μ} → (E → F) → Io E A → Io F A
map_err f call d = let (after, result) = call d in (after, map_error f result)

-- Whether anything is in a directory.
abbrev pub is_empty : Text → Disk → Bool
is_empty directory d = not (any (starts_with (directory ++ (slash ∷ []))) (keys d))

-- Whether a name is of an entry of a directory itself. The folder is the name without characters.
unfoldable pub is_child : Text → Text → Bool
is_child [] name = not (text_eq name []) && not (any (λ c. c == slash) name)
is_child (x ∷ directory) name = elim (strip_prefix ((x ∷ directory) ++ (slash ∷ [])) name) [
  | none ↦ false
  | some rest ↦ not (any (λ c. c == slash) rest)
]

-- The entries of a directory, in order of name, which the operating system leaves open.
unfoldable pub children : Text → Disk → List Text
children directory d = filter (is_child directory) (keys d)

module _ (os : Os) where
  abbrev pub error : ErrorKind → IoError
  error kind = record { kind = kind; text = os.describe kind }

  -- `fs::symlink_metadata`, where each directory that the name is in is one.
  unfoldable pub symlink_metadata : Disk → Text → Result IoError Node
  symlink_metadata d name = elim (os.refuses d Call.asks_metadata name) [
    | some e ↦ err e
    | none ↦ elim (get name d) [ none ↦ err (error not_found) | some node ↦ ok node ]
  ]

  -- The answer of `fs::read_to_string` at an entry.
  abbrev pub contents_of : Option Node → Result IoError Text
  contents_of none = err (error not_found)
  contents_of (some (file contents)) = ok contents
  contents_of (some not_text) = err (error invalid_data)
  contents_of (some symlink) = err (error other)
  contents_of (some special) = err (error other)
  contents_of (some dir) = err (error other)

  unfoldable pub read_to_string : Disk → Text → Result IoError Text
  read_to_string d name = elim (os.refuses d Call.reads name) [
    | some e ↦ err e
    | none ↦ contents_of (get name d)
  ]

  abbrev listed : Text → Disk → Option Node → Result IoError (List Text)
  listed name d none = err (error not_found)
  listed name d (some dir) = ok (children name d)
  listed name d (some (file _)) = err (error not_a_directory)
  listed name d (some not_text) = err (error not_a_directory)
  listed name d (some symlink) = err (error not_a_directory)
  listed name d (some special) = err (error not_a_directory)

  -- `fs::read_dir`, its entries by their names in the folder.
  unfoldable pub read_dir : Disk → Text → Result IoError (List Text)
  read_dir d name = elim (os.refuses d Call.reads_dir name) [
    | some e ↦ err e
    | none ↦ if text_eq name [] then ok (children name d) else listed name d (get name d)
  ]

  -- An entry that is listed, and its `file_type`.
  unfoldable pub read_entry : Disk → Text → Result IoError (Unit {0})
  read_entry d name = elim (os.refuses d Call.reads_entry name) [ some e ↦ err e | none ↦ ok tt ]

  unfoldable pub file_type : Disk → Text → Result IoError Node
  file_type d name = elim (os.refuses d Call.asks_type name) [
    | some e ↦ err e
    | none ↦ elim (get name d) [ none ↦ err (error not_found) | some node ↦ ok node ]
  ]

  -- A call that changes nothing that the model shows.
  unfoldable pub touch : Call → Text → Io IoError (Unit {0})
  touch call name d = elim (os.refuses d call name) [ some e ↦ (d, err e) | none ↦ (d, ok tt) ]

  abbrev pub removed_file : Text → Disk → Option Node → Disk × Result IoError (Unit {0})
  removed_file name d none = (d, err (error not_found))
  removed_file name d (some dir) = (d, err (error other))
  removed_file name d (some (file _)) = (remove name d, ok tt)
  removed_file name d (some not_text) = (remove name d, ok tt)
  removed_file name d (some symlink) = (remove name d, ok tt)
  removed_file name d (some special) = (remove name d, ok tt)

  -- `fs::remove_file`: a symlink is removed itself.
  unfoldable pub remove_file : Text → Io IoError (Unit {0})
  remove_file name d = elim (os.refuses d Call.removes name) [
    | some e ↦ (d, err e)
    | none ↦ removed_file name d (get name d)
  ]

  abbrev pub removed_dir : Text → Disk → Option Node → Disk × Result IoError (Unit {0})
  removed_dir name d (some dir) =
      if is_empty name d then (remove name d, ok tt) else (d, err (error directory_not_empty))
  removed_dir name d none = (d, err (error not_found))
  removed_dir name d (some (file _)) = (d, err (error not_a_directory))
  removed_dir name d (some not_text) = (d, err (error not_a_directory))
  removed_dir name d (some symlink) = (d, err (error not_a_directory))
  removed_dir name d (some special) = (d, err (error not_a_directory))

  unfoldable pub remove_dir : Text → Io IoError (Unit {0})
  remove_dir name d = elim (os.refuses d Call.removes_dir name) [
    | some e ↦ (d, err e)
    | none ↦ removed_dir name d (get name d)
  ]

  abbrev pub created_dir : Text → Disk → Option Node → Disk × Result IoError (Unit {0})
  created_dir name d none = (insert name dir d, ok tt)
  created_dir name d (some node) = (d, err (error other))

  unfoldable pub create_dir : Text → Io IoError (Unit {0})
  create_dir name d = elim (os.refuses d Call.creates_dir name) [
    | some e ↦ (d, err e)
    | none ↦ created_dir name d (get name d)
  ]

  -- One directory of `fs::create_dir_all`, which leaves one that is there.
  abbrev pub create_missing : Text → Io IoError (Unit {0})
  create_missing name d = elim (get name d) [ some dir ↦ (d, ok tt) | _ ↦ create_dir name d ]

  -- `fs::create_dir_all`, of these directories, the outermost first.
  unfoldable pub create_dir_all : List Text → Io IoError (Unit {0})
  create_dir_all [] = pure tt
  create_dir_all (name ∷ names) = create_missing name >> create_dir_all names

  abbrev pub renamed : Text → Text → Disk → Option Node → Disk × Result IoError (Unit {0})
  renamed contents name d (some dir) = (d, err (error other))
  renamed contents name d none = (insert name (file contents) d, ok tt)
  renamed contents name d (some (file _)) = (insert name (file contents) d, ok tt)
  renamed contents name d (some not_text) = (insert name (file contents) d, ok tt)
  renamed contents name d (some symlink) = (insert name (file contents) d, ok tt)
  renamed contents name d (some special) = (insert name (file contents) d, ok tt)

  -- `NamedTempFile::persist` of `tempfile`: the file that holds this takes the place of any file.
  unfoldable pub rename : Text → Text → Io IoError (Unit {0})
  rename contents name d = elim (os.refuses d Call.renames name) [
    | some e ↦ (d, err e)
    | none ↦ renamed contents name d (get name d)
  ]
