-- ===== src/WorkingCopy/Selection.antt =====
-- Which Paths a command of a Working copy covers (cli/src/working_copy.rs). `select`, which finds
-- the named files on disk, is not modelled.
use tidings.Base.Tests.{
  Bool, true, false, ◌||◌, Option, none, some, List, [], ◌∷◌, ◌++◌, if◌then◌else◌, map,
}
use tidings.Base.Lists.{any, filter}
use tidings.Base.Results.{Result, ok, err}
use tidings.Base.Text.{Text, slash, codes, contains, starts_with, strip_prefix, text_eq}
use tidings.Base.BTreeMap.{BTreeMap, keys}
use tidings.WorkingCopy.Record.{Divergence, Record}
use tidings.WorkingCopy.Reports.{
  record_directory, ignore_file, join, LocalName, DivergedPath, Unfit,
}
use tidings.WorkingCopy.Failures.{Failure, failure, refused_diverged, refused_invalid}
use tidings.WorkingCopy.Folder.{theirs_file}
use tidings.WorkingCopy.Differences.{Scan}

pub data Target : Type 0 where
  folder : Target
  under : LocalName → Target

pub record NamedPath : Type 0 where
  pub given : Text
  pub target : Target

pub data Selection : Type 0 where
  all : Selection
  named : List NamedPath → Selection

pub data NamingCommand : Type 0 where
  commit discard : NamingCommand

-- `NamingCommand::verb`.
abbrev pub verb : NamingCommand → Text
verb commit = codes "commit"
verb discard = codes "discard"

abbrev pub ends_or_slash : Option Text → Bool
ends_or_slash none = false
ends_or_slash (some rest) = text_eq rest [] || starts_with (slash ∷ []) rest

-- `Target::covers`.
unfoldable pub target_covers : Target → Text → Bool
target_covers folder name = true
target_covers (under target) name = ends_or_slash (strip_prefix target name)

-- `Selection::covers`.
unfoldable pub covers : Selection → Text → Bool
unfolding target_covers
covers all name = true
covers (named paths) name = any (λ (path : NamedPath). target_covers path.target name) paths

abbrev pub names_it : Text → Target → Bool
names_it name folder = false
names_it name (under target) = text_eq target name

-- `Selection::names_itself`.
unfoldable pub names_itself : Selection → Text → Bool
names_itself all name = false
names_itself (named paths) name = any (λ (path : NamedPath). names_it name path.target) paths

-- The names that a named path may cover: files and Paths, and files that can't become Files.
abbrev pub known_names : Scan → Record → List Text
known_names scan r =
    keys scan.files
    ++ (keys r.bases ++ (keys r.divergences ++ map (λ (unfit : Unfit). unfit.name) scan.invalid))

abbrev pub is_folder : Target → Bool
is_folder folder = true
is_folder (under _) = false

abbrev pub is_ignored_itself : Target → List LocalName → Bool
is_ignored_itself folder ignored = false
is_ignored_itself (under name) ignored = contains name ignored

-- Why a named path that covers nothing is refused.
unfoldable pub why_nothing : Scan → NamingCommand → Target → Text
unfolding target_covers
why_nothing scan command target =
    if is_ignored_itself target scan.ignored
    then codes "is left out by "
      ++ (join record_directory ignore_file
          ++ (codes ": remove the pattern that matches it there to "
              ++ (verb command ++ codes " it")))
    else if any (target_covers target) scan.ignored
    then codes "holds only files " ++ (join record_directory ignore_file ++ codes " leaves out")
    else codes "no such file in the Working copy"

unfoldable pub check_named :
    Scan → Record → NamingCommand → List NamedPath → Result Failure (Unit {0})
unfolding why_nothing
check_named scan r command [] = ok tt
check_named scan r command (path ∷ paths) =
    let rest = check_named scan r command paths in
    if is_folder path.target || any (target_covers path.target) (known_names scan r)
    then rest
    else err (failure (path.given ++ (codes ": " ++ why_nothing scan command path.target)))

-- `Selection::check_each_names_something`.
unfoldable pub check_each_names_something :
    Selection → Scan → Record → NamingCommand → Result Failure (Unit {0})
unfolding check_named
check_each_names_something all scan r command = ok tt
check_each_names_something (named paths) scan r command = check_named scan r command paths

abbrev pub diverged_path : Text → Divergence → DivergedPath
diverged_path path divergence = record {
  path = path;
  theirs_file = elim divergence.theirs [ none ↦ none | some _ ↦ some (theirs_file path) ];
  blocked = none;
}

abbrev pub diverged_in : Selection → BTreeMap Divergence → List DivergedPath
diverged_in selection [] = []
diverged_in selection ((path, divergence) ∷ divergences) =
    let rest = diverged_in selection divergences in
    if covers selection path then diverged_path path divergence ∷ rest else rest

-- `diverged_paths`.
unfoldable pub diverged_paths : Record → Selection → List DivergedPath
unfolding covers
diverged_paths r selection = diverged_in selection r.divergences

-- `refuse_diverged`.
unfoldable pub refuse_diverged : Record → Selection → Result Failure (Unit {0})
unfolding diverged_paths
refuse_diverged r selection = elim (diverged_paths r selection) [
  | [] ↦ ok tt
  | path ∷ paths ↦ err (refused_diverged (path ∷ paths))
]

-- `refuse_invalid`.
unfoldable pub refuse_invalid : List Unfit → Selection → Result Failure (Unit {0})
unfolding covers
refuse_invalid invalid selection =
    elim (filter (λ (unfit : Unfit). covers selection unfit.name) invalid) [
      | [] ↦ ok tt
      | unfit ∷ more ↦ err (refused_invalid (unfit ∷ more))
    ]
