-- ===== src/WorkingCopy/Scan/Depth.antt =====
-- The fuel that scanning a directory takes (cli/src/working_copy/scan.rs).
use tidings.Base.Tests.{
  ℕ, zero, suc, ◌+◌, ◌≤◌, ◌<◌, ◌≡◌, refl, sym, ap, ◌∙◌, Bool, true, ◌&&◌, ◌||◌, some, List, [], ◌∷◌,
  ◌++◌, arith, ltb, leb, Option-cases, inl, inr,
}
use tidings.Base.Lists.{all, filter, length, length-append}
use tidings.Base.Results.{Result, ok, err, ◌>>=◌}
use tidings.Base.Text.{Text, text_eq, slash, strip_prefix}
use tidings.Base.BTreeMap.{keys}
use tidings.Disk.{
  Os, Node, file, not_text, symlink, special, dir, Disk, IoError, is_child, children, read_dir,
  file_type,
}
use tidings.WorkingCopy.Failures.{Failure}
use tidings.WorkingCopy.Folder.{Env}
use tidings.WorkingCopy.Theirs.{depth}
use tidings.WorkingCopy.Differences.{Scan}
use tidings.WorkingCopy.Scan.{
  Gitignore, local_name, scan_typed, scan_entry, scan_entries, scan_listed, scan_directory,
}

-- Longer than a directory's name, and no longer than this.
abbrev pub is_deeper : Text → ℕ → Text → Bool
is_deeper at most child = ltb (length at) (length child) && leb (length child) most

strip_prefix-length :
    (p t rest : Text) → strip_prefix p t ≡ some rest → length t ≡ length p + length rest
unfolding strip_prefix
strip_prefix-length [] t rest h = ground arith
strip_prefix-length (c ∷ p) [] rest h = cc
strip_prefix-length (c ∷ p) (x ∷ t) rest h = ground (arith, strip_prefix-length p t rest)

child_longer : (at child : Text) → is_child at child ≡ true → length at < length child
unfolding is_child text_eq
child_longer [] [] h = cc
child_longer [] (c ∷ child) h = ground arith
child_longer (x ∷ at) child h =
    let directory = (x ∷ at) ++ (slash ∷ []) in
    elim (Option-cases (strip_prefix directory child)) [
      | inl none_there ↦ ground arith
      | inr (rest, stripped) ↦ ground (
        arith,
        strip_prefix-length directory child rest stripped,
        length-append (x ∷ at) (slash ∷ []),
      )
    ]

read_dir-children :
    (os : Os) (d : Disk) (at : Text) (entries : List Text)
    → read_dir os d at ≡ ok entries
    → entries ≡ filter (is_child at) (keys d)
unfolding read_dir children
read_dir-children os d at entries h = ground (arith, h)

pub children_deeper :
    (at : Text) (most : ℕ) (names : List Text)
    → depth names ≤ most
    → all (is_deeper at most) (filter (is_child at) names) ≡ true
children_deeper at most [] h = refl
children_deeper at most (name ∷ names) h =
    ground (arith, children_deeper at most names, child_longer at name)

module _ (env : Env) {G : Type 0} (gitignore : Gitignore G) (g : G) (d : Disk) where
  open env use {os}

  abbrev Inner : Type 0
  Inner = Text → Bool → Scan → Result Failure Scan

  -- Two ways to scan a directory that do the same at a name.
  abbrev SameAt : Inner → Inner → Text → Type 0
  SameAt inner other child =
      (ignored : Bool) (scan : Scan) → inner child ignored scan ≡ other child ignored scan

  local_name-is : (child name : Text) → local_name env child ≡ some name → name ≡ child
  unfolding local_name
  local_name-is child name h = ground arith

  typed-same :
      (inner other : Inner) (at child : Text) (ignored : Bool) (scan : Scan)
      (type : Result IoError Node)
      → SameAt inner other child
      → scan_typed env gitignore inner g d at child ignored scan type
        ≡ scan_typed env gitignore other g d at child ignored scan type
  typed-same inner other at child ignored scan (err e) same = refl
  typed-same inner other at child ignored scan (ok dir) same =
      same (ignored || gitignore.is_ignore g child true) scan
  typed-same inner other at child ignored scan (ok (file _)) same = refl
  typed-same inner other at child ignored scan (ok not_text) same = refl
  typed-same inner other at child ignored scan (ok symlink) same = refl
  typed-same inner other at child ignored scan (ok special) same = refl

  entry-same :
      (inner other : Inner) (at child : Text) (ignored : Bool) (scan : Scan)
      → SameAt inner other child
      → scan_entry env gitignore inner g d at ignored child scan
        ≡ scan_entry env gitignore other g d at ignored child scan
  entry-same inner other at child ignored scan same =
      let typed = typed-same inner other at child ignored scan (file_type os d child) same in
      elim (Option-cases (local_name env child)) [
        | inl nameless ↦ ground arith
        | inr (name, named) ↦
            let own : local_name env child ≡ some child =
              named ∙ ap (λ n. some n) (local_name-is child name named) in
            ground (arith, typed)
      ]

  and_same :
      (first other : Result Failure Scan) (next then_on : Scan → Result Failure Scan)
      → first ≡ other
      → ((scan : Scan) → next scan ≡ then_on scan)
      → (first >>= next) ≡ (other >>= then_on)
  and_same (err e) other next then_on h k = rw (← h) refl
  and_same (ok scan) other next then_on h k = rw (← h) (k scan)

  entries-same :
      (inner other : Inner) (at : Text) (most : ℕ) (ignored : Bool) (entries : List Text)
      (scan : Scan)
      → all (is_deeper at most) entries ≡ true
      → ((child : Text) → is_deeper at most child ≡ true → SameAt inner other child)
      → scan_entries env gitignore inner g d at ignored entries scan
        ≡ scan_entries env gitignore other g d at ignored entries scan
  unfolding scan_entries
  entries-same inner other at most ignored [] scan deeper same = refl
  entries-same inner other at most ignored (child ∷ entries) scan deeper same =
      and_same (scan_entry env gitignore inner g d at ignored child scan)
        (scan_entry env gitignore other g d at ignored child scan) _ _
        (entry-same inner other at child ignored scan (same child (ground arith)))
        (λ next. entries-same inner other at most ignored entries next (ground arith) same)

  listed-same :
      (inner other : Inner) (at : Text) (most : ℕ) (ignored : Bool) (scan : Scan)
      (listed : Result IoError (List Text))
      → ((entries : List Text) → listed ≡ ok entries → all (is_deeper at most) entries ≡ true)
      → ((child : Text) → is_deeper at most child ≡ true → SameAt inner other child)
      → scan_listed env gitignore inner g d at ignored scan listed
        ≡ scan_listed env gitignore other g d at ignored scan listed
  listed-same inner other at most ignored scan (err e) deeper same = refl
  listed-same inner other at most ignored scan (ok entries) deeper same =
      entries-same inner other at most ignored entries scan (deeper entries refl) same

  -- A level of fuel more makes no difference where the fuel reaches below every name.
  one_more :
      (fuel : ℕ) (at : Text) (ignored : Bool) (scan : Scan)
      → length at ≤ depth (keys d)
      → depth (keys d) < length at + fuel
      → scan_directory env gitignore fuel g d at ignored scan
        ≡ scan_directory env gitignore (suc fuel) g d at ignored scan
  unfolding scan_directory
  one_more zero at ignored scan short reaches = absurd (omega (arith, short, reaches))
  one_more (suc fuel) at ignored scan short reaches =
      let most = depth (keys d) in
      listed-same (scan_directory env gitignore fuel g d)
        (scan_directory env gitignore (suc fuel) g d) at most ignored scan (read_dir os d at)
        (λ entries listed.
          rw (read_dir-children os d at entries listed)
            (children_deeper at most (keys d) (omega arith)))
        (λ child deeper ignored scan.
          one_more fuel child ignored scan (ground arith) (ground arith))

  -- Scanning the folder with any fuel that is more than the length of all the names in it is the
  -- scan with the fuel that `scan` gives it: no directory is left out for want of fuel.
  pub scan_directory-enough :
      (more : ℕ) (ignored : Bool) (scan : Scan)
      → scan_directory env gitignore (more + suc (depth (keys d))) g d [] ignored scan
        ≡ scan_directory env gitignore (suc (depth (keys d))) g d [] ignored scan
  scan_directory-enough zero ignored scan =
      ap (λ n. scan_directory env gitignore n g d [] ignored scan) (omega arith)
  scan_directory-enough (suc more) ignored scan =
      ap (λ n. scan_directory env gitignore n g d [] ignored scan) (omega arith)
      ∙ sym (one_more (more + suc (depth (keys d))) [] ignored scan (ground arith) (omega arith))
      ∙ scan_directory-enough more ignored scan
