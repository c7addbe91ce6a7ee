-- ===== src/WorkingCopy/Tests.antt =====
-- A Working copy to try the theorems on: an operating system that refuses nothing, and a folder
-- with two files, of which the Base of `b` says something else (cli/src/working_copy.rs).
pub mod Reconciles
pub mod Commits
pub mod Settles
use tidings.Base.Tests.{some, none, true, List, [], ◌∷◌, ◌≡◌, refl}
use tidings.Base.Text.{Text, codes}
use tidings.Crates.Ascii.{ascii}
use tidings.Files.{File}
use tidings.Disk.{Disk, Os, file, dir}
use tidings.WorkingCopy.Record.{Base, Record, fs}
use tidings.WorkingCopy.Folder.{Env}
use tidings.WorkingCopy.Reconcile.Safety.{IsHonest}

abbrev pub willing : Os
willing = record { refuses = λ d call name. none; describe = λ kind. codes "error" }

abbrev pub env : Env
env = record {
  crates = ascii;
  os = willing;
  folder = codes "copy";
  debug = λ text. text;
  is_utf8 = λ text. true;
}

pub willing-IsHonest : IsHonest willing
willing-IsHonest = record { kinds = λ d call name. refl }

abbrev pub disk : Disk
disk =
    (codes ".tidings", dir)
    ∷ (codes ".tidings/tmp", dir)
    ∷ (codes "a", file (codes "x"))
    ∷ (codes "b", file (codes "local"))
    ∷ []

abbrev pub base : Base
base = record { revision = 1; hash = 2 }

abbrev pub copy : Record
copy = record {
  store = record { location = codes "/s"; backend = fs };
  bases = (codes "b", base) ∷ [];
  divergences = [];
}

-- The Store's version of `b`, and a File that the folder hasn't.
abbrev pub theirs : File
theirs = record {
  path = codes "b";
  contents = codes "theirs";
  stat = record { modified = 5; revision = 6 };
}

abbrev pub new_file : File
new_file = record {
  path = codes "c";
  contents = codes "y";
  stat = record { modified = 5; revision = 7 };
}
