-- ===== src/WorkingCopy/Reconcile/Updates.antt =====
-- What the updates of the record that a reconcile makes do to each Path (cli/src/working_copy.rs).
use tidings.Base.Tests.{◌≡◌, refl, true, Option, none, some, [], ◌∷◌, arith, if◌then◌else◌}
use tidings.Base.Text.{Text, cmp-eq_iff, text_eq, text_eq_iff, text_eq_refl}
use tidings.Base.BTreeMap.{BTreeMap, get, insert, get-insert, get-remove}
use tidings.Files.{Revision, File, same_revision}
use tidings.WorkingCopy.Record.{Base, Divergence, Record, set_base, theirs_revision}
use tidings.WorkingCopy.Reports.{Blocked}
use tidings.WorkingCopy.Folder.{Env}
use tidings.WorkingCopy.Reconcile.{resolve, diverge, base_of_theirs}

pub same_revision_refl : (o : Option Revision) → same_revision o o ≡ true
same_revision_refl none = refl
same_revision_refl (some r) = ground arith

pub same_revision_iff : (o p : Option Revision) → same_revision o p ≡ true → o ≡ p
same_revision_iff none none h = refl
same_revision_iff none (some r) h = cc
same_revision_iff (some r) none h = cc
same_revision_iff (some r) (some s) h = ground arith

-- Entering the same entry again changes nothing.
pub insert_again {ℓ} :
    {V : Type ℓ} (k : Text) (v : V) (m : BTreeMap V) → insert k v (insert k v m) ≡ insert k v m
unfolding insert
insert_again k v [] = ground (arith, (cmp-eq_iff k k).1 refl)
insert_again k v ((j, w) ∷ m) = ground (arith, insert_again k v m, (cmp-eq_iff k k).1 refl)

pub get-set_base :
    (r : Record) (path j : Text) (base : Option Base)
    → get j (set_base r path base).bases ≡ (if text_eq j path then base else get j r.bases)
unfolding set_base
get-set_base r path j none = get-remove path j r.bases
get-set_base r path j (some base) = get-insert path j base r.bases

pub set_base-divergences :
    (r : Record) (path : Text) (base : Option Base)
    → (set_base r path base).divergences ≡ r.divergences
unfolding set_base
set_base-divergences r path none = refl
set_base-divergences r path (some base) = refl

pub get-resolve :
    (r : Record) (path j : Text)
    → get j (resolve r path).0.divergences ≡ (if text_eq j path then none else get j r.divergences)
unfolding resolve
get-resolve r path j = ground (arith, get-remove path j r.divergences, text_eq_iff j path)

pub resolve-bases : (r : Record) (path : Text) → (resolve r path).0.bases ≡ r.bases
unfolding resolve
resolve-bases r path = ground arith

pub resolve-none :
    (r : Record) (path : Text) → get path r.divergences ≡ none → resolve r path ≡ (r, none)
unfolding resolve
resolve-none r path h = ground arith

module _ (env : Env) where
  pub divergence_of : Option File → Divergence
  divergence_of theirs = record { theirs = base_of_theirs env theirs }

  pub get-diverge :
      (r : Record) (path j : Text) (theirs : Option File) (blocked : Option Blocked)
      → get j (diverge env r path theirs blocked).0.divergences
        ≡ (if text_eq j path then some (divergence_of theirs) else get j r.divergences)
  unfolding diverge divergence_of
  get-diverge r path j theirs blocked = get-insert path j (divergence_of theirs) r.divergences

  pub diverge-bases :
      (r : Record) (path : Text) (theirs : Option File) (blocked : Option Blocked)
      → (diverge env r path theirs blocked).0.bases ≡ r.bases
  unfolding diverge
  diverge-bases r path theirs blocked = refl

  -- A Path that is Diverged already, with the same File of the Store, is not reported again.
  pub diverge_again :
      (r : Record) (path : Text) (theirs : Option File) (blocked other : Option Blocked)
      → diverge env (diverge env r path theirs blocked).0 path theirs other
        ≡ ((diverge env r path theirs blocked).0, none)
  unfolding diverge
  diverge_again r path theirs blocked other =
      let divergence : Divergence = record { theirs = base_of_theirs env theirs } in
      ground (
        arith,
        insert_again path divergence r.divergences,
        get-insert path path divergence r.divergences,
        text_eq_refl path,
        same_revision_refl (theirs_revision divergence),
      )
