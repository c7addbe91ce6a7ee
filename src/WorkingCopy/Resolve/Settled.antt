-- ===== src/WorkingCopy/Resolve/Settled.antt =====
-- What `resolve` of a Working copy does (cli/src/working_copy/settle.rs).
use tidings.Disk.{Node, Disk}
use tidings.Base.Tests.{
  inl, inr, Bool-cases, Bool-cases, ◌≡◌, ◌≢◌, refl, sym, ap, subst, ◌∙◌, Bool, false, ◌||◌, Option,
  none, some, List, [], ◌∷◌, ◌++◌, append_assoc, append-nil, arith, is_some, if◌then◌else◌,
}
use tidings.Base.Results.{ok, err, is_ok}
use tidings.Base.Text.{Text, contains, text_eq, text_eq_iff}
use tidings.Base.BTreeMap.{BTreeMap, get, remove, keys, get-insert, get-remove, contains-keys}
use tidings.Store.{Backend}
use tidings.Disk.Leaves.{held}
use tidings.WorkingCopy.Record.{Base, Divergence, Record}
use tidings.WorkingCopy.Folder.{Env}
use tidings.WorkingCopy.Theirs.{remove_stale_theirs}
use tidings.WorkingCopy.Theirs.Outside.{in_record, remove_stale_theirs-held}
use tidings.WorkingCopy.Reconcile.Updates.{get-set_base, set_base-divergences}
use tidings.WorkingCopy.Selection.{NamedPath, Selection}
use tidings.WorkingCopy.Attempts.{Working}
use tidings.WorkingCopy.Commit.{Done, save}
use tidings.WorkingCopy.Settle.{Resolved, ResolveReport}
use tidings.WorkingCopy.Resolve.{
  diverged_named, sorted_named, sort_named, resolve_one, resolve_each, resolve_saved,
  resolve_sorted, resolve,
}

-- What is at a name, where it is outside `.tidings/`.
abbrev pub held_outside : Text → Disk → Option Node
held_outside name d = if in_record name then none else held name d

held_outside-same :
    (name : Text) (d e : Disk)
    → (in_record name ≡ false → held name d ≡ held name e)
    → held_outside name d ≡ held_outside name e
held_outside-same name d e same = elim (Bool-cases (in_record name)) [
  | inl inside ↦ rw inside refl
  | inr outside ↦ rw (outside, same outside) refl
]

-- What `resolve` makes of a Path's Base: the Store's version that its Divergence has.
abbrev pub merged : Option Divergence → Option Base → Option Base
merged none base = base
merged (some divergence) base = divergence.theirs

module _ (env : Env) {S V : Type 0} (b : Backend S V) where
  abbrev is_it : Text → Option Text → Bool
  is_it q none = false
  is_it q (some path) = text_eq q path

  -- Whether a Path is one of the named Diverged ones.
  abbrev pub names : Text → Record → List NamedPath → Bool
  names q r [] = false
  names q r (one ∷ more) = is_it q (diverged_named env b r one.target) || names q r more

  -- The named paths that aren't Diverged, as they were given.
  abbrev pub not_diverged : Record → List NamedPath → List Text
  not_diverged r [] = []
  not_diverged r (one ∷ more) =
      let rest = not_diverged r more in
      if is_some (diverged_named env b r one.target) then rest else one.given ∷ rest

  one-names :
      (q : Text) (one : NamedPath) (named : Option Text) (sorted : BTreeMap (Unit {0}) × List Text)
      → is_some (get q (sorted_named env b one named sorted).0)
        ≡ (is_it q named || is_some (get q sorted.0))
  one-names q one none (paths, refused) = refl
  one-names q one (some path) (paths, refused) = ground (arith, get-insert path q tt paths)

  sort_named-names :
      (q : Text) (r : Record) (named : List NamedPath) (sorted : BTreeMap (Unit {0}) × List Text)
      → is_some (get q (sort_named env b r named sorted).0)
        ≡ (names q r named || is_some (get q sorted.0))
  unfolding sort_named
  sort_named-names q r [] sorted = refl
  sort_named-names q r (one ∷ more) sorted =
      let named = diverged_named env b r one.target in
      sort_named-names q r more (sorted_named env b one named sorted)
      ∙ ground (arith, one-names q one named sorted)

  one-refused :
      (one : NamedPath) (named : Option Text) (sorted : BTreeMap (Unit {0}) × List Text)
      (rest : List Text)
      → (sorted_named env b one named sorted).1 ++ rest
        ≡ sorted.1 ++ (if is_some named then rest else one.given ∷ rest)
  one-refused one none (paths, refused) rest = append_assoc refused (one.given ∷ []) rest
  one-refused one (some path) (paths, refused) rest = refl

  sort_named-refused :
      (r : Record) (named : List NamedPath) (sorted : BTreeMap (Unit {0}) × List Text)
      → (sort_named env b r named sorted).1 ≡ sorted.1 ++ not_diverged r named
  unfolding sort_named
  sort_named-refused r [] sorted = rw append-nil refl
  sort_named-refused r (one ∷ more) sorted =
      let named = diverged_named env b r one.target in
      sort_named-refused r more (sorted_named env b one named sorted)
      ∙ one-refused one named sorted (not_diverged r more)

  one-divergences :
      (q path : Text) (divergence : Option Divergence) (r : Record)
      → get path r.divergences ≡ divergence
      → get q (resolve_one env b path divergence r).divergences
        ≡ (if text_eq q path then none else get q r.divergences)
  one-divergences q path none r h = ground (arith, text_eq_iff q path)
  one-divergences q path (some divergence) r h =
      ap (get q) (
        set_base-divergences (record r { divergences = remove path r.divergences }) path
          divergence.theirs)
      ∙ get-remove path q r.divergences

  one-bases :
      (q path : Text) (divergence : Option Divergence) (r : Record)
      → get path r.divergences ≡ divergence
      → get q (resolve_one env b path divergence r).bases
        ≡ (if text_eq q path then merged (get q r.divergences) (get q r.bases) else get q r.bases)
  one-bases q path none r h = ground (arith, text_eq_iff q path)
  one-bases q path (some divergence) r h =
      get-set_base (record r { divergences = remove path r.divergences }) path q divergence.theirs
      ∙ ground (arith, text_eq_iff q path)

  resolve_each-divergences :
      (q : Text) (paths : List Text) (r : Record)
      → get q (resolve_each env b paths r).0.divergences
        ≡ (if contains q paths then none else get q r.divergences)
  unfolding resolve_each
  resolve_each-divergences q [] r = refl
  resolve_each-divergences q (path ∷ paths) r =
      let divergence = get path r.divergences in
      resolve_each-divergences q paths (resolve_one env b path divergence r)
      ∙ ground (arith, one-divergences q path divergence r refl)

  resolve_each-bases :
      (q : Text) (paths : List Text) (r : Record)
      → get q (resolve_each env b paths r).0.bases
        ≡ (if contains q paths then merged (get q r.divergences) (get q r.bases) else get q r.bases)
  unfolding resolve_each
  resolve_each-bases q [] r = refl
  resolve_each-bases q (path ∷ paths) r =
      let divergence = get path r.divergences in
      resolve_each-bases q paths (resolve_one env b path divergence r)
      ∙ ground (arith, one-divergences q path divergence r refl, one-bases q path divergence r refl)

  -- What a `resolve` that succeeds has done to a Path: where it is one of the named ones, it is no
  -- longer Diverged, and its Base is the Store's version it was merged with; nothing else changes.
  abbrev pub IsResolved : Text → List NamedPath → Working S → Working S → Type 0
  IsResolved q named w v =
      (get q v.record_now.divergences
        ≡ (if names q w.record_now named then none else get q w.record_now.divergences))
      × (get q v.record_now.bases ≡ (
          if names q w.record_now named
          then merged (get q w.record_now.divergences) (get q w.record_now.bases)
          else get q w.record_now.bases))
      × (held_outside q v.disk ≡ held_outside q w.disk)
      × (v.saved ≡ v.record_now)

  saved_ok :
      (w v : Working S) (u : Unit {0})
      → save env b w ≡ (v, ok u)
      → v ≡ record w { saved = w.record_now }
  unfolding save
  saved_ok w v u h = ground arith

  refused_sorted :
      (w : Working S) (sorted : BTreeMap (Unit {0}) × List Text) (given : Text) (more : List Text)
      → sorted.1 ≡ given ∷ more
      → ((resolve_sorted env b w sorted).0 ≡ w) × (is_ok (resolve_sorted env b w sorted).1 ≡ false)
  refused_sorted w (paths, []) given more h = cc
  refused_sorted w (paths, other ∷ others) given more h = (refl, refl)

  -- `resolve` fails, and changes nothing, where any of the named paths is not Diverged.
  pub resolve-refuses :
      (named : List NamedPath) (w : Working S)
      → not_diverged w.record_now named ≢ []
      → ((resolve env b (Selection.named named) w).0 ≡ w)
        × (is_ok (resolve env b (Selection.named named) w).1 ≡ false)
  unfolding resolve
  resolve-refuses named w some_refused =
      some_given (not_diverged w.record_now named) (sort_named-refused w.record_now named ([], []))
        some_refused
    where
      some_given :
          (refused : List Text)
          → (sort_named env b w.record_now named ([], [])).1 ≡ refused
          → refused ≢ []
          → ((resolve_sorted env b w (sort_named env b w.record_now named ([], []))).0 ≡ w)
            × (is_ok (resolve_sorted env b w (sort_named env b w.record_now named ([], []))).1
                ≡ false)
      some_given [] e n = absurd (n refl)
      some_given (given ∷ more) e n =
          refused_sorted w (sort_named env b w.record_now named ([], [])) given more e

  module _ (q : Text) (named : List NamedPath) (w : Working S) where
    resolved_record : (paths : BTreeMap (Unit {0})) → Record
    resolved_record paths = (resolve_each env b (keys paths) w.record_now).0

    swept_after_save :
        (paths : BTreeMap (Unit {0})) (resolved : List Resolved) (v : Working S)
        (report : ResolveReport) (saved : Done env b (Unit {0}))
        → is_some (get q paths) ≡ names q w.record_now named
        → save env b (record w { record_now = resolved_record paths }) ≡ saved
        → resolve_saved env b resolved saved ≡ (v, ok report)
        → IsResolved q named w v
    unfolding resolved_record
    swept_after_save paths resolved v report (u, err f) there e h = cc
    swept_after_save paths resolved v report (u, ok done) there e h =
        let r = resolved_record paths in
        let same = saved_ok (record w { record_now = r }) u done e in
        let after : Working S = record w {
          record_now = r;
          saved = r;
          disk = (remove_stale_theirs env r w.disk).0;
        } in
        let at_u : record u { disk = (remove_stale_theirs env u.record_now u.disk).0 } ≡ v = cc in
        let given : after ≡ v =
          ap
            (λ (x : Working S). record x { disk = (remove_stale_theirs env x.record_now x.disk).0 })
            (sym same)
          ∙ at_u in
        let listed = contains-keys q paths in
        subst (λ v. IsResolved q named w v) given
          (
            ground (arith, resolve_each-divergences q (keys paths) w.record_now),
            ground (arith, resolve_each-bases q (keys paths) w.record_now),
            held_outside-same q _ _ (λ outside. remove_stale_theirs-held env q outside r w.disk),
            refl,
          )

    sorted-IsResolved :
        (sorted : BTreeMap (Unit {0}) × List Text) (v : Working S) (report : ResolveReport)
        → is_some (get q sorted.0) ≡ names q w.record_now named
        → resolve_sorted env b w sorted ≡ (v, ok report)
        → IsResolved q named w v
    unfolding resolved_record
    sorted-IsResolved (paths, given ∷ more) v report there h = cc
    sorted-IsResolved (paths, []) v report there h =
        swept_after_save paths (resolve_each env b (keys paths) w.record_now).1 v report
          (save env b (record w { record_now = resolved_record paths })) there refl h

    -- Where `resolve` of named paths succeeds, each of them is no longer Diverged, and its Base
    -- is the Store's version it was merged with; every other Path stays in the record, and so
    -- does the folder outside `.tidings/`; and the record is saved.
    pub resolve-IsResolved :
        (v : Working S) (report : ResolveReport)
        → resolve env b (Selection.named named) w ≡ (v, ok report)
        → IsResolved q named w v
    unfolding resolve get
    resolve-IsResolved v report h =
        sorted-IsResolved (sort_named env b w.record_now named ([], [])) v report
          (sort_named-names q w.record_now named ([], []) ∙ ground arith) h
