-- ===== src/ChangeFeed/Merge.antt =====
-- What merging leaves of the recorded Changes, against the history of all of them.
use tidings.Base.Tests.{
  ◌≡◌, refl, ◌∙◌, Bool, true, false, ◌&&◌, ◌||◌, Option, none, some, List, [], ◌∷◌, ◌++◌, arith,
  if◌then◌else◌,
}
use tidings.Base.Text.{Text, text_eq, text_eq_iff}
use tidings.Base.BTreeMap.{BTreeMap, get, insert, get-insert}
use tidings.ChangeFeed.{ChangeKind, Origin, local, external, RawChange, Merged, merged_with, merge}

-- One recorded Change, with the Origin of its batch.
pub record Event : Type 0 where
  pub path : Text
  pub kind : ChangeKind
  pub origin : Origin

abbrev pub is_external : Origin → Bool
is_external local = false
is_external external = true

-- The kind of the last Change to the Path.
abbrev pub last_kind : Text → List Event → Option ChangeKind
last_kind p [] = none
last_kind p (e ∷ es) = elim (last_kind p es) [
  | some k ↦ some k
  | none ↦ if text_eq p e.path then some e.kind else none
]

-- Whether any Change to the Path is external.
abbrev pub any_external : Text → List Event → Bool
any_external p [] = false
any_external p (e ∷ es) = (text_eq p e.path && is_external e.origin) || any_external p es

abbrev pub origin_of : Bool → Origin
origin_of true = external
origin_of false = local

abbrev pub was_external : Option Merged → Bool
was_external none = false
was_external (some m) = is_external m.origin

-- What the history says of a Path, on top of what is unread.
abbrev pub summary_on : Option Merged → Text → List Event → Option Merged
summary_on old p es = elim (last_kind p es) [
  | none ↦ old
  | some k ↦ some (record { kind = k; origin = origin_of (was_external old || any_external p es) })
]

-- What the history says of a Path.
abbrev pub summary : Text → List Event → Option Merged
summary = summary_on none

abbrev pub events : List RawChange → Origin → List Event
events [] origin = []
events (c ∷ cs) origin = record { path = c.path; kind = c.kind; origin = origin } ∷ events cs origin

any_external_of_none :
    (p : Text) (es : List Event) → last_kind p es ≡ none → any_external p es ≡ false
any_external_of_none p [] h = refl
any_external_of_none p (e ∷ es) h = ground (arith, any_external_of_none p es)

summary_on-cons :
    (old : Option Merged) (p : Text) (e : Event) (es : List Event)
    → summary_on (if text_eq p e.path then some (merged_with old e.kind e.origin) else old) p es
      ≡ summary_on old p (e ∷ es)
unfolding merged_with
summary_on-cons none p e es = ground (arith, any_external_of_none p es)
summary_on-cons (some w) p e es = ground (arith, any_external_of_none p es)

pub get-merge :
    (p : Text) (m : BTreeMap Merged) (cs : List RawChange) (origin : Origin)
    → get p (merge m cs origin) ≡ summary_on (get p m) p (events cs origin)
unfolding merge
get-merge p m [] origin = refl
get-merge p m (c ∷ cs) origin =
    let step = merged_with (get c.path m) c.kind origin in
    get-merge p (insert c.path step m) cs origin
    ∙ rw get-insert (
        ground (
          arith,
          text_eq_iff p c.path,
          summary_on-cons (get p m) p (record { path = c.path; kind = c.kind; origin = origin })
              (events cs origin),
        ))

last_kind-append :
    (p : Text) (es fs : List Event)
    → last_kind p (es ++ fs) ≡ elim (last_kind p fs) [ some k ↦ some k | none ↦ last_kind p es ]
last_kind-append p [] fs = ground arith
last_kind-append p (e ∷ es) fs = rw (last_kind-append p es fs) (ground arith)

any_external-append :
    (p : Text) (es fs : List Event)
    → any_external p (es ++ fs) ≡ (any_external p es || any_external p fs)
any_external-append p [] fs = refl
any_external-append p (e ∷ es) fs = ground (arith, any_external-append p es fs)

-- One history after another.
pub summary_on-append :
    (old : Option Merged) (p : Text) (es fs : List Event)
    → summary_on (summary_on old p es) p fs ≡ summary_on old p (es ++ fs)
summary_on-append old p es fs = ground (
  arith,
  last_kind-append p es fs,
  any_external-append p es fs,
  any_external_of_none p es,
  any_external_of_none p fs,
)
