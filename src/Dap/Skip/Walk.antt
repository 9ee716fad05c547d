-- ===== src/Dap/Skip/Walk.antt =====
-- The walk over the parts of a skip pattern (crates/dap-core/src/stop_policy.rs), and the places of the parts.
use dappy_core.Common.{
  ◌≡◌, refl, sym, ap, ◌∙◌, subst, ◌↔◌, inl, inr, true, false, none, some, List, [], ◌∷◌, ◌++◌,
  nat_eq, string_eq, Option-cases,
}
use mathlib.Core.List.{append_assoc, append-nil}
use dappy_core.Common.Text.{Text, strip_prefix, strip_prefix-append, strip_prefix-eq_some}
use dappy_core.Common.Text.Search.{
  after_first, after_first-first, after_first-eq_some, ends_with_iff,
}
use dappy_core.Dap.Skip.{is_empty, later_parts, all_parts}

-- The parts stand in the path in their order, and the last one ends it.
abbrev pub Later : Text → List Text → Type 0
Later path [] = path ≡ []
Later path (part ∷ parts) =
    (skip : Text) × (rest : Text) × (path ≡ skip ++ (part ++ rest)) × Later rest parts

-- The first part begins the path.
abbrev pub Parts : Text → List Text → Type 0
Parts path [] = path ≡ []
Parts path (part ∷ parts) = (rest : Text) × (path ≡ part ++ rest) × Later rest parts

-- A longer path in front of more parts has them too.
Later-append :
    (x path part : Text) (parts : List Text)
    → Later path (part ∷ parts)
    → Later (x ++ path) (part ∷ parts)
Later-append x path part parts (skip, rest, e, more) =
    (x ++ skip, rest, ap (λ (t : Text). x ++ t) e ∙ sym (append_assoc x skip (part ++ rest)), more)

later_parts-found :
    (cursor part next rest : Text) (parts : List Text)
    → after_first cursor part ≡ some rest
    → is_empty part ≡ false
    → later_parts cursor (part ∷ next ∷ parts) ≡ later_parts rest (next ∷ parts)
later_parts-found cursor [] next rest parts found e = cc
later_parts-found cursor (c ∷ p) next rest parts found e = rw (found, later_parts) refl

later_parts-missing :
    (cursor part next : Text) (parts : List Text)
    → after_first cursor part ≡ none
    → is_empty part ≡ false
    → later_parts cursor (part ∷ next ∷ parts) ≡ false
later_parts-missing cursor [] next parts missing e = cc
later_parts-missing cursor (c ∷ p) next parts missing e = rw (missing, later_parts) refl

later_parts-Later :
    (cursor part : Text) (parts : List Text)
    → later_parts cursor (part ∷ parts) ≡ true
    → Later cursor (part ∷ parts)
later_parts-Later cursor [] [] h = (cursor, [], sym (append-nil cursor), refl)
later_parts-Later cursor (c ∷ p) [] h =
    let (skip, e) = (ends_with_iff cursor (c ∷ p)).0 h in
    (skip, [], e ∙ ap (λ (t : Text). skip ++ t) (sym (append-nil (c ∷ p))), refl)
later_parts-Later cursor [] (next ∷ parts) h =
    ([], cursor, refl, later_parts-Later cursor next parts h)
later_parts-Later cursor (c ∷ p) (next ∷ parts) h =
    elim (Option-cases (after_first cursor (c ∷ p))) [
      | inl missing ↦ absurd (cc (later_parts-missing cursor (c ∷ p) next parts missing refl))
      | inr (rest, found) ↦
          let (skip, e) = after_first-eq_some cursor (c ∷ p) rest found in
          (
            skip,
            rest,
            e,
            later_parts-Later rest next parts
                (sym (later_parts-found cursor (c ∷ p) next rest parts found refl) ∙ h),
          )
    ]

Later-later_parts :
    (cursor part : Text) (parts : List Text)
    → Later cursor (part ∷ parts)
    → later_parts cursor (part ∷ parts) ≡ true
Later-later_parts cursor [] [] l = refl
Later-later_parts cursor (c ∷ p) [] (skip, rest, e, end) = (ends_with_iff cursor (c ∷ p)).1 (
  skip,
  e
      ∙ ap (λ (t : Text). skip ++ (c ∷ p ++ t)) end
      ∙ ap (λ (t : Text). skip ++ t) (append-nil (c ∷ p)),
)
Later-later_parts cursor [] (next ∷ parts) (skip, rest, e, more) =
    Later-later_parts cursor next parts (
      subst (λ (t : Text). Later t (next ∷ parts)) (sym e) (Later-append skip rest next parts more))
Later-later_parts cursor (c ∷ p) (next ∷ parts) (skip, rest, e, more) =
    let (x, found) = after_first-first skip (c ∷ p) rest in
    later_parts-found cursor (c ∷ p) next (x ++ rest) parts
      (ap (λ (t : Text). after_first t (c ∷ p)) e ∙ found) refl
    ∙ Later-later_parts (x ++ rest) next parts (Later-append x rest next parts more)

all_parts-found :
    (path p rest : Text) (ps : List Text)
    → strip_prefix path p ≡ some rest
    → all_parts path (p ∷ ps) ≡ later_parts rest ps
all_parts-found path p rest ps e = rw (e, all_parts) refl

all_parts-missing :
    (path p : Text) (ps : List Text) → strip_prefix path p ≡ none → all_parts path (p ∷ ps) ≡ false
all_parts-missing path p ps e = rw (e, all_parts) refl

-- The parts of a split are matched as the walk over them does.
pub all_parts_iff :
    (path p q : Text) (ps : List Text)
    → (all_parts path (p ∷ q ∷ ps) ≡ true) ↔ Parts path (p ∷ q ∷ ps)
all_parts_iff path p q ps = (
  λ h. elim (Option-cases (strip_prefix path p)) [
    | inl missing ↦ absurd (cc (all_parts-missing path p (q ∷ ps) missing))
    | inr (rest, e) ↦ (
      rest,
      strip_prefix-eq_some path p rest e,
      later_parts-Later rest q ps (sym (all_parts-found path p rest (q ∷ ps) e) ∙ h),
    )
  ],
  λ (rest, e, later).
      all_parts-found path p rest (q ∷ ps)
        (ap (λ (t : Text). strip_prefix t p) e ∙ strip_prefix-append p rest)
      ∙ Later-later_parts rest q ps later,
)
