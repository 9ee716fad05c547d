-- ===== src/Dap/Skip/Glob.antt =====
-- What the skip patterns of crates/dap-core/src/stop_policy.rs mean.
use dappy_core.Common.{
  ℕ, ◌≡◌, refl, sym, ap, ◌∙◌, subst, ◌≢◌, ◌↔◌, inl, inr, true, false, List, [], ◌∷◌, ◌++◌, arith,
  Bool-cases, ◌==◌, nat_eq, string_eq,
}
use dappy_core.Common.Text.{Text}
use dappy_core.Common.Text.Search.{contains, has, split, put_first, contains_iff}
use dappy_core.Dap.Skip.{is_empty, all_parts, star, path_matches_skip}
use dappy_core.Dap.Skip.Walk.{Later, Parts, all_parts_iff}

-- A `*` stands for any text, and every other character for itself.
pub data Globs : Text → Text → Type 0 where
  done : Globs [] []
  some_text :
      (skip pattern path whole : Text)
      → whole ≡ skip ++ path
      → Globs pattern path
      → Globs (star ∷ pattern) whole
  same :
      (c : ℕ) (pattern path : Text) → c ≢ star → Globs pattern path → Globs (c ∷ pattern) (c ∷ path)

split-cons : (d : ℕ) (s : Text) → (p : Text) × (ps : List Text) × (split d s ≡ p ∷ ps)
unfolding split
split-cons d [] = ([], [], refl)
split-cons d (c ∷ s) =
    let (p, ps, e) = split-cons d s in
    elim (Bool-cases (c == d)) [
      | inl h ↦ ([], split d s, rw h refl)
      | inr h ↦ (c ∷ p, ps, rw h (ap (put_first c) e))
    ]

split-star : (s : Text) → split star (star ∷ s) ≡ [] ∷ split star s
unfolding split
split-star s = refl

split-other :
    (c : ℕ) (s p : Text) (ps : List Text)
    → c ≢ star
    → split star s ≡ p ∷ ps
    → split star (c ∷ s) ≡ (c ∷ p) ∷ ps
unfolding split
split-other c s p ps ne e = elim (Bool-cases (c == star)) [
  | inl h ↦ absurd (ne (ground arith))
  | inr h ↦ rw h (ap (put_first c) e)
]

Globs-Parts : {pattern path : Text} → Globs pattern path → Parts path (split star pattern)
unfolding split
Globs-Parts done = ([], refl, refl)
Globs-Parts (some_text skip pattern path whole e g) =
    let (p, ps, parts) = split-cons star pattern in
    let (rest, begins, more) = subst (Parts path) parts (Globs-Parts g) in
    let later : Later whole (p ∷ ps) =
      (skip, rest, e ∙ ap (λ (t : Text). skip ++ t) begins, more) in
    (whole, refl, subst (Later whole) (sym parts) later)
Globs-Parts (same c pattern path ne g) =
    let (p, ps, parts) = split-cons star pattern in
    let (rest, begins, more) = subst (Parts path) parts (Globs-Parts g) in
    let longer : Parts (c ∷ path) ((c ∷ p) ∷ ps) = (rest, ap (λ (t : Text). c ∷ t) begins, more) in
    subst (Parts (c ∷ path)) (sym (split-other c pattern p ps ne parts)) longer

-- The two cases of the first character of a pattern.
module _ (pattern path p : Text) (ps : List Text) (parts : split star pattern ≡ p ∷ ps)
    (next : (t : Text) → Parts t (p ∷ ps) → Globs pattern t) where
  Globs-star : Later path (p ∷ ps) → Globs (star ∷ pattern) path
  Globs-star (skip, rest, e, more) =
      some_text skip pattern (p ++ rest) path e (next (p ++ rest) (rest, refl, more))

  Globs-other : (c : ℕ) → c ≢ star → Parts path ((c ∷ p) ∷ ps) → Globs (c ∷ pattern) path
  Globs-other c ne (rest, e, more) =
      subst (Globs (c ∷ pattern)) (sym e)
        (same c pattern (p ++ rest) ne (next (p ++ rest) (rest, refl, more)))

Parts-Globs : (pattern path : Text) → Parts path (split star pattern) → Globs pattern path
unfolding split
Parts-Globs [] path (rest, e, end) = subst (Globs []) (sym (e ∙ end)) done
Parts-Globs (c ∷ pattern) path l =
    let (p, ps, parts) = split-cons star pattern in
    let next : (t : Text) → Parts t (p ∷ ps) → Globs pattern t =
      λ t h. Parts-Globs pattern t (subst (Parts t) (sym parts) h) in
    elim (Bool-cases (c == star)) [
      | inl h ↦
          let is_star : c ≡ star = ground arith in
          let (rest, e, more) =
            subst (λ (d : ℕ). Parts path (split star (d ∷ pattern))) is_star l in
          subst (λ (d : ℕ). Globs (d ∷ pattern) path) (sym is_star)
            (Globs-star pattern path p ps parts next (
              subst (Later path) parts
                (subst (λ (t : Text). Later t (split star pattern)) (sym e) more)))
      | inr h ↦
          let ne : c ≢ star = ground arith in
          Globs-other pattern path p ps parts next c ne
            (subst (Parts path) (split-other c pattern p ps ne parts) l)
    ]

-- The pattern has a star, so it has two parts.
split-two :
    (pattern : Text)
    → has star pattern ≡ true
    → (p : Text) × (q : Text) × (ps : List Text) × (split star pattern ≡ p ∷ q ∷ ps)
unfolding split
split-two [] h = cc
split-two (c ∷ pattern) h = elim (Bool-cases (c == star)) [
  | inl e ↦
      let (p, ps, parts) = split-cons star pattern in
      ([], p, ps, rw e (ap (λ (l : List Text). [] ∷ l) parts))
  | inr e ↦
      let (p, q, ps, parts) = split-two pattern (ground arith) in
      (c ∷ p, q, ps, rw e (ap (put_first c) parts))
]

path_matches_skip-star :
    (path pattern : Text)
    → has star pattern ≡ true
    → path_matches_skip path pattern ≡ all_parts path (split star pattern)
unfolding path_matches_skip
path_matches_skip-star path [] h = cc
path_matches_skip-star path (c ∷ s) h = rw h refl

path_matches_skip-contains :
    (path pattern : Text)
    → has star pattern ≡ false
    → is_empty pattern ≡ false
    → path_matches_skip path pattern ≡ contains path pattern
unfolding path_matches_skip
path_matches_skip-contains path [] h e = cc
path_matches_skip-contains path (c ∷ s) h e = rw h refl

-- With a star in the pattern, a path is skipped exactly when it is one that the pattern stands for.
pub path_matches_skip_iff :
    (path pattern : Text)
    → has star pattern ≡ true
    → (path_matches_skip path pattern ≡ true) ↔ Globs pattern path
path_matches_skip_iff path pattern h =
    let (p, q, ps, parts) = split-two pattern h in
    let walk : path_matches_skip path pattern ≡ all_parts path (p ∷ q ∷ ps) =
      path_matches_skip-star path pattern h ∙ ap (all_parts path) parts in
    (
      λ e.
          Parts-Globs pattern path
            (subst (Parts path) (sym parts) ((all_parts_iff path p q ps).0 (sym walk ∙ e))),
      λ g. walk ∙ (all_parts_iff path p q ps).1 (subst (Parts path) parts (Globs-Parts g)),
    )

-- Without one, exactly when the pattern is not empty and stands somewhere in the path.
pub path_matches_skip-plain_iff :
    (path pattern : Text)
    → has star pattern ≡ false
    → (path_matches_skip path pattern ≡ true)
      ↔ ((pattern ≢ []) × (skip : Text) × (rest : Text) × (path ≡ skip ++ (pattern ++ rest)))
unfolding path_matches_skip
path_matches_skip-plain_iff path [] h = (λ e. cc, λ w. absurd (w.0 refl))
path_matches_skip-plain_iff path (c ∷ s) h =
    let found : path_matches_skip path (c ∷ s) ≡ contains path (c ∷ s) =
      path_matches_skip-contains path (c ∷ s) h refl in
    (
      λ e.
          let (skip, rest, there) = (contains_iff path (c ∷ s)).0 (sym found ∙ e) in
          (λ none_left. cc, skip, rest, there),
      λ (ne, skip, rest, e). found ∙ (contains_iff path (c ∷ s)).1 (skip, rest, e),
    )
