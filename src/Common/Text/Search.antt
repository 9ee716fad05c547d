-- ===== src/Common/Text/Search.antt =====
-- `find`, `contains`, `ends_with` and `split` of a `str`.
use dappy_core.Common.{
  ℕ, ◌+◌, ◌≤◌, ◌≡◌, refl, sym, ap, ◌∙◌, ◌↔◌, inl, inr, Bool, true, false, ◌||◌, Option, none, some,
  List, [], ◌∷◌, ◌++◌, arith, if◌then◌else◌, Bool-cases, ◌==◌, nat_eq, string_eq, is_some,
  Option-cases, length,
}
use mathlib.Core.List.{append_assoc}
use dappy_core.Common.Text.{
  Text, same_text, same_text_iff, strip_prefix, strip_prefix-append, strip_prefix-eq_some,
}

-- `&s[s.find(p)? + p.len()..]`: what comes behind the first place of a text.
abbrev pub after_first : Text → Text → Option Text
after_first [] p = strip_prefix [] p
after_first (c ∷ s) p = elim (strip_prefix (c ∷ s) p) [
  | none ↦ after_first s p
  | some rest ↦ some rest
]

abbrev pub contains : Text → Text → Bool
contains s p = is_some (after_first s p)

abbrev pub ends_with : Text → Text → Bool
ends_with [] p = same_text [] p
ends_with (c ∷ s) p = same_text (c ∷ s) p || ends_with s p

-- `contains` and `split` of a character.
abbrev pub has : ℕ → Text → Bool
has d [] = false
has d (c ∷ s) = c == d || has d s

abbrev pub put_first : ℕ → List Text → List Text
put_first c [] = (c ∷ []) ∷ []
put_first c (p ∷ ps) = (c ∷ p) ∷ ps

unfoldable pub split : ℕ → Text → List Text
split d [] = [] ∷ []
split d (c ∷ s) = let ps = split d s in if c == d then [] ∷ ps else put_first c ps

-- What is behind one place of `p` ends what is behind the first.
behind :
    (a b r rest : Text) → length a ≤ length b → a ++ r ≡ b ++ rest → (x : Text) × (r ≡ x ++ rest)
behind [] b r rest h e = (b, e)
behind (c ∷ a) [] r rest h e = absurd (omega arith)
behind (c ∷ a) (d ∷ b) r rest h e = behind a b r rest (omega arith) (ground arith)

length-append : (s t : Text) → length (s ++ t) ≡ length s + length t
length-append [] t = omega arith
length-append (c ∷ s) t = omega (arith, length-append s t)

after_first-here : (s p r : Text) → strip_prefix s p ≡ some r → after_first s p ≡ some r
after_first-here [] p r e = e
after_first-here (c ∷ s) p r e = rw (e, after_first) refl

after_first-next :
    (c : ℕ) (s p : Text) → strip_prefix (c ∷ s) p ≡ none → after_first (c ∷ s) p ≡ after_first s p
after_first-next c s p e = rw (e, after_first) refl

-- The place that is found is the first: the rest behind any other ends the rest behind it.
pub after_first-first :
    (skip p rest : Text) → (x : Text) × (after_first (skip ++ (p ++ rest)) p ≡ some (x ++ rest))
after_first-first [] p rest = ([], after_first-here (p ++ rest) p rest (strip_prefix-append p rest))
after_first-first (c ∷ skip) p rest =
    elim (Option-cases (strip_prefix (c ∷ skip ++ (p ++ rest)) p)) [
      | inl none_here ↦
          let (x, e) = after_first-first skip p rest in
          (x, after_first-next c (skip ++ (p ++ rest)) p none_here ∙ e)
      | inr (r, here) ↦
          let (x, e) = behind p (c ∷ skip ++ p) r rest (omega (arith, length-append (c ∷ skip) p)) (
            sym (strip_prefix-eq_some (c ∷ skip ++ (p ++ rest)) p r here)
            ∙ sym (append_assoc (c ∷ skip) p rest)) in
          (x, after_first-here (c ∷ skip ++ (p ++ rest)) p r here ∙ ap some e)
    ]

-- What is found is there.
pub after_first-eq_some :
    (s p rest : Text) → after_first s p ≡ some rest → (skip : Text) × (s ≡ skip ++ (p ++ rest))
after_first-eq_some [] p rest e = ([], strip_prefix-eq_some [] p rest e)
after_first-eq_some (c ∷ s) p rest e = elim (Option-cases (strip_prefix (c ∷ s) p)) [
  | inl none_here ↦
      let (skip, there) =
        after_first-eq_some s p rest (sym (after_first-next c s p none_here) ∙ e) in
      (c ∷ skip, ap (λ (t : Text). c ∷ t) there)
  | inr (r, here) ↦
      ([], strip_prefix-eq_some (c ∷ s) p rest (here ∙ sym (after_first-here (c ∷ s) p r here) ∙ e))
]

pub contains_iff :
    (s p : Text)
    → (contains s p ≡ true) ↔ ((skip : Text) × (rest : Text) × (s ≡ skip ++ (p ++ rest)))
contains_iff s p = (
  λ h. elim (Option-cases (after_first s p)) [
    | inl missing ↦ absurd (cc)
    | inr (rest, found) ↦ let (skip, e) = after_first-eq_some s p rest found in (skip, rest, e)
  ],
  λ (skip, rest, e).
      let (x, found) = after_first-first skip p rest in
      ap (λ (t : Text). is_some (after_first t p)) e ∙ ap is_some found,
)

pub ends_with_iff : (s p : Text) → (ends_with s p ≡ true) ↔ ((skip : Text) × (s ≡ skip ++ p))
ends_with_iff s p = (to s p, from s p)
  where
    to : (s p : Text) → ends_with s p ≡ true → (skip : Text) × (s ≡ skip ++ p)
    to [] p h = ([], (same_text_iff [] p).0 h)
    to (c ∷ s) p h = elim (Bool-cases (same_text (c ∷ s) p)) [
      | inl e ↦ ([], (same_text_iff (c ∷ s) p).0 e)
      | inr n ↦ let (skip, e) = to s p (ground arith) in (c ∷ skip, ap (λ (t : Text). c ∷ t) e)
    ]

    from : (s p : Text) → (skip : Text) × (s ≡ skip ++ p) → ends_with s p ≡ true
    from [] p ([], e) = (same_text_iff [] p).1 e
    from [] p (c ∷ skip, e) = cc
    from (c ∷ s) p ([], e) = rw ((same_text_iff (c ∷ s) p).1 e) refl
    from (c ∷ s) p (d ∷ skip, e) =
        let tail : s ≡ skip ++ p = cc in ground (arith, from s p (skip, tail))
