-- ===== src/Mux/Breakpoint/Answers.antt =====
-- What an answer to `setBreakpoints` settles in crates/protocol-mux/src/breakpoint_state.rs, said without the
-- helpers of the tracker.
use dappy_core.Common.{
  ℕ, suc, String, ◌≡◌, refl, sym, ap, ◌∙◌, subst, ◌⊎◌, inl, inr, true, false, Bool-cases, Option,
  none, some, List, [], ◌∷◌, if◌then◌else◌, ◌==◌, nat_eq, string_eq, and_then, or_else, unwrap_or,
  Option-cases, Bool, is_true, is_false, get_elem?,
}
use dappy_core.Common.HashMap
use dappy_core.Json.{Json}
use dappy_core.Mux.Tracker.{BreakpointTracker, SourceBreakpointSpec, PendingSetBreakpoints}
use dappy_core.Mux.Breakpoint.{
  text_at, i64_at, array_at, merge_breakpoint, merge_from, merge_breakpoints, pending_of,
  first_path, resolved_path, agreed_specs, answered_seq, response_breakpoints,
  track_set_breakpoints_request, observe_set_breakpoints_response,
}
use dappy_core.Mux.Breakpoint.Requests.{entries_at}
use dappy_core.Mux.Breakpoint.Agreement.{set_breakpoints_agree}

-- The first of a list and those behind it.
abbrev pub first : List SourceBreakpointSpec → Option SourceBreakpointSpec
first [] = none
first (spec ∷ specs) = some spec

abbrev pub behind : List SourceBreakpointSpec → List SourceBreakpointSpec
behind [] = []
behind (spec ∷ specs) = specs

get_elem?-behind :
    (specs : List SourceBreakpointSpec) (i : ℕ)
    → get_elem? specs (suc i) ≡ get_elem? (behind specs) i
get_elem?-behind [] i = refl
get_elem?-behind (spec ∷ specs) i = refl

get_elem?-first : (specs : List SourceBreakpointSpec) → get_elem? specs 0 ≡ first specs
get_elem?-first [] = refl
get_elem?-first (spec ∷ specs) = refl

verified_cases :
    (o : Option Bool) → (o ≡ some false) ⊎ ((is_false o ≡ false) × (¬ (o ≡ some false)))
verified_cases none = inr (refl, λ e. cc)
verified_cases (some true) = inr (refl, λ e. cc)
verified_cases (some false) = inl refl

module _ {V : Type 0} ⦃J : Json V⦄ where
  -- A breakpoint of the answer names this path, and it is not empty.
  abbrev pub Names : V → String → Type 0
  Names bp path =
      (and_then (J.get bp "source") (λ source. text_at source "path") ≡ some path)
      × ((path == "") ≡ false)

  -- The file is the one that the first breakpoint of the answer names, or else the one that was asked for.
  abbrev pub SettlesPath : Option (List V) → String → String → Type 0
  SettlesPath none asked path = path ≡ asked
  SettlesPath (some []) asked path = path ≡ asked
  SettlesPath (some (bp ∷ bps)) asked path =
      Names bp path ⊎ ((path ≡ asked) × ((p : String) → ¬ Names bp p))

  abbrev pub line_of : V → Option SourceBreakpointSpec → Option ℕ
  line_of bp asked = or_else (i64_at bp "line") (and_then asked (λ spec. some spec.line))

  -- Each field is that of the answer, or else the one that was asked for at this place.
  pub record Overrides (bp : V) (asked : Option SourceBreakpointSpec) (new : SourceBreakpointSpec)
      : Type 0 where
    pub same_line : line_of bp asked ≡ some new.line
    pub same_condition :
        new.condition ≡ or_else (text_at bp "condition") (and_then asked (λ spec. spec.condition))
    pub same_hit :
        new.hit_condition
        ≡ or_else (text_at bp "hitCondition") (and_then asked (λ spec. spec.hit_condition))
    pub same_log :
        new.log_message
        ≡ or_else (text_at bp "logMessage") (and_then asked (λ spec. spec.log_message))

  -- A breakpoint that the adapter refuses, or that has no line, is left out; any other gives an entry.
  abbrev pub Answered :
      V
      → Option SourceBreakpointSpec
      → List SourceBreakpointSpec
      → List SourceBreakpointSpec
      → Type 0
  Answered bp asked rest out =
      ((and_then (J.get bp "verified") J.as_bool ≡ some false) × (out ≡ rest))
      ⊎ ((line_of bp asked ≡ none) × (out ≡ rest))
      ⊎ ((¬ (and_then (J.get bp "verified") J.as_bool ≡ some false))
          × (new : SourceBreakpointSpec) × Overrides bp asked new
          × (out ≡ new ∷ rest))

  -- The breakpoints of the answer, one by one, with what was asked for at their places.
  abbrev pub Answers : List V → List SourceBreakpointSpec → List SourceBreakpointSpec → Type 0
  Answers [] specs out = out ≡ []
  Answers (bp ∷ bps) specs out =
      (rest : List SourceBreakpointSpec) × Answers bps (behind specs) rest
      × Answered bp (first specs) rest out

  -- An answer without breakpoints leaves what was asked for.
  abbrev pub SettlesSpecs :
      Option (List V) → List SourceBreakpointSpec → List SourceBreakpointSpec → Type 0
  SettlesSpecs none asked agreed = agreed ≡ asked
  SettlesSpecs (some []) asked agreed = agreed ≡ asked
  SettlesSpecs (some (bp ∷ bps)) asked agreed = Answers (bp ∷ bps) asked agreed

  -- What the tracker holds behind the answer to a request.
  abbrev pub Settled :
      Option (List V) → PendingSetBreakpoints → ℕ → BreakpointTracker → BreakpointTracker → Type 0
  Settled items asked backend_seq before after =
      (path : String) × (agreed : List SourceBreakpointSpec) × SettlesPath items asked.source_path
        path
      × SettlesSpecs items asked.specs agreed
      × ((q : String) → entries_at after q ≡ (if path == q then agreed else entries_at before q))
      × (HashMap.get after.pending_set_breakpoints backend_seq ≡ none)
      × (after.exception_breakpoints ≡ before.exception_breakpoints)

  -- The entry of one breakpoint of the answer, in front of the others.
  abbrev next_entry :
      V → Option SourceBreakpointSpec → List SourceBreakpointSpec → List SourceBreakpointSpec
  next_entry bp asked rest = elim (merge_breakpoint bp asked) [
    | none ↦ rest
    | some spec ↦ spec ∷ rest
  ]

  merge_from-cons :
      (bp : V) (bps : List V) (i : ℕ) (specs : List SourceBreakpointSpec)
      → merge_from i (bp ∷ bps) specs
        ≡ next_entry bp (get_elem? specs i) (merge_from (suc i) bps specs)
  unfolding merge_from
  merge_from-cons bp bps i specs = refl

  merge_from-behind :
      (bps : List V) (i : ℕ) (specs : List SourceBreakpointSpec)
      → merge_from (suc i) bps specs ≡ merge_from i bps (behind specs)
  unfolding merge_from
  merge_from-behind [] i specs = refl
  merge_from-behind (bp ∷ bps) i specs =
      merge_from-cons bp bps (suc i) specs
      ∙ ap (λ o. next_entry bp o (merge_from (suc (suc i)) bps specs)) (get_elem?-behind specs i)
      ∙ ap (next_entry bp (get_elem? (behind specs) i)) (merge_from-behind bps (suc i) specs)
      ∙ sym (merge_from-cons bp bps i (behind specs))

  next_entry-Answered :
      (bp : V) (asked : Option SourceBreakpointSpec) (rest : List SourceBreakpointSpec)
      → Answered bp asked rest (next_entry bp asked rest)
  unfolding merge_breakpoint
  next_entry-Answered bp asked rest =
      elim (verified_cases (and_then (J.get bp "verified") J.as_bool)) [
        | inl e ↦ inl (e, rw (e, merge_breakpoint, next_entry) refl)
        | inr (f, accepted) ↦ elim (Option-cases (line_of bp asked)) [
          | inl n ↦ inr (inl (n, rw (f, n, merge_breakpoint, next_entry) refl))
          | inr (line, l) ↦ inr (
              inr (
                accepted,
                record {
                  line = line;
                  condition =
                      or_else (text_at bp "condition") (and_then asked (λ spec. spec.condition));
                  hit_condition =
                      or_else (text_at bp "hitCondition")
                        (and_then asked (λ spec. spec.hit_condition));
                  log_message =
                      or_else (text_at bp "logMessage") (and_then asked (λ spec. spec.log_message));
                },
                record { same_line = l; same_condition = refl; same_hit = refl; same_log = refl },
                rw (f, l, merge_breakpoint, next_entry) refl,
              ))
        ]
      ]

  merge_from-Answers :
      (bps : List V) (specs : List SourceBreakpointSpec)
      → Answers bps specs (merge_from 0 bps specs)
  unfolding merge_from
  merge_from-Answers [] specs = refl
  merge_from-Answers (bp ∷ bps) specs = (
    merge_from 0 bps (behind specs),
    merge_from-Answers bps (behind specs),
    subst (Answered bp (first specs) (merge_from 0 bps (behind specs)))
        (sym (
          merge_from-cons bp bps 0 specs
          ∙ ap (λ o. next_entry bp o (merge_from 1 bps specs)) (get_elem?-first specs)
          ∙ ap (next_entry bp (first specs)) (merge_from-behind bps 0 specs)))
        (next_entry-Answered bp (first specs) (merge_from 0 bps (behind specs))),
  )

  -- What the first breakpoint says of its file.
  abbrev named_by : V → Option String
  named_by bp = and_then (J.get bp "source") (λ source. text_at source "path")

  first_path-named_by :
      (bp : V) (bps : List V)
      → first_path (bp ∷ bps) ≡ and_then (named_by bp) (λ p. if p == "" then none else some p)
  unfolding first_path
  first_path-named_by bp bps = elim (Option-cases (J.get bp "source")) [
    | inl e ↦ rw e refl
    | inr (source, e) ↦ rw e refl
  ]

  resolved_path-cons :
      (bp : V) (bps : List V) (asked : String)
      → resolved_path (some (bp ∷ bps)) asked
        ≡ unwrap_or (and_then (named_by bp) (λ p. if p == "" then none else some p)) asked
  unfolding resolved_path
  resolved_path-cons bp bps asked = ap (λ o. unwrap_or o asked) (first_path-named_by bp bps)

  resolved_path-SettlesPath :
      (items : Option (List V)) (asked : String)
      → SettlesPath items asked (resolved_path items asked)
  unfolding resolved_path first_path
  resolved_path-SettlesPath none asked = refl
  resolved_path-SettlesPath (some []) asked = refl
  resolved_path-SettlesPath (some (bp ∷ bps)) asked =
      subst (SettlesPath (some (bp ∷ bps)) asked) (sym (resolved_path-cons bp bps asked))
        (elim (Option-cases (named_by bp)) [
          | inl e ↦ inr (rw e refl, λ p named. cc)
          | inr (path, e) ↦ elim (Bool-cases (path == "")) [
            | inl empty ↦ inr (
              rw e (rw empty refl),
              λ p (named, full).
                  let same : some path ≡ some p = sym e ∙ named in
                  let q : path ≡ p = ap (λ o. unwrap_or o "") same in absurd (cc (empty, full, q)),
            )
            | inr full ↦ inl (rw e (rw full refl), rw e (rw full full))
          ]
        ])

  agreed_specs-SettlesSpecs :
      (items : Option (List V)) (asked : List SourceBreakpointSpec)
      → SettlesSpecs items asked (agreed_specs items asked)
  unfolding agreed_specs merge_breakpoints
  agreed_specs-SettlesSpecs none asked = refl
  agreed_specs-SettlesSpecs (some []) asked = refl
  agreed_specs-SettlesSpecs (some (bp ∷ bps)) asked = merge_from-Answers (bp ∷ bps) asked

  -- A successful answer to a tracked request for breakpoints settles the entries of one file: the file that its
  -- first breakpoint names, or else the one of the request. They are, in order, one for each breakpoint of the
  -- answer that is not refused and has a line, each field from the answer or else from the request at the same
  -- place; where the answer has no breakpoints, those of the request. Every other file and the exception
  -- breakpoints stay as they were, and the request is used up.
  pub observe_set_breakpoints_response-Settled :
      (t : BreakpointTracker) (backend_seq : ℕ) (request response : V) (items : Option (List V))
      → and_then (J.get response "success") J.as_bool ≡ some true
      → and_then (or_else (J.get response "request_seq") (J.get response "requestSeq")) J.as_i64
        ≡ some backend_seq
      → and_then (J.get response "body") (λ body. array_at body "breakpoints") ≡ items
      → Settled items (pending_of request) backend_seq t (
          observe_set_breakpoints_response
            (track_set_breakpoints_request t backend_seq request)
            response)
  unfolding response_breakpoints answered_seq
  observe_set_breakpoints_response-Settled t backend_seq request response items ok named listed =
      let asked = pending_of request in
      let after =
        observe_set_breakpoints_response (track_set_breakpoints_request t backend_seq request)
          response in
      let agree =
        set_breakpoints_agree t backend_seq request response (ap is_true ok)
          (ap (λ o. unwrap_or o 0) named) in
      subst (λ i. Settled i asked backend_seq t after) listed
        (
          resolved_path (response_breakpoints response) asked.source_path,
          agreed_specs (response_breakpoints response) asked.specs,
          resolved_path-SettlesPath (response_breakpoints response) asked.source_path,
          agreed_specs-SettlesSpecs (response_breakpoints response) asked.specs,
          agree.0,
          agree.1,
          agree.2,
        )
