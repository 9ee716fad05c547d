-- ===== src/Control/Breakpoints.antt =====
-- The breakpoint requests that crates/dap-core/src/control_client.rs builds, as
-- crates/protocol-mux/src/breakpoint_state.rs reads them.
use dappy_core.Common.{
  arith, String, ◌≡◌, refl, ap, ◌∙◌, true, false, Option, none, some, List, [], ◌∷◌, map,
  if◌then◌else◌, ◌==◌, nat_eq, string_eq, ==-refl, and_then, filter_map,
}
use dappy_core.Json.{Json}
use dappy_core.Mux.Tracker.{SourceBreakpointSpec}
use dappy_core.Mux.Message.{object_at}
use dappy_core.Mux.Breakpoint.{text_at, i64_at, array_at, parse_source_breakpoint, pending_of}
use dappy_core.Control.Requests.{with_text, source_object, breakpoint_value, breakpoints_arguments}

module _ {V : Type 0} ⦃J : Json V⦄ where
  get-insert_self :
      (v : V) (k : String) (x : V) → J.is_object v ≡ true → J.get (J.insert v k x) k ≡ some x
  get-insert_self v k x h = J.get-insert v k k x h ∙ rw (==-refl k) refl

  get-insert_ne :
      (v : V) (k j : String) (x : V)
      → J.is_object v ≡ true
      → (k == j) ≡ false
      → J.get (J.insert v k x) j ≡ J.get v j
  get-insert_ne v k j x h apart = J.get-insert v k j x h ∙ rw apart refl

  is_object-with_text :
      (v : V) (k : String) (o : Option String)
      → J.is_object v ≡ true
      → J.is_object (with_text v k o) ≡ true
  is_object-with_text v k none h = h
  is_object-with_text v k (some t) h = J.is_object-insert v k (J.text t) h

  get-with_text_ne :
      (v : V) (k j : String) (o : Option String)
      → J.is_object v ≡ true
      → (k == j) ≡ false
      → J.get (with_text v k o) j ≡ J.get v j
  get-with_text_ne v k j none h apart = refl
  get-with_text_ne v k j (some t) h apart = get-insert_ne v k j (J.text t) h apart

  text_at-with_text :
      (v : V) (k : String) (o : Option String)
      → J.is_object v ≡ true
      → J.get v k ≡ none
      → text_at (with_text v k o) k ≡ o
  text_at-with_text v k none h e = rw e refl
  text_at-with_text v k (some t) h e =
      ap (λ (x : Option V). and_then x J.as_str) (get-insert_self v k (J.text t) h)
      ∙ J.as_str-text t

  one_field : (k : String) (x : V) → J.is_object (J.insert J.empty k x) ≡ true
  one_field k x = J.is_object-insert J.empty k x J.is_object-empty

module _ (V : Type 0) ⦃J : Json V⦄ (bp : SourceBreakpointSpec) where
  line_value : V
  line_value = J.insert J.empty "line" (J.number bp.line)

  condition_value : V
  condition_value = with_text line_value "condition" bp.condition

  hit_value : V
  hit_value = with_text condition_value "hitCondition" bp.hit_condition

  is_object-line : J.is_object line_value ≡ true
  unfolding line_value
  is_object-line = one_field "line" (J.number bp.line)

  is_object-condition : J.is_object condition_value ≡ true
  unfolding condition_value
  is_object-condition = is_object-with_text line_value "condition" bp.condition is_object-line

  is_object-hit : J.is_object hit_value ≡ true
  unfolding hit_value
  is_object-hit =
      is_object-with_text condition_value "hitCondition" bp.hit_condition is_object-condition

  get-line_value : (j : String) → ("line" == j) ≡ false → J.get line_value j ≡ none
  unfolding line_value
  get-line_value j apart =
      get-insert_ne J.empty "line" j (J.number bp.line) J.is_object-empty apart ∙ J.get-empty j

  get-condition_value :
      (j : String) → ("condition" == j) ≡ false → J.get condition_value j ≡ J.get line_value j
  unfolding condition_value
  get-condition_value j apart =
      get-with_text_ne line_value "condition" j bp.condition is_object-line apart

  get-hit_value :
      (j : String) → ("hitCondition" == j) ≡ false → J.get hit_value j ≡ J.get condition_value j
  unfolding hit_value
  get-hit_value j apart =
      get-with_text_ne condition_value "hitCondition" j bp.hit_condition is_object-condition apart

  get-breakpoint_value :
      (j : String) → ("logMessage" == j) ≡ false → J.get (breakpoint_value bp) j ≡ J.get hit_value j
  unfolding breakpoint_value hit_value condition_value line_value
  get-breakpoint_value j apart =
      get-with_text_ne hit_value "logMessage" j bp.log_message is_object-hit apart

  i64_at-line : i64_at {V = V} (breakpoint_value bp) "line" ≡ some bp.line
  unfolding line_value
  i64_at-line =
      ap (λ (x : Option V). and_then x J.as_i64)
        (get-breakpoint_value "line" refl
          ∙ get-hit_value "line" refl
          ∙ get-condition_value "line" refl
          ∙ get-insert_self J.empty "line" (J.number bp.line) J.is_object-empty)
      ∙ J.as_i64-number bp.line

  text_at-condition : text_at {V = V} (breakpoint_value bp) "condition" ≡ bp.condition
  unfolding condition_value
  text_at-condition =
      ap (λ (x : Option V). and_then x J.as_str)
        (get-breakpoint_value "condition" refl ∙ get-hit_value "condition" refl)
      ∙ text_at-with_text line_value "condition" bp.condition is_object-line
          (get-line_value "condition" refl)

  text_at-hit_condition : text_at {V = V} (breakpoint_value bp) "hitCondition" ≡ bp.hit_condition
  unfolding hit_value
  text_at-hit_condition =
      ap (λ (x : Option V). and_then x J.as_str) (get-breakpoint_value "hitCondition" refl)
      ∙ text_at-with_text condition_value "hitCondition" bp.hit_condition is_object-condition
          (get-condition_value "hitCondition" refl ∙ get-line_value "hitCondition" refl)

  text_at-log_message : text_at {V = V} (breakpoint_value bp) "logMessage" ≡ bp.log_message
  unfolding breakpoint_value hit_value condition_value line_value
  text_at-log_message = text_at-with_text hit_value "logMessage" bp.log_message is_object-hit (
      get-hit_value "logMessage" refl
      ∙ get-condition_value "logMessage" refl
      ∙ get-line_value "logMessage" refl)

  parse_source_breakpoint-breakpoint_value :
      parse_source_breakpoint {V = V} (breakpoint_value bp) ≡ some bp
  unfolding parse_source_breakpoint
  parse_source_breakpoint-breakpoint_value =
      rw (i64_at-line, text_at-condition, text_at-hit_condition, text_at-log_message) refl

module _ (V : Type 0) ⦃J : Json V⦄ where
  filter_map-breakpoint_value :
      (bps : List SourceBreakpointSpec)
      → filter_map (parse_source_breakpoint {V = V}) (map breakpoint_value bps) ≡ bps
  filter_map-breakpoint_value [] = refl
  filter_map-breakpoint_value (bp ∷ bps) =
      ground (arith, parse_source_breakpoint-breakpoint_value V bp, filter_map-breakpoint_value bps)

  is_object-breakpoints_arguments :
      (source : String) (bps : List SourceBreakpointSpec)
      → J.is_object (breakpoints_arguments {V = V} source bps) ≡ true
  unfolding breakpoints_arguments
  is_object-breakpoints_arguments source bps =
      J.is_object-insert _ "breakpoints" (J.array (map breakpoint_value bps))
        (one_field {V = V} "source" (source_object source))

  get-breakpoints :
      (source : String) (bps : List SourceBreakpointSpec)
      → array_at {V = V} (breakpoints_arguments source bps) "breakpoints"
        ≡ some (map breakpoint_value bps)
  unfolding breakpoints_arguments
  get-breakpoints source bps =
      ap (λ (x : Option V). and_then x J.as_array)
        (get-insert_self _ "breakpoints" (J.array (map breakpoint_value bps))
          (one_field {V = V} "source" (source_object source)))
      ∙ J.as_array-array (map breakpoint_value bps)

  get-source :
      (source : String) (bps : List SourceBreakpointSpec)
      → and_then (J.get (breakpoints_arguments source bps) "source") (λ s. text_at s "path")
        ≡ some source
  unfolding breakpoints_arguments
  get-source source bps =
      ap (λ (x : Option V). and_then x (λ s. text_at s "path"))
        (get-insert_ne _ "breakpoints" "source" (J.array (map breakpoint_value bps))
            (one_field {V = V} "source" (source_object source)) refl
          ∙ get-insert_self J.empty "source" (source_object source) J.is_object-empty)
      ∙ ap (λ (x : Option V). and_then x J.as_str)
          (get-insert_self J.empty "path" (J.text source) J.is_object-empty)
      ∙ J.as_str-text source

  -- A request that carries the arguments of `set_breakpoints` is read by the tracker of the multiplexer as
  -- the same file with the same breakpoints, each with its line, its conditions and its log message.
  pub pending_of-breakpoints_arguments :
      (message : V) (source : String) (bps : List SourceBreakpointSpec)
      → J.get message "arguments" ≡ some (breakpoints_arguments source bps)
      → ((pending_of message).source_path ≡ source) × ((pending_of message).specs ≡ bps)
  unfolding pending_of
  pending_of-breakpoints_arguments message source bps h =
      let args : V = breakpoints_arguments source bps in
      let here : object_at message "arguments" ≡ some args =
        ap (λ (x : Option V). and_then x (λ v. if J.is_object v then some v else none)) h
        ∙ rw (is_object-breakpoints_arguments source bps) refl in
      (
        rw (here, get-source source bps) refl,
        rw (here, get-breakpoints source bps) (filter_map-breakpoint_value bps),
      )
