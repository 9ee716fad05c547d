-- ===== src/Instances/Manager/Lifecycle.antt =====
-- The life of an instance under the operations of crates/instance-manager/src/manager.rs.
use dappy_core.Common.{
  if◌then◌else◌, is_some, match_keeps_eq, if_keeps_eq, eq_of_some-eq, ℕ, ◌≡◌, refl, sym, ap, ◌∙◌,
  subst, inl, inr, Bool, true, false, not, ◌&&◌, some, List, [], ◌∷◌, arith, Bool-cases, ◌==◌,
  nat_eq, string_eq, ==-eq,
}
use dappy_core.Common.HashMap
use dappy_core.Instances.State.{InstanceState, can_transition_to}
use dappy_core.Instances.Manager.Imports.{
  set_state-refused, set_state-allowed, import_from_store-keeps,
}
use dappy_core.Instances.Handle.{Probes, InstanceId, InstanceSpec, InstanceHandle}
use dappy_core.Instances.Manager.{
  Result, InstanceManager, SessionRecord, prune_stale, import_from_store, register, set_state,
  remove, set_control_port, set_pid, write_handle,
}

-- A call that may change the registry. What the operating system, the clock and the store say to a call is
-- part of it.
pub data Call : Type 0 where
  registers : InstanceSpec → Call
  sets_state : InstanceId → InstanceState → Call
  removes : InstanceId → Call
  sets_port sets_pid : InstanceId → ℕ → Call
  prunes : Probes → Call
  imports : (InstanceId → ℕ) → Result (List SessionRecord) → Call

-- The registry after a call, whatever its result.
abbrev pub after_call : Call → InstanceManager → InstanceManager
after_call (registers spec) m = (register m spec).1
after_call (sets_state id next) m = (set_state m id next).1
after_call (removes id) m = (remove m id).1
after_call (sets_port id port) m = (set_control_port m id port).1
after_call (sets_pid id pid) m = (set_pid m id pid).1
after_call (prunes probes) m = (prune_stale probes m).1
after_call (imports now found) m = (import_from_store m now found).1

abbrev pub after_calls : List Call → InstanceManager → InstanceManager
after_calls [] m = m
after_calls (call ∷ calls) m = after_calls calls (after_call call m)

-- The calls that may take the instance away.
abbrev pub removes_id : InstanceId → Call → Bool
removes_id id (removes j) = j == id
removes_id id (prunes probes) = true
removes_id id _ = false

abbrev pub none_removes : InstanceId → List Call → Bool
none_removes id [] = true
none_removes id (call ∷ calls) = not (removes_id id call) && none_removes id calls

-- The life of one instance: a request for a state that the table allows from the present one moves it
-- there, and nothing else moves it.
abbrev pub moved : InstanceId → Call → InstanceState → InstanceState
moved id (sets_state j next) s = if j == id && can_transition_to s next then next else s
moved id _ s = s

abbrev pub life : InstanceId → List Call → InstanceState → InstanceState
life id [] s = s
life id (call ∷ calls) s = life id calls (moved id call s)

-- The instance is there, in this state.
abbrev pub Lives : InstanceManager → InstanceId → InstanceState → Type 0
Lives m id s = (h : InstanceHandle) × (HashMap.get m id ≡ some h) × (h.state ≡ s)

-- A write under some id: this instance has the state that was written, or is another one.
written-Lives :
    (m : InstanceManager) (id j : InstanceId) (h new : InstanceHandle)
    → HashMap.get m id ≡ some h
    → Lives (HashMap.insert m j new) id (if j == id then new.state else h.state)
written-Lives m id j h new here = elim (Bool-cases (j == id)) [
  | inl same ↦ rw same (new, HashMap.get-insert m j id new ∙ rw same refl, refl)
  | inr apart ↦ rw apart (h, HashMap.get-insert m j id new ∙ rw apart here, refl)
]

module _ (m : InstanceManager) (id : InstanceId) (h : InstanceHandle)
    (here : HashMap.get m id ≡ some h) where
  -- A result and a registry in which the instance lives on in its state.
  abbrev Left : {A : Type 0} → Result A × InstanceManager → Type 0
  Left r = Lives r.1 id h.state

  unchanged : Lives m id h.state
  unchanged = (h, here, refl)

  -- A free id is another one.
  free_id : (j : InstanceId) → is_some (HashMap.get m j) ≡ false → (j == id) ≡ false
  free_id j fresh = elim (Bool-cases (j == id)) [
    | inl same ↦
        let gone = subst (λ i. is_some (HashMap.get m i) ≡ false) (==-eq j id same) fresh in
        absurd (ground (arith, gone, here))
    | inr apart ↦ apart
  ]

  -- What stands under the id of the instance is its handle.
  same_handle :
      (j : InstanceId) (old : InstanceHandle)
      → HashMap.get m j ≡ some old
      → (j == id) ≡ true
      → old ≡ h
  same_handle j old there same =
      eq_of_some-eq old h (sym there ∙ ap (HashMap.get m) (==-eq j id same) ∙ here)

  register-Lives : (spec : InstanceSpec) → Left (register m spec)
  unfolding register
  register-Lives spec =
      if_keeps_eq Left (is_some (HashMap.get m spec.id)) _ _ (λ known. unchanged)
        λ fresh. (h, HashMap.get-insert m spec.id id _ ∙ rw (free_id spec.id fresh) here, refl)

  -- A write that keeps the state of what it overwrites.
  rewritten-Lives :
      (j : InstanceId) (old new : InstanceHandle)
      → HashMap.get m j ≡ some old
      → new.state ≡ old.state
      → Lives (HashMap.insert m j new) id h.state
  rewritten-Lives j old new there kept =
      subst (Lives (HashMap.insert m j new) id)
        (elim (Bool-cases (j == id)) [
          | inl same ↦ rw same (kept ∙ ap (λ x. x.state) (same_handle j old there same))
          | inr apart ↦ rw apart refl
        ])
        (written-Lives m id j h new here)

  set_state-Lives :
      (j : InstanceId) (next : InstanceState)
      → Lives (set_state m j next).1 id (moved id (sets_state j next) h.state)
  unfolding set_state write_handle
  set_state-Lives j next = elim (Bool-cases (j == id)) [
    | inl same ↦
        let mine = ap (HashMap.get m) (==-eq j id same) ∙ here in
        elim (Bool-cases (can_transition_to h.state next)) [
          | inl way ↦
              rw (set_state-allowed m j h next mine way, way, same)
                (record h { state = next }, HashMap.get-insert m j id _ ∙ rw same refl, refl)
          | inr no_way ↦ rw (set_state-refused m j h next mine no_way, no_way, same) unchanged
        ]
    | inr apart ↦ rw apart (
        match_keeps_eq Left (HashMap.get m j) _ _ unchanged λ old there.
          if_keeps_eq Left (not (can_transition_to old.state next)) _ _ (λ no_way. unchanged)
            (λ way. (h, HashMap.get-insert m j id _ ∙ rw apart here, refl)))
  ]

  import_from_store-Lives :
      (now : InstanceId → ℕ) (found : Result (List SessionRecord))
      → Left (import_from_store m now found)
  import_from_store-Lives now found =
      import_from_store-keeps (λ n. Lives n id h.state) m now found unchanged
        λ r absent. (
          h,
          HashMap.get-insert m r.instance_id id _
              ∙ rw (free_id r.instance_id (ap is_some absent)) here,
          refl,
        )

  remove-Lives : (j : InstanceId) → (j == id) ≡ false → Left (remove m j)
  unfolding remove
  remove-Lives j apart =
      match_keeps_eq Left (HashMap.get m j) _ _ unchanged
        λ old there. (h, HashMap.get-remove m j id ∙ rw apart here, refl)

  set_control_port-Lives : (j : InstanceId) (port : ℕ) → Left (set_control_port m j port)
  unfolding set_control_port write_handle
  set_control_port-Lives j port =
      match_keeps_eq Left (HashMap.get m j) _ _ unchanged
        (λ old there. rewritten-Lives j old _ there refl)

  set_pid-Lives : (j : InstanceId) (pid : ℕ) → Left (set_pid m j pid)
  unfolding set_pid write_handle
  set_pid-Lives j pid =
      match_keeps_eq Left (HashMap.get m j) _ _ unchanged
        (λ old there. rewritten-Lives j old _ there refl)

  after_call-Lives :
      (call : Call)
      → removes_id id call ≡ false
      → Lives (after_call call m) id (moved id call h.state)
  after_call-Lives (registers spec) keep = register-Lives spec
  after_call-Lives (sets_state j next) keep = set_state-Lives j next
  after_call-Lives (removes j) keep = remove-Lives j keep
  after_call-Lives (sets_port j port) keep = set_control_port-Lives j port
  after_call-Lives (sets_pid j pid) keep = set_pid-Lives j pid
  after_call-Lives (prunes probes) keep = absurd (ground arith)
  after_call-Lives (imports now found) keep = import_from_store-Lives now found

-- An instance that is registered stays so through any calls of which none prunes the registry or removes it,
-- failed calls included, and is then in the state that its life leads to: a request for a state that the
-- table of transitions allows at that time moves it there, and no other call moves it.
pub after_calls-Lives :
    (calls : List Call) (m : InstanceManager) (id : InstanceId) (h : InstanceHandle)
    → HashMap.get m id ≡ some h
    → none_removes id calls ≡ true
    → Lives (after_calls calls m) id (life id calls h.state)
after_calls-Lives [] m id h here keep = (h, here, refl)
after_calls-Lives (call ∷ calls) m id h here keep =
    let (x, there, r) = after_call-Lives m id h here call (ground arith) in
    subst (λ s. Lives (after_calls calls (after_call call m)) id (life id calls s)) r
      (after_calls-Lives calls (after_call call m) id x there (ground arith))
