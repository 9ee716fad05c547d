-- ===== src/Control/Inbox.antt =====
-- The buffer and the channel of crates/dap-core/src/control_client.rs as one queue, from which each wait
-- takes the first message that it awaits.
use dappy_core.Common.{
  ℕ, ◌≡◌, refl, ap, ◌∙◌, inl, inr, Bool, true, false, none, some, List, [], ◌∷◌, ◌++◌, arith,
  if◌then◌else◌, Bool-cases, nat_eq, string_eq, Option-cases,
}
use dappy_core.Common.Text.{Text}
use dappy_core.Wire.Message.{Message}
use dappy_core.Control.Channel.{
  Arrival, arrives, late, torn, yields, fails, channel_closed, timed_out, transport, Result, ok,
  err, ControlClient,
}
use dappy_core.Control.Waits.{
  response_matches_seq, response_matches_command, take_first, read_until, await_wire, found_or,
  wait_for_response_seq, wait_for_response_named,
}

module _ {V : Type 0} where
  -- Messages ahead of what the channel will yield.
  abbrev pub ahead_of : List (Message V) → List (Arrival V) → List (Arrival V)
  ahead_of [] incoming = incoming
  ahead_of (m ∷ ms) incoming = arrives m ∷ ahead_of ms incoming

  -- The oldest message first.
  abbrev pub inbox : ControlClient V → List (Arrival V)
  inbox c = ahead_of c.pending c.incoming

  -- The first message that the test accepts, and the queue without it. An error ends the wait and is taken,
  -- and so does a silence where a timer runs; within a message it takes the part that was read.
  abbrev pub extract :
      Bool → (Message V → Bool) → List (Arrival V) → Result (Message V) × List (Arrival V)
  extract timed test [] = (err channel_closed, [])
  extract timed test (arrives m ∷ more) =
      let (r, rest) = extract timed test more in
      if test m then (ok m, more) else (r, arrives m ∷ rest)
  extract timed test (late ∷ more) =
      let later = extract timed test more in if timed then (err timed_out, more) else later
  extract timed test (torn count reads ∷ more) =
      let later = extract timed test more in
      if timed then (err timed_out, yields count reads) else later
  extract timed test (fails e ∷ more) = (err (transport e), more)

  pub ahead_of-append :
      (ms ns : List (Message V)) (incoming : List (Arrival V))
      → ahead_of (ms ++ ns) incoming ≡ ahead_of ms (ahead_of ns incoming)
  ahead_of-append [] ns incoming = refl
  ahead_of-append (m ∷ ms) ns incoming = ap (◌∷◌ (arrives m)) (ahead_of-append ms ns incoming)

  -- A loop that reads the channel and keeps what it passes over takes the first of the channel.
  pub read_until-extract :
      (timed : Bool) (test : Message V → Bool) (incoming : List (Arrival V))
      (pending : List (Message V))
      → let (r, kept, left) = read_until timed test incoming pending in
        (r ≡ (extract timed test incoming).0)
        × (ahead_of kept left ≡ ahead_of pending (extract timed test incoming).1)
  unfolding read_until
  read_until-extract timed test [] pending = (refl, refl)
  read_until-extract timed test (arrives m ∷ more) pending = elim (Bool-cases (test m)) [
    | inl here ↦ rw here (refl, refl)
    | inr other ↦
        let (r, left) = read_until-extract timed test more (pending ++ m ∷ []) in
        rw other (r, left ∙ ahead_of-append pending (m ∷ []) (extract timed test more).1)
  ]
  read_until-extract true test (late ∷ more) pending = (refl, refl)
  read_until-extract false test (late ∷ more) pending = read_until-extract false test more pending
  read_until-extract true test (torn count reads ∷ more) pending = (refl, refl)
  read_until-extract false test (torn count reads ∷ more) pending =
      read_until-extract false test more pending
  read_until-extract timed test (fails e ∷ more) pending = (refl, refl)

  -- Nothing in the buffer is awaited: the channel is read.
  pub extract-without :
      (timed : Bool) (test : Message V → Bool) (pending : List (Message V))
      (incoming : List (Arrival V))
      → take_first test pending ≡ none
      → extract timed test (ahead_of pending incoming)
        ≡ ((extract timed test incoming).0, ahead_of pending (extract timed test incoming).1)
  extract-without timed test [] incoming h = refl
  extract-without timed test (m ∷ ms) incoming h = elim (Bool-cases (test m)) [
    | inl here ↦ ground (arith, h, here)
    | inr other ↦ elim (Option-cases (take_first test ms)) [
      | inl e ↦ rw (other, extract-without timed test ms incoming e) refl
      | inr ((n, rest), e) ↦ ground (arith, h, e, other)
    ]
  ]

  -- What the buffer holds is found before anything that the channel yields.
  pub extract-within :
      (timed : Bool) (test : Message V → Bool) (pending rest : List (Message V)) (n : Message V)
      (incoming : List (Arrival V))
      → take_first test pending ≡ some (n, rest)
      → extract timed test (ahead_of pending incoming) ≡ (ok n, ahead_of rest incoming)
  extract-within timed test [] rest n incoming h = cc
  extract-within timed test (m ∷ ms) rest n incoming h = elim (Bool-cases (test m)) [
    | inl here ↦ ground (arith, h, here)
    | inr other ↦ elim (Option-cases (take_first test ms)) [
      | inl e ↦ ground (arith, h, e, other)
      | inr ((k, left), e) ↦
          ground (arith, h, e, other, extract-within timed test ms left k incoming e)
    ]
  ]

  -- The two steps of a wait: the buffer, then the channel.
  wait-extract :
      (test : Message V → Bool) (c : ControlClient V)
      → let (r, c') = found_or (take_first test c.pending) (await_wire false test) c in
        (r ≡ (extract false test (inbox c)).0) × (inbox c' ≡ (extract false test (inbox c)).1)
  unfolding await_wire
  wait-extract test c = elim (Option-cases (take_first test c.pending)) [
    | inl e ↦
        rw (e, extract-without false test c.pending c.incoming e)
          (read_until-extract false test c.incoming c.pending)
    | inr ((n, rest), e) ↦
        rw (e, extract-within false test c.pending rest n c.incoming e) (refl, refl)
  ]

  -- A wait for a response takes the first that answers the request, buffered or still to come, and leaves all
  -- else in its place; or it ends as the channel does.
  pub wait_for_response_seq-extract :
      (seq : ℕ) (c : ControlClient V)
      → let (r, c') = wait_for_response_seq seq c in
        let (found, rest) = extract false (response_matches_seq seq) (inbox c) in
        (r ≡ found) × (inbox c' ≡ rest)
  unfolding wait_for_response_seq
  wait_for_response_seq-extract seq c = wait-extract (response_matches_seq seq) c

  pub wait_for_response_named-extract :
      (command : Text) (c : ControlClient V)
      → let (r, c') = wait_for_response_named command c in
        let (found, rest) = extract false (response_matches_command command) (inbox c) in
        (r ≡ found) × (inbox c' ≡ rest)
  unfolding wait_for_response_named
  wait_for_response_named-extract command c = wait-extract (response_matches_command command) c
