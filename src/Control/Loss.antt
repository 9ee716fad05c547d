-- ===== src/Control/Loss.antt =====
-- The two ways in which crates/dap-core/src/control_client.rs waits for a response: what both return, and what
-- one of them loses.
use dappy_core.Common.{
  ℕ, zero, suc, ◌≡◌, refl, sym, ap, ◌∙◌, inl, inr, Bool, true, Option, none, List, [], ◌∷◌, ◌++◌,
  Bool-cases, nat_eq, string_eq,
}
use dappy_core.Mux.Session.{next_i64}
use mathlib.Core.List.{append_assoc, append-nil}
use dappy_core.Common.Text.{Text}
use dappy_core.Wire.Message.{Message}
use dappy_core.Control.Channel.{
  Arrival, arrives, late, torn, fails, Result, ok, err, ControlClient, continue_with, pure,
}
use dappy_core.Control.Waits.{response_matches_seq, read_until, await_wire}
use dappy_core.Control.Inbox.{inbox}
use dappy_core.Control.Events.{first}
use dappy_core.Control.Calls.{
  send_within, send_dap_request, roundtrip, await_roundtrip, dap_request,
  dap_request_preserve_events, request_of,
}
use dappy_core.Control.Replay.{messages_of, messages_of-ahead_of}

module _ {V : Type 0} where
  roundtrip-read_until :
      (test : Message V → Bool) (incoming : List (Arrival V)) (pending : List (Message V))
      → let (r, buffer, left) = read_until true test incoming pending in
        ((roundtrip test incoming).0 ≡ r) × ((roundtrip test incoming).1 ≡ left)
  unfolding roundtrip read_until
  roundtrip-read_until test [] pending = (refl, refl)
  roundtrip-read_until test (arrives m ∷ more) pending = elim (Bool-cases (test m)) [
    | inl here ↦ rw here (refl, refl)
    | inr other ↦ rw other (roundtrip-read_until test more (pending ++ m ∷ []))
  ]
  roundtrip-read_until test (late ∷ more) pending = (refl, refl)
  roundtrip-read_until test (torn count reads ∷ more) pending = (refl, refl)
  roundtrip-read_until test (fails e ∷ more) pending = (refl, refl)

  -- What two runs from one client agree on.
  abbrev pub Agree :
      Result (Message V) × ControlClient V → Result (Message V) × ControlClient V → Type 0
  Agree (r, c) (s, d) =
      (r ≡ s) × (c.incoming ≡ d.incoming) × (c.written ≡ d.written) × (c.seq ≡ d.seq)

  await-Agree :
      (x : Result ℕ × ControlClient V)
      → Agree
          (continue_with x (λ seq. await_roundtrip seq))
          (continue_with x (λ seq. await_wire true (response_matches_seq seq)))
  unfolding await_roundtrip await_wire
  await-Agree (ok seq, c) =
      let (r, left) = roundtrip-read_until (response_matches_seq seq) c.incoming c.pending in
      (r, left, refl, refl)
  await-Agree (err e, c) = (refl, refl, refl, refl)

  pending-continue :
      (x : Result ℕ × ControlClient V)
      → (continue_with x (λ seq. await_roundtrip seq)).1.pending ≡ x.1.pending
  unfolding await_roundtrip
  pending-continue (ok seq, c) = refl
  pending-continue (err e, c) = refl

  pending-send_within :
      (k : ℕ) (m : Message V) (seq : ℕ) (c : ControlClient V)
      → (continue_with (send_within k m c) (λ sent. pure seq)).1.pending ≡ c.pending
  pending-send_within zero m seq c = refl
  pending-send_within (suc k) m seq c = refl

  pending-send :
      (command : Text) (arguments : Option V) (c : ControlClient V)
      → (send_dap_request command arguments c).1.pending ≡ c.pending
  unfolding send_dap_request
  pending-send command arguments c =
      pending-send_within c.accepts (request_of c.seq command arguments) c.seq
        (record c { seq = next_i64 c.seq })

  -- `dap_request` and `dap_request_preserve_events` return the same, send the same and leave the channel at the
  -- same place; and `dap_request` leaves the buffer as it was.
  pub dap_request-preserve :
      (command : Text) (arguments : Option V) (c : ControlClient V)
      → Agree (dap_request command arguments c) (dap_request_preserve_events command arguments c)
        × ((dap_request command arguments c).1.pending ≡ c.pending)
  unfolding dap_request dap_request_preserve_events
  dap_request-preserve command arguments c = (
    await-Agree (send_dap_request command arguments c),
    pending-continue (send_dap_request command arguments c) ∙ pending-send command arguments c,
  )

  -- The message of an answer, as a list.
  abbrev one_message : Result (Message V) → List (Message V)
  one_message (ok m) = m ∷ []
  one_message (err e) = []

  read_until-splits :
      (test : Message V → Bool) (incoming : List (Arrival V)) (pending : List (Message V))
      (m : Message V)
      → let (r, kept, left) = read_until true test incoming pending in
        r ≡ ok m
        → (before : List (Message V)) × (behind : List (Message V)) × (messages_of incoming
            ≡ before ++ m ∷ behind)
          × (first test before ≡ none)
          × (kept ≡ pending ++ before)
          × (messages_of left ≡ behind)
  unfolding read_until
  read_until-splits test [] pending m = λ h. cc
  read_until-splits test (arrives n ∷ more) pending m = elim (Bool-cases (test n)) [
    | inl here ↦ rw here (λ h. (
      [],
      messages_of more,
      ap (λ l. l ++ messages_of more) (ap one_message h),
      refl,
      sym (append-nil pending),
      refl,
    ))
    | inr other ↦ rw other (λ h.
        let (before, behind, whole, none_before, kept, left) =
          read_until-splits test more (pending ++ n ∷ []) m h in
        (
          n ∷ before,
          behind,
          ap (◌∷◌ n) whole,
          rw other none_before,
          kept ∙ append_assoc pending (n ∷ []) before,
          left,
        ))
  ]
  read_until-splits test (late ∷ more) pending m = λ h. cc
  read_until-splits test (torn count reads ∷ more) pending m = λ h. cc
  read_until-splits test (fails e ∷ more) pending m = λ h. cc

  -- What is lost, where the request goes out.
  sent-loses :
      (k seq : ℕ) (request m : Message V) (c : ControlClient V)
      → let x = continue_with (send_within k request c) (λ sent. pure seq) in
        let d = (continue_with x (λ n. await_roundtrip n)).1 in
        let p = (continue_with x (λ n. await_wire true (response_matches_seq n))).1 in
        (continue_with x (λ n. await_roundtrip n)).0 ≡ ok m
        → (before : List (Message V)) × (behind : List (Message V)) × (messages_of c.incoming
            ≡ before ++ m ∷ behind)
          × (first (response_matches_seq seq) before ≡ none)
          × (messages_of (inbox d) ≡ c.pending ++ behind)
          × (messages_of (inbox p) ≡ (c.pending ++ before) ++ behind)
  unfolding await_roundtrip await_wire
  sent-loses zero seq request m c h = cc
  sent-loses (suc k) seq request m c h =
      let test : Message V → Bool = response_matches_seq seq in
      let (same, rest) = roundtrip-read_until test c.incoming c.pending in
      let (before, behind, whole, none_before, kept, left) =
        read_until-splits test c.incoming c.pending m (sym same ∙ h) in
      (
        before,
        behind,
        whole,
        none_before,
        messages_of-ahead_of c.pending (roundtrip test c.incoming).1
            ∙ ap (λ l. c.pending ++ messages_of l) rest
            ∙ ap (◌++◌ c.pending) left,
        messages_of-ahead_of (read_until true test c.incoming c.pending).1
              (read_until true test c.incoming c.pending).2
            ∙ ap (λ l. l ++ messages_of (read_until true test c.incoming c.pending).2) kept
            ∙ ap (◌++◌ (c.pending ++ before)) left,
      )

  -- Where `dap_request` is answered, the answer is the first response to its number on the channel, and the
  -- messages that came before it are gone: those that the client had in its buffer and those behind the response
  -- are left. `dap_request_preserve_events` has them all in their order.
  pub dap_request-loses :
      (command : Text) (arguments : Option V) (c : ControlClient V) (m : Message V)
      → let (r, d) = dap_request command arguments c in
        let p = (dap_request_preserve_events command arguments c).1 in
        r ≡ ok m
        → (before : List (Message V)) × (behind : List (Message V)) × (messages_of c.incoming
            ≡ before ++ m ∷ behind)
          × (first (response_matches_seq c.seq) before ≡ none)
          × (messages_of (inbox d) ≡ c.pending ++ behind)
          × (messages_of (inbox p) ≡ (c.pending ++ before) ++ behind)
  unfolding dap_request dap_request_preserve_events send_dap_request
  dap_request-loses command arguments c m h =
      sent-loses c.accepts c.seq (request_of c.seq command arguments) m
        (record c { seq = next_i64 c.seq }) h
