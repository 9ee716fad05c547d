-- ===== src/Control/Events.antt =====
-- The waits of crates/dap-core/src/control_client.rs for events, and a response that comes before or behind
-- the event that is awaited first.
use dappy_core.Common.{
  ℕ, suc, ◌≡◌, refl, sym, ap, ◌∙◌, ◌≢◌, inl, inr, Bool, true, false, Option, none, some, List, [],
  ◌∷◌, ◌++◌, arith, if◌then◌else◌, Bool-cases, ◌==◌, nat_eq, string_eq, Option-cases,
}
use dappy_core.Common.Text.{Text}
use dappy_core.Wire.Message.{Message, request_message, response_message, event_message}
use dappy_core.Control.Channel.{
  Arrival, arrives, late, torn, fails, channel_closed, timed_out, not_a_response, missing_body,
  bad_capabilities, unresolved_entry, transport, Result, ok, err, ControlClient, continue_with,
  ◌>>=◌, pure,
}
use dappy_core.Control.Waits.{
  response_matches_seq, event_named, take_first, await_wire, wait_for_response_seq, event_loop,
  wait_for_event,
}
use dappy_core.Control.Calls.{
  send_within, request_of, send_dap_request, send_dap_request_and_wait_for_event,
}
use dappy_core.Control.Inbox.{
  ahead_of, inbox, extract, ahead_of-append, read_until-extract, extract-without, extract-within,
  wait_for_response_seq-extract,
}
use dappy_core.Mux.Session.{next_i64}

-- A channel that closes ends the wait as the timer does.
abbrev pub or_timeout : {A : Type 0} → Result A → Result A
or_timeout (ok a) = ok a
or_timeout (err channel_closed) = err timed_out
or_timeout (err timed_out) = err timed_out
or_timeout (err not_a_response) = err not_a_response
or_timeout (err missing_body) = err missing_body
or_timeout (err bad_capabilities) = err bad_capabilities
or_timeout (err unresolved_entry) = err unresolved_entry
or_timeout (err (transport e)) = err (transport e)

module _ {V : Type 0} where
  event_loop-extract :
      (test : Message V → Bool) (incoming : List (Arrival V)) (pending : List (Message V))
      → let (r, kept, left) = event_loop test incoming pending in
        let (found, rest) = extract true test (ahead_of pending incoming) in
        (r ≡ or_timeout found) × (ahead_of kept left ≡ rest)
  unfolding event_loop
  event_loop-extract test [] pending = elim (Option-cases (take_first test pending)) [
    | inl e ↦ rw (e, extract-without true test pending [] e) (refl, refl)
    | inr ((n, rest), e) ↦ rw (e, extract-within true test pending rest n [] e) (refl, refl)
  ]
  event_loop-extract test (arrives m ∷ more) pending =
      elim (Option-cases (take_first test pending)) [
        | inl e ↦ elim (Bool-cases (test m)) [
          | inl here ↦
              rw (e, extract-without true test pending (arrives m ∷ more) e, here) (refl, refl)
          | inr other ↦
              rw (e, other, ← ahead_of-append pending (m ∷ []) more)
                (event_loop-extract test more (pending ++ m ∷ []))
        ]
        | inr ((n, rest), e) ↦
            rw (e, extract-within true test pending rest n (arrives m ∷ more) e) (refl, refl)
      ]
  event_loop-extract test (late ∷ more) pending = elim (Option-cases (take_first test pending)) [
    | inl e ↦ rw (e, extract-without true test pending (late ∷ more) e) (refl, refl)
    | inr ((n, rest), e) ↦
        rw (e, extract-within true test pending rest n (late ∷ more) e) (refl, refl)
  ]
  event_loop-extract test (torn count reads ∷ more) pending =
      elim (Option-cases (take_first test pending)) [
        | inl e ↦ rw (e, extract-without true test pending (torn count reads ∷ more) e) (refl, refl)
        | inr ((n, rest), e) ↦
            rw (e, extract-within true test pending rest n (torn count reads ∷ more) e) (refl, refl)
      ]
  event_loop-extract test (fails f ∷ more) pending = elim (Option-cases (take_first test pending)) [
    | inl e ↦ rw (e, extract-without true test pending (fails f ∷ more) e) (refl, refl)
    | inr ((n, rest), e) ↦
        rw (e, extract-within true test pending rest n (fails f ∷ more) e) (refl, refl)
  ]

  -- With time to wait, a wait for an event takes the first of that name, buffered or still to come, and
  -- leaves all else in its place; or it ends with the error of the channel, its end counted as a timeout.
  pub wait_for_event-extract :
      (name : Text) (timeout : ℕ) (c : ControlClient V)
      → timeout ≢ 0
      → let (r, c') = wait_for_event name timeout c in
        let (found, rest) = extract true (event_named name) (inbox c) in
        (r ≡ or_timeout found) × (inbox c' ≡ rest)
  unfolding wait_for_event
  wait_for_event-extract name timeout c h =
      let apart : (timeout == 0) ≡ false = ground arith in
      rw apart (event_loop-extract (event_named name) c.incoming c.pending)

  -- The first message that a test accepts.
  abbrev pub first : (Message V → Bool) → List (Message V) → Option (Message V)
  first test [] = none
  first test (m ∷ ms) = if test m then some m else first test ms

  take_first-test :
      (test : Message V → Bool) (ms rest : List (Message V)) (m : Message V)
      → take_first test ms ≡ some (m, rest)
      → test m ≡ true
  take_first-test test [] rest m h = cc
  take_first-test test (n ∷ ms) rest m h = elim (Bool-cases (test n)) [
    | inl here ↦ ground (arith, h, here)
    | inr other ↦ elim (Option-cases (take_first test ms)) [
      | inl e ↦ ground (arith, h, e, other)
      | inr ((k, left), e) ↦ ground (arith, h, e, other, take_first-test test ms left k e)
    ]
  ]

  -- What is taken away is not what another test looks for.
  first-take_first :
      (test other : Message V → Bool) (before ms rest : List (Message V)) (m : Message V)
      → take_first test ms ≡ some (m, rest)
      → other m ≡ false
      → first other (before ++ rest) ≡ first other (before ++ ms)
  first-take_first test other (b ∷ before) ms rest m h k =
      ap (λ o. if other b then some b else o) (first-take_first test other before ms rest m h k)
  first-take_first test other [] [] rest m h k = cc
  first-take_first test other [] (n ∷ ms) rest m h k = elim (Bool-cases (test n)) [
    | inl here ↦ ground (arith, h, here, k)
    | inr apart ↦ elim (Option-cases (take_first test ms)) [
      | inl e ↦ ground (arith, h, e, apart)
      | inr ((l, left), e) ↦ ground (arith, h, e, apart, first-take_first test other [] ms left l e)
    ]
  ]

  extract-first :
      (timed : Bool) (test : Message V → Bool) (ms : List (Message V)) (m : Message V)
      (behind : List (Arrival V))
      → first test ms ≡ some m
      → (extract timed test (ahead_of ms behind)).0 ≡ ok m
  extract-first timed test [] m behind h = cc
  extract-first timed test (n ∷ ms) m behind h = elim (Bool-cases (test n)) [
    | inl here ↦ ground (arith, h, here)
    | inr other ↦ ground (arith, h, other, extract-first timed test ms m behind)
  ]

  event_named-response :
      (name : Text) (seq : ℕ) (m : Message V)
      → event_named name m ≡ true
      → response_matches_seq seq m ≡ false
  event_named-response name seq (request_message r) h = refl
  event_named-response name seq (response_message r) h = cc
  event_named-response name seq (event_message e) h = refl

  -- What the wait for the event does once the request is sent.
  event_then_response :
      (name : Text) (seq : ℕ) (c : ControlClient V) (ms others : List (Message V))
      (behind : List (Arrival V)) (event response : Message V)
      → c.incoming ≡ ahead_of ms behind
      → take_first (event_named name) ms ≡ some (event, others)
      → first (response_matches_seq seq) (c.pending ++ ms) ≡ some response
      → let (e, c1) = await_wire true (event_named name) c in
        (e ≡ ok event) × ((wait_for_response_seq seq c1).0 ≡ ok response)
  unfolding await_wire
  event_then_response name seq c ms others behind event response stream h k =
      let test : Message V → Bool = event_named name in
      let (r, kept) = read_until-extract true test c.incoming c.pending in
      let taken =
        ap (extract true test) stream ∙ extract-within true test ms others event behind h in
      let left =
        kept
        ∙ ap (λ (found : Result (Message V) × List (Arrival V)). ahead_of c.pending found.1) taken
        ∙ sym (ahead_of-append c.pending others behind) in
      let apart = event_named-response name seq event (take_first-test test ms others event h) in
      (
        r ∙ ap (λ (found : Result (Message V) × List (Arrival V)). found.0) taken,
        (wait_for_response_seq-extract seq (await_wire true test c).1).0
            ∙ ap (λ q. (extract false (response_matches_seq seq) q).0) left
            ∙ extract-first false (response_matches_seq seq) (c.pending ++ others) response behind (
                first-take_first test (response_matches_seq seq) c.pending ms others event h apart
                ∙ k),
      )

  send_dap_request-ok :
      (command : Text) (arguments : Option V) (c : ControlClient V) (n : ℕ)
      → c.accepts ≡ suc n
      → send_dap_request command arguments c ≡ (
        ok c.seq,
        record c {
          seq = next_i64 c.seq;
          accepts = n;
          written = c.written ++ request_of c.seq command arguments ∷ [];
        },
      )
  unfolding send_dap_request
  send_dap_request-ok command arguments c n h =
      ap
        (λ (k : ℕ).
          continue_with
            (send_within k (request_of c.seq command arguments) (record c { seq = next_i64 c.seq }))
            (λ sent. pure c.seq))
        h

  continue_with-ok :
      (x : Result (Message V) × ControlClient V) (m : Message V) (seq : ℕ)
      → x.0 ≡ ok m
      → continue_with x (λ event. pure seq) ≡ (ok seq, x.1)
  continue_with-ok (ok a, c) m seq h = refl
  continue_with-ok (err e, c) m seq h = cc

  -- A request that is sent, whose event and whose response come on the channel in either order: the wait
  -- returns the request's number, and the wait for its response, which comes next, returns that response.
  pub response_after_event :
      (command : Text) (arguments : Option V) (name : Text) (c : ControlClient V) (n : ℕ)
      (ms others : List (Message V)) (behind : List (Arrival V)) (event response : Message V)
      → c.accepts ≡ suc n
      → c.incoming ≡ ahead_of ms behind
      → take_first (event_named name) ms ≡ some (event, others)
      → first (response_matches_seq c.seq) (c.pending ++ ms) ≡ some response
      → let (number, c1) = send_dap_request_and_wait_for_event command arguments name c in
        (number ≡ ok c.seq) × ((wait_for_response_seq c.seq c1).0 ≡ ok response)
  unfolding send_dap_request_and_wait_for_event
  response_after_event command arguments name c n ms others behind event response room stream h k =
      let sent : ControlClient V = record c {
        seq = next_i64 c.seq;
        accepts = n;
        written = c.written ++ request_of c.seq command arguments ∷ [];
      } in
      let (seen, answered) =
        event_then_response name c.seq sent ms others behind event response stream h k in
      let steps =
        ap
          (λ (x : Result ℕ × ControlClient V).
            continue_with x (λ seq. await_wire true (event_named name) >>= (λ e. pure seq)))
          (send_dap_request-ok command arguments c n room)
        ∙ continue_with-ok (await_wire true (event_named name) sent) event c.seq seen in
      (
        ap (λ (x : Result ℕ × ControlClient V). x.0) steps,
        ap (λ (x : Result ℕ × ControlClient V). (wait_for_response_seq c.seq x.1).0) steps
            ∙ answered,
      )
