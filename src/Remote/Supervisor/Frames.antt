-- ===== src/Remote/Supervisor/Frames.antt =====
-- The frames that `poll` of src-tauri/src/services/remote.rs takes, and the events that it gives out.
use llm_notch.Prelude.{max, ◌≡◌, refl, ap, ◌∙◌, Option, none, some, Bool, true, false, arith}
use llm_notch.Remote.Protocol.{Result, ok, err, ResumeCursor, RelayFrame}
use llm_notch.Remote.Transport.{TransportError, Reply, RemoteTransport}
use llm_notch.Remote.Session.{
  RelaySession, receive, acknowledge, acknowledged, received, checked, map_or, advance,
}
use llm_notch.Remote.Supervisor.{
  extract_relay_session_event, ingest_of, pushed, handle_relay_frame, polled, poll_streaming,
  RelaySessionEventIngest,
}

-- An event that is given out where the relay answers with no error.
unfoldable pub unless_refused :
    Result TransportError (Unit {0})
    → Option RelaySessionEventIngest
    → Option RelaySessionEventIngest
unless_refused (ok _) event = event
unless_refused (err e) event = none

module _ {C W : Type 0} (t : RemoteTransport C W) where
  -- What the poll gives out, by the relay's answer to the acknowledgement.
  abbrev pub Delivers :
      RelaySession C
      → RelayFrame
      → Result TransportError (Unit {0})
      → Option RelaySessionEventIngest × RelaySession C × W
      → Type 0
  Delivers s frame answer r =
      (r.1.resume.last_sequence ≡ max s.resume.last_sequence frame.sequence)
      × (r.0 ≡ unless_refused answer (extract_relay_session_event s.host.id frame.payload))

  pushed-Delivers :
      (s : RelaySession C) (frame : RelayFrame) (reply : Reply W (Unit {0}))
      → Delivers s frame reply.0 (
          pushed (
            ingest_of (extract_relay_session_event s.host.id frame.payload) (
              acknowledged
                (record s { resume = advance s.resume frame.sequence })
                (record { last_sequence = frame.sequence })
                reply)))
  unfolding pushed ingest_of acknowledged advance unless_refused
  pushed-Delivers s frame (ok tt, w) = (ground arith, refl)
  pushed-Delivers s frame (err e', w) = (ground arith, refl)

  received-some :
      (s : RelaySession C) (frame : RelayFrame) (r : Reply W (Option RelayFrame))
      → r.0 ≡ ok (some frame)
      → received t s r
        ≡ (ok (some frame), record s { resume = advance s.resume frame.sequence }, r.1)
  unfolding received
  received-some s frame (ok (some other), w) e =
      let same : other ≡ frame = cc in
      ap (λ f. (ok (some f), record s { resume = advance s.resume f.sequence }, w)) same
  received-some s frame (ok none, w) e = cc
  received-some s frame (err e', w) e = cc

  checked-true :
      (s : RelaySession C) (c : C) (r : Reply W Bool)
      → r.0 ≡ ok true
      → checked t s c r ≡ received t s (t.receive c r.1)
  unfolding checked
  checked-true s c (ok true, w) e = refl
  checked-true s c (ok false, w) e = cc
  checked-true s c (err e', w) e = cc

  receive-held :
      (s : RelaySession C) (c : C) (w : W)
      → s.connection ≡ some c
      → receive t s w ≡ checked t s c (t.is_alive c w)
  unfolding receive map_or
  receive-held s c w held = simp held refl

  receive-some :
      (s : RelaySession C) (c : C) (frame : RelayFrame) (w : W)
      → s.connection ≡ some c
      → (t.is_alive c w).0 ≡ ok true
      → (t.receive c (t.is_alive c w).1).0 ≡ ok (some frame)
      → receive t s w ≡ (
        ok (some frame),
        record s { resume = advance s.resume frame.sequence },
        (t.receive c (t.is_alive c w).1).1,
      )
  receive-some s c frame w held alive given =
      receive-held s c w held
      ∙ checked-true s c (t.is_alive c w) alive
      ∙ received-some s frame (t.receive c (t.is_alive c w).1) given

  acknowledge-held :
      (s : RelaySession C) (c : C) (cursor : ResumeCursor) (w : W)
      → s.connection ≡ some c
      → acknowledge t s cursor w ≡ acknowledged s cursor (t.acknowledge c cursor w)
  unfolding acknowledge map_or
  acknowledge-held s c cursor w held = simp held refl

  -- A frame that a streaming session receives moves the cursor up to its sequence, whether or not
  -- the relay then takes the acknowledgement. Its event is given out where the relay takes it; where
  -- it refuses, the poll gives out nothing, though the cursor has passed the frame.
  pub poll_streaming_frame :
      (s : RelaySession C) (c : C) (frame : RelayFrame) (w : W)
      → s.connection ≡ some c
      → (t.is_alive c w).0 ≡ ok true
      → (t.receive c (t.is_alive c w).1).0 ≡ ok (some frame)
      → Delivers s frame
          (t.acknowledge c
            (record { last_sequence = frame.sequence })
            (t.receive c (t.is_alive c w).1).1).0
          (poll_streaming t s w)
  unfolding poll_streaming polled handle_relay_frame
  poll_streaming_frame s c frame w held alive given =
      rw (receive-some s c frame w held alive given) (
        rw
          (acknowledge-held (record s { resume = advance s.resume frame.sequence }) c
            (record { last_sequence = frame.sequence }) (t.receive c (t.is_alive c w).1).1 held)
          (pushed-Delivers s frame (
            t.acknowledge c (record { last_sequence = frame.sequence })
              (t.receive c (t.is_alive c w).1).1)))
