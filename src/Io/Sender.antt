-- ===== src/Io/Sender.antt =====
-- runSend and allocateOnAnyTuple of pkg/io/sender.go, with Pick and PickAt of pkg/io/socketpool.go.
-- A socket is its local address, as MakeTuple makes it; `text_of` is the String of an address. What
-- the rest of the program does to the engine while runSend waits is an argument, and so are the
-- outcomes of the waits. The calls that runSend makes are listed beside its result.
pub mod Protocol
pub mod Counted
pub mod Restored
pub mod Quiet
pub mod Collision
use radstorm.Prelude.{
  ℕ, zero, suc, ◌+◌, ◌%◌, ◌^◌, Bool, Option, none, some, List, [], ◌∷◌, ◌++◌, ◌==◌, if◌then◌else◌,
  length, get_elem?,
}
use radstorm.Prelude.Int.{ℤ}
use radstorm.Radius.Result.{Error, Result, err, ok}
use radstorm.Radius.Auth.{Crypto}
use radstorm.Radius.Packet.{Packet, encode}
use radstorm.Events.{Event, new_error, new_request_sent, new_reply_received, internal_error}
use radstorm.Subscriber.Policy.{RetransmitPolicy, nonpositive, attempt_timeout}
use radstorm.Io.IdAlloc.Tuples.{Tuple, IdAllocator, allocate_for, release_for}
use radstorm.Io.Matcher.{MatchKey, Inflight, Delivery, ReplyMatcher, register, cancel}

abbrev pub Address : Type 0
Address = List ℕ × ℕ

-- The Engine as runSend uses it; `log` has the events submitted. The index of the round robin is
-- a number without a bound.
pub record Engine : Type 0 where
  pub sockets : List Address
  pub rr_idx : ℕ
  pub id_alloc : IdAllocator
  pub matcher : ReplyMatcher
  pub log : List Event

-- SocketPool.PickAt
unfoldable pub pick_at : ℕ → List Address → Option Address
pick_at i [] = none
pick_at i (s ∷ sockets) = get_elem? (s ∷ sockets) (i % length (s ∷ sockets))

-- SocketPool.Pick
unfoldable pub pick : Engine → Engine × Option Address
unfolding pick_at
pick e = (record e { rr_idx = suc e.rr_idx }, pick_at e.rr_idx e.sockets)

-- What `build` returns.
pub data Built : Type 0 where
  build_error : Built
  nil_packet : Built
  built : Packet → Built

-- Which channel of the select is taken: that of the reply only if it holds one.
pub data Wake : Type 0 where
  ctx_done : Wake
  timer_fired : Wake
  reply_ready : Wake

-- What one attempt meets. `backoffs` has the waits of allocateOnAnyTuple until its deadline: `none`
-- is the end of the context, and a function is what others do meanwhile. `others` is what they do
-- while runSend waits for the reply.
pub record Turn : Type 0 where
  pub backoffs : List (Option (Engine → Engine))
  pub build : ℕ → Built
  pub random : Option (List ℕ)
  pub write_error : Option (List ℕ)
  pub offset_ms : ℤ
  pub reply_offset_ms : ℤ
  pub latency_us : ℤ
  pub others : Engine → Engine
  pub wake : Wake

pub data Call : Type 0 where
  allocated : Tuple → ℕ → Call
  registers : MatchKey → Call
  transmits : Call
  waits : ℕ → Call  -- for that time, in nanoseconds
  receives : Call  -- a reply, from the channel of the request registered
  cancels : MatchKey → Call
  releases : Tuple → ℕ → Call

pub record SendResult : Type 0 where
  pub reply : Packet
  pub latency_us : ℤ
  pub retransmit_n : ℕ
  pub local_addr : Address
  pub identifier : ℕ

pub data SendError : Type 0 where
  unresolved : SendError  -- the error of resolveDst
  identifier_exhausted : SendError  -- ErrIdentifierExhausted
  cancelled : SendError  -- ctx.Err()
  build_failed : SendError
  nil_built : SendError
  encode_failed : Error → SendError
  write_failed : SendError
  final_timeout : SendError  -- ErrFinalTimeout

pub data SendOutcome : Type 0 where
  replied : SendResult → SendOutcome
  failed : SendError → SendOutcome

pub data Allocated : Type 0 where
  got : Address → ℕ → Allocated
  exhausted : Allocated
  alloc_cancelled : Allocated

-- The attempt on one socket; `next` goes on with the others.
on_tried :
    Address
    → (Engine → Engine × Option (Address × ℕ))
    → Engine
    → Option ℕ
    → Engine × Option (Address × ℕ)
on_tried sock next e none = next e
on_tried sock next e (some id) = (e, some (sock, id))

on_picked :
    Address
    → (Engine → Engine × Option (Address × ℕ))
    → Engine
    → Option Address
    → Engine × Option (Address × ℕ)
unfolding on_tried
on_picked dst next e none = next e
on_picked dst next e (some sock) =
    let r = allocate_for (sock, dst) e.id_alloc in
    on_tried sock next (record e { id_alloc = r.0 }) r.1

-- The loop of allocateOnAnyTuple over the sockets, with `left` of them left.
scan_sockets : Address → (left start : ℕ) → Engine → Engine × Option (Address × ℕ)
unfolding pick_at on_picked
scan_sockets dst zero start e = (e, none)
scan_sockets dst (suc left) start e =
    on_picked dst (scan_sockets dst left (suc start)) e (pick_at start e.sockets)

-- One round of its outer loop, from the next index of the round robin on.
scan_once : Address → Engine → Engine × Option (Address × ℕ)
unfolding scan_sockets
scan_once dst e = scan_sockets dst (length e.sockets) e.rr_idx (record e { rr_idx = suc e.rr_idx })

-- The outcome of a round, where the next thing is `otherwise`.
abbrev taken_or : Option (Address × ℕ) → Allocated → Allocated
taken_or none otherwise = otherwise
taken_or (some (sock, id)) otherwise = got sock id

-- The backoff, where no socket had an identifier free.
retry : (Engine → Engine × Allocated) → Engine → Option (Address × ℕ) → Engine × Allocated
retry next e none = next e
retry next e (some (sock, id)) = (e, got sock id)

-- allocateOnAnyTuple
pub allocate_on_any_tuple : Address → List (Option (Engine → Engine)) → Engine → Engine × Allocated
unfolding scan_once retry
allocate_on_any_tuple dst [] e = let r = scan_once dst e in (r.0, taken_or r.1 exhausted)
allocate_on_any_tuple dst (none ∷ rest) e =
    let r = scan_once dst e in (r.0, taken_or r.1 alloc_cancelled)
allocate_on_any_tuple dst (some others ∷ rest) e =
    let r = scan_once dst e in retry (λ e. allocate_on_any_tuple dst rest (others e)) r.0 r.1

-- The reply in the channel of a request.
reply_of : ℕ → List (Inflight × Delivery) → Option Delivery
reply_of serial [] = none
reply_of serial ((i, d) ∷ rest) =
    let later = reply_of serial rest in if i.serial == serial then some d else later

-- int(policy.MaxRetries) + 1, and 1 where that is less
unfoldable pub max_attempts : RetransmitPolicy → ℕ
max_attempts policy = let n = (policy.max_retries + 1) % 2 ^ 64 in if nonpositive n then 1 else n

-- The engine, the calls made, and the outcome; `none` is that the attempt timed out.
abbrev pub Attempt : Type 0
Attempt = Engine × List Call × Option SendOutcome

-- An attempt that timed out is followed by the rest of the loop.
then_next :
    Engine
    → List Call
    → Engine × List Call × SendOutcome
    → Option SendOutcome
    → Engine × List Call × SendOutcome
then_next e calls rest (some outcome) = (e, calls, outcome)
then_next e calls rest none = (rest.0, calls ++ rest.1, rest.2)

module _ (crypto : Crypto) (text_of : Address → List ℕ) (policy : RetransmitPolicy)
    (sub_id : ℕ) where
  -- Release of the identifier, as the last thing that an attempt does to the engine.
  give_back : Address → Address → ℕ → Engine → Engine
  give_back dst sock id e = record e { id_alloc = release_for (sock, dst) id e.id_alloc }

  -- Cancel and Release, on the timeout and at the end of the context.
  give_up : Address → Address → ℕ → Engine → Option SendOutcome → Attempt
  unfolding give_back
  give_up dst sock id e outcome = (
    give_back dst sock id (record e { matcher = cancel (text_of sock, id) e.matcher }),
    cancels (text_of sock, id) ∷ releases (sock, dst) id ∷ [],
    outcome,
  )

  -- The case of the select that takes the reply.
  take_reply : Address → Address → ℕ → Turn → ℕ → Delivery → Engine → Attempt
  unfolding give_back
  take_reply dst sock id t attempt d e =
      let released = give_back dst sock id e in
      (
        record released {
          log =
              released.log
              ++ new_reply_received sub_id t.reply_offset_ms none d.packet.code id (text_of sock)
                  d.remote_addr (length d.wire_bytes) t.latency_us
                ∷ [];
        },
        receives ∷ releases (sock, dst) id ∷ [],
        some (
            replied (record {
              reply = d.packet;
              latency_us = t.latency_us;
              retransmit_n = attempt;
              local_addr = sock;
              identifier = id;
            })),
      )

  -- The case of the channel of the reply, which holds `reply` or nothing.
  on_reply : Address → Address → ℕ → Turn → ℕ → Engine → Option Delivery → Attempt
  unfolding give_up take_reply
  on_reply dst sock id t attempt e none = give_up dst sock id e none
  on_reply dst sock id t attempt e (some d) = take_reply dst sock id t attempt d e

  -- The select.
  await : Address → Address → ℕ → Turn → ℕ → ℕ → Engine → Wake → Attempt
  unfolding give_up on_reply reply_of
  await dst sock id t attempt serial e ctx_done = give_up dst sock id e (some (failed cancelled))
  await dst sock id t attempt serial e timer_fired = give_up dst sock id e none
  await dst sock id t attempt serial e reply_ready =
      on_reply dst sock id t attempt e (reply_of serial e.matcher.delivered)

  -- Calls made before those of an attempt's end.
  abbrev after : List Call → Attempt → Attempt
  after calls a = (a.0, calls ++ a.1, a.2)

  -- From the write on, with the number of the entry registered.
  on_written : Address → Address → ℕ → Turn → ℕ → ℕ → ℕ → ℕ → Engine → Option (List ℕ) → Attempt
  unfolding await give_up
  on_written dst sock id t attempt code bytes serial e (some text) =
      let failure = give_up dst sock id e (some (failed write_failed)) in
      (
        record (failure.0) {
          log = (failure.0).log ++ new_error sub_id t.offset_ms internal_error 0 text ∷ [];
        },
        failure.1,
        failure.2,
      )
  on_written dst sock id t attempt code bytes serial e none =
      let sent = record e {
        log =
            e.log
            ++ new_request_sent sub_id t.offset_ms none code id (text_of sock) (text_of dst) bytes
                attempt
              ∷ [];
      } in
      after (transmits ∷ waits (attempt_timeout policy attempt) ∷ [])
        (await dst sock id t attempt serial (t.others sent) t.wake)

  -- From Register on, for the packet that Encode has left and its bytes.
  transmit : Address → Address → ℕ → Turn → ℕ → Packet → List ℕ → Engine → Attempt
  unfolding on_written
  transmit dst sock id t attempt req wire e =
      let entered = record e {
        matcher = register (text_of sock, id) req.authenticator sub_id e.matcher;
      } in
      after (registers (text_of sock, id) ∷ []) (
        on_written dst sock id t attempt req.code (length wire) e.matcher.next_serial entered
          t.write_error)

  -- An attempt that gives its identifier back before it has registered it.
  abandon : Address → Address → ℕ → Engine → SendError → Attempt
  unfolding give_back
  abandon dst sock id e why =
      (give_back dst sock id e, releases (sock, dst) id ∷ [], some (failed why))

  -- From Encode on.
  on_encoded : Address → Address → ℕ → Turn → ℕ → Engine → Packet → Result (List ℕ) → Attempt
  unfolding transmit abandon
  on_encoded dst sock id t attempt e req (err why) = abandon dst sock id e (encode_failed why)
  on_encoded dst sock id t attempt e req (ok wire) = transmit dst sock id t attempt req wire e

  -- From `build` on.
  on_built : Address → Address → ℕ → Turn → ℕ → Engine → Built → Attempt
  unfolding on_encoded abandon
  on_built dst sock id t attempt e build_error = abandon dst sock id e build_failed
  on_built dst sock id t attempt e nil_packet = abandon dst sock id e nil_built
  on_built dst sock id t attempt e (built p) =
      let r = encode crypto t.random (record p { identifier = id }) in
      on_encoded dst sock id t attempt e r.0 r.1

  on_allocated : Address → Turn → ℕ → Engine → Allocated → Attempt
  unfolding on_built
  on_allocated dst t attempt e exhausted = (e, [], some (failed identifier_exhausted))
  on_allocated dst t attempt e alloc_cancelled = (e, [], some (failed cancelled))
  on_allocated dst t attempt e (got sock id) =
      after (allocated (sock, dst) id ∷ []) (on_built dst sock id t attempt e (t.build id))

  -- The body of the loop of runSend.
  run_attempt : Address → Turn → ℕ → Engine → Attempt
  unfolding allocate_on_any_tuple on_allocated
  run_attempt dst t attempt e =
      let r = allocate_on_any_tuple dst t.backoffs e in on_allocated dst t attempt r.0 r.1

  -- The loop, with `left` attempts left.
  send_loop : Address → (ℕ → Turn) → (left attempt : ℕ) → Engine → Engine × List Call × SendOutcome
  unfolding run_attempt then_next
  send_loop dst turns zero attempt e = (e, [], failed final_timeout)
  send_loop dst turns (suc left) attempt e =
      let r = run_attempt dst (turns attempt) attempt e in
      then_next r.0 r.1 (send_loop dst turns left (suc attempt) r.0) r.2

  -- runSend, for the destination that resolveDst returns, `none` for its error, and the turn that
  -- each attempt meets
  unfoldable pub run_send : Option Address → (ℕ → Turn) → Engine → Engine × List Call × SendOutcome
  unfolding send_loop
  run_send none turns e = (e, [], failed unresolved)
  run_send (some dst) turns e = send_loop dst turns (max_attempts policy) 0 e
