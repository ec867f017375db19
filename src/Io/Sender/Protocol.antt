-- ===== src/Io/Sender/Protocol.antt =====
-- The order of the calls that runSend makes to the allocator and the matcher.
use radstorm.Prelude.{ℕ, zero, suc, Option, none, some, List, [], ◌∷◌, ◌++◌}
use radstorm.Radius.Result.{Result, err, ok}
use radstorm.Radius.Auth.{Crypto}
use radstorm.Radius.Packet.{Packet, encode}
use radstorm.Subscriber.Policy.{RetransmitPolicy}
use radstorm.Io.IdAlloc.Tuples.{Tuple}
use radstorm.Io.Matcher.{MatchKey, Delivery}
use radstorm.Io.Sender.{
  Address, Engine, Turn, Call, allocated, registers, transmits, waits, receives, cancels, releases,
  SendOutcome, SendError, nil_built, Wake, ctx_done, timer_fired, reply_ready, Built, build_error,
  nil_packet, built, Allocated, got, exhausted, alloc_cancelled, reply_of, give_up, take_reply,
  on_reply, await, on_written, transmit, abandon, on_encoded, on_built, on_allocated, run_attempt,
  then_next, send_loop, run_send, max_attempts,
}

-- What a sender has: nothing, an identifier, or an identifier and its entry in the table.
pub data Holding : Type 0 where
  idle : Holding
  holds : Tuple → ℕ → Holding
  registered : Tuple → ℕ → MatchKey → Holding

module _ (text_of : Address → List ℕ) where
  -- The calls lead from one to the other: an identifier is registered under the key of its socket
  -- and itself, and only where none is held another is allocated.
  pub data Follows : Holding → List Call → Holding → Type 0 where
    done : {h : Holding} → Follows h [] h
    allocating :
        (t : Tuple) (id : ℕ) {calls : List Call} {h : Holding}
        → Follows (holds t id) calls h
        → Follows idle (allocated t id ∷ calls) h
    registering :
        (sock dst : Address) (id : ℕ) {calls : List Call} {h : Holding}
        → Follows (registered (sock, dst) id (text_of sock, id)) calls h
        → Follows (holds (sock, dst) id) (registers (text_of sock, id) ∷ calls) h
    transmitting :
        (t : Tuple) (id : ℕ) (k : MatchKey) {calls : List Call} {h : Holding}
        → Follows (registered t id k) calls h
        → Follows (registered t id k) (transmits ∷ calls) h
    waiting :
        (t : Tuple) (id : ℕ) (k : MatchKey) (time : ℕ) {calls : List Call} {h : Holding}
        → Follows (registered t id k) calls h
        → Follows (registered t id k) (waits time ∷ calls) h
    receiving :
        (t : Tuple) (id : ℕ) (k : MatchKey) {calls : List Call} {h : Holding}
        → Follows (holds t id) calls h
        → Follows (registered t id k) (receives ∷ calls) h
    cancelling :
        (t : Tuple) (id : ℕ) (k : MatchKey) {calls : List Call} {h : Holding}
        → Follows (holds t id) calls h
        → Follows (registered t id k) (cancels k ∷ calls) h
    releasing :
        (t : Tuple) (id : ℕ) {calls : List Call} {h : Holding}
        → Follows idle calls h
        → Follows (holds t id) (releases t id ∷ calls) h

  Follows-append :
      {g h : Holding} {calls : List Call} (i : Holding) (more : List Call)
      → Follows g calls h
      → Follows h more i
      → Follows g (calls ++ more) i
  Follows-append i more done rest = rest
  Follows-append i more (allocating t id f) rest = allocating t id (Follows-append i more f rest)
  Follows-append i more (registering sock dst id f) rest =
      registering sock dst id (Follows-append i more f rest)
  Follows-append i more (transmitting t id k f) rest =
      transmitting t id k (Follows-append i more f rest)
  Follows-append i more (waiting t id k time f) rest =
      waiting t id k time (Follows-append i more f rest)
  Follows-append i more (receiving t id k f) rest = receiving t id k (Follows-append i more f rest)
  Follows-append i more (cancelling t id k f) rest =
      cancelling t id k (Follows-append i more f rest)
  Follows-append i more (releasing t id f) rest = releasing t id (Follows-append i more f rest)

  then_next-Follows :
      (e : Engine) (calls : List Call) (rest : Engine × List Call × SendOutcome)
      (o : Option SendOutcome)
      → Follows idle calls idle
      → Follows idle rest.1 idle
      → Follows idle (then_next e calls rest o).1 idle
  unfolding then_next
  then_next-Follows e calls rest (some outcome) first later = first
  then_next-Follows e calls rest none first later = Follows-append idle rest.1 first later

  module _ (crypto : Crypto) (policy : RetransmitPolicy) (sub_id : ℕ) where
    give_up-Follows :
        (dst sock : Address) (id : ℕ) (e : Engine) (o : Option SendOutcome)
        → Follows
            (registered (sock, dst) id (text_of sock, id))
            (give_up crypto text_of policy sub_id dst sock id e o).1
            idle
    unfolding give_up
    give_up-Follows dst sock id e o =
        cancelling (sock, dst) id (text_of sock, id) (releasing (sock, dst) id done)

    on_reply-Follows :
        (dst sock : Address) (id : ℕ) (t : Turn) (attempt : ℕ) (e : Engine) (o : Option Delivery)
        → Follows
            (registered (sock, dst) id (text_of sock, id))
            (on_reply crypto text_of policy sub_id dst sock id t attempt e o).1
            idle
    unfolding on_reply take_reply
    on_reply-Follows dst sock id t attempt e none = give_up-Follows dst sock id e none
    on_reply-Follows dst sock id t attempt e (some d) =
        receiving (sock, dst) id (text_of sock, id) (releasing (sock, dst) id done)

    await-Follows :
        (dst sock : Address) (id : ℕ) (t : Turn) (attempt serial : ℕ) (e : Engine) (w : Wake)
        → Follows
            (registered (sock, dst) id (text_of sock, id))
            (await crypto text_of policy sub_id dst sock id t attempt serial e w).1
            idle
    unfolding await
    await-Follows dst sock id t attempt serial e ctx_done = give_up-Follows dst sock id e none
    await-Follows dst sock id t attempt serial e timer_fired = give_up-Follows dst sock id e none
    await-Follows dst sock id t attempt serial e reply_ready =
        on_reply-Follows dst sock id t attempt e (reply_of serial e.matcher.delivered)

    on_written-Follows :
        (dst sock : Address) (id : ℕ) (t : Turn) (attempt code bytes serial : ℕ) (e : Engine)
        (o : Option (List ℕ))
        → Follows
            (registered (sock, dst) id (text_of sock, id))
            (on_written crypto text_of policy sub_id dst sock id t attempt code bytes serial e o).1
            idle
    unfolding on_written
    on_written-Follows dst sock id t attempt code bytes serial e (some text) =
        give_up-Follows dst sock id e none
    on_written-Follows dst sock id t attempt code bytes serial e none =
        transmitting (sock, dst) id (text_of sock, id)
          (waiting (sock, dst) id (text_of sock, id) _
            (await-Follows dst sock id t attempt serial _ t.wake))

    abandon-Follows :
        (dst sock : Address) (id : ℕ) (e : Engine) (why : SendError)
        → Follows
            (holds (sock, dst) id)
            (abandon crypto text_of policy sub_id dst sock id e why).1
            idle
    unfolding abandon
    abandon-Follows dst sock id e why = releasing (sock, dst) id done

    on_encoded-Follows :
        (dst sock : Address) (id : ℕ) (t : Turn) (attempt : ℕ) (e : Engine) (req : Packet)
        (r : Result (List ℕ))
        → Follows
            (holds (sock, dst) id)
            (on_encoded crypto text_of policy sub_id dst sock id t attempt e req r).1
            idle
    unfolding on_encoded transmit
    on_encoded-Follows dst sock id t attempt e req (err why) =
        abandon-Follows dst sock id e nil_built
    on_encoded-Follows dst sock id t attempt e req (ok wire) =
        registering sock dst id (on_written-Follows dst sock id t attempt _ _ _ _ t.write_error)

    on_built-Follows :
        (dst sock : Address) (id : ℕ) (t : Turn) (attempt : ℕ) (e : Engine) (b : Built)
        → Follows
            (holds (sock, dst) id)
            (on_built crypto text_of policy sub_id dst sock id t attempt e b).1
            idle
    unfolding on_built
    on_built-Follows dst sock id t attempt e build_error = abandon-Follows dst sock id e nil_built
    on_built-Follows dst sock id t attempt e nil_packet = abandon-Follows dst sock id e nil_built
    on_built-Follows dst sock id t attempt e (built p) =
        let r = encode crypto t.random (record p { identifier = id }) in
        on_encoded-Follows dst sock id t attempt e r.0 r.1

    on_allocated-Follows :
        (dst : Address) (t : Turn) (attempt : ℕ) (e : Engine) (a : Allocated)
        → Follows idle (on_allocated crypto text_of policy sub_id dst t attempt e a).1 idle
    unfolding on_allocated
    on_allocated-Follows dst t attempt e exhausted = done
    on_allocated-Follows dst t attempt e alloc_cancelled = done
    on_allocated-Follows dst t attempt e (got sock id) =
        allocating (sock, dst) id (on_built-Follows dst sock id t attempt e (t.build id))

    run_attempt-Follows :
        (dst : Address) (t : Turn) (attempt : ℕ) (e : Engine)
        → Follows idle (run_attempt crypto text_of policy sub_id dst t attempt e).1 idle
    unfolding run_attempt
    run_attempt-Follows dst t attempt e = on_allocated-Follows dst t attempt _ _

    send_loop-Follows :
        (dst : Address) (turns : ℕ → Turn) (left attempt : ℕ) (e : Engine)
        → Follows idle (send_loop crypto text_of policy sub_id dst turns left attempt e).1 idle
    unfolding send_loop
    send_loop-Follows dst turns zero attempt e = done
    send_loop-Follows dst turns (suc left) attempt e =
        let r = run_attempt crypto text_of policy sub_id dst (turns attempt) attempt e in
        let first = run_attempt-Follows dst (turns attempt) attempt e in
        let later = send_loop-Follows dst turns left (suc attempt) r.0 in
        then_next-Follows r.0 r.1
          (send_loop crypto text_of policy sub_id dst turns left (suc attempt) r.0) r.2 first later

    -- On every path of runSend, each identifier that it is handed is registered only under the key
    -- of its socket and itself, a reply is awaited only while registered, and the identifier is
    -- released exactly once, behind the end of its entry, before another is allocated and before
    -- runSend returns.
    pub run_send-Follows :
        (dst : Option Address) (turns : ℕ → Turn) (e : Engine)
        → Follows idle (run_send crypto text_of policy sub_id dst turns e).1 idle
    unfolding run_send
    run_send-Follows none turns e = done
    run_send-Follows (some dst) turns e = send_loop-Follows dst turns (max_attempts policy) 0 e
