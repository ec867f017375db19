-- ===== src/Io/Sender/Counted.antt =====
-- How often runSend transmits, and how long it waits each time.
use radstorm.Prelude.{
  ℕ, zero, suc, ◌+◌, ◌≤◌, ◌<◌, ◌≡◌, refl, subst, ap, ltb, ◌^◌, if◌then◌else◌, Option, none, some,
  List, [], ◌∷◌, ◌++◌, arith,
}
use radstorm.Radius.Result.{Result, err, ok}
use radstorm.Radius.Auth.{Crypto}
use radstorm.Radius.Packet.{Packet, encode}
use radstorm.Subscriber.Policy.{RetransmitPolicy, attempt_timeout}
use radstorm.Io.Matcher.{Delivery}
use radstorm.Io.Sender.{
  Address, Engine, Turn, Call, allocated, registers, transmits, waits, receives, cancels, releases,
  SendOutcome, replied, failed, unresolved, identifier_exhausted, cancelled, build_failed,
  nil_built, encode_failed, write_failed, final_timeout, Wake, ctx_done, timer_fired, reply_ready,
  Built, build_error, nil_packet, built, Allocated, got, exhausted, alloc_cancelled, reply_of,
  give_up, take_reply, on_reply, await, on_written, transmit, abandon, on_encoded, on_built,
  on_allocated, run_attempt, then_next, send_loop, run_send, max_attempts,
}

-- The attempts for a MaxRetries, an int as a word: one more than it where it is not negative and not
-- the largest, and else 1.
abbrev pub allowed_attempts : ℕ → ℕ
allowed_attempts max_retries = if ltb max_retries 9223372036854775807 then suc max_retries else 1

max_attempts_lem :
    (policy : RetransmitPolicy)
    → policy.max_retries < 2 ^ 64
    → max_attempts policy ≡ allowed_attempts policy.max_retries
unfolding max_attempts
max_attempts_lem policy h = ground arith

-- The times that runSend waits for a reply, once after each transmission.
abbrev pub waited : List Call → List ℕ
waited [] = []
waited (allocated t id ∷ calls) = waited calls
waited (registers k ∷ calls) = waited calls
waited (transmits ∷ calls) = waited calls
waited (waits time ∷ calls) = time ∷ waited calls
waited (receives ∷ calls) = waited calls
waited (cancels k ∷ calls) = waited calls
waited (releases t id ∷ calls) = waited calls

waited-append : (calls more : List Call) → waited (calls ++ more) ≡ waited calls ++ waited more
waited-append [] more = refl
waited-append (allocated t id ∷ calls) more = waited-append calls more
waited-append (registers k ∷ calls) more = waited-append calls more
waited-append (transmits ∷ calls) more = waited-append calls more
waited-append (waits time ∷ calls) more = ap (λ l. time ∷ l) (waited-append calls more)
waited-append (receives ∷ calls) more = waited-append calls more
waited-append (cancels k ∷ calls) more = waited-append calls more
waited-append (releases t id ∷ calls) more = waited-append calls more

module _ (policy : RetransmitPolicy) where
  -- The times of `n` attempts, from one on.
  abbrev pub timeouts : (attempt n : ℕ) → List ℕ
  timeouts attempt zero = []
  timeouts attempt (suc n) = attempt_timeout policy attempt ∷ timeouts (suc attempt) n

  -- What one attempt waits, by its outcome.
  abbrev IsAttempt : ℕ → List ℕ → Option SendOutcome → Type 0
  IsAttempt attempt times none = times ≡ timeouts attempt 1
  IsAttempt attempt times (some (replied r)) =
      (times ≡ timeouts attempt 1) × (r.retransmit_n ≡ attempt)
  IsAttempt attempt times (some (failed final_timeout)) = ⊥
  IsAttempt attempt times (some (failed why)) = (n : ℕ) × (n ≤ 1) × (times ≡ timeouts attempt n)

  -- What the loop waits with `left` attempts left, by its outcome.
  abbrev pub IsSent : (attempt left : ℕ) → List ℕ → SendOutcome → Type 0
  IsSent attempt left times (replied r) =
      (n : ℕ) × (n < left) × (r.retransmit_n ≡ attempt + n) × (times ≡ timeouts attempt (suc n))
  IsSent attempt left times (failed final_timeout) = times ≡ timeouts attempt left
  IsSent attempt left times (failed why) = (n : ℕ) × (n ≤ left) × (times ≡ timeouts attempt n)

  -- An attempt that timed out, before the rest of the loop.
  one_more :
      (attempt left : ℕ) (times more : List ℕ) (o : SendOutcome)
      → times ≡ timeouts attempt 1
      → IsSent (suc attempt) left more o
      → IsSent attempt (suc left) (times ++ more) o
  one_more attempt left times more (replied r) h (n, small, count, rest) =
      (suc n, omega arith, omega arith, rw (h, rest) refl)
  one_more attempt left times more (failed final_timeout) h rest = rw (h, rest) refl
  one_more attempt left times more (failed unresolved) h (n, small, rest) =
      (suc n, omega arith, rw (h, rest) refl)
  one_more attempt left times more (failed identifier_exhausted) h (n, small, rest) =
      (suc n, omega arith, rw (h, rest) refl)
  one_more attempt left times more (failed cancelled) h (n, small, rest) =
      (suc n, omega arith, rw (h, rest) refl)
  one_more attempt left times more (failed build_failed) h (n, small, rest) =
      (suc n, omega arith, rw (h, rest) refl)
  one_more attempt left times more (failed nil_built) h (n, small, rest) =
      (suc n, omega arith, rw (h, rest) refl)
  one_more attempt left times more (failed (encode_failed e)) h (n, small, rest) =
      (suc n, omega arith, rw (h, rest) refl)
  one_more attempt left times more (failed write_failed) h (n, small, rest) =
      (suc n, omega arith, rw (h, rest) refl)

  then_next-IsSent :
      (attempt left : ℕ) (e : Engine) (calls : List Call) (rest : Engine × List Call × SendOutcome)
      (o : Option SendOutcome)
      → IsAttempt attempt (waited calls) o
      → IsSent (suc attempt) left (waited rest.1) rest.2
      → let r = then_next e calls rest o in IsSent attempt (suc left) (waited r.1) r.2
  unfolding then_next
  then_next-IsSent attempt left e calls rest none h k =
      rw (waited-append calls rest.1)
        (one_more attempt left (waited calls) (waited rest.1) rest.2 h k)
  then_next-IsSent attempt left e calls rest (some (replied r)) h k =
      (0, omega arith, omega (arith, h.1), h.0)
  then_next-IsSent attempt left e calls rest (some (failed final_timeout)) h k = absurd h
  then_next-IsSent attempt left e calls rest (some (failed unresolved)) h k =
      (h.0, omega (arith, h.1), h.2)
  then_next-IsSent attempt left e calls rest (some (failed identifier_exhausted)) h k =
      (h.0, omega (arith, h.1), h.2)
  then_next-IsSent attempt left e calls rest (some (failed cancelled)) h k =
      (h.0, omega (arith, h.1), h.2)
  then_next-IsSent attempt left e calls rest (some (failed build_failed)) h k =
      (h.0, omega (arith, h.1), h.2)
  then_next-IsSent attempt left e calls rest (some (failed nil_built)) h k =
      (h.0, omega (arith, h.1), h.2)
  then_next-IsSent attempt left e calls rest (some (failed (encode_failed why))) h k =
      (h.0, omega (arith, h.1), h.2)
  then_next-IsSent attempt left e calls rest (some (failed write_failed)) h k =
      (h.0, omega (arith, h.1), h.2)

module _ (crypto : Crypto) (text_of : Address → List ℕ) (policy : RetransmitPolicy)
    (sub_id : ℕ) where
  on_reply-IsAttempt :
      (dst sock : Address) (id : ℕ) (t : Turn) (attempt : ℕ) (e : Engine) (o : Option Delivery)
      → let r = on_reply crypto text_of policy sub_id dst sock id t attempt e o in
        IsAttempt policy attempt (attempt_timeout policy attempt ∷ waited r.1) r.2
  unfolding on_reply take_reply give_up
  on_reply-IsAttempt dst sock id t attempt e none = refl
  on_reply-IsAttempt dst sock id t attempt e (some d) = (refl, refl)

  await-IsAttempt :
      (dst sock : Address) (id : ℕ) (t : Turn) (attempt serial : ℕ) (e : Engine) (w : Wake)
      → let r = await crypto text_of policy sub_id dst sock id t attempt serial e w in
        IsAttempt policy attempt (attempt_timeout policy attempt ∷ waited r.1) r.2
  unfolding await give_up
  await-IsAttempt dst sock id t attempt serial e ctx_done = (1, omega arith, refl)
  await-IsAttempt dst sock id t attempt serial e timer_fired = refl
  await-IsAttempt dst sock id t attempt serial e reply_ready =
      on_reply-IsAttempt dst sock id t attempt e (reply_of serial e.matcher.delivered)

  on_written-IsAttempt :
      (dst sock : Address) (id : ℕ) (t : Turn) (attempt code bytes serial : ℕ) (e : Engine)
      (o : Option (List ℕ))
      → let r =
          on_written crypto text_of policy sub_id dst sock id t attempt code bytes serial e o in
        IsAttempt policy attempt (waited r.1) r.2
  unfolding on_written give_up
  on_written-IsAttempt dst sock id t attempt code bytes serial e (some text) =
      (0, omega arith, refl)
  on_written-IsAttempt dst sock id t attempt code bytes serial e none =
      await-IsAttempt dst sock id t attempt serial _ t.wake

  on_encoded-IsAttempt :
      (dst sock : Address) (id : ℕ) (t : Turn) (attempt : ℕ) (e : Engine) (req : Packet)
      (x : Result (List ℕ))
      → let r = on_encoded crypto text_of policy sub_id dst sock id t attempt e req x in
        IsAttempt policy attempt (waited r.1) r.2
  unfolding on_encoded transmit abandon
  on_encoded-IsAttempt dst sock id t attempt e req (err why) = (0, omega arith, refl)
  on_encoded-IsAttempt dst sock id t attempt e req (ok wire) =
      on_written-IsAttempt dst sock id t attempt _ _ _ _ t.write_error

  on_built-IsAttempt :
      (dst sock : Address) (id : ℕ) (t : Turn) (attempt : ℕ) (e : Engine) (b : Built)
      → let r = on_built crypto text_of policy sub_id dst sock id t attempt e b in
        IsAttempt policy attempt (waited r.1) r.2
  unfolding on_built abandon
  on_built-IsAttempt dst sock id t attempt e build_error = (0, omega arith, refl)
  on_built-IsAttempt dst sock id t attempt e nil_packet = (0, omega arith, refl)
  on_built-IsAttempt dst sock id t attempt e (built p) =
      let r = encode crypto t.random (record p { identifier = id }) in
      on_encoded-IsAttempt dst sock id t attempt e r.0 r.1

  on_allocated-IsAttempt :
      (dst : Address) (t : Turn) (attempt : ℕ) (e : Engine) (a : Allocated)
      → let r = on_allocated crypto text_of policy sub_id dst t attempt e a in
        IsAttempt policy attempt (waited r.1) r.2
  unfolding on_allocated
  on_allocated-IsAttempt dst t attempt e exhausted = (0, omega arith, refl)
  on_allocated-IsAttempt dst t attempt e alloc_cancelled = (0, omega arith, refl)
  on_allocated-IsAttempt dst t attempt e (got sock id) =
      on_built-IsAttempt dst sock id t attempt e (t.build id)

  run_attempt-IsAttempt :
      (dst : Address) (t : Turn) (attempt : ℕ) (e : Engine)
      → let r = run_attempt crypto text_of policy sub_id dst t attempt e in
        IsAttempt policy attempt (waited r.1) r.2
  unfolding run_attempt
  run_attempt-IsAttempt dst t attempt e = on_allocated-IsAttempt dst t attempt _ _

  send_loop-IsSent :
      (dst : Address) (turns : ℕ → Turn) (left attempt : ℕ) (e : Engine)
      → let r = send_loop crypto text_of policy sub_id dst turns left attempt e in
        IsSent policy attempt left (waited r.1) r.2
  unfolding send_loop
  send_loop-IsSent dst turns zero attempt e = refl
  send_loop-IsSent dst turns (suc left) attempt e =
      let r = run_attempt crypto text_of policy sub_id dst (turns attempt) attempt e in
      then_next-IsSent policy attempt left r.0 r.1
        (send_loop crypto text_of policy sub_id dst turns left (suc attempt) r.0) r.2
        (run_attempt-IsAttempt dst (turns attempt) attempt e)
        (send_loop-IsSent dst turns left (suc attempt) r.0)

  -- The waits of runSend for a reply are the timeouts of its attempts in order, at most one more
  -- than MaxRetries where that is an int that is not negative and not the largest, and else at
  -- most one; the final timeout comes exactly behind all of them, and a reply reports the number
  -- of waits before its own.
  pub run_send-IsSent :
      (dst : Option Address) (turns : ℕ → Turn) (e : Engine)
      → policy.max_retries < 2 ^ 64
      → let r = run_send crypto text_of policy sub_id dst turns e in
        IsSent policy 0 (allowed_attempts policy.max_retries) (waited r.1) r.2
  unfolding run_send
  run_send-IsSent none turns e h = (0, omega arith, refl)
  run_send-IsSent (some dst) turns e h =
      let r = send_loop crypto text_of policy sub_id dst turns (max_attempts policy) 0 e in
      subst (λ n. IsSent policy 0 n (waited r.1) r.2) (max_attempts_lem policy h)
        (send_loop-IsSent dst turns (max_attempts policy) 0 e)
