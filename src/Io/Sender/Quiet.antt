-- ===== src/Io/Sender/Quiet.antt =====
-- What runSend leaves of the identifiers in flight, where no other sender is at work.
use radstorm.Prelude.{ℕ, zero, suc, ◌≡◌, refl, ap, ◌∙◌, Option, none, some, List}
use radstorm.Radius.Result.{Result, err, ok}
use radstorm.Radius.Auth.{Crypto}
use radstorm.Radius.Packet.{Packet, encode}
use radstorm.Subscriber.Policy.{RetransmitPolicy}
use radstorm.Io.Matcher.{Delivery}
use radstorm.Io.IdAlloc.Tuples.{release_for, releases, AllValid, perform-IsCall}
use radstorm.Io.Sender.{
  Address, Engine, Turn, Call, SendOutcome, Wake, ctx_done, timer_fired, reply_ready, Built,
  build_error, nil_packet, built, Allocated, got, exhausted, alloc_cancelled, allocate_on_any_tuple,
  reply_of, give_back, give_up, take_reply, on_reply, await, on_written, transmit, abandon,
  on_encoded, on_built, on_allocated, run_attempt, then_next, send_loop, run_send, max_attempts,
}
use radstorm.Io.Sender.Restored.{
  SameHeld, IsQuietly, IsQuiet, AllocatedFrom, taken_back, allocate_on_any_tuple-AllocatedFrom,
}

module _ (crypto : Crypto) (text_of : Address → List ℕ) (policy : RetransmitPolicy)
    (sub_id : ℕ) where
  -- From an identifier on, an attempt comes to its release and does no more to the allocator.
  abbrev IsReleased : Address → Address → ℕ → Engine → Engine → Type 0
  IsReleased dst sock id e f = f.id_alloc ≡ release_for (sock, dst) id e.id_alloc

  on_reply-IsReleased :
      (dst sock : Address) (id : ℕ) (t : Turn) (attempt : ℕ) (e : Engine) (o : Option Delivery)
      → IsReleased dst sock id e (on_reply crypto text_of policy sub_id dst sock id t attempt e o).0
  unfolding on_reply take_reply give_up give_back
  on_reply-IsReleased dst sock id t attempt e none = refl
  on_reply-IsReleased dst sock id t attempt e (some d) = refl

  await-IsReleased :
      (dst sock : Address) (id : ℕ) (t : Turn) (attempt serial : ℕ) (e : Engine) (w : Wake)
      → IsReleased dst sock id e
          (await crypto text_of policy sub_id dst sock id t attempt serial e w).0
  unfolding await give_up give_back
  await-IsReleased dst sock id t attempt serial e ctx_done = refl
  await-IsReleased dst sock id t attempt serial e timer_fired = refl
  await-IsReleased dst sock id t attempt serial e reply_ready =
      on_reply-IsReleased dst sock id t attempt e (reply_of serial e.matcher.delivered)

  on_written-IsReleased :
      (dst sock : Address) (id : ℕ) (t : Turn) (attempt code bytes serial : ℕ) (e : Engine)
      (o : Option (List ℕ))
      → IsQuietly t.others
      → IsReleased dst sock id e
          (on_written crypto text_of policy sub_id dst sock id t attempt code bytes serial e o).0
  unfolding on_written give_up give_back
  on_written-IsReleased dst sock id t attempt code bytes serial e (some text) calm = refl
  on_written-IsReleased dst sock id t attempt code bytes serial e none calm =
      await-IsReleased dst sock id t attempt serial _ t.wake
      ∙ ap (release_for (sock, dst) id) (calm _)

  on_encoded-IsReleased :
      (dst sock : Address) (id : ℕ) (t : Turn) (attempt : ℕ) (e : Engine) (req : Packet)
      (x : Result (List ℕ))
      → IsQuietly t.others
      → IsReleased dst sock id e
          (on_encoded crypto text_of policy sub_id dst sock id t attempt e req x).0
  unfolding on_encoded transmit abandon give_back
  on_encoded-IsReleased dst sock id t attempt e req (err why) calm = refl
  on_encoded-IsReleased dst sock id t attempt e req (ok wire) calm =
      on_written-IsReleased dst sock id t attempt _ _ _ _ t.write_error calm

  on_built-IsReleased :
      (dst sock : Address) (id : ℕ) (t : Turn) (attempt : ℕ) (e : Engine) (b : Built)
      → IsQuietly t.others
      → IsReleased dst sock id e (on_built crypto text_of policy sub_id dst sock id t attempt e b).0
  unfolding on_built abandon give_back
  on_built-IsReleased dst sock id t attempt e build_error calm = refl
  on_built-IsReleased dst sock id t attempt e nil_packet calm = refl
  on_built-IsReleased dst sock id t attempt e (built p) calm =
      let r = encode crypto t.random (record p { identifier = id }) in
      on_encoded-IsReleased dst sock id t attempt e r.0 r.1 calm

  -- The same identifiers are in flight, on valid bitmaps.
  abbrev IsRestored : Engine → Engine → Type 0
  IsRestored e f = SameHeld e.id_alloc f.id_alloc × AllValid f.id_alloc

  on_allocated-IsRestored :
      (dst : Address) (t : Turn) (attempt : ℕ) (e m : Engine) (a : Allocated)
      → IsQuietly t.others
      → AllocatedFrom dst e (m, a)
      → IsRestored e (on_allocated crypto text_of policy sub_id dst t attempt m a).0
  unfolding on_allocated
  on_allocated-IsRestored dst t attempt e m exhausted calm h = h
  on_allocated-IsRestored dst t attempt e m alloc_cancelled calm h = h
  on_allocated-IsRestored dst t attempt e m (got sock id) calm ((small, free, more), valid) =
      let last : Engine =
        (on_built crypto text_of policy sub_id dst sock id t attempt m (t.build id)).0 in
      let released : last.id_alloc ≡ release_for (sock, dst) id m.id_alloc =
        on_built-IsReleased dst sock id t attempt m (t.build id) calm in
      let (fewer, after) = perform-IsCall (releases (sock, dst) id small) m.id_alloc valid in
      rw released (
        taken_back e.id_alloc m.id_alloc (release_for (sock, dst) id m.id_alloc) (sock, dst) id free
            more fewer,
        after,
      )

  run_attempt-IsRestored :
      (dst : Address) (t : Turn) (attempt : ℕ) (e : Engine)
      → IsQuiet t
      → AllValid e.id_alloc
      → IsRestored e (run_attempt crypto text_of policy sub_id dst t attempt e).0
  unfolding run_attempt
  run_attempt-IsRestored dst t attempt e (calm, q) v =
      let r = allocate_on_any_tuple dst t.backoffs e in
      on_allocated-IsRestored dst t attempt e r.0 r.1 calm
        (allocate_on_any_tuple-AllocatedFrom dst t.backoffs e q v)

  then_next-IsRestored :
      (e f : Engine) (calls : List Call) (rest : Engine × List Call × SendOutcome)
      (o : Option SendOutcome)
      → IsRestored e f
      → IsRestored f rest.0
      → IsRestored e (then_next f calls rest o).0
  unfolding then_next
  then_next-IsRestored e f calls rest none (same, v) (later, v') = (λ u j. later u j ∙ same u j, v')
  then_next-IsRestored e f calls rest (some outcome) now later = now

  send_loop-IsRestored :
      (dst : Address) (turns : ℕ → Turn) (left attempt : ℕ) (e : Engine)
      → ((n : ℕ) → IsQuiet (turns n))
      → AllValid e.id_alloc
      → IsRestored e (send_loop crypto text_of policy sub_id dst turns left attempt e).0
  unfolding send_loop
  send_loop-IsRestored dst turns zero attempt e q v = (λ u j. refl, v)
  send_loop-IsRestored dst turns (suc left) attempt e q v =
      let r = run_attempt crypto text_of policy sub_id dst (turns attempt) attempt e in
      let now = run_attempt-IsRestored dst (turns attempt) attempt e (q attempt) v in
      then_next-IsRestored e r.0 r.1
        (send_loop crypto text_of policy sub_id dst turns left (suc attempt) r.0) r.2 now
        (send_loop-IsRestored dst turns left (suc attempt) r.0 q now.1)

  -- If the rest of the program leaves the allocator alone meanwhile, the identifiers in use after
  -- runSend are those in use before it, whatever its attempts meet, and the bitmaps stay valid.
  pub run_send-SameHeld :
      (dst : Option Address) (turns : ℕ → Turn) (e : Engine)
      → ((n : ℕ) → IsQuiet (turns n))
      → AllValid e.id_alloc
      → let f = (run_send crypto text_of policy sub_id dst turns e).0 in
        SameHeld e.id_alloc f.id_alloc × AllValid f.id_alloc
  unfolding run_send
  run_send-SameHeld none turns e q v = (λ u j. refl, v)
  run_send-SameHeld (some dst) turns e q v =
      send_loop-IsRestored dst turns (max_attempts policy) 0 e q v
