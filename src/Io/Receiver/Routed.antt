-- ===== src/Io/Receiver/Routed.antt =====
-- Where dispatch sends a datagram, and what any number of datagrams do to the table of the replies.
use radstorm.Prelude.{
  ℕ, suc, ◌+◌, ◌≤◌, Bool, true, ◌||◌, List, [], ◌∷◌, ◌==◌, length, ◌≡◌, Bool-cases, inl, inr,
  length-append, arith, All,
}
use radstorm.Radius.Result.{Result, Error, err, ok}
use radstorm.Radius.Auth.{Crypto}
use radstorm.Radius.Code.{is_response, coa_request, disconnect_request}
use radstorm.Radius.Packet.{Packet, decode}
use radstorm.Io.Matcher.{ReplyMatcher, new_reply_matcher, deliveries, accepts}
use radstorm.Io.Matcher.Steps.{Inv, Reach, here, next, new-Inv, Reach-Inv}
use radstorm.Io.Matcher.Once.{deliver-Reach, Reach-once}
use radstorm.Io.Receiver.{
  Inbox, Datagram, Route, to_matcher, to_handler, to_log, put_in, to_deliver, route, on_decoded,
  dispatch, receive_all,
}

module _ (crypto : Crypto) (secret : List ℕ) where
  Reach-trans :
      {l m n : ReplyMatcher}
      → Reach crypto secret l m
      → Reach crypto secret m n
      → Reach crypto secret l n
  Reach-trans first here = first
  Reach-trans first (next more step) = next (Reach-trans first more) step

  -- What came of the datagrams: calls of Deliver, packets handed on, and events.
  abbrev pub outcomes : Inbox → ℕ
  outcomes b = length b.match_events + length b.handled + length b.log

  put_in-outcomes : (r : Route) (b : Inbox) → outcomes (put_in r b) ≡ suc (outcomes b)
  unfolding put_in
  put_in-outcomes (to_matcher event m) b = omega (arith, length-append b.match_events (event ∷ []))
  put_in-outcomes (to_handler pkt) b = omega (arith, length-append b.handled (pkt ∷ []))
  put_in-outcomes (to_log event) b = omega (arith, length-append b.log (event ∷ []))

  -- The table that a route leaves is one that atomic calls lead to.
  abbrev Leads : ReplyMatcher → Route → Type 0
  Leads m (to_matcher event n) = Reach crypto secret m n
  Leads m (to_handler pkt) = Unit
  Leads m (to_log event) = Unit

  put_in-Reach :
      (r : Route) (b : Inbox)
      → Leads b.matcher r
      → Reach crypto secret b.matcher (put_in r b).matcher
  unfolding put_in
  put_in-Reach (to_matcher event m) b h = h
  put_in-Reach (to_handler pkt) b h = here
  put_in-Reach (to_log event) b h = here

  -- What others do between the sections of Deliver are calls of the matcher.
  abbrev pub IsFair : Datagram → Type 0
  IsFair g =
      ((m : ReplyMatcher) → Reach crypto secret m (g.meanwhile m))
      × ((m : ReplyMatcher) → Reach crypto secret m (g.meanwhile_lost m))

  module _ (has_handler : Bool) (error_text : Error → List ℕ) where
    route-Leads :
        (g : Datagram) (m : ReplyMatcher) (pkt : Packet)
        → IsFair g
        → Inv crypto secret m
        → Leads m (route crypto secret has_handler error_text g m pkt)
    unfolding route to_deliver
    route-Leads g m pkt fair v = elim (Bool-cases (is_response pkt.code)) [
      | inl e ↦ rw e (
          Reach-trans (fair.0 m) (
            deliver-Reach crypto secret m (g.meanwhile m) (g.meanwhile_lost (g.meanwhile m))
              (g.local, pkt.identifier)
              (record { packet = pkt; wire_bytes = g.wire; remote_addr = g.remote }) g.now v
              (fair.0 m) (fair.1 (g.meanwhile m))))
      | inr e ↦ elim (Bool-cases (pkt.code == coa_request || pkt.code == disconnect_request)) [
        | inl own ↦ elim (Bool-cases has_handler) [
          | inl yes_handler ↦ rw (e, own, yes_handler) tt
          | inr no_handler ↦ rw (e, own, no_handler) tt
        ]
        | inr foreign ↦ rw (e, foreign) tt
      ]
    ]

    on_decoded-Leads :
        (g : Datagram) (m : ReplyMatcher) (r : Result Packet)
        → IsFair g
        → Inv crypto secret m
        → Leads m (on_decoded crypto secret has_handler error_text g m r)
    unfolding on_decoded
    on_decoded-Leads g m (err why) fair v = tt
    on_decoded-Leads g m (ok pkt) fair v = route-Leads g m pkt fair v

    dispatch-Reach :
        (g : Datagram) (b : Inbox)
        → IsFair g
        → Inv crypto secret b.matcher
        → Reach crypto secret b.matcher (dispatch crypto secret has_handler error_text g b).matcher
    unfolding dispatch
    dispatch-Reach g b fair v =
        put_in-Reach
          (on_decoded crypto secret has_handler error_text g b.matcher (decode g.wire secret)) b
          (on_decoded-Leads g b.matcher (decode g.wire secret) fair v)

    receive_all-Reach :
        (datagrams : List Datagram) (b : Inbox)
        → All IsFair datagrams
        → Inv crypto secret b.matcher
        → Reach crypto secret b.matcher
            (receive_all crypto secret has_handler error_text datagrams b).matcher
    unfolding receive_all
    receive_all-Reach [] b fair v = here
    receive_all-Reach (g ∷ datagrams) b (now, later) v =
        let first = dispatch-Reach g b now v in
        Reach-trans first (
          receive_all-Reach datagrams (dispatch crypto secret has_handler error_text g b) later
            (Reach-Inv crypto secret v first))

    receive_all-outcomes :
        (datagrams : List Datagram) (b : Inbox)
        → outcomes (receive_all crypto secret has_handler error_text datagrams b)
          ≡ outcomes b + length datagrams
    unfolding receive_all dispatch
    receive_all-outcomes [] b = omega arith
    receive_all-outcomes (g ∷ datagrams) b =
        let r =
          on_decoded crypto secret has_handler error_text g b.matcher (decode g.wire secret) in
        omega (arith, put_in-outcomes r b, receive_all-outcomes datagrams (put_in r b))

    -- From a table that calls have led to, each datagram dispatched has exactly one outcome, no
    -- reply is dropped for a full channel, each request is handed at most one reply, and each
    -- reply handed over was accepted, if the others between the sections of Deliver only make
    -- calls of the matcher.
    pub receive_all-once :
        (datagrams : List Datagram) (b : Inbox)
        → All IsFair datagrams
        → Reach crypto secret new_reply_matcher b.matcher
        → let after = receive_all crypto secret has_handler error_text datagrams b in
          (outcomes after ≡ outcomes b + length datagrams)
          × (after.matcher.lost ≡ 0)
          × ((n : ℕ) → deliveries n after.matcher.delivered ≤ 1)
          × All (λ e. accepts crypto (e.0).authenticator secret e.1 ≡ true) after.matcher.delivered
    receive_all-once datagrams b fair r =
        let v = Reach-Inv crypto secret (new-Inv crypto secret) r in
        let after = receive_all crypto secret has_handler error_text datagrams b in
        let (whole, once, good) =
          Reach-once crypto secret after.matcher
            (Reach-trans r (receive_all-Reach datagrams b fair v)) in
        (receive_all-outcomes datagrams b, whole, once, good)
