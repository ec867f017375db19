-- ===== src/Io/Receiver.antt =====
-- dispatch of pkg/io/receiver.go. A datagram goes to the matcher, to the handler or to the log, and
-- `none` as a handler is that none is registered. Other calls may come between the sections of
-- Deliver; `text_of` is the String of an address, and the text of an error is an argument.
pub mod Routed
use radstorm.Prelude.{
  ℕ, Bool, true, false, ◌||◌, Option, none, some, List, [], ◌∷◌, ◌++◌, ◌==◌, if◌then◌else◌, length,
  ◌≡◌, refl, Bool-cases, inl, inr,
}
use radstorm.Prelude.Int.{ℤ, pos}
use radstorm.Radius.Result.{Result, Error, err, ok}
use radstorm.Radius.Auth.{Crypto}
use radstorm.Radius.Code.{is_response, coa_request, disconnect_request}
use radstorm.Radius.Packet.{Packet, decode}
use radstorm.Events.{
  Event, new_error, validation_failed, new_coa_event, coa_dropped, new_disconnect_event,
  disconnect_received, new_unmatched_reply,
}
use radstorm.Io.Matcher.{MatchKey, Delivery, ReplyMatcher, MatchEvent, Inflight, deliver}

-- What the receiver has made of the datagrams: the table, the events submitted by the receiver and
-- by Deliver, and the packets passed to the handler.
pub record Inbox : Type 0 where
  pub matcher : ReplyMatcher
  pub log : List Event
  pub match_events : List (Option MatchEvent)
  pub handled : List Packet

-- Where a datagram goes: to the table, which Deliver leaves as the one given with the event that it
-- submits; to the handler; or to the log.
pub data Route : Type 0 where
  to_matcher : Option MatchEvent → ReplyMatcher → Route
  to_handler : Packet → Route
  to_log : Event → Route

put_in : Route → Inbox → Inbox
put_in (to_matcher event m) b = record b {
  matcher = m;
  match_events = b.match_events ++ event ∷ [];
}
put_in (to_handler pkt) b = record b { handled = b.handled ++ pkt ∷ [] }
put_in (to_log event) b = record b { log = b.log ++ event ∷ [] }

-- A datagram that a socket has read, with the readings of the clocks, and what others do between
-- the first two sections of Deliver, and before the third where the race is lost.
pub record Datagram : Type 0 where
  pub local : List ℕ
  pub remote : List ℕ
  pub offset_ms : ℤ
  pub now : ℕ
  pub wire : List ℕ
  pub meanwhile : ReplyMatcher → ReplyMatcher
  pub meanwhile_lost : ReplyMatcher → ReplyMatcher

-- A packet that a server sends of its own accord, where there is no handler.
unhandled : Datagram → Packet → Event
unhandled g pkt =
    if pkt.code == coa_request
    then new_coa_event 0 g.offset_ms coa_dropped (some pkt.identifier) g.local g.remote
        (length g.wire) (ℤ.pos 0) 0
    else new_disconnect_event 0 g.offset_ms disconnect_received (some pkt.identifier) g.local
        g.remote (length g.wire) (ℤ.pos 0) 0

module _ (crypto : Crypto) (secret : List ℕ) (has_handler : Bool)
    (error_text : Error → List ℕ) where
  -- The call of Deliver.
  to_deliver : Datagram → Packet → ReplyMatcher → Route
  to_deliver g pkt m =
      let d : Delivery = record { packet = pkt; wire_bytes = g.wire; remote_addr = g.remote } in
      let between = g.meanwhile m in
      let after = g.meanwhile_lost between in
      let r = deliver crypto secret (g.local, pkt.identifier) d g.now m between after in
      to_matcher r.1 r.2

  -- The switch of dispatch.
  route : Datagram → ReplyMatcher → Packet → Route
  unfolding unhandled to_deliver
  route g m pkt =
      if is_response pkt.code
      then to_deliver g pkt m
      else if pkt.code == coa_request || pkt.code == disconnect_request
      then (if has_handler then to_handler pkt else to_log (unhandled g pkt))
      else to_log
          (new_unmatched_reply g.offset_ms pkt.code pkt.identifier g.local g.remote (length g.wire))

  on_decoded : Datagram → ReplyMatcher → Result Packet → Route
  unfolding route
  on_decoded g m (err why) = to_log (new_error 0 g.offset_ms validation_failed 0 (error_text why))
  on_decoded g m (ok pkt) = route g m pkt

  -- dispatch
  unfoldable pub dispatch : Datagram → Inbox → Inbox
  unfolding on_decoded put_in
  dispatch g b = put_in (on_decoded g b.matcher (decode g.wire secret)) b

  -- The loops of readLoop: the datagrams of all sockets, in the order in which they are dispatched.
  unfoldable pub receive_all : List Datagram → Inbox → Inbox
  unfolding dispatch
  receive_all [] b = b
  receive_all (g ∷ datagrams) b = receive_all datagrams (dispatch g b)
