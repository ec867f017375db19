-- ===== src/Io/Sender/Collision.antt =====
-- Requests to two servers from one socket: the allocator keeps an identifier for each pair of
-- addresses, and the table of the replies only for the local address.
use radstorm.Prelude.{ℕ, ◌≡◌, refl, false, none, some, List}
use radstorm.Prelude.Maps.{lookup, lookup-put_self, text_key, number_key, pair_key}
use radstorm.Radius.Auth.{Crypto}
use radstorm.Io.IdAlloc.{allocate}
use radstorm.Io.IdAlloc.Tuples.{Tuple, IdAllocator, allocate_for}
use radstorm.Io.Matcher.{
  Inflight, Delivery, ReplyMatcher, register, accepts, deliver_alone, validation_failed,
}
use radstorm.Io.Matcher.Outcomes.{deliver_forged}
use radstorm.Io.Sender.{Address}

-- The first identifier of a pair of addresses is 0, whatever others have.
first_identifier : (t : Tuple) (a : IdAllocator) → lookup t a ≡ none → (allocate_for t a).1 ≡ some 0
unfolding allocate_for allocate
first_identifier t a h = rw h refl

module _ (crypto : Crypto) (secret : List ℕ) where
  -- A socket that has not sent to two servers gets the identifier 0 for both; once both requests
  -- are registered, a reply that is not valid for the second is refused as a failed validation of
  -- the second, also where it is valid for the first.
  pub register_collides :
      (sock auth_dst acct_dst : Address) (a b : IdAllocator) (text auth acct : List ℕ)
      (sub other now : ℕ) (d : Delivery) (m : ReplyMatcher)
      → lookup (sock, auth_dst) a ≡ none
      → lookup (sock, acct_dst) b ≡ none
      → accepts crypto acct secret d ≡ false
      → let both = register (text, 0) acct other (register (text, 0) auth sub m) in
        let r = deliver_alone crypto secret (text, 0) d now both in
        ((allocate_for (sock, auth_dst) a).1 ≡ some 0)
        × ((allocate_for (sock, acct_dst) b).1 ≡ some 0)
        × (r.0 ≡ false)
        × (r.1 ≡ some (validation_failed other))
  unfolding register
  register_collides sock auth_dst acct_dst a b text auth acct sub other now d m fresh later bad =
      let first = register (text, 0) auth sub m in
      let second : Inflight = record {
        serial = first.next_serial;
        authenticator = acct;
        sub_id = other;
      } in
      let found = lookup-put_self (text, 0) second first.pending in
      let refused =
        deliver_forged crypto secret (text, 0) second d d now now
          (register (text, 0) acct other first) found bad in
      (
        first_identifier (sock, auth_dst) a fresh,
        first_identifier (sock, acct_dst) b later,
        refused.0,
        refused.1,
      )
