-- ===== src/Subscriber/Fsm/Established.antt =====
-- When Run reports an established subscriber.
use radstorm.Prelude.{
  ℕ, ◌≡◌, refl, Bool, true, false, not, ◌&&◌, ◌||◌, Option, none, some, List, ◌==◌, Bool-cases, inl,
  inr, Option-cases,
}
use radstorm.Radius.Code.{access_accept, access_reject, accounting_response}
use radstorm.Subscriber.Fsm.{
  established, same_state, World, Sent, SendResult, SendError, Inbound, Deps, after_acct,
  acct_phase, accepted, after_auth, run,
}

-- A request that came back without an error and with a reply of the code.
unfoldable pub answered : ℕ → Option SendResult → Option SendError → Bool
answered code result (some e) = false
answered code none none = false
answered code (some r) none = elim r.reply [ none ↦ false | some reply ↦ reply.0 == code ]

module _ (deps : Deps) where
  after_acct_established :
      (r : Option SendResult) (e : Option SendError) (w : World)
      → same_state (after_acct deps r e w).0 established ≡ answered accounting_response r e
  unfolding after_acct answered
  after_acct_established r (some e) w = refl
  after_acct_established none none w = refl
  after_acct_established (some r) none w = elim (Option-cases r.reply) [
    | inl e ↦ rw e refl
    | inr (reply, e) ↦ rw e (elim (Bool-cases (reply.0 == accounting_response)) [
      | inl c ↦ rw c refl
      | inr c ↦ rw c refl
    ])
  ]

  accepted_established :
      (b : Bool) (acct : Sent) (during : List Inbound) (w : World)
      → same_state (accepted deps b acct during w).0 established
        ≡ (not b || answered accounting_response acct.result acct.error)
  unfolding accepted acct_phase
  accepted_established false acct during w = refl
  accepted_established true acct during w = after_acct_established acct.result acct.error _

  after_auth_established :
      (r : Option SendResult) (e : Option SendError) (acct : Sent) (during : List Inbound)
      (w : World)
      → same_state (after_auth deps r e acct during w).0 established ≡ (
          answered access_accept r e
          && (not deps.include_acct_start || answered accounting_response acct.result acct.error))
  unfolding after_auth answered
  after_auth_established r (some e) acct during w = refl
  after_auth_established none none acct during w = refl
  after_auth_established (some r) none acct during w = elim (Option-cases r.reply) [
    | inl e ↦ rw e refl
    | inr (reply, e) ↦ rw e (elim (Bool-cases (reply.0 == access_accept)) [
      | inl c ↦ rw c (accepted_established deps.include_acct_start acct during _)
      | inr c ↦
          rw c
            (elim (Bool-cases (reply.0 == access_reject)) [ inl d ↦ rw d refl | inr d ↦ rw d refl ])
    ])
  ]

  -- Run returns established exactly if the Access-Request was answered by an Access-Accept and,
  -- with IncludeAcctStart, the Accounting-Request by an Accounting-Response; requests that the
  -- listener delivers meanwhile, a Disconnect-Request included, make no difference.
  pub run_established :
      (auth acct : Sent) (during_auth during_acct : List Inbound) (w : World)
      → same_state (run deps auth during_auth acct during_acct w).0 established ≡ (
          answered access_accept auth.result auth.error
          && (not deps.include_acct_start || answered accounting_response acct.result acct.error))
  unfolding run
  run_established auth acct during_auth during_acct w =
      after_auth_established auth.result auth.error acct during_acct _
