-- ===== src/Subscriber/Pool/Indexed.antt =====
-- What the loop of NewPool leaves in an index: every subscriber under its own key, where the keys
-- differ.
use radstorm.Prelude.{
  ℕ, zero, suc, ◌+◌, ◌<◌, ◌≡◌, subst, ap, ◌∙◌, some, List, inl, inr, arith, ◌==◌, ==_iff,
  Bool-cases,
}
use radstorm.Prelude.Int.{ℤ}
use radstorm.Prelude.Maps.{Key, Map, lookup, put, lookup-put_self, lookup-put_other}
use radstorm.Subscriber.Pool.{Credential, Subscriber, Texts, Pool, subscriber_at, enter, enter_all}

module _ (texts : Texts) (cred : Credential) (creds : List Credential) (pap_pct pppoe_pct : ℤ)
    {K : Type 0} ⦃key : Key K⦄ (index : Pool → Map K Subscriber) (key_of : Subscriber → K)
    (step : (s : Subscriber) (p : Pool)
      → index (enter texts s p) ≡ put (key_of s) s (index p)) where
  abbrev made : ℕ → Subscriber
  made i = subscriber_at texts cred creds pap_pct pppoe_pct i

  abbrev Holds : ℕ → Pool → Type 0
  Holds j p = lookup (key_of (made j)) (index p) ≡ some (made j)

  abbrev IsOwn : (j bound : ℕ) → Type 0
  IsOwn j bound = (k : ℕ) → k < bound → key_of (made k) ≡ key_of (made j) → k ≡ j

  enter-Holds :
      (i j bound : ℕ) (p : Pool)
      → i < bound
      → j < suc i
      → IsOwn j bound
      → (j < i → Holds j p)
      → Holds j (enter texts (made i) p)
  enter-Holds i j bound p inside h own held = elim (Bool-cases (i == j)) [
    | inl e ↦
        let same : i ≡ j = (==_iff i j).0 e in
        subst (λ k. lookup (key_of (made k)) (index (enter texts (made i) p)) ≡ some (made k)) same
          (ap (lookup (key_of (made i))) (step (made i) p)
            ∙ lookup-put_self (key_of (made i)) (made i) (index p))
    | inr e ↦
        let differs : ¬ (i ≡ j) = λ same. cc ((==_iff i j).1 same, e) in
        ap (lookup (key_of (made j))) (step (made i) p)
        ∙ lookup-put_other (key_of (made j)) (key_of (made i)) (made i) (index p)
            (λ same. differs (own i inside same))
        ∙ held (omega (arith, h, differs))
  ]

  pub enter_all-Holds :
      (left i j : ℕ) (p : Pool)
      → j < i + left
      → IsOwn j (i + left)
      → (j < i → Holds j p)
      → Holds j (enter_all texts cred creds pap_pct pppoe_pct left i p)
  unfolding enter_all
  enter_all-Holds zero i j p h own held = held (omega arith)
  enter_all-Holds (suc left) i j p h own held =
      enter_all-Holds left (suc i) j (enter texts (made i) p) (omega arith)
        (λ k inside. own k (omega arith))
        (λ earlier. enter-Holds i j (i + suc left) p (omega arith) earlier own held)
