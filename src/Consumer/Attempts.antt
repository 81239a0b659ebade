-- ===== src/Consumer/Attempts.antt =====
-- `retryPromise` of internal/kafka/consumer/asynchronous_consumer.ts, and how many attempts it makes.
-- The n-th entry of `attempt` is what the observer answers with n retries left, `maxRetries - errorCount`.
use chain_indexer_framework.Prelude.{
  ℕ, zero, suc, ◌≤◌, ◌<◌, ◌≡◌, ◌⊎◌, refl, subst, ◌∙◌, inl, inr, true, false, String, arith, dec_le,
  Bool-cases,
}
use chain_indexer_framework.Errors.Value.{JsValue, object}
use chain_indexer_framework.Errors.Convert.{kafka_create_unknown}
use chain_indexer_framework.Store.{Outcome, done, failed}
use chain_indexer_framework.Consumer.Steps.{fatal_value}

abbrev pub thrown : (trace : String) → JsValue → Outcome (Unit {0})
thrown trace e = failed (object (kafka_create_unknown trace e false))

unfoldable pub retry_promise : (trace : String) → (ℕ → Outcome (Unit {0})) → ℕ → Outcome (Unit {0})
retry_promise trace attempt zero = elim (attempt zero) [
  | done _ ↦ done tt
  | failed e ↦ thrown trace e
]
retry_promise trace attempt (suc left) = elim (attempt (suc left)) [
  | done _ ↦ done tt
  | failed e ↦ elim (fatal_value e) [
    | true ↦ thrown trace e
    | false ↦ retry_promise trace attempt left
  ]
]

module _ (trace : String) (attempt : ℕ → Outcome (Unit {0})) where
  -- The attempts with more than `k` retries left, from `n` on, failed, and not fatally.
  abbrev pub FailedDownTo : ℕ → ℕ → Type 0
  FailedDownTo n k =
      (i : ℕ) → k < i → i ≤ n → (e : JsValue) × (attempt i ≡ failed e) × (fatal_value e ≡ false)

  -- The attempt with `k` retries left is the last.
  pub data Settled (n : ℕ) (r : Outcome (Unit {0})) : Type 0 where
    accepted : (k : ℕ) → k ≤ n → FailedDownTo n k → attempt k ≡ done tt → r ≡ done tt → Settled n r
    given_up :
        (k : ℕ) (e : JsValue)
        → k ≤ n
        → FailedDownTo n k
        → attempt k ≡ failed e
        → (k ≡ 0) ⊎ (fatal_value e ≡ true)
        → r ≡ thrown trace e
        → Settled n r

  none_before : (n : ℕ) → FailedDownTo n n
  none_before n i h k = absurd (omega arith)

  one_more :
      (n k : ℕ) (e : JsValue)
      → attempt (suc n) ≡ failed e
      → fatal_value e ≡ false
      → FailedDownTo n k
      → FailedDownTo (suc n) k
  one_more n k e h f before i low high = elim (dec_le i n) [
    | yes p ↦ before i low p
    | no p ↦
        subst (λ j. (e : JsValue) × (attempt j ≡ failed e) × (fatal_value e ≡ false)) (omega arith)
          (e, h, f)
  ]

  succeeds : (n : ℕ) → attempt n ≡ done tt → retry_promise trace attempt n ≡ done tt
  unfolding retry_promise
  succeeds zero h = ground (arith, h)
  succeeds (suc n) h = ground (arith, h)

  ends_fatally :
      (n : ℕ) (e : JsValue)
      → attempt n ≡ failed e
      → (n ≡ 0) ⊎ (fatal_value e ≡ true)
      → retry_promise trace attempt n ≡ thrown trace e
  unfolding retry_promise
  ends_fatally zero e h k = ground (arith, h)
  ends_fatally (suc n) e h (inl k) = absurd (omega (arith, k))
  ends_fatally (suc n) e h (inr k) = ground (arith, h, k)

  goes_on :
      (n : ℕ) (e : JsValue)
      → attempt (suc n) ≡ failed e
      → fatal_value e ≡ false
      → retry_promise trace attempt (suc n) ≡ retry_promise trace attempt n
  unfolding retry_promise
  goes_on n e h k = ground (arith, h, k)

  widened :
      (n : ℕ) (e : JsValue)
      → attempt (suc n) ≡ failed e
      → fatal_value e ≡ false
      → Settled n (retry_promise trace attempt n)
      → Settled (suc n) (retry_promise trace attempt (suc n))
  widened n e h f (accepted k le before ok r) =
      accepted k (omega (arith, le)) (one_more n k e h f before) ok (goes_on n e h f ∙ r)
  widened n e h f (given_up k x le before bad why r) =
      given_up k x (omega (arith, le)) (one_more n k e h f before) bad why (goes_on n e h f ∙ r)

  outcome_decides :
      (n : ℕ) (o : Outcome (Unit {0}))
      → attempt n ≡ o
      → ((m : ℕ) → suc m ≡ n → Settled m (retry_promise trace attempt m))
      → Settled n (retry_promise trace attempt n)
  outcome_decides n (done u) h rest = accepted n (omega arith) (none_before n) h (succeeds n h)
  outcome_decides zero (failed e) h rest =
      given_up zero e (omega arith) (none_before zero) h (inl refl)
        (ends_fatally zero e h (inl refl))
  outcome_decides (suc n) (failed e) h rest = elim (Bool-cases (fatal_value e)) [
    | inl fatal ↦
        given_up (suc n) e (omega arith) (none_before (suc n)) h (inr fatal)
          (ends_fatally (suc n) e h (inr fatal))
    | inr mild ↦ widened n e h mild (rest n refl)
  ]

  -- With `maxRetries` retries left the asynchronous consumer calls the observer until it succeeds, and
  -- gives up at the first fatal failure or after `maxRetries + 1` failures; it then throws the last
  -- failure, converted. The attempts before the last have all failed, and not fatally.
  pub retry_promise-Settled : (n : ℕ) → Settled n (retry_promise trace attempt n)
  retry_promise-Settled zero =
      outcome_decides zero (attempt zero) refl (λ m e. absurd (omega (arith, e)))
  retry_promise-Settled (suc n) = outcome_decides (suc n) (attempt (suc n)) refl λ m e.
      subst (λ k. Settled k (retry_promise trace attempt k)) (omega (arith, e))
        (retry_promise-Settled n)
