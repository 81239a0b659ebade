-- ===== src/Getter/Trying.antt =====
-- What a method of internal/block_getters that tries again gives, from what one try gives.
use chain_indexer_framework.Prelude.{ℕ, zero, suc, ◌+◌, ◌≤◌, ◌≡◌, refl, ◌∙◌, List, [], ◌∷◌, arith}
use chain_indexer_framework.Errors.Value.{JsValue}
use chain_indexer_framework.Store.{Outcome, done, failed}
use chain_indexer_framework.Getter.Node.{
  Handling, throws, may_retry, settle_error, after_try, retrying, and_then, collect,
}

-- A result, or an error, as wanted.
abbrev pub Gives : {A : Type 0} → (A → Type 0) → (JsValue → Type 0) → Outcome A → Type 0
Gives P E (done a) = P a
Gives P E (failed e) = E e

pub and_then-Gives :
    {A B S : Type 0} (P : A → Type 0) (Q : B → Type 0) (E : JsValue → Type 0) (r : Outcome A × S)
    (f : A → S → Outcome B × S)
    → Gives P E r.0
    → ((a : A) (s : S) → P a → Gives Q E (f a s).0)
    → Gives Q E (and_then r f).0
and_then-Gives P Q E (done a, s) f h k = k a s h
and_then-Gives P Q E (failed e, s) f h k = h

module _ {S A : Type 0} (body : ℕ → S → Outcome A × S) (handle : JsValue → Handling)
    (P : A → Type 0) (E : JsValue → Type 0) (caught : (e x : JsValue) → handle e ≡ throws x → E x)
    (tried : (left : ℕ) (s : S) → Gives P (λ e. handle e ≡ may_retry → E e) (body left s).0) where
  handled-Gives :
      (h : Handling) (e : JsValue) (again : Outcome A × S) (s : S)
      → handle e ≡ h
      → (h ≡ may_retry → Gives P E again.0)
      → Gives P E (settle_error body handle h again s).0
  handled-Gives (throws x) e again s eq g = caught e x eq
  handled-Gives may_retry e again s eq g = g refl

  after_try-Gives :
      (o : Outcome A) (again : JsValue → Outcome A × S) (s : S)
      → Gives P (λ e. handle e ≡ may_retry → E e) o
      → ((e : JsValue)
          → (handle e ≡ may_retry → E e)
          → handle e ≡ may_retry
          → Gives P E (again e).0)
      → Gives P E (after_try body handle o again s).0
  after_try-Gives (done a) again s h g = h
  after_try-Gives (failed e) again s h g = handled-Gives (handle e) e (again e) s refl (g e h)

  pub retrying-Gives : (left : ℕ) (s : S) → Gives P E (retrying body handle left s).0
  unfolding retrying
  retrying-Gives zero s =
      after_try-Gives (body zero s).0 (λ e. (failed e, (body zero s).1)) (body zero s).1
        (tried zero s) (λ e h m. h m)
  retrying-Gives (suc left) s =
      after_try-Gives (body (suc left) s).0 (λ e. retrying body handle left (body (suc left) s).1)
        (body (suc left) s).1 (tried (suc left) s)
        (λ e h m. retrying-Gives left (body (suc left) s).1)

-- How often something is counted.
module _ {S : Type 0} (count : S → ℕ) where
  pub and_then_counts :
      {A B : Type 0} (n : ℕ) (r : Outcome A × S) (f : A → S → Outcome B × S)
      → ((a : A) (s : S) → count (f a s).1 ≡ count s)
      → count r.1 ≡ n
      → count (and_then r f).1 ≡ n
  and_then_counts n (done a, s) f k e = k a s ∙ e
  and_then_counts n (failed x, s) f k e = e

  pub collect_counts :
      {T B : Type 0} (f : T → S → Outcome B × S) (ts : List T) (s : S)
      → ((t : T) (s : S) → count (f t s).1 ≡ count s)
      → count (collect f ts s).1 ≡ count s
  unfolding collect
  collect_counts f [] s k = refl
  collect_counts f (t ∷ ts) s k =
      and_then_counts (count s) (f t s)
        (λ b s'. and_then (collect f ts s') (λ bs s''. (done (b ∷ bs), s'')))
        (λ b s'.
          and_then_counts (count s') (collect f ts s') (λ bs s''. (done (b ∷ bs), s''))
            (λ bs s''. refl) (collect_counts f ts s' k))
        (k t s)

  module _ {A : Type 0} (body : ℕ → S → Outcome A × S) (handle : JsValue → Handling) where
    handled_counts :
        (h : Handling) (again : Outcome A × S) (s : S) (n : ℕ)
        → count s ≤ n
        → count again.1 ≤ n
        → count (settle_error body handle h again s).1 ≤ n
    handled_counts (throws x) again s n p q = p
    handled_counts may_retry again s n p q = q

    after_try_counts :
        (o : Outcome A) (again : JsValue → Outcome A × S) (s : S) (n : ℕ)
        → count s ≤ n
        → ((e : JsValue) → count (again e).1 ≤ n)
        → count (after_try body handle o again s).1 ≤ n
    after_try_counts (done a) again s n p q = p
    after_try_counts (failed e) again s n p q = handled_counts (handle e) (again e) s n p (q e)

    -- With one more for each try there are at most as many more as tries.
    pub retrying_counts :
        ((left : ℕ) (s : S) → count (body left s).1 ≡ count s + 1)
        → (left : ℕ) (s : S) → count (retrying body handle left s).1 ≤ count s + suc left
    unfolding retrying
    retrying_counts once zero s =
        after_try_counts (body zero s).0 (λ e. (failed e, (body zero s).1)) (body zero s).1
          (count s + suc zero) (omega (arith, once zero s)) (λ e. omega (arith, once zero s))
    retrying_counts once (suc left) s =
        let s' = (body (suc left) s).1 in
        let rest = retrying_counts once left s' in
        let first = once (suc left) s in
        after_try_counts (body (suc left) s).0 (λ e. retrying body handle left s') s'
          (count s + suc (suc left)) (omega (arith, first)) (λ e. omega (arith, first, rest))

    handled_keeps :
        (h : Handling) (again : Outcome A × S) (s : S) (n : ℕ)
        → count s ≡ n
        → count again.1 ≡ n
        → count (settle_error body handle h again s).1 ≡ n
    handled_keeps (throws x) again s n p q = p
    handled_keeps may_retry again s n p q = q

    after_try_keeps :
        (o : Outcome A) (again : JsValue → Outcome A × S) (s : S) (n : ℕ)
        → count s ≡ n
        → ((e : JsValue) → count (again e).1 ≡ n)
        → count (after_try body handle o again s).1 ≡ n
    after_try_keeps (done a) again s n p q = p
    after_try_keeps (failed e) again s n p q = handled_keeps (handle e) (again e) s n p (q e)

    pub retrying_keeps :
        ((left : ℕ) (s : S) → count (body left s).1 ≡ count s)
        → (left : ℕ) (s : S) → count (retrying body handle left s).1 ≡ count s
    unfolding retrying
    retrying_keeps same zero s =
        after_try_keeps (body zero s).0 (λ e. (failed e, (body zero s).1)) (body zero s).1 (count s)
          (same zero s) (λ e. same zero s)
    retrying_keeps same (suc left) s =
        let s' = (body (suc left) s).1 in
        after_try_keeps (body (suc left) s).0 (λ e. retrying body handle left s') s' (count s)
          (same (suc left) s) (λ e. retrying_keeps same left s' ∙ same (suc left) s)
