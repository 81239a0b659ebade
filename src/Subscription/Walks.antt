-- ===== src/Subscription/Walks.antt =====
-- The numbers of the blocks that a subscription of internal/block_subscription requests, as a walk.
use chain_indexer_framework.Prelude.{
  ◌≡◌, ◌⊎◌, sym, ap, subst, ◌∙◌, List, [], ◌∷◌, ◌++◌, append-nil, append_assoc,
}
use chain_indexer_framework.Prelude.Int.{ℤ, pos, ◌+ℤ◌}
use chain_indexer_framework.Subscription.State.{Action, requests, Subscription}

abbrev add_request : Action → List ℤ → List ℤ
add_request (requests n) ns = ns ++ n ∷ []
add_request other ns = ns

-- The numbers that were requested, oldest first.
abbrev pub requested : List Action → List ℤ
requested [] = []
requested (a ∷ log) = add_request a (requested log)

-- From one number to another in steps to the next number or, for another block in place of the last
-- one, to the same number.
abbrev pub Walks : ℤ → List ℤ → ℤ → Type 0
Walks n [] m = n ≡ m
Walks n (r ∷ rs) m = ((r ≡ n +ℤ pos 1) ⊎ (r ≡ n)) × Walks r rs m

-- What a step requests, and where it leaves `lastReceivedBlockNumber`.
pub record Requests (s s' : Subscription) : Type 0 where
  pub numbers : List ℤ
  pub recorded : requested s'.log ≡ requested s.log ++ numbers
  pub walk : Walks s.last_received_block_number numbers s'.last_received_block_number

Walks-append : (n m k : ℤ) (rs qs : List ℤ) → Walks n rs m → Walks m qs k → Walks n (rs ++ qs) k
Walks-append n m k [] qs e w = subst (λ i. Walks i qs k) (sym e) w
Walks-append n m k (r ∷ rs) qs (step, v) w = (step, Walks-append r m k rs qs v w)

pub Requests-trans : {a b c : Subscription} → Requests a b → Requests b c → Requests a c
Requests-trans f g = record {
  numbers = f.numbers ++ g.numbers;
  recorded =
      g.recorded ∙ ap (λ ns. ns ++ g.numbers) f.recorded ∙ append_assoc _ f.numbers g.numbers;
  walk = Walks-append _ _ _ f.numbers g.numbers f.walk g.walk;
}

-- A step that requests nothing.
pub silent :
    {s s' : Subscription}
    → requested s'.log ≡ requested s.log
    → s'.last_received_block_number ≡ s.last_received_block_number
    → Requests s s'
silent r l = record { numbers = []; recorded = r ∙ sym (append-nil _); walk = sym l }
