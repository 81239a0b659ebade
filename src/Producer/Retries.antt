-- ===== src/Producer/Retries.antt =====
-- The retries of `addBlockToMongo`.
use chain_indexer_framework.Prelude.{
  ℕ, zero, suc, ◌≡◌, ◌↔◌, sym, ap, subst, ◌∙◌, true, String, arith, ◌⊎◌,
}
use chain_indexer_framework.Errors.Value.{JsValue, object, is_base_error}
use chain_indexer_framework.Errors.Convert.{block_producer_create_unknown}
use chain_indexer_framework.Store.{
  Outcome, done, failed, ProducedBlock, Collection, Documented, add,
}
use chain_indexer_framework.Store.Window.{add_again, HasDistinctNumbers}
use chain_indexer_framework.Producer.Deliveries.{add_block_to_mongo}

module _ (m : Collection) (doc : Documented m) (trace : String) (depth : ℕ)
    (b : ProducedBlock) where
  abbrev written : ℕ → m.State → Outcome (Unit {0}) × m.State
  written left s = add_block_to_mongo m trace depth b left s

  refused_last :
      (s : m.State) (e : JsValue)
      → (add m b depth s).0 ≡ failed e
      → written zero s
        ≡ (failed (object (block_producer_create_unknown trace e true)), (add m b depth s).1)
  unfolding add_block_to_mongo
  refused_last s e h = ground (arith, h)

  refused :
      (left : ℕ) (s : m.State) (e : JsValue)
      → (add m b depth s).0 ≡ failed e
      → written (suc left) s ≡ written left (add m b depth s).1
  unfolding add_block_to_mongo
  refused left s e h = ground (arith, h)

  -- How a sequence of attempts ends.
  abbrev pub Ends : Outcome (Unit {0}) × m.State → Type 0
  Ends r =
      ((r.0 ≡ done tt) × m.Stored r.1 b)
      ⊎ ((e : JsValue) × (r.0 ≡ failed e) × (is_base_error e ≡ true))

  abbrev EndsSoundly : Outcome (Unit {0}) × m.State → Type 0
  EndsSoundly r = Ends r × HasDistinctNumbers m r.1

  -- While a block of the same number is stored every attempt fails, and nothing changes in the
  -- collection: the retries cannot help, neither for a block produced again after a re-organisation
  -- nor where an earlier attempt stored the block and failed in the deletion.
  pub add_block_to_mongo_again :
      (left : ℕ) (s : m.State) (c : ProducedBlock)
      → m.Stored s c
      → c.number ≡ b.number
      → ((e : JsValue) × ((written left s).0 ≡ failed e))
        × ((d : ProducedBlock) → m.Stored (written left s).1 d ↔ m.Stored s d)
  add_block_to_mongo_again zero s c stored same =
      let ((e, h), kept) = add_again m doc b depth s c stored same in
      let result = refused_last s e h in
      (
        (_, ap (λ r. r.0) result),
        λ d. subst (λ r. m.Stored r.1 d ↔ m.Stored s d) (sym result) (kept d),
      )
  add_block_to_mongo_again (suc left) s c stored same =
      let ((e, h), kept) = add_again m doc b depth s c stored same in
      let (fails, later) =
        add_block_to_mongo_again left (add m b depth s).1 c ((kept c).1 stored) same in
      let result = refused left s e h in
      (
        (fails.0, ap (λ r. r.0) result ∙ fails.1),
        λ d.
            subst (λ r. m.Stored r.1 d ↔ m.Stored s d) (sym result)
              ((λ x. (kept d).0 ((later d).0 x)), (λ x. (later d).1 ((kept d).1 x))),
      )
