-- ===== src/Store/Tests.antt =====
-- The collection's theorems at a collection in memory.
use chain_indexer_framework.Prelude.{◌≡◌, ◌⊎◌, ◌↔◌, refl, List, [], ◌∷◌}
use chain_indexer_framework.Prelude.Int.{pos, ◌-ℤ◌}
use chain_indexer_framework.Store.{ProducedBlock, add}
use chain_indexer_framework.Store.Memory.{memory, memory-Documented, Contains}
use chain_indexer_framework.Store.Window.{InWindow, add-Stored}

abbrev ten : ProducedBlock
ten = record { number = pos 10; hash = "a" }

abbrev eleven : ProducedBlock
eleven = record { number = pos 11; hash = "b" }

abbrev other_eleven : ProducedBlock
other_eleven = record { number = pos 11; hash = "c" }

abbrev docs : List ProducedBlock
docs = ten ∷ record { number = pos 7; hash = "z" } ∷ []

kept : (add memory eleven 2 docs).1 ≡ eleven ∷ ten ∷ []
unfolding add ◌-ℤ◌
kept = refl

add-Stored_example :
    Contains (add memory eleven 2 docs).1 ten
    ↔ ((ten ≡ eleven) ⊎ (Contains docs ten × InWindow (pos 11) 2 ten))
unfolding add
add-Stored_example = add-Stored memory memory-Documented eleven 2 docs refl ten
