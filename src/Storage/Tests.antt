-- ===== src/Storage/Tests.antt =====
-- A batch on an empty store in memory: a test, and the theorem applied.
use aii.Base.{refl, List, [], ◌∷◌}
use aii.Storage.{meta, headers}
use aii.Storage.Memory.{Op, put, delete, new_store}
use aii.Storage.Memory.Batch.{Registered}

-- The key is written twice, another is deleted, and one family does not see the other.
abbrev batch : List Op
batch =
    put meta (1 ∷ []) (10 ∷ [])
    ∷ put meta (2 ∷ []) (20 ∷ [])
    ∷ put meta (1 ∷ []) (11 ∷ [])
    ∷ delete meta (2 ∷ [])
    ∷ put headers (2 ∷ []) (30 ∷ [])
    ∷ []

new_store-Registered : Registered new_store
unfolding new_store
new_store-Registered cf = ([], refl)
