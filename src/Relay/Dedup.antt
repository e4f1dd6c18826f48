-- ===== src/Relay/Dedup.antt =====
-- ts/infinity-bridge-relay/src/dedup.ts: the ids of the last commands, in a set and in the order in
-- which they came.
use infinity_wasm_bridge.Prelude.{
  ℕ, String, Bool, List, [], ◌∷◌, ◌++◌, ltb, length, if◌then◌else◌, ◌==◌, string_eq, contains,
}

pub record DedupRing : Type 0 where
  pub set : List String
  pub order : List String
  pub capacity : ℕ

abbrev pub new_ring : ℕ → DedupRing
new_ring capacity = record { set = []; order = []; capacity = capacity }

abbrev pub has : DedupRing → String → Bool
has ring id = contains ring.set id

-- `Set.delete`.
unfoldable pub without : String → List String → List String
without id [] = []
without id (i ∷ ids) = let rest = without id ids in if i == id then rest else i ∷ rest

-- The loop of `mark`, on the order and the set.
unfoldable pub trim : ℕ → List String → List String → List String × List String
trim capacity [] set = ([], set)
trim capacity (old ∷ order) set =
    let rest = trim capacity order (without old set) in
    if ltb capacity (length (old ∷ order)) then rest else (old ∷ order, set)

unfoldable pub mark : String → DedupRing → DedupRing
mark id ring =
    if has ring id
    then ring
    else let (order, set) = trim ring.capacity (ring.order ++ id ∷ []) (ring.set ++ id ∷ []) in
      record ring { order = order; set = set }

unfoldable pub clear : DedupRing → DedupRing
clear ring = record ring { set = []; order = [] }
