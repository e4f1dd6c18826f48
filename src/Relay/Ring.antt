-- ===== src/Relay/Ring.antt =====
-- The ring of ids of ts/infinity-bridge-relay/src/dedup.ts: its set and its order agree, and it is
-- bounded.
use infinity_wasm_bridge.Prelude.{
  ℕ, zero, suc, ◌-◌, ◌≤◌, String, ◌≡◌, refl, false, ◌||◌, List, [], ◌∷◌, ◌++◌, ◌∙◌, ap, sym, arith,
  ltb, length, if◌then◌else◌, ◌==◌, string_eq, contains, Bool-cases, inl, inr,
}
use infinity_wasm_bridge.Relay.Dedup.{DedupRing, new_ring, has, without, trim, mark, clear}

-- No id twice.
abbrev pub IsDistinct : List String → Type 0
IsDistinct [] = Unit
IsDistinct (i ∷ ids) = (contains ids i ≡ false) × IsDistinct ids

without-absent : (i : String) (ids : List String) → contains ids i ≡ false → without i ids ≡ ids
unfolding without contains
without-absent i [] e = refl
without-absent i (k ∷ ids) e = ground (arith, without-absent i ids, string_eq.equal_iff k i)

without-head : (i : String) (ids : List String) → contains ids i ≡ false → without i (i ∷ ids) ≡ ids
unfolding without
without-head i ids e = ground (arith, without-absent i ids e, string_eq.equal_iff i i)

contains-append :
    (ids : List String) (i k : String) → contains (ids ++ i ∷ []) k ≡ (contains ids k || i == k)
unfolding contains
contains-append [] i k = ground arith
contains-append (x ∷ ids) i k = ground (arith, contains-append ids i k)

IsDistinct-append :
    (ids : List String) (i : String)
    → IsDistinct ids
    → contains ids i ≡ false
    → IsDistinct (ids ++ i ∷ [])
unfolding contains
IsDistinct-append [] i d e = (refl, tt)
IsDistinct-append (k ∷ ids) i d e = ground (
  arith,
  contains-append ids i k,
  IsDistinct-append ids i d.1,
  string_eq.equal_iff k i,
  string_eq.equal_iff i k,
  d.0,
)

-- The last `n` of a list.
abbrev pub dropped : ℕ → List String → List String
dropped zero ids = ids
dropped (suc n) [] = []
dropped (suc n) (i ∷ ids) = dropped n ids

abbrev pub newest : ℕ → List String → List String
newest n ids = dropped (length ids - n) ids

dropped_nil : (n : ℕ) → dropped n [] ≡ []
dropped_nil zero = refl
dropped_nil (suc n) = refl

length-dropped : (n : ℕ) (ids : List String) → length (dropped n ids) ≡ length ids - n
length-dropped zero ids = omega arith
length-dropped (suc n) [] = omega arith
length-dropped (suc n) (i ∷ ids) = omega (arith, length-dropped n ids)

contains-dropped :
    (n : ℕ) (ids : List String) (k : String)
    → contains ids k ≡ false
    → contains (dropped n ids) k ≡ false
unfolding contains
contains-dropped zero ids k e = e
contains-dropped (suc n) [] k e = refl
contains-dropped (suc n) (i ∷ ids) k e = contains-dropped n ids k (ground (arith, e))

IsDistinct-dropped : (n : ℕ) (ids : List String) → IsDistinct ids → IsDistinct (dropped n ids)
IsDistinct-dropped zero ids d = d
IsDistinct-dropped (suc n) [] d = tt
IsDistinct-dropped (suc n) (i ∷ ids) d = IsDistinct-dropped n ids d.1

-- The loop of `mark` keeps the newest ids.
trim-newest :
    (capacity : ℕ) (ids : List String)
    → IsDistinct ids
    → trim capacity ids ids ≡ (newest capacity ids, newest capacity ids)
unfolding trim
trim-newest capacity [] d = rw (dropped_nil (0 - capacity)) refl
trim-newest capacity (i ∷ ids) d = elim (Bool-cases (ltb capacity (length (i ∷ ids)))) [
  | inl full ↦
      let less : suc (length ids) - capacity ≡ suc (length ids - capacity) = ground arith in
      rw (full, without-head i ids d.0, trim-newest capacity ids d.1, less) refl
  | inr fits ↦ let all : suc (length ids) - capacity ≡ 0 = ground arith in rw (fits, all) refl
]

-- The set holds the ids of the order, no id stands twice, and there are no more than the capacity.
record IsSound (ring : DedupRing) : Type 0 where
  same : ring.set ≡ ring.order
  distinct : IsDistinct ring.order
  bounded : length ring.order ≤ ring.capacity

-- The order after one more id.
abbrev pub remembered : String → DedupRing → List String
remembered id ring =
    if has ring id then ring.order else newest ring.capacity (ring.order ++ id ∷ [])

mark-remembered :
    (id : String) (ring : DedupRing)
    → IsSound ring
    → mark id ring ≡ record ring { set = remembered id ring; order = remembered id ring }
unfolding mark
mark-remembered id ring s = elim (Bool-cases (has ring id)) [
  | inl held ↦ rw held (λ i. record ring { set = s.same i })
  | inr new ↦
      let absent : contains ring.order id ≡ false = ap (λ l. contains l id) (sym s.same) ∙ new in
      let longer = IsDistinct-append ring.order id s.distinct absent in
      rw (new, s.same, trim-newest ring.capacity (ring.order ++ id ∷ []) longer) refl
]

mark-IsSound : (id : String) (ring : DedupRing) → IsSound ring → IsSound (mark id ring)
mark-IsSound id ring s = rw (mark-remembered id ring s) (elim (Bool-cases (has ring id)) [
  | inl held ↦ rw held (record { same = refl; distinct = s.distinct; bounded = s.bounded })
  | inr new ↦
      let absent : contains ring.order id ≡ false = ap (λ l. contains l id) (sym s.same) ∙ new in
      let more = ring.order ++ id ∷ [] in
      let n = length more - ring.capacity in
      rw new (record {
        same = refl;
        distinct = IsDistinct-dropped n more (IsDistinct-append ring.order id s.distinct absent);
        bounded = omega (arith, length-dropped n more);
      })
])

abbrev pub mark_all : List String → DedupRing → DedupRing
mark_all [] ring = ring
mark_all (id ∷ ids) ring = mark_all ids (mark id ring)

mark_all-IsSound :
    (ids : List String) (ring : DedupRing) → IsSound ring → IsSound (mark_all ids ring)
mark_all-IsSound [] ring s = s
mark_all-IsSound (id ∷ ids) ring s = mark_all-IsSound ids (mark id ring) (mark-IsSound id ring s)

capacity-mark_all :
    (ids : List String) (ring : DedupRing)
    → IsSound ring
    → (mark_all ids ring).capacity ≡ ring.capacity
capacity-mark_all [] ring s = refl
capacity-mark_all (id ∷ ids) ring s =
    capacity-mark_all ids (mark id ring) (mark-IsSound id ring s)
    ∙ ap (λ (x : DedupRing). x.capacity) (mark-remembered id ring s)

-- After any ids were marked on a new ring, its set holds the ids of its order and these are at most
-- as many as its capacity. One more id changes nothing if it is held, not even its place; otherwise it
-- is put last, and the newest ids that the capacity allows are kept. So the first to come is the first
-- to go, whether or not it was marked again. Clearing the ring makes it a new one.
pub mark_all-remembered :
    (capacity : ℕ) (ids : List String) (id : String)
    → let ring = mark_all ids (new_ring capacity) in
      (ring.set ≡ ring.order)
      × (length ring.order ≤ capacity)
      × (mark id ring ≡ record ring { set = remembered id ring; order = remembered id ring })
      × (clear ring ≡ new_ring capacity)
unfolding clear
mark_all-remembered capacity ids id =
    let sound : IsSound (new_ring capacity) = record {
      same = refl;
      distinct = tt;
      bounded = omega arith;
    } in
    let s = mark_all-IsSound ids (new_ring capacity) sound in
    let same = capacity-mark_all ids (new_ring capacity) sound in
    (
      s.same,
      omega (arith, s.bounded, same),
      mark-remembered id (mark_all ids (new_ring capacity)) s,
      ap new_ring same,
    )
