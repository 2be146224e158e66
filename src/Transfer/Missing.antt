-- ===== src/Transfer/Missing.antt =====
-- The first chunk that is still to come (`next_expected_chunk` of receiver.rs).
use bridgeos.Prelude.{
  ◌==◌, if◌then◌else◌, Bool-cases, length, ℕ, zero, suc, ◌+◌, ◌≤◌, ◌<◌, min, ◌≡◌, subst, inl, inr,
  true, false, List, [], ◌∷◌, arith,
}
use bridgeos.Transfer.{FileManifest}
use bridgeos.Transfer.Memory.{has_chunk, first_missing, next_expected_chunk}

remove_chunk : ℕ → List ℕ → List ℕ
remove_chunk i [] = []
remove_chunk i (j ∷ js) = let rest = remove_chunk i js in if i == j then rest else j ∷ rest

has_chunk-remove_chunk :
    (i k : ℕ) (js : List ℕ)
    → has_chunk k (remove_chunk i js) ≡ (if k == i then false else has_chunk k js)
unfolding has_chunk remove_chunk
has_chunk-remove_chunk i k [] = ground arith
has_chunk-remove_chunk i k (j ∷ js) = ground (arith, has_chunk-remove_chunk i k js)

length-remove_chunk : (i : ℕ) (js : List ℕ) → length (remove_chunk i js) ≤ length js
unfolding remove_chunk
length-remove_chunk i [] = omega arith
length-remove_chunk i (j ∷ js) = ground (arith, length-remove_chunk i js)

length-remove_chunk_found :
    (i : ℕ) (js : List ℕ) → has_chunk i js ≡ true → length (remove_chunk i js) < length js
unfolding has_chunk remove_chunk
length-remove_chunk_found i [] h = cc
length-remove_chunk_found i (j ∷ js) h =
    ground (arith, length-remove_chunk i js, length-remove_chunk_found i js)

-- A set that has all the numbers below one has that many.
all_below : (n : ℕ) (js : List ℕ) → ((j : ℕ) → j < n → has_chunk j js ≡ true) → n ≤ length js
all_below zero js h = omega arith
all_below (suc n) js h =
    let rest =
      all_below n (remove_chunk n js)
        (λ j l. ground (arith, has_chunk-remove_chunk n j js, h j, l)) in
    omega (arith, rest, length-remove_chunk_found n js (h n (omega arith)))

-- What the loop finds, from a number up to which nothing is missing.
first_missing-found :
    (fuel : ℕ) (js : List ℕ) (e : ℕ)
    → ((j : ℕ) → j < e → has_chunk j js ≡ true)
    → length js < e + fuel
    → ((j : ℕ) → j < first_missing fuel js e → has_chunk j js ≡ true)
      × (has_chunk (first_missing fuel js e) js ≡ false)
unfolding first_missing
first_missing-found zero js e h enough = elim (too_many (all_below e js h)) [ ]
  where
    too_many : e ≤ length js → ⊥
    too_many l = omega (arith, enough)
first_missing-found (suc fuel) js e h enough = elim (Bool-cases (has_chunk e js)) [
  | inl here ↦ rw here (first_missing-found fuel js (e + 1) (next here) (omega arith))
  | inr missing ↦ rw missing (h, missing)
]
  where
    next : has_chunk e js ≡ true → (j : ℕ) → j < e + 1 → has_chunk j js ≡ true
    next here j l = ground (arith, h j, here, l)

-- The loop that looks for the next expected chunk ends, at most one round after as many as there are
-- received chunks: its result is the number of chunks, or else the least number that was not
-- received, and every chunk before it was received.
pub next_expected_chunk-least :
    (js : List ℕ) (m : FileManifest)
    → let e = next_expected_chunk js m in
      ((j : ℕ) → j < e → has_chunk j js ≡ true)
      × (e ≤ m.total_chunks)
      × (e < m.total_chunks → has_chunk e js ≡ false)
unfolding next_expected_chunk
next_expected_chunk-least js m =
    let (before, missing) =
      first_missing-found (length js + 1) js 0 (λ j l. elim (none_below l) [ ]) (omega arith) in
    (
      λ j l. before j (omega arith),
      omega arith,
      λ l. subst (λ k. has_chunk k js ≡ false) (inside l) missing,
    )
  where
    none_below : {j : ℕ} → j < 0 → ⊥
    none_below l = omega arith

    inside :
        min (first_missing (length js + 1) js 0) m.total_chunks < m.total_chunks
        → first_missing (length js + 1) js 0
          ≡ min (first_missing (length js + 1) js 0) m.total_chunks
    inside l = omega arith
