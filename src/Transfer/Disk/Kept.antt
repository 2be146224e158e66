-- ===== src/Transfer/Disk/Kept.antt =====
-- What the receiver keeps of a part file that is there (receiver.rs).
use bridgeos.Prelude.{
  ltb, ltb→lt, ltb→le, Bool-cases, length, take, length-take, Bytes, Str, ℕ, zero, suc, ◌*◌, ◌≤◌,
  ◌<◌, ◌≡◌, refl, sym, ap, ◌∙◌, inl, inr, Bool, true, false, ◌&&◌, List, [], arith,
}
use bridgeos.Prelude.Outcome.{Outcome, ends_ok, succeeds, continue-Outcome}
use bridgeos.Transfer.{chunk_size, FileManifest}
use bridgeos.Transfer.Memory.{has_chunk, below, next_expected_chunk}
use bridgeos.Transfer.Steps.{has_chunk-below, length_zero}
use bridgeos.Transfer.Missing.{next_expected_chunk-least}
use bridgeos.Transfer.Disk.{Files, valid_chunks, resume}
use bridgeos.Transfer.Disk.Written.{WorkingFiles, Never}

pub valid_chunks-few : (m : FileManifest) (k : ℕ) → valid_chunks m k ≤ m.total_chunks
unfolding valid_chunks
valid_chunks-few m k = ground arith

valid_chunks-inside : (m : FileManifest) (k : ℕ) → valid_chunks m k * chunk_size ≤ k
unfolding valid_chunks
valid_chunks-inside m k = ground arith

-- The next expected chunk, if those below a number were received.
pub next_expected_chunk-below :
    (i : ℕ) (m : FileManifest) → i ≤ m.total_chunks → next_expected_chunk (below i) m ≡ i
unfolding has_chunk
next_expected_chunk-below i m h =
    let (before, few, missing) = next_expected_chunk-least (below i) m in
    let e = next_expected_chunk (below i) m in
    elim (Bool-cases (ltb e i)) [
      | inl less ↦ absurd (
          clash (missing (omega (arith, ltb→lt e i less))) (has_chunk-inside i e (ltb→lt e i less)))
      | inr over ↦ elim (Bool-cases (ltb i e)) [
        | inl more ↦ absurd (clash (has_chunk-below i i (omega arith)) (before i (ltb→lt i e more)))
        | inr same ↦ omega (arith, ltb→le e i over, ltb→le i e same)
      ]
    ]
  where
    clash : {b : Bool} → b ≡ false → b ≡ true → ⊥
    clash no_it it = cc

    has_chunk-inside : (i j : ℕ) → j < i → has_chunk j (below i) ≡ true
    has_chunk-inside zero j l = ground arith
    has_chunk-inside (suc i) j l = ground (arith, has_chunk-inside i j)

-- The whole chunks of a part file are those of the file that is to come, and the part file of an empty
-- file is empty.
pub record IsPartOf (m : FileManifest) (whole part : Bytes) : Type 0 where
  pub chunks_agree :
      take (valid_chunks m (length part) * chunk_size) part
      ≡ take (valid_chunks m (length part) * chunk_size) whole
  pub none_of_empty : length whole ≡ 0 → part ≡ []

-- The kept chunks lie within the file.
pub length-kept :
    (m : FileManifest) (whole c : Bytes)
    → IsPartOf m whole c
    → length (take (valid_chunks m (length c) * chunk_size) whole)
      ≡ valid_chunks m (length c) * chunk_size
length-kept m whole c v = omega (
  arith,
  ap length v.chunks_agree,
  length-take (valid_chunks m (length c) * chunk_size) c,
  valid_chunks-inside m (length c),
)

module _ (blake3 : Bytes → Bytes) {F : Type 0} (fs : Files F) where
  module _ (w : WorkingFiles fs) (m : FileManifest) (whole : Bytes) (final part : Str) where
    -- What is left of a part file of which that many chunks are kept.
    abbrev pub Kept : ℕ → List ℕ → F → Type 0
    Kept v js s = (js ≡ below v) × (w.content s part ≡ take (v * chunk_size) whole)

    -- The truncation keeps the whole chunks of the part file.
    pub resumes :
        (c : Bytes) (s : F)
        → w.content s part ≡ c
        → IsPartOf m whole c
        → length whole ≤ m.total_chunks * chunk_size
        → let v = valid_chunks m (length c) in
          Outcome (Kept v) Never (resume fs m part (length c) s)
    unfolding resume valid_chunks
    resumes c s stored v fits = elim (Bool-cases (ltb 0 (length c) && ltb 0 m.total_chunks)) [
      | inl some_chunks ↦
          let n = valid_chunks m (length c) * chunk_size in
          let (cut, now) =
            w.truncates part n s
              (omega (arith, valid_chunks-inside m (length c), ap length stored)) in
          rw some_chunks (
            continue-Outcome (fs.set_len part n s) _
              (succeeds {Q = λ u s'. w.content s' part ≡ take n whole} _ tt cut
                (now ∙ ap (take n) stored ∙ v.chunks_agree))
              (λ u s1 there. ends_ok _ s1 (refl, there)))
      | inr no_chunks ↦ rw no_chunks (
          ends_ok [] s (
            ap below (sym (none_kept no_chunks)),
            stored
                ∙ nothing no_chunks
                ∙ ap (λ k. take (k * chunk_size) whole) (sym (none_kept no_chunks)),
          ))
    ]
      where
        none_kept :
            (ltb 0 (length c) && ltb 0 m.total_chunks) ≡ false → valid_chunks m (length c) ≡ 0
        none_kept h = ground arith

        nothing : (ltb 0 (length c) && ltb 0 m.total_chunks) ≡ false → c ≡ []
        nothing h = elim (Bool-cases (ltb 0 (length c))) [
          | inl some_bytes ↦ v.none_of_empty (ground arith)
          | inr no_bytes ↦ length_zero c (ground arith)
        ]
