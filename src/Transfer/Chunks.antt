-- ===== src/Transfer/Chunks.antt =====
-- How a manifest (message.rs) cuts a file into chunks.
use bridgeos.Prelude.{
  ltb, ltb→lt, ltb→le, Bool-cases, Bytes, Str, ℕ, ◌+◌, ◌-◌, ◌*◌, ◌≤◌, ◌<◌, min, ◌≡◌, ◌⊎◌, inl, inr,
  arith,
}
use bridgeos.Prelude.Result.{ok, err}
use bridgeos.Transfer.{
  chunk_size, chunk_out_of_bounds, FileManifest, calculate_total_chunks, new_manifest,
  expected_chunk_size,
}

-- The size that a chunk has to have: 64 KiB, or what is left of the file.
abbrev pub share : ℕ → ℕ → ℕ
share total_size i = min chunk_size (total_size - i * chunk_size)

-- The number of chunks is the least one whose chunks hold the file.
pub calculate_total_chunks_bounds :
    (total_size : ℕ)
    → total_size ≤ 281474976645120
    → (total_size ≤ calculate_total_chunks total_size * chunk_size)
      × (calculate_total_chunks total_size * chunk_size < total_size + chunk_size)
unfolding calculate_total_chunks
calculate_total_chunks_bounds total_size small = (ground arith, ground arith)

pub expected_chunk_size-inside :
    (m : FileManifest) (i : ℕ)
    → m.total_size ≤ m.total_chunks * chunk_size
    → m.total_chunks * chunk_size < m.total_size + chunk_size
    → i * chunk_size < m.total_size
    → expected_chunk_size m i ≡ ok (share m.total_size i)
unfolding expected_chunk_size
expected_chunk_size-inside m i enough least inside = ground arith

expected_chunk_size-beyond :
    (m : FileManifest) (i : ℕ)
    → m.total_chunks * chunk_size < m.total_size + chunk_size
    → m.total_size ≤ i * chunk_size
    → expected_chunk_size m i ≡ err (chunk_out_of_bounds i m.total_chunks)
unfolding expected_chunk_size
expected_chunk_size-beyond m i least beyond = ground arith

-- In the manifest of a file of at most 2^48 - 2^16 bytes, the chunks are exactly those whose offset lies
-- within the file, and a chunk is 64 KiB, or what is left of the file if that is less; it is never
-- empty.
pub expected_chunk_size-new_manifest :
    (file_id filename : Str) (total_size : ℕ) (hash : Bytes) (i : ℕ)
    → total_size ≤ 281474976645120
    → ((i * chunk_size < total_size)
        × (0 < share total_size i)
        × (expected_chunk_size (new_manifest file_id filename total_size hash) i
            ≡ ok (share total_size i)))
      ⊎ ((total_size ≤ i * chunk_size)
          × (expected_chunk_size (new_manifest file_id filename total_size hash) i
              ≡ err (chunk_out_of_bounds i (calculate_total_chunks total_size))))
unfolding new_manifest
expected_chunk_size-new_manifest file_id filename total_size hash i small =
    let m = new_manifest file_id filename total_size hash in
    let (enough, least) = calculate_total_chunks_bounds total_size small in
    elim (Bool-cases (ltb (i * chunk_size) total_size)) [
      | inl inside ↦ inl (
        ltb→lt _ _ inside,
        omega (arith, ltb→lt _ _ inside),
        expected_chunk_size-inside m i enough least (ltb→lt _ _ inside),
      )
      | inr beyond ↦
          inr (ltb→le _ _ beyond, expected_chunk_size-beyond m i least (ltb→le _ _ beyond))
    ]
