-- ===== src/Transfer/Bounds.antt =====
-- Where a receiver in memory (receiver.rs) writes.
use bridgeos.Prelude.{
  length, length-replicate, Bytes, bytes_eq_refl, Str, ℕ, ◌+◌, ◌*◌, ◌≤◌, ◌<◌, ◌≡◌, refl, sym, ap,
  ◌∙◌, ◌≢◌, inl, inr, arith,
}
use bridgeos.Prelude.Result.{Result, ok, err}
use bridgeos.Transfer.{
  chunk_size, TransferError, out_of_range, chunk_out_of_bounds, FileManifest, new_manifest,
  expected_chunk_size, FileChunk, new_chunk, verify_hash,
}
use bridgeos.Transfer.Chunks.{share, expected_chunk_size-new_manifest}
use bridgeos.Transfer.Memory.{FileReceiver, to_memory, check_fields, check_chunk, receive_chunk}

module _ (blake3 : Bytes → Bytes) where
  check_chunk-fits :
      (c : FileChunk) (r : FileReceiver) (size : ℕ)
      → expected_chunk_size r.manifest c.chunk_index ≡ ok size
      → c.chunk_index * chunk_size + size ≤ length r.buffer
      → check_chunk blake3 c r ≢ err out_of_range
  unfolding check_chunk check_fields
  check_chunk-fits c r size expected fits h = ground (arith, expected, fits, h)

  check_chunk-beyond :
      (c : FileChunk) (r : FileReceiver) (a b : ℕ)
      → expected_chunk_size r.manifest c.chunk_index ≡ err (chunk_out_of_bounds a b)
      → check_chunk blake3 c r ≢ err out_of_range
  unfolding check_chunk check_fields
  check_chunk-beyond c r a b expected h = ground (arith, expected, h)

  receive_chunk-check_chunk :
      (c : FileChunk) (r : FileReceiver) → (receive_chunk blake3 c r).0 ≡ check_chunk blake3 c r
  unfolding receive_chunk
  receive_chunk-check_chunk c r = by_check (check_chunk blake3 c r) refl
    where
      by_check :
          (v : Result (Unit {0}) TransferError)
          → check_chunk blake3 c r ≡ v
          → (receive_chunk blake3 c r).0 ≡ check_chunk blake3 c r
      by_check (err e) h = rw (h, receive_chunk) refl
      by_check (ok tt) h = rw (h, receive_chunk) refl

  -- A receiver whose manifest was computed from the size of its buffer, at most 2^48 - 2^16 bytes,
  -- writes no chunk whatever past the end of the buffer.
  pub receive_chunk-in_range :
      (c : FileChunk) (r : FileReceiver) (file_id filename : Str) (hash : Bytes)
      → r.manifest ≡ new_manifest file_id filename (length r.buffer) hash
      → length r.buffer ≤ 281474976645120
      → (receive_chunk blake3 c r).0 ≢ err out_of_range
  receive_chunk-in_range c r file_id filename hash e small h =
      let size_is = ap (λ m. expected_chunk_size m c.chunk_index) e in
      let checked = sym (receive_chunk-check_chunk c r) ∙ h in
      elim (expected_chunk_size-new_manifest file_id filename (length r.buffer) hash c.chunk_index
        small) [
          | inl (inside, _, expected) ↦
              check_chunk-fits c r (share (length r.buffer) c.chunk_index) (size_is ∙ expected)
                (omega (arith, inside)) checked
          | inr (_, expected) ↦ check_chunk-beyond c r _ _ (size_is ∙ expected) checked
        ]

  -- A manifest from the wire is not checked: when it states two chunks or more for a file of less than
  -- 64 KiB, a well-formed first chunk is out of range of the receiver's buffer, which panics.
  pub receive_chunk-overrun :
      (m : FileManifest) (b : Bytes)
      → 1 < m.total_chunks
      → m.total_size < chunk_size
      → length b ≡ chunk_size
      → (receive_chunk blake3 (new_chunk blake3 m.file_id 0 0 b) (to_memory m)).0 ≡ err out_of_range
  unfolding check_chunk check_fields expected_chunk_size verify_hash new_chunk to_memory
  receive_chunk-overrun m b many little full =
      receive_chunk-check_chunk (new_chunk blake3 m.file_id 0 0 b) (to_memory m)
      ∙ ground (
        arith,
        bytes_eq_refl m.file_id,
        bytes_eq_refl (blake3 b),
        length-replicate {A = ℕ} m.total_size 0,
      )
