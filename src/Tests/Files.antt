-- ===== src/Tests/Files.antt =====
-- A file of two bytes.
use bridgeos.Prelude.{
  length, replicate, length-replicate, Bytes, ℕ, ◌*◌, ◌≤◌, ◌<◌, ◌≡◌, refl, ◌≢◌, ◌⊎◌, [], ◌∷◌, arith,
}
use bridgeos.Prelude.Result.{ok, err}
use bridgeos.Transfer.{
  chunk_size, out_of_range, chunk_out_of_bounds, FileManifest, calculate_total_chunks, new_manifest,
  expected_chunk_size, FileChunk, new_chunk,
}
use bridgeos.Transfer.Chunks.{share, expected_chunk_size-new_manifest}
use bridgeos.Transfer.Memory.{
  FileSender, FileReceiver, from_source, to_memory, create_manifest_from_bytes, receive_chunk,
  finalize_memory,
}
use bridgeos.Transfer.Delivered.{exchange, finalize_memory-exchange}
use bridgeos.Transfer.Bounds.{receive_chunk-in_range, receive_chunk-overrun}

-- A hash of one byte.
abbrev tiny_hash : Bytes → Bytes
tiny_hash b = length b ∷ []

abbrev two_bytes : Bytes
two_bytes = 5 ∷ 6 ∷ []

one_chunk : calculate_total_chunks (length two_bytes) < 2
unfolding calculate_total_chunks
one_chunk = omega arith

expected_chunk_size-new_manifest_example :
    ((1 * chunk_size < 70000)
      × (0 < share 70000 1)
      × (expected_chunk_size (new_manifest [] [] 70000 []) 1 ≡ ok (share 70000 1)))
    ⊎ ((70000 ≤ 1 * chunk_size)
        × (expected_chunk_size (new_manifest [] [] 70000 []) 1
            ≡ err (chunk_out_of_bounds 1 (calculate_total_chunks 70000))))
expected_chunk_size-new_manifest_example =
    expected_chunk_size-new_manifest [] [] 70000 [] 1 (omega arith)

finalize_memory-exchange_example :
    let m = create_manifest_from_bytes tiny_hash [] [] two_bytes in
    (s : FileSender) × (r : FileReceiver) × (from_source two_bytes m 0 ≡ ok s)
    × (exchange tiny_hash 2 s (to_memory m) ≡ ok r)
    × (finalize_memory tiny_hash r ≡ ok two_bytes)
finalize_memory-exchange_example =
    finalize_memory-exchange tiny_hash [] [] two_bytes 2 (omega arith) one_chunk

-- A receiver of two bytes, and a chunk for it.
abbrev small_receiver : FileReceiver
small_receiver = record {
  manifest = new_manifest [] [] 2 [];
  buffer = 0 ∷ 0 ∷ [];
  received_chunks = [];
}

abbrev small_chunk : FileChunk
small_chunk = record {
  file_id = [];
  chunk_index = 0;
  offset = 0;
  payload = two_bytes;
  blake3_hash = 2 ∷ [];
}

receive_chunk-in_range_example :
    (receive_chunk tiny_hash small_chunk small_receiver).0 ≢ err out_of_range
receive_chunk-in_range_example =
    receive_chunk-in_range tiny_hash small_chunk small_receiver [] [] [] refl (omega arith)

abbrev lying_manifest : FileManifest
lying_manifest = record {
  file_id = [];
  filename = [];
  total_size = 1;
  total_chunks = 2;
  blake3_root_hash = [];
}

receive_chunk-overrun_example :
    (receive_chunk tiny_hash
      (new_chunk tiny_hash [] 0 0 (replicate chunk_size 7))
      (to_memory lying_manifest)).0
    ≡ err out_of_range
receive_chunk-overrun_example =
    receive_chunk-overrun tiny_hash lying_manifest (replicate chunk_size 7) (omega arith)
      (omega arith) (length-replicate {A = ℕ} chunk_size 7)
