-- ===== src/Transfer/Delivered.antt =====
-- A file that is sent chunk by chunk from memory (sender.rs) into memory (receiver.rs).
use mathlib.Core.List.{append_assoc}
use bridgeos.Prelude.{
  ltb, ltb→lt, ltb→le, Bool-cases, length, take, drop, replicate, length-append, take-append-drop,
  length-take, length-drop, length-replicate, Bytes, Str, ℕ, zero, suc, ◌+◌, ◌*◌, ◌≤◌, ◌<◌, min,
  ◌≡◌, refl, sym, ap, ◌∙◌, inl, inr, none, some, [], ◌++◌, arith,
}
use bridgeos.Prelude.Result.{Result, ok, err}
use bridgeos.Transfer.{
  chunk_size, TransferError, FileManifest, calculate_total_chunks, new_manifest,
  expected_chunk_size,
}
use bridgeos.Transfer.Memory.{
  FileSender, FileReceiver, from_source, to_memory, create_manifest_from_bytes, next_chunk,
  receive_chunk, finalize_memory,
}
use bridgeos.Transfer.Chunks.{share, calculate_total_chunks_bounds, expected_chunk_size-inside}
use bridgeos.Transfer.Steps.{
  length_zero, sender_at, receiver_at, receives, sends_next, stops, starts, finishes,
}

module _ (blake3 : Bytes → Bytes) where
  -- The sender's chunks are handed to the receiver until there is none or one of the two fails.
  unfoldable pub exchange : ℕ → FileSender → FileReceiver → Result FileReceiver TransferError
  exchange zero s r = ok r
  exchange (suc n) s r = elim (next_chunk blake3 s).0 [
    | err e ↦ err e
    | ok none ↦ ok r
    | ok (some chunk) ↦ elim (receive_chunk blake3 chunk r).0 [
      | err e ↦ err e
      | ok _ ↦ exchange n (next_chunk blake3 s).1 (receive_chunk blake3 chunk r).1
    ]
  ]

  module _ (m : FileManifest) (whole : Bytes) where
    -- With enough rounds for what is left, the exchange ends with the whole file in the buffer.
    exchanges :
        (n i : ℕ) (before todo blank : Bytes)
        → ((j : ℕ)
            → j * chunk_size < length whole
            → (j < m.total_chunks) × (expected_chunk_size m j ≡ ok (share (length whole) j)))
        → ((j : ℕ) → length whole ≤ j * chunk_size → m.total_chunks ≤ j)
        → whole ≡ before ++ todo
        → length before ≡ min (i * chunk_size) (length whole)
        → length blank ≡ length todo
        → i ≤ m.total_chunks
        → m.total_chunks < i + n
        → exchange n
            (sender_at blake3 m whole i (length before))
            (receiver_at blake3 m whole (before ++ blank) i)
          ≡ ok (receiver_at blake3 m whole whole m.total_chunks)
    unfolding exchange
    exchanges zero i before todo blank cut ends e at same some_left enough = ground arith
    exchanges (suc n) i before todo blank cut ends e at same some_left enough =
        let sizes : length whole ≡ length before + length todo =
          ap length e ∙ length-append before todo in
        elim (Bool-cases (ltb (i * chunk_size) (length whole))) [
          | inl inside ↦
              let within = ltb→lt _ _ inside in
              let (more, expected) = cut i within in
              let size = share (length whole) i in
              let here : length before ≡ i * chunk_size = omega (arith, within) in
              let fits : size ≤ length todo = omega (arith, within) in
              let dispatched = sends_next blake3 m whole i size before todo more expected e fits in
              let taken =
                receives blake3 m whole i size before todo blank more expected here fits same in
              rw (dispatched, exchange)
                (rw (taken, dispatched)
                  (rw (taken) (
                    exchanges n (suc i) (before ++ take size todo) (drop size todo)
                      (drop size blank) cut ends
                      (e
                        ∙ ap (λ b. before ++ b) (sym (take-append-drop size todo))
                        ∙ sym (append_assoc before (take size todo) (drop size todo)))
                      (omega (
                        arith,
                        within,
                        length-append before (take size todo),
                        length-take size todo,
                      ))
                      (omega (arith, length-drop size todo, length-drop size blank)) more
                      (omega arith))))
          | inr beyond ↦
              let over = ltb→le (i * chunk_size) (length whole) beyond in
              let last : i ≡ m.total_chunks = omega (arith, ends i over) in
              let no_todo : todo ≡ [] = length_zero todo (omega (arith, over)) in
              let no_blank : blank ≡ [] = length_zero blank (omega (arith, over)) in
              rw (stops blake3 m whole i (length before) (ends i over), exchange)
                (ap (λ j. ok (receiver_at blake3 m whole (before ++ blank) j)) last
                  ∙ ap (λ b. ok (receiver_at blake3 m whole b m.total_chunks))
                      (ap (λ b. before ++ b) (no_blank ∙ sym no_todo) ∙ sym e))
        ]

  -- A file of at most 2^48 - 2^16 bytes that is sent from memory, chunk by chunk, from the first on,
  -- into a receiver made for its manifest arrives: with more rounds than the file has chunks, every
  -- chunk is accepted, and `finalize_memory` returns exactly the bytes of the file.
  pub finalize_memory-exchange :
      (file_id filename : Str) (whole : Bytes) (n : ℕ)
      → length whole ≤ 281474976645120
      → calculate_total_chunks (length whole) < n
      → let m = create_manifest_from_bytes blake3 file_id filename whole in
        (s : FileSender) × (r : FileReceiver) × (from_source whole m 0 ≡ ok s)
        × (exchange n s (to_memory m) ≡ ok r)
        × (finalize_memory blake3 r ≡ ok whole)
  unfolding create_manifest_from_bytes new_manifest to_memory
  finalize_memory-exchange file_id filename whole n small enough =
      let m = create_manifest_from_bytes blake3 file_id filename whole in
      let (bound, least) = calculate_total_chunks_bounds (length whole) small in
      (
        sender_at blake3 m whole 0 0,
        receiver_at blake3 m whole whole m.total_chunks,
        starts blake3 m whole,
        exchanges m whole n 0 [] whole (replicate (length whole) 0)
            (λ j inside. (omega arith, expected_chunk_size-inside m j bound least inside))
            (λ j over. omega arith) refl (omega arith) (length-replicate (length whole) 0)
            (omega arith) (omega arith),
        finishes blake3 m whole refl (omega arith),
      )
