-- ===== src/Transfer/Steps.antt =====
-- One chunk on its way from the sender (sender.rs) to the receiver (receiver.rs), in memory.
use mathlib.Core.List.{append_assoc}
use bridgeos.Prelude.{
  length, take, drop, length-append, length-take, take-append_length, drop-append_length, Bytes,
  bytes_eq_refl, ℕ, zero, suc, ◌+◌, ◌*◌, ◌^◌, ◌≤◌, ◌<◌, ◌≡◌, refl, sym, ap, ◌∙◌, subst, false, none,
  some, [], ◌∷◌, ◌++◌, arith,
}
use bridgeos.Prelude.Result.{ok}
use bridgeos.Transfer.{chunk_size, FileManifest, expected_chunk_size, new_chunk, verify_hash}
use bridgeos.Transfer.Memory.{
  FileSender, FileReceiver, has_chunk, insert_chunk, below, from_source, is_complete, write_slice,
  read_chunk, next_chunk, check_fields, check_chunk, receive_chunk, finalize_memory,
}

pub length-below : (i : ℕ) → length (below i) ≡ i
length-below zero = refl
length-below (suc i) = ap suc (length-below i)

pub has_chunk-below : (i j : ℕ) → i ≤ j → has_chunk j (below i) ≡ false
unfolding has_chunk
has_chunk-below zero j h = refl
has_chunk-below (suc i) j h = ground (arith, has_chunk-below i j (omega arith))

pub length_zero : (b : Bytes) → length b ≡ 0 → b ≡ []
length_zero [] h = refl
length_zero (x ∷ b) h = ground arith

drop-append_beyond :
    (before blank : Bytes) (n : ℕ) → drop (length before + n) (before ++ blank) ≡ drop n blank
drop-append_beyond [] blank n = rw (zero_add n)
  where
    zero_add : (k : ℕ) → 0 + k ≡ k
    zero_add k = omega arith
drop-append_beyond (x ∷ before) blank n =
    rw (suc_add (length before) n) (drop-append_beyond before blank n)
  where
    suc_add : (k l : ℕ) → suc k + l ≡ suc (k + l)
    suc_add k l = omega arith

write_slice-append :
    (before blank bytes : Bytes)
    → write_slice (length before) bytes (before ++ blank)
      ≡ (before ++ bytes) ++ drop (length bytes) blank
unfolding write_slice
write_slice-append before blank bytes =
    rw (take-append_length before blank, drop-append_beyond before blank (length bytes))
      (sym (append_assoc before bytes (drop (length bytes) blank)))

module _ (blake3 : Bytes → Bytes) where
  module _ (m : FileManifest) (whole : Bytes) where
    abbrev pub sender_at : ℕ → ℕ → FileSender
    sender_at i at = record { sent_manifest = m; source = whole; position = at; current_chunk = i }

    abbrev pub receiver_at : Bytes → ℕ → FileReceiver
    receiver_at buffer i = record { manifest = m; buffer = buffer; received_chunks = below i }

    sends :
        (i size : ℕ) (before todo : Bytes)
        → i < m.total_chunks
        → expected_chunk_size m i ≡ ok size
        → whole ≡ before ++ todo
        → size ≤ length todo
        → next_chunk blake3 (sender_at i (length before)) ≡ (
          ok (some (new_chunk blake3 m.file_id i (i * chunk_size) (take size todo))),
          sender_at (i + 1) (length before + size),
        )
    unfolding next_chunk read_chunk
    sends i size before todo more expected e fits =
        let there : drop (length before) whole ≡ todo = rw e (drop-append_length before todo) in
        ground (arith, expected, ap length e, length-append before todo, there)

    pub passes :
        (i size : ℕ) (todo : Bytes)
        → i < m.total_chunks
        → expected_chunk_size m i ≡ ok size
        → size ≤ length todo
        → check_fields blake3 (new_chunk blake3 m.file_id i (i * chunk_size) (take size todo)) m
          ≡ ok tt
    unfolding check_fields verify_hash new_chunk
    passes i size todo more expected fits =
        let taken : length (take size todo) ≡ size = omega (arith, length-take size todo) in
        ground
          (arith, expected, taken, bytes_eq_refl m.file_id, bytes_eq_refl (blake3 (take size todo)))

    passes_in_memory :
        (i size : ℕ) (before todo blank : Bytes)
        → i < m.total_chunks
        → expected_chunk_size m i ≡ ok size
        → length before ≡ i * chunk_size
        → size ≤ length todo
        → length blank ≡ length todo
        → check_chunk blake3
            (new_chunk blake3 m.file_id i (i * chunk_size) (take size todo))
            (receiver_at (before ++ blank) i)
          ≡ ok tt
    unfolding check_chunk new_chunk
    passes_in_memory i size before todo blank more expected at fits same =
        let taken : length (take size todo) ≡ size = omega (arith, length-take size todo) in
        ground (arith, passes i size todo more expected fits, taken, length-append before blank)

    pub receives :
        (i size : ℕ) (before todo blank : Bytes)
        → i < m.total_chunks
        → expected_chunk_size m i ≡ ok size
        → length before ≡ i * chunk_size
        → size ≤ length todo
        → length blank ≡ length todo
        → receive_chunk blake3
            (new_chunk blake3 m.file_id i (i * chunk_size) (take size todo))
            (receiver_at (before ++ blank) i)
          ≡ (ok tt, receiver_at ((before ++ take size todo) ++ drop size blank) (suc i))
    unfolding receive_chunk insert_chunk new_chunk
    receives i size before todo blank more expected at fits same =
        let taken : length (take size todo) ≡ size = omega (arith, length-take size todo) in
        let written : write_slice (i * chunk_size) (take size todo) (before ++ blank)
            ≡ (before ++ take size todo) ++ drop size blank =
          subst
            (λ n.
              write_slice n (take size todo) (before ++ blank)
              ≡ (before ++ take size todo) ++ drop size blank)
            at
            (write_slice-append before blank (take size todo)
              ∙ ap (λ n. (before ++ take size todo) ++ drop n blank) taken) in
        rw (passes_in_memory i size before todo blank more expected at fits same, receive_chunk)
          (rw (written, has_chunk-below i i (omega arith)) refl)

    pub sends_next :
        (i size : ℕ) (before todo : Bytes)
        → i < m.total_chunks
        → expected_chunk_size m i ≡ ok size
        → whole ≡ before ++ todo
        → size ≤ length todo
        → next_chunk blake3 (sender_at i (length before)) ≡ (
          ok (some (new_chunk blake3 m.file_id i (i * chunk_size) (take size todo))),
          sender_at (suc i) (length (before ++ take size todo)),
        )
    sends_next i size before todo more expected e fits =
        let successor : i + 1 ≡ suc i = omega arith in
        let moved : length before + size ≡ length (before ++ take size todo) =
          omega (arith, length-append before (take size todo), length-take size todo) in
        sends i size before todo more expected e fits
        ∙ ap
            (λ j. (
              ok (some (new_chunk blake3 m.file_id i (i * chunk_size) (take size todo))),
              sender_at j (length before + size),
            ))
            successor
        ∙ ap
            (λ k. (
              ok (some (new_chunk blake3 m.file_id i (i * chunk_size) (take size todo))),
              sender_at (suc i) k,
            ))
            moved

    pub stops :
        (i k : ℕ)
        → m.total_chunks ≤ i
        → next_chunk blake3 (sender_at i k) ≡ (ok none, sender_at i k)
    unfolding next_chunk
    stops i k h = ground arith

    pub starts : from_source whole m 0 ≡ ok (sender_at 0 0)
    unfolding from_source
    starts = ground arith

    pub finishes :
        m.blake3_root_hash ≡ blake3 whole
        → m.total_chunks < 2 ^ 32
        → finalize_memory blake3 (receiver_at whole m.total_chunks) ≡ ok whole
    unfolding finalize_memory is_complete
    finishes root few =
        ground (arith, root, length-below m.total_chunks, bytes_eq_refl (blake3 whole))
