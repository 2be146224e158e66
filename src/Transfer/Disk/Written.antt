-- ===== src/Transfer/Disk/Written.antt =====
-- The chunks of a file that are written to a part file (receiver.rs).
use mathlib.Core.List.{append_assoc, append-nil}
use bridgeos.Prelude.{
  ltb, ltb→lt, ltb→le, Bool-cases, length, take, drop, length-append, take-append-drop, length-take,
  Bytes, bytes_eq_refl, Str, ℕ, zero, suc, ◌+◌, ◌*◌, ◌^◌, ◌≤◌, ◌<◌, min, ◌≡◌, refl, sym, ap, ◌∙◌,
  subst, inl, inr, true, none, some, List, [], ◌∷◌, ◌++◌, arith,
}
use bridgeos.Prelude.Exec.{Exec, ◌>>=◌, pure, lift}
use bridgeos.Prelude.Outcome.{Outcome, ends_ok, succeeds, continue-Outcome}
use bridgeos.Prelude.Result.{ok}
use bridgeos.Transfer.{chunk_size, TransferError, FileManifest, expected_chunk_size, new_chunk}
use bridgeos.Transfer.Memory.{FileSender, insert_chunk, below, write_slice, next_chunk}
use bridgeos.Transfer.Chunks.{share}
use bridgeos.Transfer.Steps.{
  length-below, has_chunk-below, length_zero, sender_at, passes, sends_next, stops,
}
use bridgeos.Transfer.Disk.{Files, DiskReceiver, disk_is_complete, receive_on_disk, finalize_file}

-- A file system on which nothing fails and a path keeps what was written; a missing file counts as an
-- empty one.
pub record WorkingFiles {F : Type 0} (fs : Files F) : Type 0 where
  pub content : F → Str → Bytes
  pub makes_dir :
      (d : Str) (s : F)
      → ((fs.create_dir_all d s).0 ≡ ok tt)
        × ((q : Str) → content (fs.create_dir_all d s).1 q ≡ content s q)
  pub opens :
      (q : Str) (s : F)
      → ((fs.open_part q s).0 ≡ ok tt) × (content (fs.open_part q s).1 q ≡ content s q)
  pub measures :
      (q : Str) (s : F)
      → ((fs.file_len q s).0 ≡ ok (length (content s q)))
        × (content (fs.file_len q s).1 q ≡ content s q)
  pub truncates :
      (q : Str) (n : ℕ) (s : F)
      → n ≤ length (content s q)
      → ((fs.set_len q n s).0 ≡ ok tt) × (content (fs.set_len q n s).1 q ≡ take n (content s q))
  pub writes :
      (q : Str) (offset : ℕ) (bytes : Bytes) (s : F)
      → offset ≤ length (content s q)
      → ((fs.write_at q offset bytes s).0 ≡ ok tt)
        × (content (fs.write_at q offset bytes s).1 q ≡ write_slice offset bytes (content s q))
  pub reads :
      (q : Str) (s : F)
      → ((fs.read_all q s).0 ≡ ok (content s q)) × (content (fs.read_all q s).1 q ≡ content s q)
  pub renames :
      (q r : Str) (s : F)
      → ((fs.rename q r s).0 ≡ ok tt) × (content (fs.rename q r s).1 r ≡ content s q)

-- No error.
abbrev pub Never : {F : Type 0} → TransferError → F → Type 0
Never e s = ⊥

take_whole : (b : Bytes) → take (length b) b ≡ b
take_whole [] = refl
take_whole (x ∷ b) = ap (λ c. x ∷ c) (take_whole b)

drop_beyond : (b : Bytes) (n : ℕ) → length b ≤ n → drop n b ≡ []
drop_beyond [] zero h = refl
drop_beyond [] (suc n) h = refl
drop_beyond (x ∷ b) zero h = ground arith
drop_beyond (x ∷ b) (suc n) h = drop_beyond b n (omega arith)

-- A write at the end of a file.
write_slice-end :
    (before bytes : Bytes) → write_slice (length before) bytes before ≡ before ++ bytes
unfolding write_slice
write_slice-end before bytes =
    rw (take_whole before, drop_beyond before (length before + length bytes) (omega arith))
      (ap (λ b. before ++ b) (append-nil bytes))

module _ (blake3 : Bytes → Bytes) {F : Type 0} (fs : Files F) where
  -- The sender's chunks are handed to the receiver until there is none or one of the two fails.
  unfoldable pub exchange : ℕ → FileSender → DiskReceiver → Exec F TransferError DiskReceiver
  exchange zero s r = pure r
  exchange (suc n) s r = do
    next ← lift (next_chunk blake3 s).0
    elim next [
      | none ↦ pure r
      | some chunk ↦ (do
        r' ← receive_on_disk fs blake3 chunk r
        exchange n (next_chunk blake3 s).1 r')
    ]

  module _ (w : WorkingFiles fs) (m : FileManifest) (whole : Bytes) (final part : Str) where
    abbrev pub disk_with : List ℕ → DiskReceiver
    disk_with js = record {
      manifest = m;
      final_path = final;
      part_path = part;
      received_chunks = js;
    }

    abbrev pub disk_at : ℕ → DiskReceiver
    disk_at i = disk_with (below i)

    receives_on_disk :
        (i size : ℕ) (before todo : Bytes) (s : F)
        → i < m.total_chunks
        → expected_chunk_size m i ≡ ok size
        → length before ≡ i * chunk_size
        → size ≤ length todo
        → w.content s part ≡ before
        → Outcome
            (λ r s'. (r ≡ disk_at (suc i)) × (w.content s' part ≡ before ++ take size todo))
            Never
            (receive_on_disk fs blake3
              (new_chunk blake3 m.file_id i (i * chunk_size) (take size todo))
              (disk_at i)
              s)
    unfolding receive_on_disk new_chunk
    receives_on_disk i size before todo s more expected at fits stored =
        let (written, now) =
          w.writes part (i * chunk_size) (take size todo) s (omega (arith, at, ap length stored)) in
        let appended : w.content (fs.write_at part (i * chunk_size) (take size todo) s).1 part
            ≡ before ++ take size todo =
          now
          ∙ ap (write_slice (i * chunk_size) (take size todo)) stored
          ∙ ap (λ n. write_slice n (take size todo) before) (sym at)
          ∙ write_slice-end before (take size todo) in
        rw (passes blake3 m whole i size todo more expected fits) (
          continue-Outcome (fs.write_at part (i * chunk_size) (take size todo) s) _
            (succeeds {Q = λ u s'. w.content s' part ≡ before ++ take size todo} _ tt written
              appended)
            (λ u s' grown. ends_ok _ s' (ap disk_with inserted, grown)))
      where
        inserted : insert_chunk i (below i) ≡ i ∷ below i
        inserted = rw (has_chunk-below i i (omega arith), insert_chunk) refl

    abbrev pub Arrived : DiskReceiver → F → Type 0
    Arrived r s = (r ≡ disk_at m.total_chunks) × (w.content s part ≡ whole)

    -- With enough rounds for what is left, the exchange ends with the whole file in the part file.
    pub exchanges_on_disk :
        (n i : ℕ) (before todo : Bytes) (s : F)
        → ((j : ℕ)
            → j * chunk_size < length whole
            → (j < m.total_chunks) × (expected_chunk_size m j ≡ ok (share (length whole) j)))
        → ((j : ℕ) → length whole ≤ j * chunk_size → m.total_chunks ≤ j)
        → whole ≡ before ++ todo
        → length before ≡ min (i * chunk_size) (length whole)
        → w.content s part ≡ before
        → i ≤ m.total_chunks
        → m.total_chunks < i + n
        → Outcome Arrived Never
            (exchange n (sender_at blake3 m whole i (length before)) (disk_at i) s)
    unfolding exchange
    exchanges_on_disk zero i before todo s cut ends e at stored some_left enough =
        elim (no_rounds enough) [ ]
      where
        no_rounds : m.total_chunks < i + 0 → ⊥
        no_rounds h = omega (arith, some_left)
    exchanges_on_disk (suc n) i before todo s cut ends e at stored some_left enough =
        let sizes : length whole ≡ length before + length todo =
          ap length e ∙ length-append before todo in
        elim (Bool-cases (ltb (i * chunk_size) (length whole))) [
          | inl inside ↦
              let within = ltb→lt _ _ inside in
              let (more, expected) = cut i within in
              let size = share (length whole) i in
              let here : length before ≡ i * chunk_size = omega (arith, within) in
              let fits : size ≤ length todo = omega (arith, within) in
              let dispatched = sends_next blake3 m whole i size before todo more expected e fits in
              rw (dispatched, exchange)
                (continue-Outcome _ _
                  (receives_on_disk i size before todo s more expected here fits stored)
                  (λ r s1 (same, grown).
                    subst
                      (λ q. Outcome Arrived Never (
                        exchange n
                          (next_chunk blake3 (sender_at blake3 m whole i (length before))).1 q s1))
                      (sym same)
                      (rw dispatched (
                        exchanges_on_disk n (suc i) (before ++ take size todo) (drop size todo) s1
                          cut ends
                          (e
                            ∙ ap (λ b. before ++ b) (sym (take-append-drop size todo))
                            ∙ sym (append_assoc before (take size todo) (drop size todo)))
                          (omega (
                            arith,
                            within,
                            length-append before (take size todo),
                            length-take size todo,
                          ))
                          grown more (omega arith)))))
          | inr beyond ↦
              let over = ltb→le (i * chunk_size) (length whole) beyond in
              let last : i ≡ m.total_chunks = omega (arith, ends i over) in
              let no_todo : todo ≡ [] = length_zero todo (omega (arith, over)) in
              rw (stops blake3 m whole i (length before) (ends i over), exchange)
                (ends_ok (disk_at i) s (
                  ap disk_at last,
                  stored ∙ sym (append-nil before) ∙ ap (λ b. before ++ b) (sym no_todo) ∙ sym e,
                ))
        ]

    complete : m.total_chunks < 2 ^ 32 → disk_is_complete (disk_at m.total_chunks) ≡ true
    unfolding disk_is_complete
    complete few = ground (arith, length-below m.total_chunks)

    pub finalizes :
        (s : F)
        → m.blake3_root_hash ≡ blake3 whole
        → m.total_chunks < 2 ^ 32
        → w.content s part ≡ whole
        → Outcome
            (λ q s'. (q ≡ final) × (w.content s' final ≡ whole))
            Never
            (finalize_file fs blake3 (disk_at m.total_chunks) s)
    unfolding finalize_file
    finalizes s root few stored =
        let (found, kept) = w.reads part s in
        rw (complete few) (
          continue-Outcome (fs.read_all part s) _
            (succeeds {Q = λ b s'. (b ≡ whole) × (w.content s' part ≡ whole)} _ _ found
              (stored, kept ∙ stored))
            (λ b s1 (same, there).
              rw (same, root, bytes_eq_refl (blake3 whole))
                (let (moved, now) = w.renames part final s1 in
                  continue-Outcome (fs.rename part final s1) _
                    (succeeds {Q = λ u s'. w.content s' final ≡ whole} _ tt moved (now ∙ there))
                    (λ u s2 done. ends_ok final s2 (refl, done)))))
