-- ===== src/Transfer/Disk/Resumed.antt =====
-- A transfer that continues from a part file (receiver.rs).
use bridgeos.Prelude.{
  length, take, drop, take-append-drop, length-take, Bytes, Str, lit, ℕ, ◌*◌, ◌≤◌, ◌<◌, ◌≡◌, refl,
  sym, ap, ◌∙◌, subst, [], ◌++◌, arith,
}
use bridgeos.Prelude.Exec.{Exec, ◌>>=◌, lift}
use bridgeos.Prelude.Outcome.{Outcome, ends_ok, succeeds, continue-Outcome}
use bridgeos.Prelude.Result.{Result, ok, err}
use bridgeos.Transfer.{
  chunk_size, TransferError, FileManifest, calculate_total_chunks, new_manifest,
}
use bridgeos.Transfer.Memory.{next_expected_chunk, from_source, create_manifest_from_bytes}
use bridgeos.Transfer.Chunks.{calculate_total_chunks_bounds, expected_chunk_size-inside}
use bridgeos.Transfer.Steps.{length_zero, sender_at}
use bridgeos.Transfer.Disk.{Files, valid_chunks, resume, to_dir, finalize_file}
use bridgeos.Transfer.Disk.Written.{
  WorkingFiles, Never, exchange, disk_with, disk_at, Arrived, exchanges_on_disk, finalizes,
}
use bridgeos.Transfer.Disk.Kept.{
  valid_chunks-few, next_expected_chunk-below, IsPartOf, length-kept, Kept, resumes,
}

certain :
    {A F : Type 0} {P : F → Type 0} {a : A} (r : Result A TransferError × F)
    → Outcome (λ b s. (b ≡ a) × P s) Never r
    → (r.0 ≡ ok a) × P r.1
certain (ok b, s) h = let (same, p) = h.on_ok b refl in (ap ok same, p)
certain (err e, s) h = elim (h.on_err e refl) [ ]

module _ (blake3 : Bytes → Bytes) {F : Type 0} (fs : Files F) where
  -- A file is sent from memory to a directory, from the next expected chunk on.
  unfoldable pub download : ℕ → Bytes → Str → FileManifest → Exec F TransferError Str
  unfolding exchange
  download n whole dest_dir m = do
    r ← to_dir fs dest_dir m
    s ← lift (from_source whole m (next_expected_chunk r.received_chunks r.manifest))
    r' ← exchange blake3 fs n s r
    finalize_file fs blake3 r'

  module _ (m : FileManifest) (whole : Bytes) where
    seeks :
        (i : ℕ)
        → i ≤ m.total_chunks
        → from_source whole m i ≡ ok (sender_at blake3 m whole i (i * chunk_size))
    unfolding from_source
    seeks i h = ground arith

  module _ (w : WorkingFiles fs) (file_id filename dest_dir : Str) (whole : Bytes) (s : F) where
    abbrev sent_manifest_of : FileManifest
    sent_manifest_of = create_manifest_from_bytes blake3 file_id filename whole

    abbrev part_of : Str
    part_of = fs.join dest_dir (filename ++ lit ".part")

    -- The receiver that `to_dir` makes, and what is left of the part file.
    prepares :
        length whole ≤ 281474976645120
        → IsPartOf sent_manifest_of whole (w.content s part_of)
        → let v = valid_chunks sent_manifest_of (length (w.content s part_of)) in
          Outcome
            (λ r s'.
              (r ≡ disk_at blake3 fs w sent_manifest_of whole (fs.join dest_dir filename) part_of v)
              × (w.content s' part_of ≡ take (v * chunk_size) whole))
            Never
            (to_dir fs dest_dir sent_manifest_of s)
    unfolding to_dir create_manifest_from_bytes new_manifest
    prepares small v =
        let c = w.content s part_of in
        let (made, kept) = w.makes_dir dest_dir s in
        let bound = (calculate_total_chunks_bounds (length whole) small).0 in
        continue-Outcome (fs.create_dir_all dest_dir s) _
          (succeeds {Q = λ u s'. w.content s' part_of ≡ c} _ tt made (kept part_of))
          (λ u s1 h1.
            let (opened, same) = w.opens part_of s1 in
            continue-Outcome (fs.open_part part_of s1) _
              (succeeds {Q = λ u s'. w.content s' part_of ≡ c} _ tt opened (same ∙ h1))
              (λ u' s2 h2.
                let (measured, still) = w.measures part_of s2 in
                continue-Outcome (fs.file_len part_of s2) _
                  (succeeds {Q = λ n s'. (n ≡ length c) × (w.content s' part_of ≡ c)} _ _ measured
                    (ap length h2, still ∙ h2))
                  (λ n s3 (size, h3).
                    continue-Outcome (resume fs sent_manifest_of part_of n s3) _
                      (subst
                        (λ k.
                          Outcome
                            (Kept blake3 fs w sent_manifest_of whole (fs.join dest_dir filename)
                              part_of (valid_chunks sent_manifest_of (length c)))
                            Never (resume fs sent_manifest_of part_of k s3))
                        (sym size)
                        (resumes blake3 fs w sent_manifest_of whole (fs.join dest_dir filename)
                          part_of c s3 h3 v bound))
                      (λ js s4 (below_v, cut). ends_ok _ s4 (
                        ap
                            (disk_with blake3 fs w sent_manifest_of whole
                              (fs.join dest_dir filename) part_of)
                            below_v,
                        cut,
                      )))))

    downloads :
        (n : ℕ)
        → length whole ≤ 281474976645120
        → calculate_total_chunks (length whole) < n
        → IsPartOf sent_manifest_of whole (w.content s part_of)
        → Outcome
            (λ q s'.
              (q ≡ fs.join dest_dir filename) × (w.content s' (fs.join dest_dir filename) ≡ whole))
            Never
            (download n whole dest_dir sent_manifest_of s)
    unfolding download create_manifest_from_bytes new_manifest
    downloads n small enough v =
        let m = sent_manifest_of in
        let final = fs.join dest_dir filename in
        let (bound, least) = calculate_total_chunks_bounds (length whole) small in
        let i = valid_chunks m (length (w.content s part_of)) in
        continue-Outcome (to_dir fs dest_dir m s) _ (prepares small v) (λ r s1 (made, stored).
          rw (made, next_expected_chunk-below i m some_left, seeks m whole i some_left)
            (continue-Outcome
              (exchange blake3 fs n (sender_at blake3 m whole i (i * chunk_size))
                (disk_at blake3 fs w m whole final part_of i) s1)
              _
              (subst
                (λ k. Outcome (Arrived blake3 fs w m whole final part_of) Never (
                  exchange blake3 fs n (sender_at blake3 m whole i k)
                    (disk_at blake3 fs w m whole final part_of i) s1))
                (length-kept m whole (w.content s part_of) v)
                (exchanges_on_disk blake3 fs w m whole final part_of n i
                  (take (i * chunk_size) whole) (drop (i * chunk_size) whole) s1
                  (λ j inside. (omega arith, expected_chunk_size-inside m j bound least inside))
                  (λ j over. omega arith) (sym (take-append-drop (i * chunk_size) whole))
                  (omega (arith, length-take (i * chunk_size) whole)) stored some_left
                  (omega arith)))
              (λ r' s2 (same, arrived).
                rw same
                  (finalizes blake3 fs w m whole final part_of s2 refl (omega arith) arrived))))
      where
        some_left :
            valid_chunks sent_manifest_of (length (w.content s part_of))
            ≤ sent_manifest_of.total_chunks
        some_left = valid_chunks-few sent_manifest_of (length (w.content s part_of))

  -- A file of at most 2^48 - 2^16 bytes that is sent into a directory, on a file system that works,
  -- arrives also when the transfer continues from a part file, under two conditions on what it holds:
  -- its whole chunks, be there none, some or all of the file's, are those of the file, and if the file
  -- to come is empty, the part file is empty too. The sender starts at the next expected chunk,
  -- nothing fails, and the file that `finalize_file` names holds exactly the bytes that were sent.
  pub download-resumed :
      (w : WorkingFiles fs) (file_id filename dest_dir : Str) (whole : Bytes) (n : ℕ) (s : F)
      → length whole ≤ 281474976645120
      → calculate_total_chunks (length whole) < n
      → (let part = w.content s (fs.join dest_dir (filename ++ lit ".part")) in
          let kept =
            valid_chunks (create_manifest_from_bytes blake3 file_id filename whole) (length part)
            * chunk_size in
          take kept part ≡ take kept whole)
      → (whole ≡ [] → w.content s (fs.join dest_dir (filename ++ lit ".part")) ≡ [])
      → let m = create_manifest_from_bytes blake3 file_id filename whole in
        let r = download n whole dest_dir m s in
        (r.0 ≡ ok (fs.join dest_dir filename)) × (w.content r.1 (fs.join dest_dir filename) ≡ whole)
  download-resumed w file_id filename dest_dir whole n s small enough agree empty =
      certain (download n whole dest_dir (sent_manifest_of w file_id filename dest_dir whole s) s) (
        downloads w file_id filename dest_dir whole s n small enough
          (record { chunks_agree = agree; none_of_empty = λ e. empty (length_zero whole e) }))
