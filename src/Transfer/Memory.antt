-- ===== src/Transfer/Memory.antt =====
-- crates/bridge-transfer/src/sender.rs and receiver.rs over memory (`SenderSource::Memory`,
-- `DestinationTarget::Memory`), and `create_manifest_from_bytes` of manifest.rs.
use bridgeos.Prelude.{
  ltb, leb, ◌==◌, if◌then◌else◌, length, take, drop, replicate, Bytes, bytes_eq, Str, ℕ, zero, suc,
  ◌+◌, ◌*◌, ◌%◌, ◌^◌, min, max, Bool, true, false, not, Option, none, some, List, [], ◌∷◌, ◌++◌,
}
use bridgeos.Prelude.Result.{Result, ok, err, ◌>>=◌, ◌>>◌, reject_if}
use bridgeos.Transfer.{
  chunk_size, TransferError, chunk_hash_mismatch, root_hash_mismatch, protocol, io_error,
  out_of_range, chunk_out_of_bounds, invalid_chunk_size, invalid_resume_offset, FileManifest,
  new_manifest, expected_chunk_size, FileChunk, new_chunk, verify_hash,
}

-- The source is the buffer of the cursor and its position.
pub record FileSender : Type 0 where
  pub sent_manifest : FileManifest
  pub source : Bytes
  pub position : ℕ
  pub current_chunk : ℕ

-- `received_chunks` is a set, kept as a list without duplicates.
pub record FileReceiver : Type 0 where
  pub manifest : FileManifest
  pub buffer : Bytes
  pub received_chunks : List ℕ

unfoldable pub has_chunk : ℕ → List ℕ → Bool
has_chunk i [] = false
has_chunk i (j ∷ js) = let rest = has_chunk i js in if i == j then true else rest

unfoldable pub insert_chunk : ℕ → List ℕ → List ℕ
unfolding has_chunk
insert_chunk i js = if has_chunk i js then js else i ∷ js

-- The chunks before a number, the last one first.
abbrev pub below : ℕ → List ℕ
below zero = []
below (suc i) = i ∷ below i

-- The loop of `next_expected_chunk`.
unfoldable pub first_missing : ℕ → List ℕ → ℕ → ℕ
unfolding has_chunk
first_missing zero js expected = expected
first_missing (suc fuel) js expected =
    let later = first_missing fuel js (expected + 1) in
    if has_chunk expected js then later else expected

-- One more round than there are chunks is enough.
unfoldable pub next_expected_chunk : List ℕ → FileManifest → ℕ
unfolding first_missing
next_expected_chunk received_chunks m =
    min (first_missing (length received_chunks + 1) received_chunks 0) m.total_chunks

unfoldable pub from_source : Bytes → FileManifest → ℕ → Result FileSender TransferError
from_source source m start_chunk =
    if ltb m.total_chunks start_chunk
    then err (invalid_resume_offset start_chunk m.total_chunks)
    else ok (record {
      sent_manifest = m;
      source = source;
      position = start_chunk * chunk_size;
      current_chunk = start_chunk;
    })

unfoldable pub seek_to_chunk : ℕ → FileSender → Result (Unit {0}) TransferError × FileSender
seek_to_chunk i s =
    if ltb s.sent_manifest.total_chunks i
    then (err (invalid_resume_offset i s.sent_manifest.total_chunks), s)
    else (ok tt, record s { position = i * chunk_size; current_chunk = i })

unfoldable pub to_memory : FileManifest → FileReceiver
to_memory m = record { manifest = m; buffer = replicate m.total_size 0; received_chunks = [] }

unfoldable pub is_complete : FileReceiver → Bool
is_complete r =
    if r.manifest.total_chunks == 0
    then true
    else length r.received_chunks % 2 ^ 32 == r.manifest.total_chunks

-- `buffer[start..end].copy_from_slice(&chunk.data)`
unfoldable pub write_slice : ℕ → Bytes → Bytes → Bytes
write_slice start bytes buffer = take start buffer ++ (bytes ++ drop (start + length bytes) buffer)

module _ (blake3 : Bytes → Bytes) where
  unfoldable pub create_manifest_from_bytes : Str → Str → Bytes → FileManifest
  unfolding new_manifest
  create_manifest_from_bytes file_id filename bytes =
      new_manifest file_id filename (length bytes) (blake3 bytes)

  -- The read of `next_chunk`; a short one leaves the cursor at the end.
  unfoldable pub read_chunk : ℕ → FileSender → Result (Option FileChunk) TransferError × FileSender
  unfolding new_chunk
  read_chunk size s =
      if leb (s.position + size) (length s.source)
      then (
        ok (
            some (
              new_chunk blake3 s.sent_manifest.file_id s.current_chunk
                (s.current_chunk * chunk_size) (take size (drop s.position s.source)))),
        record s { position = s.position + size; current_chunk = s.current_chunk + 1 },
      )
      else (err io_error, record s { position = max s.position (length s.source) })

  unfoldable pub next_chunk : FileSender → Result (Option FileChunk) TransferError × FileSender
  unfolding read_chunk
  next_chunk s =
      if leb s.sent_manifest.total_chunks s.current_chunk
      then (ok none, s)
      else elim (expected_chunk_size s.sent_manifest s.current_chunk) [
        | err e ↦ (err e, s)
        | ok size ↦ read_chunk size s
      ]

  -- The checks of `receive_chunk` that do not depend on the target.
  unfoldable pub check_fields : FileChunk → FileManifest → Result (Unit {0}) TransferError
  unfolding verify_hash expected_chunk_size
  check_fields chunk m = do
    reject_if (not (bytes_eq chunk.file_id m.file_id)) protocol
    reject_if (leb m.total_chunks chunk.chunk_index)
        (chunk_out_of_bounds chunk.chunk_index m.total_chunks)
    reject_if (not (verify_hash blake3 chunk)) (chunk_hash_mismatch chunk.chunk_index)
    expected_size ← expected_chunk_size m chunk.chunk_index
    reject_if (not (length chunk.payload == expected_size))
        (invalid_chunk_size chunk.chunk_index expected_size (length chunk.payload))
    reject_if (not (chunk.offset == chunk.chunk_index * chunk_size)) protocol

  unfoldable pub check_chunk : FileChunk → FileReceiver → Result (Unit {0}) TransferError
  unfolding check_fields
  check_chunk chunk r = do
    check_fields chunk r.manifest
    reject_if (ltb (length r.buffer) (chunk.offset + length chunk.payload)) out_of_range

  unfoldable pub receive_chunk :
      FileChunk → FileReceiver → Result (Unit {0}) TransferError × FileReceiver
  unfolding check_chunk write_slice insert_chunk
  receive_chunk chunk r = elim (check_chunk chunk r) [
    | err e ↦ (err e, r)
    | ok _ ↦ (
      ok tt,
      record r {
        buffer = write_slice chunk.offset chunk.payload r.buffer;
        received_chunks = insert_chunk chunk.chunk_index r.received_chunks;
      },
    )
  ]

  unfoldable pub finalize_memory : FileReceiver → Result Bytes TransferError
  unfolding is_complete
  finalize_memory r = do
    reject_if (not (is_complete r)) protocol
    reject_if (not (bytes_eq (blake3 r.buffer) r.manifest.blake3_root_hash)) root_hash_mismatch
    ok r.buffer
