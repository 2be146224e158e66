-- ===== src/Transfer/Disk.antt =====
-- crates/bridge-transfer/src/receiver.rs over a file (`DestinationTarget::File`). The file system
-- (tokio::fs) is a parameter; an open file is named by its path.
pub mod Written
pub mod Kept
pub mod Resumed
use bridgeos.Prelude.{
  ltb, ◌==◌, if◌then◌else◌, length, Bytes, bytes_eq, Str, lit, ℕ, ◌*◌, ◌/◌, ◌%◌, ◌^◌, min, Bool,
  true, not, ◌&&◌, List, [], ◌++◌,
}
use bridgeos.Prelude.Exec.{Exec, ◌>>=◌, ◌>>◌, pure, lift, reject_if}
use bridgeos.Prelude.Result.{ok}
use bridgeos.Transfer.{
  chunk_size, TransferError, root_hash_mismatch, protocol, FileManifest, FileChunk,
}
use bridgeos.Transfer.Memory.{insert_chunk, below, check_fields}

-- What the receiver calls: an error of the system is `io_error`. `open` is for reading and writing,
-- creates and does not truncate; `write_at` is a seek, `write_all` and `flush`; `read_all` is a flush,
-- a seek to the start and the reads up to the end; `join` is `Path::join`.
pub record Files (F : Type 0) : Type 0 where
  pub create_dir_all : Str → Exec F TransferError (Unit {0})
  pub open_part : Str → Exec F TransferError (Unit {0})
  pub file_len : Str → Exec F TransferError ℕ
  pub set_len : Str → ℕ → Exec F TransferError (Unit {0})
  pub write_at : Str → ℕ → Bytes → Exec F TransferError (Unit {0})
  pub read_all : Str → Exec F TransferError Bytes
  pub rename : Str → Str → Exec F TransferError (Unit {0})
  pub join : Str → Str → Str

pub record DiskReceiver : Type 0 where
  pub manifest : FileManifest
  pub final_path : Str
  pub part_path : Str
  pub received_chunks : List ℕ

unfoldable pub disk_is_complete : DiskReceiver → Bool
disk_is_complete r =
    if r.manifest.total_chunks == 0
    then true
    else length r.received_chunks % 2 ^ 32 == r.manifest.total_chunks

-- The whole chunks of a part file of the given length.
unfoldable pub valid_chunks : FileManifest → ℕ → ℕ
valid_chunks m existing_len = min (existing_len / chunk_size % 2 ^ 32) m.total_chunks

module _ {F : Type 0} (fs : Files F) where
  -- The truncation of a part file, with the chunks that it keeps.
  unfoldable pub resume : FileManifest → Str → ℕ → Exec F TransferError (List ℕ)
  unfolding valid_chunks
  resume m part_path existing_len s =
      if ltb 0 existing_len && ltb 0 m.total_chunks
      then (do
        fs.set_len part_path (valid_chunks m existing_len * chunk_size)
        pure (below (valid_chunks m existing_len)))
          s
      else (ok [], s)

  unfoldable pub to_dir : Str → FileManifest → Exec F TransferError DiskReceiver
  unfolding resume
  to_dir dest_dir m =
      let part_path = fs.join dest_dir (m.filename ++ lit ".part") in
      do
        fs.create_dir_all dest_dir
        fs.open_part part_path
        existing_len ← fs.file_len part_path
        received_chunks ← resume m part_path existing_len
        pure (record {
          manifest = m;
          final_path = fs.join dest_dir m.filename;
          part_path = part_path;
          received_chunks = received_chunks;
        })

  module _ (blake3 : Bytes → Bytes) where
    unfoldable pub receive_on_disk : FileChunk → DiskReceiver → Exec F TransferError DiskReceiver
    unfolding check_fields insert_chunk
    receive_on_disk chunk r = do
      lift (check_fields blake3 chunk r.manifest)
      fs.write_at r.part_path chunk.offset chunk.payload
      pure (record r { received_chunks = insert_chunk chunk.chunk_index r.received_chunks })

    unfoldable pub finalize_file : DiskReceiver → Exec F TransferError Str
    unfolding disk_is_complete
    finalize_file r = do
      reject_if (not (disk_is_complete r)) protocol
      bytes ← fs.read_all r.part_path
      reject_if (not (bytes_eq (blake3 bytes) r.manifest.blake3_root_hash)) root_hash_mismatch
      fs.rename r.part_path r.final_path
      pure r.final_path
