-- ===== src/Transfer.antt =====
-- crates/bridge-transfer/src/message.rs and error.rs: manifests and chunks. The whole-file and chunk
-- hashes are a parameter (blake3). The texts of an error are not modelled, its numbers are.

pub mod Chunks
pub mod Memory
pub mod Messages
pub mod Missing
pub mod Disk
pub mod Steps
pub mod Delivered
pub mod Bounds
use bridgeos.Prelude.{
  ltb, leb, ◌==◌, if◌then◌else◌, Bytes, bytes_eq, Str, ℕ, ◌+◌, ◌-◌, ◌*◌, ◌/◌, ◌%◌, ◌^◌, Bool, ◌&&◌,
}
use bridgeos.Prelude.Result.{Result, ok, err}

-- CHUNK_SIZE
abbrev pub chunk_size : ℕ
chunk_size = 64 * 1024

-- `out_of_range` stands for the panic of a slice out of range.
pub data TransferError : Type 0 where
  chunk_hash_mismatch : ℕ → TransferError
  root_hash_mismatch protocol io_error out_of_range : TransferError
  chunk_out_of_bounds : ℕ → ℕ → TransferError
  invalid_chunk_size : ℕ → ℕ → ℕ → TransferError
  invalid_resume_offset : ℕ → ℕ → TransferError

pub record FileManifest : Type 0 where
  pub file_id : Str
  pub filename : Str
  pub total_size : ℕ
  pub total_chunks : ℕ
  pub blake3_root_hash : Bytes

-- `div_ceil`, and `as u32`
unfoldable pub calculate_total_chunks : ℕ → ℕ
calculate_total_chunks total_size =
    if total_size == 0 then 0 else (total_size + (chunk_size - 1)) / chunk_size % 2 ^ 32

unfoldable pub new_manifest : Str → Str → ℕ → Bytes → FileManifest
unfolding calculate_total_chunks
new_manifest file_id filename total_size blake3_root_hash = record {
  file_id = file_id;
  filename = filename;
  total_size = total_size;
  total_chunks = calculate_total_chunks total_size;
  blake3_root_hash = blake3_root_hash;
}

unfoldable pub expected_chunk_size : FileManifest → ℕ → Result ℕ TransferError
expected_chunk_size m chunk_index =
    if leb m.total_chunks chunk_index
    then err (chunk_out_of_bounds chunk_index m.total_chunks)
    else if chunk_index == m.total_chunks - 1
    then (let remainder = m.total_size % chunk_size in
        if remainder == 0 && ltb 0 m.total_size then ok chunk_size else ok remainder)
    else ok chunk_size

pub record FileChunk : Type 0 where
  pub file_id : Str
  pub chunk_index : ℕ
  pub offset : ℕ
  pub payload : Bytes
  pub blake3_hash : Bytes

module _ (blake3 : Bytes → Bytes) where
  unfoldable pub new_chunk : Str → ℕ → ℕ → Bytes → FileChunk
  new_chunk file_id chunk_index offset bytes = record {
    file_id = file_id;
    chunk_index = chunk_index;
    offset = offset;
    payload = bytes;
    blake3_hash = blake3 bytes;
  }

  unfoldable pub verify_hash : FileChunk → Bool
  verify_hash chunk = bytes_eq (blake3 chunk.payload) chunk.blake3_hash
