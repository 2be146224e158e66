-- ===== src/Tests/Resumption.antt =====
-- A file that is taken up again from the part that a directory holds.
use bridgeos.Prelude.{
  length, take, Bytes, bytes_eq, bytes_eq_refl, Str, lit, lookup, insert, remove, lookup-insert, ℕ,
  ◌*◌, ◌≤◌, ◌<◌, ◌≡◌, refl, true, false, Option, none, some, List, [], ◌∷◌, ◌++◌, arith, bytes_key,
}
use bridgeos.Prelude.Result.{ok}
use bridgeos.Transfer.{chunk_size, calculate_total_chunks, new_manifest}
use bridgeos.Transfer.Memory.{
  has_chunk, next_expected_chunk, write_slice, create_manifest_from_bytes,
}
use bridgeos.Transfer.Missing.{next_expected_chunk-least}
use bridgeos.Transfer.Disk.{Files, valid_chunks}
use bridgeos.Transfer.Disk.Written.{WorkingFiles}
use bridgeos.Transfer.Disk.Resumed.{download, download-resumed}

next_expected_chunk-least_example :
    let m = new_manifest [] [] 200000 [] in
    let e = next_expected_chunk (0 ∷ 1 ∷ 3 ∷ []) m in
    ((j : ℕ) → j < e → has_chunk j (0 ∷ 1 ∷ 3 ∷ []) ≡ true)
    × (e ≤ m.total_chunks)
    × (e < m.total_chunks → has_chunk e (0 ∷ 1 ∷ 3 ∷ []) ≡ false)
next_expected_chunk-least_example =
    next_expected_chunk-least (0 ∷ 1 ∷ 3 ∷ []) (new_manifest [] [] 200000 [])

-- Files in memory.
abbrev Directory : Type 0
Directory = List (Str × Bytes)

abbrev or_nothing : Option Bytes → Bytes
or_nothing none = []
or_nothing (some b) = b

abbrev stored : Directory → Str → Bytes
stored s q = or_nothing (lookup q s)

abbrev directory : Files Directory
directory = record {
  create_dir_all = λ d s. (ok tt, s);
  open_part = λ q s. (ok tt, s);
  file_len = λ q s. (ok (length (stored s q)), s);
  set_len = λ q n s. (ok tt, insert q (take n (stored s q)) s);
  write_at = λ q offset bytes s. (ok tt, insert q (write_slice offset bytes (stored s q)) s);
  read_all = λ q s. (ok (stored s q), s);
  rename = λ q r s. (ok tt, insert r (stored s q) (remove q s));
  join = λ dir name. dir ++ lit "/" ++ name;
}

stored-insert : (q : Str) (b : Bytes) (s : Directory) → stored (insert q b s) q ≡ b
stored-insert q b s = rw (lookup-insert q q b s, bytes_eq_refl q) refl

abbrev directory_works : WorkingFiles directory
directory_works = record {
  content = stored;
  makes_dir = λ d s. (refl, λ q. refl);
  opens = λ q s. (refl, refl);
  measures = λ q s. (refl, refl);
  truncates = λ q n s h. (refl, stored-insert q (take n (stored s q)) s);
  writes = λ q offset bytes s h. (refl, stored-insert q (write_slice offset bytes (stored s q)) s);
  reads = λ q s. (refl, refl);
  renames = λ q r s. (refl, stored-insert r (stored s q) (remove q s));
}

abbrev length_hash : Bytes → Bytes
length_hash b = length b ∷ []

-- A file of two bytes, and a part file with one byte of a write that was cut off.
abbrev half_written : Directory
half_written = (lit "d/f.part", 5 ∷ []) ∷ []

no_chunk_yet :
    let part = stored half_written (lit "d/f.part") in
    let kept =
      valid_chunks (create_manifest_from_bytes length_hash [] (lit "f") (5 ∷ 6 ∷ [])) (length part)
      * chunk_size in
    take kept part ≡ take kept (5 ∷ 6 ∷ [])
unfolding create_manifest_from_bytes new_manifest calculate_total_chunks valid_chunks lookup
    bytes_eq
no_chunk_yet = refl

two_rounds : calculate_total_chunks 2 < 2
unfolding calculate_total_chunks
two_rounds = omega arith

download-resumed_example :
    let m = create_manifest_from_bytes length_hash [] (lit "f") (5 ∷ 6 ∷ []) in
    let r = download length_hash directory 2 (5 ∷ 6 ∷ []) (lit "d") m half_written in
    (r.0 ≡ ok (lit "d/f")) × (stored r.1 (lit "d/f") ≡ 5 ∷ 6 ∷ [])
download-resumed_example =
    download-resumed length_hash directory directory_works [] (lit "f") (lit "d") (5 ∷ 6 ∷ []) 2
      half_written (omega arith) two_rounds no_chunk_yet (λ e. cc)
