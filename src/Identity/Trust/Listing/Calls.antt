-- ===== src/Identity/Trust/Listing/Calls.antt =====
-- The listings of the trust store (trust.rs) after any calls.
use bridgeos.Prelude.{
  Bool-cases, bytes_eq, Str, insert, remove, ℕ, ◌^◌, ◌<◌, ◌≡◌, refl, sym, subst, inl, inr, false,
  Option, none, some, List, [], ◌∷◌, arith, bytes_key,
}
use bridgeos.Identity.Keys.{Crypto, IsSound}
use bridgeos.Identity.Trust.{
  TrustState, as_str, TrustedPeer, Row, TrustStore, empty_store, max_zero, row_of, upsert,
  update_row, row_to_peer, save_peer, update_last_seen, set_trust_state, delete_peer,
}
use bridgeos.Identity.Trust.Records.{parse_state-as_str, max_zero_small, IsStorable, read_back}
use bridgeos.Identity.Trust.Revocation.{
  StoreCall, save, seen, set_state, delete, perform, perform_all,
}
use bridgeos.Identity.Trust.Representation.{Fits, AllFit, past_error}
use bridgeos.Identity.Trust.Listing.{list_peers, list_trusted_peers}
use bridgeos.Identity.Trust.Listing.Sorted.{
  trusted_ones, IsRowOf, Readings, Lists, list_peers-Lists,
}

module _ (x : Crypto) (sound : IsSound x) where
  abbrev IsRead : Str × Row → Type 0
  IsRead r = (peer : TrustedPeer) × IsRowOf x r peer

  abbrev AllRead : List (Str × Row) → Type 0
  AllRead [] = Unit {0}
  AllRead (r ∷ rows) = IsRead r × AllRead rows

  AllRead-Readings :
      (rows : List (Str × Row)) → AllRead rows → (peers : List TrustedPeer) × Readings x rows peers
  AllRead-Readings [] a = ([], tt)
  AllRead-Readings (r ∷ rows) a =
      let (peers, v) = AllRead-Readings rows a.1 in (a.0.0 ∷ peers, (a.0.1, v))

  AllRead-insert :
      (key : Str) (row : Row) (rows : List (Str × Row))
      → IsRead (key, row)
      → AllRead rows
      → AllRead (insert key row rows)
  unfolding insert
  AllRead-insert key row [] i a = (i, tt)
  AllRead-insert key row ((k, other) ∷ rows) i a = elim (Bool-cases (bytes_eq k key)) [
    | inl same ↦ rw same (i, a.1)
    | inr apart ↦ rw apart (a.0, AllRead-insert key row rows i a.1)
  ]

  AllRead-remove : (key : Str) (rows : List (Str × Row)) → AllRead rows → AllRead (remove key rows)
  unfolding remove
  AllRead-remove key [] a = tt
  AllRead-remove key ((k, other) ∷ rows) a = elim (Bool-cases (bytes_eq k key)) [
    | inl same ↦ rw same (AllRead-remove key rows a.1)
    | inr apart ↦ rw apart (a.0, AllRead-remove key rows a.1)
  ]

  AllRead-update_row :
      (f : Row → Row) (key : Str) (rows : List (Str × Row))
      → ((k : Str) (row : Row) → IsRead (k, row) → IsRead (k, f row))
      → AllRead rows
      → AllRead (update_row f key rows)
  unfolding update_row
  AllRead-update_row f key [] step a = tt
  AllRead-update_row f key ((k, row) ∷ rows) step a = elim (Bool-cases (bytes_eq k key)) [
    | inl same ↦ rw same (step k row a.0, AllRead-update_row f key rows step a.1)
    | inr apart ↦ rw apart (a.0, AllRead-update_row f key rows step a.1)
  ]

  IsRead-seen :
      (t : ℕ)
      → t < 2 ^ 63
      → (k : Str) (row : Row) → IsRead (k, row)
      → IsRead (k, record row { last_seen_at = t })
  unfolding row_to_peer
  IsRead-seen t h k row (peer, v) = (
    record peer { last_seen_at = t },
    record {
      time_bits = omega (arith, h);
      state_text = v.state_text;
      reads = ground (arith, v.reads, max_zero_small t);
    },
  )

  IsRead-set_state :
      (t : TrustState) (k : Str) (row : Row)
      → IsRead (k, row)
      → IsRead (k, record row { trust_state = as_str t })
  unfolding row_to_peer
  IsRead-set_state t k row (peer, v) = (
    record peer { trust_state = t },
    record {
      time_bits = v.time_bits;
      state_text = refl;
      reads = ground (arith, v.reads, parse_state-as_str t);
    },
  )

  IsRead-save :
      (peer : TrustedPeer) (o : Option Row)
      → IsStorable x peer
      → IsRead (x.hex_encode peer.node_id, upsert o (row_of x peer))
  unfolding upsert row_of
  IsRead-save peer none v = (
    peer,
    record {
      time_bits = omega (arith, v.last_fits);
      state_text = refl;
      reads = read_back x sound peer none v;
    },
  )
  IsRead-save peer (some old) v = (
    record peer { first_paired_at = max_zero old.first_paired_at },
    record {
      time_bits = omega (arith, v.last_fits);
      state_text = refl;
      reads = read_back x sound peer (some old) v;
    },
  )

  -- A store that works, with rows that can all be read.
  record IsHealthy (s : TrustStore) : Type 0 where
    works : s.is_broken ≡ false
    readable : AllRead s.rows

  perform-IsHealthy :
      (c : StoreCall) (s : TrustStore) → Fits x c → IsHealthy s → IsHealthy (perform x sound c s)
  unfolding perform save_peer update_last_seen set_trust_state delete_peer
  perform-IsHealthy (save peer) s fits v =
      subst IsHealthy (sym (past_error x sound s.is_broken _ _ v.works)) (record {
        works = v.works;
        readable = AllRead-insert _ _ s.rows (IsRead-save peer _ fits) v.readable;
      })
  perform-IsHealthy (seen m t) s fits v =
      subst IsHealthy (sym (past_error x sound s.is_broken _ _ v.works)) (record {
        works = v.works;
        readable = AllRead-update_row _ _ s.rows (IsRead-seen t fits) v.readable;
      })
  perform-IsHealthy (set_state m t) s fits v =
      subst IsHealthy (sym (past_error x sound s.is_broken _ _ v.works)) (record {
        works = v.works;
        readable = AllRead-update_row _ _ s.rows (IsRead-set_state t) v.readable;
      })
  perform-IsHealthy (delete m) s fits v =
      subst IsHealthy (sym (past_error x sound s.is_broken _ _ v.works))
        (record { works = v.works; readable = AllRead-remove _ s.rows v.readable })

  perform_all-IsHealthy :
      (cs : List StoreCall) (s : TrustStore)
      → AllFit x cs
      → IsHealthy s
      → IsHealthy (perform_all x sound cs s)
  unfolding perform_all
  perform_all-IsHealthy [] s fits v = v
  perform_all-IsHealthy (c ∷ cs) s fits v =
      perform_all-IsHealthy cs (perform x sound c s) fits.1 (perform-IsHealthy c s fits.0 v)

  -- Whatever calls are made of a new store that works, with values of the sizes of their types and
  -- times before 2^63 seconds, every row is read as one peer; `list_peers` returns just these peers, and
  -- `list_trusted_peers` just those of them that are trusted, both with the peer that was seen last
  -- first. So neither listing fails.
  pub list_peers-perform_all :
      (cs : List StoreCall)
      → AllFit x cs
      → let s = perform_all x sound cs empty_store in
        (peers : List TrustedPeer) × Readings x s.rows peers
        × Lists x (list_peers x s) peers
        × Lists x (list_trusted_peers x s) (trusted_ones peers)
  list_peers-perform_all cs fits =
      let s = perform_all x sound cs empty_store in
      let v = perform_all-IsHealthy cs empty_store fits (record { works = refl; readable = tt }) in
      let (peers, reads) = AllRead-Readings s.rows v.readable in
      let (all_listed, trusted_listed) = list_peers-Lists x s peers v.works reads in
      (peers, reads, all_listed, trusted_listed)
