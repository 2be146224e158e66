-- ===== src/Identity/Trust/Records.antt =====
-- What the trust store (trust.rs) gives back of what was saved, and its verdict on a key.
use bridgeos.Prelude.{
  if◌then◌else◌, Bool-cases, length, Bytes, bytes_eq, bytes_eq_refl, bytes_eq_iff, lookup,
  lookup-insert, ℕ, ◌^◌, ◌<◌, ◌≡◌, refl, sym, ap, ◌∙◌, ◌≢◌, ◌↔◌, inl, inr, true, false, Option,
  none, some, arith, bytes_key,
}
use bridgeos.Prelude.Result.{Result, ok, err}
use bridgeos.Identity.Keys.{Crypto, IsSound, IdentityError, key_mismatch, peer_revoked, PublicKey}
use bridgeos.Identity.Trust.{
  TrustState, trusted, pending, revoked, as_str, parse_state, TrustedPeer, Row, TrustStore,
  max_zero, row_of, upsert, from_hex, row_to_peer, save_peer, get_peer, is_trusted,
}
use bridgeos.Core.{NodeId}
use bridgeos.Core.Laws.{from_str-to_string}

pub parse_state-as_str : (t : TrustState) → parse_state (as_str t) ≡ t
unfolding parse_state as_str
parse_state-as_str trusted = refl
parse_state-as_str pending = refl
parse_state-as_str revoked = refl

pub max_zero_small : (n : ℕ) → n < 2 ^ 63 → max_zero n ≡ n
unfolding max_zero
max_zero_small n h = ground arith

-- A peer whose fields have the sizes of their Rust types, and times before 2^63 seconds.
pub record IsStorable (x : Crypto) (peer : TrustedPeer) : Type 0 where
  pub id_length : length peer.node_id ≡ 32
  pub key_length : length peer.public_key ≡ 32
  pub key_valid : x.is_key peer.public_key ≡ true
  pub first_fits : peer.first_paired_at < 2 ^ 63
  pub last_fits : peer.last_seen_at < 2 ^ 63

module _ (x : Crypto) (sound : IsSound x) where
  hex_encode_injective : (a b : Bytes) → x.hex_encode a ≡ x.hex_encode b → a ≡ b
  hex_encode_injective a b e =
      some_injective (sym (sound.decodes a) ∙ ap x.hex_decode e ∙ sound.decodes b)
    where
      some_injective : some a ≡ some b → a ≡ b
      some_injective h = cc

  -- Two keys of the table are the same exactly for one node.
  pub bytes_eq-hex_encode :
      (a b : Bytes) → bytes_eq (x.hex_encode a) (x.hex_encode b) ≡ bytes_eq a b
  bytes_eq-hex_encode a b = elim (Bool-cases (bytes_eq a b)) [
    | inl same ↦ rw same (rw ((bytes_eq_iff a b).0 same) (bytes_eq_refl (x.hex_encode b)))
    | inr other ↦ rw other (elim (Bool-cases (bytes_eq (x.hex_encode a) (x.hex_encode b))) [
      | inl clash ↦ ground (
        arith,
        other,
        bytes_eq_iff a b,
        hex_encode_injective a b ((bytes_eq_iff (x.hex_encode a) (x.hex_encode b)).0 clash),
      )
      | inr apart ↦ apart
    ])
  ]

  from_hex-hex_encode : (b : Bytes) → length b ≡ 32 → from_hex x (x.hex_encode b) ≡ some b
  unfolding from_hex
  from_hex-hex_encode b h = rw (sound.decodes b, from_hex) (rw h)

  -- The row that is written for a peer, with any time of first pairing, is read back.
  row_to_peer-row_of :
      (peer : TrustedPeer) (first : ℕ)
      → IsStorable x peer
      → row_to_peer x
          (x.hex_encode peer.node_id)
          (record (row_of x peer) { first_paired_at = first })
        ≡ ok (record peer { first_paired_at = max_zero first })
  unfolding row_to_peer row_of
  row_to_peer-row_of peer first v = ground (
    arith,
    sound.decodes peer.node_id,
    sound.decodes peer.public_key,
    from_str-to_string peer.device_type,
    parse_state-as_str peer.trust_state,
    max_zero_small peer.last_seen_at,
  )

  -- The time of first pairing that a saved peer has: that of its row, if there was one.
  abbrev pub first_paired : TrustedPeer → TrustStore → ℕ
  first_paired peer s = elim (lookup (x.hex_encode peer.node_id) s.rows) [
    | none ↦ peer.first_paired_at
    | some row ↦ max_zero row.first_paired_at
  ]

  pub read_back :
      (peer : TrustedPeer) (o : Option Row)
      → IsStorable x peer
      → row_to_peer x (x.hex_encode peer.node_id) (upsert o (row_of x peer))
        ≡ ok (record peer {
          first_paired_at = elim o [
            | none ↦ peer.first_paired_at
            | some row ↦ max_zero row.first_paired_at
          ];
        })
  unfolding upsert row_of
  read_back peer none v =
      row_to_peer-row_of peer peer.first_paired_at v
      ∙ rw (max_zero_small peer.first_paired_at v.first_fits)
  read_back peer (some row) v = row_to_peer-row_of peer row.first_paired_at v

  -- In a store that works, saving a peer succeeds; its node is then read back as that peer, but for
  -- the time of first pairing, which a row that was there keeps, and every other node reads as before.
  get_peer-save_peer :
      (peer : TrustedPeer) (s : TrustStore) (n : NodeId)
      → IsStorable x peer
      → s.is_broken ≡ false
      → ((save_peer x peer s).0 ≡ ok tt)
        × (get_peer x n (save_peer x peer s).1 ≡ (
            if bytes_eq peer.node_id n
            then ok (some (record peer { first_paired_at = first_paired peer s }))
            else get_peer x n s))
  unfolding save_peer get_peer
  get_peer-save_peer peer s n v works =
      let key = x.hex_encode peer.node_id in
      let other = x.hex_encode n in
      (
        rw works,
        elim (Bool-cases (bytes_eq peer.node_id n)) [
          | inl same ↦ rw same (
              ground (
                arith,
                works,
                (bytes_eq_iff peer.node_id n).0 same,
                lookup-insert key other (upsert (lookup key s.rows) (row_of x peer)) s.rows,
                bytes_eq-hex_encode peer.node_id n,
                read_back peer (lookup key s.rows) v,
              ))
          | inr apart ↦ rw apart (
              ground (
                arith,
                works,
                lookup-insert key other (upsert (lookup key s.rows) (row_of x peer)) s.rows,
                bytes_eq-hex_encode peer.node_id n,
                apart,
              ))
        ],
      )

  -- The verdict on a presented key, in every case: a broken store is an error; an unknown node is
  -- not trusted; a known node whose key differs is a key mismatch, whatever its state; and with the
  -- stored key the state decides, a revoked node being an error.
  is_trusted_cases :
      (n : NodeId) (key : PublicKey) (s : TrustStore)
      → (get_peer x n s ≡ ok none → is_trusted x n key s ≡ ok false)
        × ((peer : TrustedPeer)
            → get_peer x n s ≡ ok (some peer)
            → peer.public_key ≢ key
            → is_trusted x n key s
              ≡ err (key_mismatch n (x.hex_encode peer.public_key) (x.hex_encode key)))
        × ((peer : TrustedPeer)
            → get_peer x n s ≡ ok (some peer)
            → peer.public_key ≡ key
            → is_trusted x n key s ≡ elim peer.trust_state [
              | trusted ↦ ok true
              | pending ↦ ok false
              | revoked ↦ err (peer_revoked n)
            ])
  unfolding is_trusted
  is_trusted_cases n key s = (
    λ e. rw (e, is_trusted),
    λ peer e differs. rw (e, is_trusted) (ground (arith, bytes_eq_iff peer.public_key key)),
    λ peer e same. rw (e, is_trusted) (ground (arith, bytes_eq_iff peer.public_key key)),
  )

  -- A key is trusted for a node exactly if the store has the node with that very key and the state
  -- `trusted`.
  pub is_trusted_iff :
      (n : NodeId) (key : PublicKey) (s : TrustStore)
      → (is_trusted x n key s ≡ ok true) ↔ (
          (peer : TrustedPeer) × (get_peer x n s ≡ ok (some peer))
          × (peer.public_key ≡ key)
          × (peer.trust_state ≡ trusted))
  unfolding is_trusted
  is_trusted_iff n key s = (
    λ h. found h (get_peer x n s) refl,
    λ (peer, e, same, state). rw (e, is_trusted) (ground (arith, bytes_eq_iff peer.public_key key)),
  )
    where
      found :
          is_trusted x n key s ≡ ok true
          → (r : Result (Option TrustedPeer) IdentityError) → get_peer x n s ≡ r
          → (peer : TrustedPeer) × (get_peer x n s ≡ ok (some peer))
            × (peer.public_key ≡ key)
            × (peer.trust_state ≡ trusted)
      found h (err e) g = ground arith
      found h (ok none) g = ground arith
      found h (ok (some peer)) g = (
        peer,
        g,
        ground (arith, bytes_eq_iff peer.public_key key),
        ground (arith, bytes_eq_iff peer.public_key key),
      )
