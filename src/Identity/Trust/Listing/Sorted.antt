-- ===== src/Identity/Trust/Listing/Sorted.antt =====
-- What the listings of the trust store (trust.rs) hold, and in which order.
use bridgeos.Prelude.{
  leb, if◌then◌else◌, Bool-cases, bytes_eq, Str, lit, ℕ, ◌^◌, ◌≤◌, ◌<◌, ◌≡◌, refl, sym, subst, inl,
  inr, false, List, [], ◌∷◌, arith,
}
use bridgeos.Prelude.Result.{Result, ok}
use bridgeos.Identity.Keys.{Crypto, IdentityError}
use bridgeos.Identity.Trust.{
  TrustState, trusted, pending, revoked, as_str, TrustedPeer, Row, TrustStore, max_zero,
  row_to_peer,
}
use bridgeos.Identity.Trust.Listing.{
  rank_of, insert_row, order_rows, where_trusted, read_rows, list_peers, list_trusted_peers,
}
use mathlib.Core.List.{Permᴰ}
use mathlib.Core.List.Permᴰ

abbrev pub trusted_ones : List TrustedPeer → List TrustedPeer
trusted_ones [] = []
trusted_ones (peer ∷ peers) = elim peer.trust_state [
  | trusted ↦ peer ∷ trusted_ones peers
  | pending ↦ trusted_ones peers
  | revoked ↦ trusted_ones peers
]

abbrev pub AllUntil : ℕ → List TrustedPeer → Type 0
AllUntil t [] = Unit {0}
AllUntil t (peer ∷ peers) = (peer.last_seen_at ≤ t) × AllUntil t peers

-- The peer that was seen last comes first.
abbrev pub LatestFirst : List TrustedPeer → Type 0
LatestFirst [] = Unit {0}
LatestFirst (peer ∷ peers) = AllUntil peer.last_seen_at peers × LatestFirst peers

abbrev RowsUntil : ℕ → List (Str × Row) → Type 0
RowsUntil t [] = Unit {0}
RowsUntil t (r ∷ rows) = (rank_of r.1.last_seen_at ≤ t) × RowsUntil t rows

abbrev Descending : List (Str × Row) → Type 0
Descending [] = Unit {0}
Descending (r ∷ rows) = RowsUntil (rank_of r.1.last_seen_at) rows × Descending rows

RowsUntil-weaken : (t u : ℕ) (rows : List (Str × Row)) → t ≤ u → RowsUntil t rows → RowsUntil u rows
RowsUntil-weaken t u [] h a = tt
RowsUntil-weaken t u (r ∷ rows) h a = (omega (arith, a.0, h), RowsUntil-weaken t u rows h a.1)

RowsUntil-insert_row :
    (t : ℕ) (r : Str × Row) (rows : List (Str × Row))
    → rank_of r.1.last_seen_at ≤ t
    → RowsUntil t rows
    → RowsUntil t (insert_row r rows)
unfolding insert_row
RowsUntil-insert_row t r [] h a = (h, tt)
RowsUntil-insert_row t r (q ∷ rows) h a =
    elim (Bool-cases (leb (rank_of q.1.last_seen_at) (rank_of r.1.last_seen_at))) [
      | inl e ↦ rw e (h, a)
      | inr e ↦ rw e (a.0, RowsUntil-insert_row t r rows h a.1)
    ]

insert_row-Descending :
    (r : Str × Row) (rows : List (Str × Row)) → Descending rows → Descending (insert_row r rows)
unfolding insert_row
insert_row-Descending r [] a = (tt, tt)
insert_row-Descending r (q ∷ rows) a =
    elim (Bool-cases (leb (rank_of q.1.last_seen_at) (rank_of r.1.last_seen_at))) [
      | inl e ↦ rw e ((ground (arith, e), RowsUntil-weaken _ _ rows (ground (arith, e)) a.0), a)
      | inr e ↦
          rw e (
            RowsUntil-insert_row _ r rows (ground (arith, e)) a.0,
            insert_row-Descending r rows a.1,
          )
    ]

order_rows-Descending : (rows : List (Str × Row)) → Descending (order_rows rows)
unfolding order_rows
order_rows-Descending [] = tt
order_rows-Descending (r ∷ rows) =
    insert_row-Descending r (order_rows rows) (order_rows-Descending rows)

max_zero-rank_of :
    (a b : ℕ) → a < 2 ^ 64 → b < 2 ^ 64 → rank_of a ≤ rank_of b → max_zero a ≤ max_zero b
unfolding max_zero rank_of
max_zero-rank_of a b ha hb h = ground (arith, ha, hb, h)

module _ (x : Crypto) where
  -- A row that is read as a peer, with the texts that the store writes.
  pub record IsRowOf (r : Str × Row) (peer : TrustedPeer) : Type 0 where
    pub time_bits : r.1.last_seen_at < 2 ^ 64
    pub state_text : r.1.trust_state ≡ as_str peer.trust_state
    pub reads : row_to_peer x r.0 r.1 ≡ ok peer

  -- The rows are read as the peers, one by one.
  abbrev pub Readings : List (Str × Row) → List TrustedPeer → Type 0
  Readings [] [] = Unit {0}
  Readings [] (peer ∷ peers) = ⊥
  Readings (r ∷ rows) [] = ⊥
  Readings (r ∷ rows) (peer ∷ peers) = IsRowOf r peer × Readings rows peers

  read_rows-Readings :
      (rows : List (Str × Row)) (peers : List TrustedPeer)
      → Readings rows peers
      → read_rows x rows ≡ ok peers
  unfolding read_rows
  read_rows-Readings [] [] v = refl
  read_rows-Readings [] (peer ∷ peers) v = elim v [ ]
  read_rows-Readings (r ∷ rows) [] v = elim v [ ]
  read_rows-Readings (r ∷ rows) (peer ∷ peers) v =
      rw (v.0.reads, read_rows-Readings rows peers v.1) refl

  insert_row-Readings :
      (r : Str × Row) (peer : TrustedPeer) (rows : List (Str × Row)) (peers : List TrustedPeer)
      → IsRowOf r peer
      → Readings rows peers
      → (listed : List TrustedPeer) × Readings (insert_row r rows) listed
        × Permᴰ (peer ∷ peers) listed
  unfolding insert_row
  insert_row-Readings r peer [] [] v w = (peer ∷ [], (v, tt), Permᴰ.refl _)
  insert_row-Readings r peer [] (other ∷ peers) v w = elim w [ ]
  insert_row-Readings r peer (q ∷ rows) [] v w = elim w [ ]
  insert_row-Readings r peer (q ∷ rows) (other ∷ peers) v w =
      elim (Bool-cases (leb (rank_of q.1.last_seen_at) (rank_of r.1.last_seen_at))) [
        | inl e ↦ rw e (peer ∷ other ∷ peers, (v, w), Permᴰ.refl _)
        | inr e ↦
            let (listed, reads, perm) = insert_row-Readings r peer rows peers v w.1 in
            rw e (
              other ∷ listed,
              (w.0, reads),
              Permᴰ.trans (Permᴰ.swap refl refl) (Permᴰ.cons refl perm),
            )
      ]

  order_rows-Readings :
      (rows : List (Str × Row)) (peers : List TrustedPeer)
      → Readings rows peers
      → (listed : List TrustedPeer) × Readings (order_rows rows) listed × Permᴰ peers listed
  unfolding order_rows
  order_rows-Readings [] [] v = ([], tt, Permᴰ.nil)
  order_rows-Readings [] (peer ∷ peers) v = elim v [ ]
  order_rows-Readings (r ∷ rows) [] v = elim v [ ]
  order_rows-Readings (r ∷ rows) (peer ∷ peers) v =
      let (later, reads, perm) = order_rows-Readings rows peers v.1 in
      let (listed, all_read, all_perm) =
        insert_row-Readings r peer (order_rows rows) later v.0 reads in
      (listed, all_read, Permᴰ.trans (Permᴰ.cons refl perm) all_perm)

  where_trusted-Readings :
      (rows : List (Str × Row)) (peers : List TrustedPeer)
      → Readings rows peers
      → Readings (where_trusted rows) (trusted_ones peers)
  unfolding where_trusted as_str bytes_eq
  where_trusted-Readings [] [] v = tt
  where_trusted-Readings [] (peer ∷ peers) v = elim v [ ]
  where_trusted-Readings (r ∷ rows) [] v = elim v [ ]
  where_trusted-Readings (r ∷ rows) (peer ∷ peers) v =
      subst
        (λ text.
          Readings
            (if bytes_eq text (lit "trusted") then r ∷ where_trusted rows else where_trusted rows)
            (trusted_ones (peer ∷ peers)))
        (sym v.0.state_text) (by_state peer.trust_state (where_trusted-Readings rows peers v.1))
    where
      by_state :
          (t : TrustState)
          → Readings (where_trusted rows) (trusted_ones peers)
          → Readings
              (if bytes_eq (as_str t) (lit "trusted")
                then r ∷ where_trusted rows
                else where_trusted rows)
              (elim t [
                | trusted ↦ peer ∷ trusted_ones peers
                | pending ↦ trusted_ones peers
                | revoked ↦ trusted_ones peers
              ])
      by_state trusted rest = (v.0, rest)
      by_state pending rest = rest
      by_state revoked rest = rest

  last_seen_read :
      (r : Str × Row) (peer : TrustedPeer)
      → IsRowOf r peer
      → peer.last_seen_at ≡ max_zero r.1.last_seen_at
  unfolding row_to_peer
  last_seen_read r peer v = ground (arith, v.reads)

  AllUntil-Readings :
      (r : Str × Row) (peer : TrustedPeer) (rows : List (Str × Row)) (peers : List TrustedPeer)
      → IsRowOf r peer
      → Readings rows peers
      → RowsUntil (rank_of r.1.last_seen_at) rows
      → AllUntil peer.last_seen_at peers
  AllUntil-Readings r peer [] [] v w a = tt
  AllUntil-Readings r peer [] (other ∷ peers) v w a = elim w [ ]
  AllUntil-Readings r peer (q ∷ rows) [] v w a = elim w [ ]
  AllUntil-Readings r peer (q ∷ rows) (other ∷ peers) v w a = (
    rw (last_seen_read r peer v, last_seen_read q other w.0)
        (max_zero-rank_of q.1.last_seen_at r.1.last_seen_at w.0.time_bits v.time_bits a.0),
    AllUntil-Readings r peer rows peers v w.1 a.1,
  )

  LatestFirst-Readings :
      (rows : List (Str × Row)) (peers : List TrustedPeer)
      → Readings rows peers
      → Descending rows
      → LatestFirst peers
  LatestFirst-Readings [] [] v a = tt
  LatestFirst-Readings [] (peer ∷ peers) v a = elim v [ ]
  LatestFirst-Readings (r ∷ rows) [] v a = elim v [ ]
  LatestFirst-Readings (r ∷ rows) (peer ∷ peers) v a =
      (AllUntil-Readings r peer rows peers v.0 v.1 a.0, LatestFirst-Readings rows peers v.1 a.1)

  -- What a listing holds of the peers, each once, the latest first.
  abbrev pub Lists : Result (List TrustedPeer) IdentityError → List TrustedPeer → Type 0
  Lists r peers =
      (listed : List TrustedPeer) × (r ≡ ok listed) × Permᴰ peers listed × LatestFirst listed

  ordered :
      (rows : List (Str × Row)) (peers : List TrustedPeer)
      → Readings rows peers
      → Lists (read_rows x (order_rows rows)) peers
  ordered rows peers v =
      let (listed, reads, perm) = order_rows-Readings rows peers v in
      (
        listed,
        read_rows-Readings (order_rows rows) listed reads,
        perm,
        LatestFirst-Readings (order_rows rows) listed reads (order_rows-Descending rows),
      )

  -- On a store that works and whose rows are read as certain peers, `list_peers` returns these peers,
  -- each as often as there are rows of it, and `list_trusted_peers` those of them that are trusted, in
  -- both the peer that was seen last first.
  pub list_peers-Lists :
      (s : TrustStore) (peers : List TrustedPeer)
      → s.is_broken ≡ false
      → Readings s.rows peers
      → Lists (list_peers x s) peers × Lists (list_trusted_peers x s) (trusted_ones peers)
  unfolding list_peers list_trusted_peers
  list_peers-Lists s peers works v = rw works (
    ordered s.rows peers v,
    ordered (where_trusted s.rows) (trusted_ones peers) (where_trusted-Readings s.rows peers v),
  )
