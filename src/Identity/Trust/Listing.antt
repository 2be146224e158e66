-- ===== src/Identity/Trust/Listing.antt =====
-- The listings of the trust store (trust.rs). SQL leaves the order of rows of one time open; here they
-- keep the order of the table.
pub mod Sorted
pub mod Calls
use bridgeos.Prelude.{leb, if◌then◌else◌, bytes_eq, Str, lit, ℕ, ◌+◌, ◌%◌, ◌^◌, List, [], ◌∷◌}
use bridgeos.Prelude.Result.{Result, ok, err, ◌>>=◌, ◌>>◌}
use bridgeos.Identity.Keys.{Crypto, IdentityError, database}
use bridgeos.Identity.Trust.{TrustedPeer, Row, TrustStore, row_to_peer}

-- An i64 with the least at 0, from its bits.
unfoldable pub rank_of : ℕ → ℕ
rank_of n = (n + 2 ^ 63) % 2 ^ 64

-- `ORDER BY last_seen_at DESC`
unfoldable pub insert_row : Str × Row → List (Str × Row) → List (Str × Row)
unfolding rank_of
insert_row r [] = r ∷ []
insert_row r (q ∷ rows) =
    let rest = insert_row r rows in
    if leb (rank_of q.1.last_seen_at) (rank_of r.1.last_seen_at) then r ∷ q ∷ rows else q ∷ rest

unfoldable pub order_rows : List (Str × Row) → List (Str × Row)
unfolding insert_row
order_rows [] = []
order_rows (r ∷ rows) = insert_row r (order_rows rows)

-- `WHERE trust_state = 'trusted'`
unfoldable pub where_trusted : List (Str × Row) → List (Str × Row)
where_trusted [] = []
where_trusted (r ∷ rows) =
    let rest = where_trusted rows in
    if bytes_eq r.1.trust_state (lit "trusted") then r ∷ rest else rest

module _ (x : Crypto) where
  -- The loop that reads the rows.
  unfoldable pub read_rows : List (Str × Row) → Result (List TrustedPeer) IdentityError
  unfolding row_to_peer
  read_rows [] = ok []
  read_rows ((key, row) ∷ rows) = do
    peer ← row_to_peer x key row
    peers ← read_rows rows
    ok (peer ∷ peers)

  unfoldable pub list_peers : TrustStore → Result (List TrustedPeer) IdentityError
  unfolding order_rows read_rows
  list_peers s = if s.is_broken then err database else read_rows (order_rows s.rows)

  unfoldable pub list_trusted_peers : TrustStore → Result (List TrustedPeer) IdentityError
  unfolding order_rows read_rows where_trusted
  list_trusted_peers s =
      if s.is_broken then err database else read_rows (order_rows (where_trusted s.rows))
