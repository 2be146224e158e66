-- ===== src/Tests/Listed.antt =====
-- Listings of a store with a trusted and a revoked peer.
use bridgeos.Prelude.{ℕ, ◌^◌, ◌<◌, refl, List, [], ◌∷◌, arith}
use bridgeos.Core.{unknown}
use bridgeos.Identity.Trust.{trusted, revoked, TrustedPeer, TrustStore, empty_store}
use bridgeos.Identity.Trust.Records.{IsStorable}
use bridgeos.Identity.Trust.Revocation.{StoreCall, save, seen, set_state, perform_all}
use bridgeos.Identity.Trust.Listing.{list_peers, list_trusted_peers}
use bridgeos.Identity.Trust.Listing.Sorted.{trusted_ones, Readings, Lists}
use bridgeos.Identity.Trust.Listing.Calls.{list_peers-perform_all}
use bridgeos.Tests.Fixtures.{toy_key, toy, toy-IsSound}

abbrev known : ℕ → ℕ → TrustedPeer
known n time = record {
  node_id = toy_key (n ∷ []);
  public_key = toy_key (n ∷ []);
  device_name = [];
  device_type = unknown;
  first_paired_at = 1;
  last_seen_at = time;
  trust_state = trusted;
}

known-IsStorable : (n time : ℕ) → time < 2 ^ 63 → IsStorable toy (known n time)
known-IsStorable n time h = record {
  id_length = refl;
  key_length = refl;
  key_valid = refl;
  first_fits = omega arith;
  last_fits = h;
}

abbrev five_calls : List StoreCall
five_calls =
    save (known 1 20)
    ∷ save (known 2 30)
    ∷ save (known 3 10)
    ∷ set_state (toy_key (2 ∷ [])) revoked
    ∷ seen (toy_key (3 ∷ [])) 40
    ∷ []

abbrev store : TrustStore
store = perform_all toy toy-IsSound five_calls empty_store

list_peers-perform_all_example :
    (peers : List TrustedPeer) × Readings toy store.rows peers
    × Lists toy (list_peers toy store) peers
    × Lists toy (list_trusted_peers toy store) (trusted_ones peers)
list_peers-perform_all_example = list_peers-perform_all toy toy-IsSound five_calls (
  known-IsStorable 1 20 (omega arith),
  (
    known-IsStorable 2 30 (omega arith),
    (known-IsStorable 3 10 (omega arith), (tt, (omega arith, tt))),
  ),
)
