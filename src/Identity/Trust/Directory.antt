-- ===== src/Identity/Trust/Directory.antt =====
-- What the trust store (trust.rs) answers after any calls.
use bridgeos.Prelude.{lookup, ◌≡◌, refl, false, Option, none, some, List, [], ◌∷◌, bytes_key}
use bridgeos.Prelude.Result.{ok, ◌>>=◌}
use bridgeos.Core.{NodeId}
use bridgeos.Identity.Keys.{Crypto, IsSound, PublicKey}
use bridgeos.Identity.Trust.{
  TrustedPeer, Row, TrustStore, empty_store, row_to_peer, get_peer, judge, is_trusted,
}
use bridgeos.Identity.Trust.Revocation.{StoreCall, perform, perform_all}
use bridgeos.Identity.Trust.Representation.{
  Directory, nobody, apply, replay, verdict, AllFit, Reads, Represents, perform-Represents,
}

module _ (x : Crypto) (sound : IsSound x) where
  perform_all-Represents :
      (cs : List StoreCall) (s : TrustStore) (d : Directory)
      → AllFit x cs
      → Represents x sound s d
      → Represents x sound (perform_all x sound cs s) (replay cs d)
  unfolding perform_all
  perform_all-Represents [] s d fits v = v
  perform_all-Represents (c ∷ cs) s d fits v =
      perform_all-Represents cs (perform x sound c s) (apply c d) fits.1
        (perform-Represents x sound c s d fits.0 v)

  empty_store-Represents : Represents x sound empty_store nobody
  unfolding lookup
  empty_store-Represents = record { works = refl; reads = λ n. tt }

  get_peer-Represents :
      (s : TrustStore) (d : Directory) (n : NodeId)
      → Represents x sound s d
      → get_peer x n s ≡ ok (d n)
  unfolding get_peer
  get_peer-Represents s d n v =
      rw v.works (by_row (lookup (x.hex_encode n) s.rows) (d n) (v.reads n))
    where
      by_row :
          (o : Option Row) (e : Option TrustedPeer)
          → Reads x (x.hex_encode n) o e
          → (elim o [
            | none ↦ ok none
            | some row ↦ (do peer ← row_to_peer x (x.hex_encode n) row; ok (some peer))
          ])
            ≡ ok e
      by_row none none h = refl
      by_row none (some peer) h = elim h [ ]
      by_row (some row) none h = elim h [ ]
      by_row (some row) (some peer) h = rw h refl

  -- Whatever calls are made of a new store that works, what it answers about a node is what a plain
  -- directory answers after the same calls: its entry, and the verdict on a key by that entry. The
  -- values that are passed have the sizes of their types, with times before 2^63 seconds.
  pub perform_all-replay :
      (cs : List StoreCall) (n : NodeId) (key : PublicKey)
      → AllFit x cs
      → (get_peer x n (perform_all x sound cs empty_store) ≡ ok (replay cs nobody n))
        × (is_trusted x n key (perform_all x sound cs empty_store)
            ≡ verdict x n key (replay cs nobody n))
  unfolding is_trusted
  perform_all-replay cs n key fits = (found, rw (found, is_trusted) (judged (replay cs nobody n)))
    where
      found : get_peer x n (perform_all x sound cs empty_store) ≡ ok (replay cs nobody n)
      found =
          get_peer-Represents (perform_all x sound cs empty_store) (replay cs nobody) n
            (perform_all-Represents cs empty_store nobody fits empty_store-Represents)

      judged :
          (e : Option TrustedPeer)
          → (elim e [ none ↦ ok false | some peer ↦ judge x n key peer ]) ≡ verdict x n key e
      judged none = refl
      judged (some peer) = refl
