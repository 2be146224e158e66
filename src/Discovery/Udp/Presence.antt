-- ===== src/Discovery/Udp/Presence.antt =====
-- Who is in the directory of the worker (udp.rs).
use bridgeos.Prelude.{
  Bool-cases, Bytes, bytes_eq, Str, lookup, remove, ℕ, ◌≡◌, refl, sym, ap, ◌∙◌, inl, inr, Bool,
  false, Option, none, some, List, [], ◌∷◌, arith, bytes_key,
}
use bridgeos.Prelude.Maps.{contains_key, contains_key-remove, DistinctKeys-remove}
use bridgeos.Core.{NodeId, DeviceType, Capabilities}
use bridgeos.Protocol.Codec.{Postcard}
use bridgeos.Discovery.Beacon.{
  DiscoveryError, BeaconMessage, announcement, goodbye, query, beacon_node_id, decode_beacon,
}
use bridgeos.Discovery.Directory.{DiscoveredPeer, new_peer, remove_peer}
use bridgeos.Discovery.Udp.{
  UdpDiscovery, advertise, stop_advertising, on_prune, is_own, on_announcement, on_goodbye,
  on_beacon_tick, on_beacon, on_datagram, shutdown,
}
use bridgeos.Prelude.Result.{Result, ok, err}
use bridgeos.Discovery.Directory.Kept.{
  IsDirectory, AllOwn-remove, prune_expired-IsDirectory, insert_or_update-IsDirectory,
}

-- What may happen to the worker.
pub data UdpStep : Type 0 where
  datagram : Bytes → Bytes → ℕ → UdpStep
  prune_tick : ℕ → ℕ → UdpStep
  beacon_tick : UdpStep
  quiet : UdpStep
  leave : Bool → UdpStep

module _ (p : Postcard BeaconMessage) where
  unfoldable pub step : UdpStep → UdpDiscovery → UdpDiscovery
  step (datagram bytes src_ip now) u = (on_datagram p bytes src_ip now u).1
  step (prune_tick ttl now) u = on_prune ttl now u
  step beacon_tick u = (on_beacon_tick p u).1
  step quiet u = stop_advertising u
  step (leave goodbye_on_shutdown) u = (shutdown p goodbye_on_shutdown u).1

  unfoldable pub steps : List UdpStep → UdpDiscovery → UdpDiscovery
  steps [] u = u
  steps (s ∷ more) u = steps more (step s u)

  -- The worker knows its own id, and its directory is in order.
  record IsRunning (self : NodeId) (u : UdpDiscovery) : Type 0 where
    local : u.local_node_id ≡ some self
    good : IsDirectory self u.directory

  on_query-keeps :
      (sender_id : NodeId) (seq : ℕ) (src_ip : Bytes) (now : ℕ) (u : UdpDiscovery)
      → ((on_beacon p (query sender_id seq) src_ip now u).1.local_node_id ≡ u.local_node_id)
        × ((on_beacon p (query sender_id seq) src_ip now u).1.directory ≡ u.directory)
  unfolding on_beacon
  on_query-keeps sender_id seq src_ip now u = (ground arith, ground arith)

  on_beacon-IsRunning :
      (self : NodeId) (m : BeaconMessage) (src_ip : Bytes) (now : ℕ) (u : UdpDiscovery)
      → bytes_eq (beacon_node_id m) self ≡ false
      → IsRunning self u
      → IsRunning self (on_beacon p m src_ip now u).1
  unfolding on_beacon beacon_node_id on_announcement on_goodbye new_peer remove_peer
  on_beacon-IsRunning self (announcement a) src_ip now u other v = record {
    local = v.local;
    good = insert_or_update-IsDirectory self _ now u.directory other v.good;
  }
  on_beacon-IsRunning self (goodbye node_id seq) src_ip now u other v =
      by_peer (lookup node_id u.directory) refl
    where
      removed : IsDirectory self (remove node_id u.directory)
      removed = record {
        once = DistinctKeys-remove node_id u.directory v.good.once;
        own = AllOwn-remove node_id u.directory v.good.own;
        without_self =
            ground (arith, contains_key-remove node_id self u.directory, v.good.without_self);
      }

      by_peer :
          (o : Option DiscoveredPeer)
          → lookup node_id u.directory ≡ o
          → IsRunning self (on_beacon p (goodbye node_id seq) src_ip now u).1
      by_peer none e =
          rw (e, on_beacon, on_goodbye, remove_peer) (record { local = v.local; good = removed })
      by_peer (some peer) e =
          rw (e, on_beacon, on_goodbye, remove_peer) (record { local = v.local; good = removed })
  on_beacon-IsRunning self (query sender_id seq) src_ip now u other v = record {
    local = (on_query-keeps sender_id seq src_ip now u).0 ∙ v.local;
    good = rw (on_query-keeps sender_id seq src_ip now u).1 v.good;
  }

  on_datagram-IsRunning :
      (self : NodeId) (bytes src_ip : Bytes) (now : ℕ) (u : UdpDiscovery)
      → IsRunning self u
      → IsRunning self (on_datagram p bytes src_ip now u).1
  unfolding on_datagram is_own
  on_datagram-IsRunning self bytes src_ip now u v = by_beacon (decode_beacon p bytes) refl
    where
      by_beacon :
          (r : Result BeaconMessage DiscoveryError)
          → decode_beacon p bytes ≡ r
          → IsRunning self (on_datagram p bytes src_ip now u).1
      by_beacon (err e) h = rw (h, on_datagram) v
      by_beacon (ok m) h =
          rw (h, on_datagram)
            (elim (Bool-cases (is_own u.local_node_id (beacon_node_id m))) [
              | inl own ↦ rw own v
              | inr other ↦ rw other (
                  on_beacon-IsRunning self m src_ip now u
                    (sym (ap (λ o. is_own o (beacon_node_id m)) v.local) ∙ other) v)
            ])

  on_beacon_tick-keeps :
      (u : UdpDiscovery)
      → ((on_beacon_tick p u).1.local_node_id ≡ u.local_node_id)
        × ((on_beacon_tick p u).1.directory ≡ u.directory)
  unfolding on_beacon_tick
  on_beacon_tick-keeps u = (ground arith, ground arith)

  shutdown-keeps :
      (goodbye_on_shutdown : Bool) (u : UdpDiscovery)
      → ((shutdown p goodbye_on_shutdown u).1.local_node_id ≡ u.local_node_id)
        × ((shutdown p goodbye_on_shutdown u).1.directory ≡ u.directory)
  unfolding shutdown stop_advertising
  shutdown-keeps goodbye_on_shutdown u = (ground arith, ground arith)

  step-IsRunning :
      (self : NodeId) (s : UdpStep) (u : UdpDiscovery)
      → IsRunning self u
      → IsRunning self (step s u)
  unfolding step on_prune on_beacon_tick stop_advertising
  step-IsRunning self (datagram bytes src_ip now) u v =
      on_datagram-IsRunning self bytes src_ip now u v
  step-IsRunning self (prune_tick ttl now) u v = record {
    local = v.local;
    good = prune_expired-IsDirectory ttl now self u.directory v.good;
  }
  step-IsRunning self beacon_tick u v = record {
    local = (on_beacon_tick-keeps u).0 ∙ v.local;
    good = rw (on_beacon_tick-keeps u).1 v.good;
  }
  step-IsRunning self quiet u v = record { local = v.local; good = v.good }
  step-IsRunning self (leave goodbye_on_shutdown) u v = record {
    local = (shutdown-keeps goodbye_on_shutdown u).0 ∙ v.local;
    good = rw (shutdown-keeps goodbye_on_shutdown u).1 v.good;
  }

  steps-IsRunning :
      (self : NodeId) (ss : List UdpStep) (u : UdpDiscovery)
      → IsRunning self u
      → IsRunning self (steps ss u)
  unfolding steps
  steps-IsRunning self [] u v = v
  steps-IsRunning self (s ∷ ss) u v = steps-IsRunning self ss (step s u) (step-IsRunning self s u v)

  -- Once a worker with no peers yet is told who it is, no sequence of datagrams, prunings, beacon
  -- ticks, stops of the advertisement and shutdowns puts the local node into its directory, gives a peer two
  -- entries, or files a peer under another id.
  pub steps-IsDirectory :
      (node_id : NodeId) (device_name : Str) (device_type : DeviceType) (port : ℕ)
      → (capabilities : Capabilities) (u : UdpDiscovery) (ss : List UdpStep) → u.directory ≡ []
      → IsDirectory node_id
          (steps ss (advertise node_id device_name device_type port capabilities u)).directory
  unfolding advertise contains_key
  steps-IsDirectory node_id device_name device_type port capabilities u ss empty =
      (steps-IsRunning node_id ss _ started).good
    where
      none_yet : IsDirectory node_id []
      none_yet = record { once = tt; own = tt; without_self = refl }

      started : IsRunning node_id (advertise node_id device_name device_type port capabilities u)
      started = record { local = refl; good = rw empty none_yet }
