-- ===== src/Discovery/Unified.antt =====
-- The start and the end of crates/bridge-discovery/src/unified.rs. Of a service (service.rs, udp.rs) its
-- guard is modelled, whether it has a `shutdown_tx`, and of the mDNS service whether its daemon was
-- told to shut down. Whether the daemon browses, which may depend on that, and whether the socket is
-- made are arguments.
pub mod Retry
use bridgeos.Prelude.{if◌then◌else◌, Bool, true, false, Option, none, some}
use bridgeos.Prelude.Result.{Result, ok, err}
use bridgeos.Discovery.Beacon.{DiscoveryError, mdns, internal_error, already_running}

pub data UnifiedDiscoveryMode : Type 0 where
  both mdns_only udp_only : UnifiedDiscoveryMode

pub record MdnsService : Type 0 where
  pub is_browsing : Bool
  pub daemon_shut : Bool

pub record UnifiedDiscovery : Type 0 where
  pub mode : UnifiedDiscoveryMode
  pub mdns_service : Option MdnsService
  pub udp_service : Option Bool
  pub is_running : Bool

abbrev pub idle_mdns : MdnsService
idle_mdns = record { is_browsing = false; daemon_shut = false }

unfoldable pub new_unified : UnifiedDiscoveryMode → UnifiedDiscovery
new_unified both = record {
  mode = both;
  mdns_service = some idle_mdns;
  udp_service = some false;
  is_running = false;
}
new_unified mdns_only = record {
  mode = mdns_only;
  mdns_service = some idle_mdns;
  udp_service = none;
  is_running = false;
}
new_unified udp_only = record {
  mode = udp_only;
  mdns_service = none;
  udp_service = some false;
  is_running = false;
}

abbrev pub Started : Type 0
Started = Result (Unit {0}) DiscoveryError

-- `MdnsDiscovery::start_discovery`, up to the task that it spawns.
unfoldable pub start_mdns : (Bool → Bool) → MdnsService → Started × MdnsService
start_mdns browse s =
    if s.is_browsing
    then (err already_running, s)
    else if browse s.daemon_shut
    then (ok tt, record s { is_browsing = true })
    else (err mdns, s)

-- `MdnsDiscovery::shutdown`, which shuts the daemon down whether or not it browses.
unfoldable pub shutdown_mdns : MdnsService → MdnsService
shutdown_mdns s = record s { is_browsing = false; daemon_shut = true }

-- `UdpDiscovery::start_discovery`, up to the tasks that it spawns.
unfoldable pub start_udp : Bool → Bool → Started × Bool
start_udp socket true = (err already_running, true)
start_udp socket false = if socket then (ok tt, true) else (err internal_error, false)

-- The services that the mode has.
unfoldable pub start_mdns_service :
    (Bool → Bool) → Option MdnsService → Started × Option MdnsService
unfolding start_mdns
start_mdns_service browse none = (ok tt, none)
start_mdns_service browse (some s) = let r = start_mdns browse s in (r.0, some r.1)

unfoldable pub start_udp_service : Bool → Option Bool → Started × Option Bool
unfolding start_udp
start_udp_service socket none = (ok tt, none)
start_udp_service socket (some running) = let r = start_udp socket running in (r.0, some r.1)

unfoldable pub start_unified : (Bool → Bool) → Bool → UnifiedDiscovery → Started × UnifiedDiscovery
unfolding start_mdns_service start_udp_service
start_unified browse socket u =
    if u.is_running
    then (err already_running, u)
    else let m = start_mdns_service browse u.mdns_service in
      let d = start_udp_service socket u.udp_service in
      elim m.0 [
        | err e ↦ (err e, record u { mdns_service = m.1 })
        | ok _ ↦ elim d.0 [
          | err e ↦ (err e, record u { mdns_service = m.1; udp_service = d.1 })
          | ok _ ↦ (ok tt, record u { mdns_service = m.1; udp_service = d.1; is_running = true })
        ]
      ]

unfoldable pub stop_mdns_service : Option MdnsService → Option MdnsService
unfolding shutdown_mdns
stop_mdns_service none = none
stop_mdns_service (some s) = some (shutdown_mdns s)

unfoldable pub stop_udp_service : Option Bool → Option Bool
stop_udp_service none = none
stop_udp_service (some running) = some false

unfoldable pub shutdown_unified : UnifiedDiscovery → UnifiedDiscovery
unfolding stop_mdns_service stop_udp_service
shutdown_unified u = record u {
  mdns_service = stop_mdns_service u.mdns_service;
  udp_service = stop_udp_service u.udp_service;
  is_running = false;
}
