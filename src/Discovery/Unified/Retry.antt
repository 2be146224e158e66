-- ===== src/Discovery/Unified/Retry.antt =====
-- A start of discovery that fails half way (unified.rs).
use bridgeos.Prelude.{
  ◌≡◌, refl, sym, ap, ◌∙◌, subst, ◌⊎◌, inl, inr, Bool, true, false, some, List, [], ◌∷◌, arith,
}
use bridgeos.Prelude.Result.{err}
use bridgeos.Discovery.Beacon.{mdns, internal_error, already_running}
use bridgeos.Discovery.Unified.{
  both, UnifiedDiscovery, new_unified, start_mdns, start_udp, start_mdns_service, start_udp_service,
  start_unified, shutdown_unified,
}

-- The calls that a client makes, with what the daemon and the socket do at a start.
pub data DiscoveryCall : Type 0 where
  start : (Bool → Bool) → Bool → DiscoveryCall
  shut_down : DiscoveryCall

unfoldable pub perform_call : DiscoveryCall → UnifiedDiscovery → UnifiedDiscovery
perform_call (start browse socket) u = (start_unified browse socket u).1
perform_call shut_down u = shutdown_unified u

unfoldable pub perform_all_calls : List DiscoveryCall → UnifiedDiscovery → UnifiedDiscovery
unfolding perform_call
perform_all_calls [] u = u
perform_all_calls (c ∷ cs) u = perform_all_calls cs (perform_call c u)

-- A daemon that was shut down does not browse any more.
abbrev pub Refuses : DiscoveryCall → Type 0
Refuses (start browse socket) = browse true ≡ false
Refuses shut_down = Unit {0}

abbrev pub AllRefuse : List DiscoveryCall → Type 0
AllRefuse [] = Unit {0}
AllRefuse (c ∷ cs) = Refuses c × AllRefuse cs

-- The mDNS service browses and the other does not run.
abbrev half_started : UnifiedDiscovery
half_started = record {
  mode = both;
  mdns_service = some (record { is_browsing = true; daemon_shut = false });
  udp_service = some false;
  is_running = false;
}

-- Neither runs, and the daemon is gone.
abbrev without_daemon : UnifiedDiscovery
without_daemon = record {
  mode = both;
  mdns_service = some (record { is_browsing = false; daemon_shut = true });
  udp_service = some false;
  is_running = false;
}

starts_half :
    (browse : Bool → Bool)
    → browse false ≡ true
    → start_unified browse false (new_unified both) ≡ (err internal_error, half_started)
unfolding start_unified new_unified start_mdns_service start_mdns start_udp_service start_udp
starts_half browse h = ground (arith, h)

refused_by_daemon :
    (browse : Bool → Bool) (socket : Bool)
    → browse true ≡ false
    → start_unified browse socket without_daemon ≡ (err mdns, without_daemon)
unfolding start_unified start_mdns_service start_mdns start_udp_service start_udp
refused_by_daemon browse socket h = ground (arith, h)

abbrev IsStuck : UnifiedDiscovery → Type 0
IsStuck u = (u ≡ half_started) ⊎ (u ≡ without_daemon)

perform_call-IsStuck :
    (c : DiscoveryCall) (u : UnifiedDiscovery) → Refuses c → IsStuck u → IsStuck (perform_call c u)
unfolding perform_call start_unified shutdown_unified
perform_call-IsStuck c u h (inl half) =
    subst (λ v. IsStuck (perform_call c v)) (sym half) (from_half c)
  where
    from_half : (c : DiscoveryCall) → IsStuck (perform_call c half_started)
    from_half (start browse socket) = inl refl
    from_half shut_down = inr refl
perform_call-IsStuck c u h (inr gone) =
    subst (λ v. IsStuck (perform_call c v)) (sym gone) (from_gone c h)
  where
    from_gone : (c : DiscoveryCall) → Refuses c → IsStuck (perform_call c without_daemon)
    from_gone (start browse socket) refuses =
        inr (ap (λ r. r.1) (refused_by_daemon browse socket refuses))
    from_gone shut_down refuses = inr refl

perform_all_calls-IsStuck :
    (cs : List DiscoveryCall) (u : UnifiedDiscovery)
    → AllRefuse cs
    → IsStuck u
    → IsStuck (perform_all_calls cs u)
unfolding perform_all_calls
perform_all_calls-IsStuck [] u h v = v
perform_all_calls-IsStuck (c ∷ cs) u h v =
    perform_all_calls-IsStuck cs (perform_call c u) h.1 (perform_call-IsStuck c u h.0 v)

-- In the mode with both services, when the daemon browses and the socket of UDP cannot be made, the
-- first start fails with that error. If a daemon that was shut down does not browse any more, no
-- sequence of further starts and shutdowns leads to a start that succeeds, though the socket is free
-- again: each fails as already running or as an error of mDNS.
pub start_unified-stuck :
    (browse browse' : Bool → Bool) (socket : Bool) (cs : List DiscoveryCall)
    → browse false ≡ true
    → browse' true ≡ false
    → AllRefuse cs
    → let first = start_unified browse false (new_unified both) in
      let later = perform_all_calls cs first.1 in
      (first.0 ≡ err internal_error)
      × (((start_unified browse' socket later).0 ≡ err already_running)
          ⊎ ((start_unified browse' socket later).0 ≡ err mdns))
unfolding start_unified
start_unified-stuck browse browse' socket cs browses refuses all_refuse =
    let first = start_unified browse false (new_unified both) in
    let began = starts_half browse browses in
    (
      ap (λ r. r.0) began,
      elim (perform_all_calls-IsStuck cs first.1 all_refuse (inl (ap (λ r. r.1) began))) [
        | inl half ↦ inl (ap (λ v. (start_unified browse' socket v).0) half)
        | inr gone ↦ inr (
            ap (λ v. (start_unified browse' socket v).0) gone
            ∙ ap (λ r. r.0) (refused_by_daemon browse' socket refuses))
      ],
    )
