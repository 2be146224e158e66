-- ===== src/Discovery/Beacon/RoundTrip.antt =====
-- A beacon that is sent and read (beacon.rs).
use bridgeos.Prelude.{
  ◌==◌, Bool-cases, Bytes, bytes_eq, Str, str_len, ℕ, ◌≤◌, ◌≡◌, refl, sym, subst, ◌≢◌, ◌⊎◌, inl,
  inr, Option, none, some, ◌++◌, arith,
}
use bridgeos.Prelude.Result.{Result, ok, err}
use bridgeos.Protocol.Codec.{Postcard, RoundTrips}
use bridgeos.Notifications.Types.{truncate_str_bytes}
use bridgeos.Notifications.Types.Truncation.{truncate_str_bytes-longest}
use bridgeos.Discovery.Beacon.{
  DiscoveryError, invalid_packet, BeaconMessage, announcement, goodbye, query, limit_name, sanitize,
  encode_beacon, decode_beacon,
}

-- The longest beginning of a text, at a character boundary, within a number of bytes.
pub record IsCut (n : ℕ) (whole cut : Str) : Type 0 where
  pub begins : (rest : Str) × (cut ++ rest ≡ whole)
  pub fits : str_len cut ≤ n
  pub longest : (p q : Str) → p ++ q ≡ whole → str_len p ≤ n → str_len p ≤ str_len cut

-- What a receiver makes of a message that was sent.
abbrev pub Received : BeaconMessage → Result BeaconMessage DiscoveryError → Type 0
Received (announcement a) r =
    ((a.port ≡ 0) × (r ≡ err invalid_packet))
    ⊎ ((a.port ≢ 0)
        × (name : Str) × IsCut 64 a.device_name name
        × (r ≡ ok (announcement (record a { device_name = name }))))
Received (goodbye node_id seq) r = r ≡ ok (goodbye node_id seq)
Received (query sender_id seq) r = r ≡ ok (query sender_id seq)

limit_name-IsCut : (name : Str) → IsCut 64 name (limit_name name)
unfolding limit_name truncate_str_bytes
limit_name-IsCut name =
    let (begins, fits, longest) = truncate_str_bytes-longest name 64 in
    rw same (record { begins = begins; fits = fits; longest = longest })
  where
    same : limit_name name ≡ truncate_str_bytes name 64
    same = ground arith

sanitize-Received : (m : BeaconMessage) → Received m (sanitize m)
unfolding sanitize
sanitize-Received (announcement a) = elim (Bool-cases (a.port == 0)) [
  | inl unset ↦ inl (ground arith, rw unset)
  | inr set ↦ inr (ground arith, limit_name a.device_name, limit_name-IsCut a.device_name, rw set)
]
sanitize-Received (goodbye node_id seq) = refl
sanitize-Received (query sender_id seq) = refl

module _ (p : Postcard BeaconMessage) (r : RoundTrips p) where
  decode_beacon-sanitize :
      (m : BeaconMessage) (b : Bytes) → encode_beacon p m ≡ ok b → decode_beacon p b ≡ sanitize m
  unfolding encode_beacon decode_beacon bytes_eq
  decode_beacon-sanitize m b h = by_payload (p.to_allocvec m) refl
    where
      by_payload : (o : Option Bytes) → p.to_allocvec m ≡ o → decode_beacon p b ≡ sanitize m
      by_payload none e = ground arith
      by_payload (some payload) e = ground (arith, h, e, r.read_back m payload e)

  -- A datagram that was encoded from a goodbye or a query is decoded to that message. One that was
  -- encoded from an announcement is refused as an invalid packet if the port is 0, and else decoded to
  -- the announcement with the same fields, the name cut to its longest beginning within 64 bytes.
  pub decode_beacon-encode_beacon :
      (m : BeaconMessage) (b : Bytes) → encode_beacon p m ≡ ok b → Received m (decode_beacon p b)
  decode_beacon-encode_beacon m b h =
      subst (Received m) (sym (decode_beacon-sanitize m b h)) (sanitize-Received m)
