-- ===== src/Tests/Fixtures.antt =====
-- Test data: small serializers, a byte stream in memory and toy primitives that keep the laws.
use bridgeos.Prelude.{
  leb, ◌==◌, if◌then◌else◌, length, get_or, take, drop, replicate, Bytes, bytes_eq, bytes_eq_refl,
  ℕ, ◌≡◌, refl, sym, Bool, false, Option, none, some, [], ◌∷◌, ◌++◌, arith,
}
use bridgeos.Protocol.Frame.{ping, pong, disconnect, Frame, handshake, control, app}
use bridgeos.Protocol.Codec.{Postcard, RoundTrips}
use bridgeos.Identity.Keys.{Crypto, IsSound}
use bridgeos.Prelude.Result.{ok}
use bridgeos.Core.{NodeId}
use bridgeos.Transport.{filled, unexpected_eof, ByteStream}
use bridgeos.Transport.Delivery.{InOrder}
use bridgeos.Clipboard.Content.{
  ClipboardFormat, plain_text, ClipboardContent, text, ClipboardMessage, sync, clear_all, ack,
}

-- A serializer of pings alone.
abbrev pub write_ping : Frame → Option Bytes
write_ping (control (ping n)) = some (n ∷ [])
write_ping _ = none

abbrev pub read_ping : Bytes → Option Frame
read_ping (n ∷ []) = some (control (ping n))
read_ping _ = none

abbrev pub pings : Postcard Frame
pings = record { to_allocvec = write_ping; from_bytes = read_ping }

ping_read_back : (f : Frame) (b : Bytes) → write_ping f ≡ some b → read_ping b ≡ some f
ping_read_back (control (ping n)) b h = rw (sym (some_injective h)) refl
  where
    some_injective : {b c : Bytes} → some b ≡ some c → b ≡ c
    some_injective e = cc
ping_read_back (control (pong n)) b h = cc
ping_read_back (control (disconnect r)) b h = cc
ping_read_back (handshake m) b h = cc
ping_read_back (app d) b h = cc

pub pings-RoundTrips : RoundTrips pings
pings-RoundTrips = record { read_back = ping_read_back }

-- What is still to be read, and what was written.
abbrev pub Pipe : Type 0
Pipe = Bytes × Bytes

abbrev pub pipe : ByteStream Pipe
pipe = record {
  read_exact = λ n s.
      if leb n (length s.0) then (filled (take n s.0), (drop n s.0, s.1)) else (unexpected_eof, s);
  write_all = λ b s. (ok tt, (s.0, s.1 ++ b));
  flush = λ s. (ok tt, s);
}

abbrev pub pipe_in_order : InOrder pipe
pipe_in_order = record {
  pending = λ s. s.0;
  written = λ s. s.1;
  read_full = λ n s h. ground arith;
  read_rest = λ n s h. ground arith;
  read_short = λ n s h. ground arith;
  write_ok = λ b s. refl;
  write_adds = λ b s. refl;
  flush_ok = λ s. refl;
  flush_keeps = λ s. refl;
}

-- A serializer of entries with one-letter texts, one-byte nodes and one-byte hashes.
abbrev pub write_fields :
    NodeId → ℕ → ℕ → Bytes → ClipboardFormat → ℕ → Bool → ClipboardContent → Option Bytes
write_fields (o ∷ []) s t (h ∷ []) plain_text n false (text (c ∷ [])) =
    some (o ∷ s ∷ t ∷ h ∷ n ∷ c ∷ [])
write_fields _ _ _ _ _ _ _ _ = none

abbrev pub write_entry : ClipboardMessage → Option Bytes
write_entry (sync e) =
    let m = e.metadata in
    write_fields m.origin m.sequence m.timestamp_ms m.content_hash m.kind m.byte_size m.is_sensitive
      e.content
write_entry _ = none

abbrev made :
    NodeId → ℕ → ℕ → Bytes → ClipboardFormat → ℕ → Bool → ClipboardContent → ClipboardMessage
made o s t h k n b c = sync (record {
  metadata = record {
    origin = o;
    sequence = s;
    timestamp_ms = t;
    content_hash = h;
    kind = k;
    byte_size = n;
    is_sensitive = b;
  };
  content = c;
})

abbrev pub read_entry : Bytes → Option ClipboardMessage
read_entry (o ∷ s ∷ t ∷ h ∷ n ∷ c ∷ []) =
    some (made (o ∷ []) s t (h ∷ []) plain_text n false (text (c ∷ [])))
read_entry _ = none

abbrev pub entries : Postcard ClipboardMessage
entries = record { to_allocvec = write_entry; from_bytes = read_entry }

fields_read_back :
    (o : NodeId) (s t : ℕ) (h : Bytes) (k : ClipboardFormat) (n : ℕ) (b : Bool)
    (c : ClipboardContent) (bytes : Bytes)
    → write_fields o s t h k n b c ≡ some bytes
    → read_entry bytes ≡ some (made o s t h k n b c)
fields_read_back (o ∷ []) s t (h ∷ []) plain_text n false (text (c ∷ [])) bytes e =
    rw (sym (some_injective e)) refl
  where
    some_injective : {b c : Bytes} → some b ≡ some c → b ≡ c
    some_injective e = cc
fields_read_back o s t h k n b c bytes e = cc

pub entries-RoundTrips : RoundTrips entries
entries-RoundTrips = record { read_back = read_back }
  where
    read_back : (m : ClipboardMessage) (b : Bytes) → write_entry m ≡ some b → read_entry b ≡ some m
    read_back (sync e) b h =
        let m = e.metadata in
        fields_read_back m.origin m.sequence m.timestamp_ms m.content_hash m.kind m.byte_size
          m.is_sensitive e.content b h
    read_back (clear_all o s t) b h = cc
    read_back (ack o s h) b e = cc

-- Primitives in which a key is the first byte of its secret, and a signature the key twice.
abbrev pub toy_key : Bytes → Bytes
toy_key secret = get_or secret 0 0 ∷ replicate 31 0

abbrev pub toy : Crypto
toy = record {
  sha256 = λ b. b;
  verifying_key = toy_key;
  sign = λ secret m. toy_key secret ++ toy_key secret;
  is_key = λ b. length b == 32;
  verify_strict = λ key m signature. bytes_eq signature (key ++ key);
  hex_encode = λ b. b;
  hex_decode = some;
}

pub toy-IsSound : IsSound toy
toy-IsSound = record {
  own_key = λ secret. refl;
  key_length = λ secret. refl;
  verifies = λ secret m. bytes_eq_refl (toy_key secret ++ toy_key secret);
  signature_length = λ secret m. refl;
  decodes = λ b. refl;
}
