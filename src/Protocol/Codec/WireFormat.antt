-- ===== src/Protocol/Codec/WireFormat.antt =====
-- The wire format of a frame: what `encode_frame` writes and exactly what `decode_frame` accepts.
use bridgeos.Prelude.{
  ltb, ltb→lt, ltb→le, Bool-cases, Option-cases, length, take, drop, length-append,
  take-append-drop, length-take, take-append_length, Bytes, bytes_eq, bytes_eq_iff, ℕ, zero, suc,
  ◌+◌, ◌^◌, ◌≤◌, ◌<◌, ◌≡◌, refl, ap, ◌↔◌, ◌⊎◌, inl, inr, Option, none, some, [], ◌∷◌, ◌++◌, arith,
}
use bridgeos.Core.{serialization, frame_too_large}
use bridgeos.Prelude.Result.{ok, err}
use bridgeos.Protocol.Frame.{magic, max_frame_length, Frame}
use bridgeos.Protocol.Codec.{
  Postcard, RoundTrips, to_be_bytes, from_be_bytes, decode_payload, encode_frame, decode_frame,
}

pub from_be_bytes-to_be_bytes : (n : ℕ) → n < 2 ^ 32 → from_be_bytes (to_be_bytes n) ≡ n
unfolding from_be_bytes to_be_bytes
from_be_bytes-to_be_bytes n h = omega arith

abbrev pub AllBytes : Bytes → Type 0
AllBytes [] = Unit {0}
AllBytes (x ∷ xs) = (x < 256) × AllBytes xs

-- What stands on the wire for a payload.
abbrev pub framed : Bytes → Bytes
framed payload = magic ++ (to_be_bytes (length payload) ++ payload)

pub encode_frame-eq_ok :
    (p : Postcard Frame) (f : Frame) (w : Bytes)
    → encode_frame p f ≡ ok w
    → (payload : Bytes) × (p.to_allocvec f ≡ some payload)
      × (length payload ≤ max_frame_length)
      × (w ≡ framed payload)
unfolding encode_frame
encode_frame-eq_ok p f w h = go (p.to_allocvec f) refl
  where
    go :
        (o : Option Bytes)
        → p.to_allocvec f ≡ o
        → (payload : Bytes) × (p.to_allocvec f ≡ some payload)
          × (length payload ≤ max_frame_length)
          × (w ≡ framed payload)
    go none e = ground arith
    go (some b) e = (b, e, ground arith, ground arith)

decode_frame-framed :
    (p : Postcard Frame) (payload rest : Bytes)
    → length payload ≤ max_frame_length
    → decode_frame p (framed payload ++ rest) ≡ decode_payload p payload
unfolding decode_frame bytes_eq to_be_bytes
decode_frame-framed p payload rest h =
    rw (from_be_bytes-to_be_bytes (length payload) (omega arith))
      (ground (arith, length-append payload rest, take-append_length payload rest))

AllBytes-take : (n : ℕ) (b : Bytes) → AllBytes b → AllBytes (take n b)
AllBytes-take zero b h = tt
AllBytes-take (suc n) [] h = tt
AllBytes-take (suc n) (x ∷ b) h = (h.0, AllBytes-take n b h.1)

to_be_bytes-from_be_bytes :
    (a b c d : ℕ)
    → AllBytes (a ∷ b ∷ c ∷ d ∷ [])
    → to_be_bytes (from_be_bytes (a ∷ b ∷ c ∷ d ∷ [])) ≡ a ∷ b ∷ c ∷ d ∷ []
unfolding from_be_bytes to_be_bytes
to_be_bytes-from_be_bytes a b c d h = ground arith

-- What an accepted buffer says of its header.
header_facts :
    (p : Postcard Frame) (f : Frame) (a b c d x y z w : ℕ) (tail : Bytes)
    → decode_frame p (a ∷ b ∷ c ∷ d ∷ x ∷ y ∷ z ∷ w ∷ tail) ≡ ok f
    → let len = from_be_bytes (x ∷ y ∷ z ∷ w ∷ []) in
      (a ∷ b ∷ c ∷ d ∷ [] ≡ magic)
      × (len ≤ max_frame_length)
      × (len ≤ length tail)
      × (decode_payload p (take len tail) ≡ ok f)
unfolding decode_frame
header_facts p f a b c d x y z w tail h = ground (arith, bytes_eq_iff (a ∷ b ∷ c ∷ d ∷ []) magic)

-- A buffer that holds one well-framed payload, which the serializer reads as `f`, and any more bytes.
abbrev pub Holds : Postcard Frame → Frame → Bytes → Type 0
Holds p f bytes =
    (payload : Bytes) × (rest : Bytes) × (bytes ≡ framed payload ++ rest)
    × (length payload ≤ max_frame_length)
    × (p.from_bytes payload ≡ some f)

decode_payload-eq_ok :
    (p : Postcard Frame) (f : Frame) (b : Bytes)
    → decode_payload p b ≡ ok f
    → p.from_bytes b ≡ some f
unfolding decode_payload
decode_payload-eq_ok p f b h = ground arith

accepted :
    (p : Postcard Frame) (f : Frame) (bytes : Bytes)
    → AllBytes bytes
    → decode_frame p bytes ≡ ok f
    → Holds p f bytes
unfolding decode_frame
accepted p f (a ∷ b ∷ c ∷ d ∷ x ∷ y ∷ z ∷ w ∷ tail) valid h =
    let len = from_be_bytes (x ∷ y ∷ z ∷ w ∷ []) in
    let facts = header_facts p f a b c d x y z w tail h in
    let size : length (take len tail) ≡ len = omega (arith, length-take len tail, facts.2) in
    let header : to_be_bytes len ≡ x ∷ y ∷ z ∷ w ∷ [] =
      to_be_bytes-from_be_bytes x y z w (AllBytes-take 4 (x ∷ y ∷ z ∷ w ∷ tail) valid.1.1.1.1) in
    let whole : a ∷ b ∷ c ∷ d ∷ x ∷ y ∷ z ∷ w ∷ tail ≡ framed (take len tail) ++ drop len tail =
      rw (size, header, take-append-drop len tail)
        (ap (λ m. m ++ (x ∷ y ∷ z ∷ w ∷ tail)) facts.0) in
    (
      take len tail,
      drop len tail,
      whole,
      omega (arith, size, facts.1),
      decode_payload-eq_ok p f _ facts.3,
    )
accepted p f bytes valid h = cc

-- `decode_frame` accepts a buffer and returns `f` exactly when the buffer begins with the magic, the
-- big-endian length of a payload within the maximum, and that whole payload, which the serializer
-- reads as `f`. Bytes after the payload do not matter.
pub decode_frame_iff :
    (p : Postcard Frame) (f : Frame) (bytes : Bytes)
    → AllBytes bytes
    → (decode_frame p bytes ≡ ok f) ↔ Holds p f bytes
unfolding decode_payload
decode_frame_iff p f bytes valid = (
  accepted p f bytes valid,
  λ (payload, rest, e, size, read). rw (e, decode_frame-framed p payload rest size, read),
)

-- A frame that `encode_frame` wrote is decoded to itself, whatever follows it in the buffer.
pub decode_frame-encode_frame :
    (p : Postcard Frame) (f : Frame) (w rest : Bytes)
    → RoundTrips p
    → encode_frame p f ≡ ok w
    → decode_frame p (w ++ rest) ≡ ok f
unfolding decode_payload
decode_frame-encode_frame p f w rest law h =
    let (payload, wrote, size, e) = encode_frame-eq_ok p f w h in
    rw (e, decode_frame-framed p payload rest size, law.read_back f payload wrote)

-- Encoding fails exactly when the serializer refuses the frame or its payload passes the maximum;
-- otherwise it takes the payload and eight bytes, at most 16 MiB and 8 bytes in valid.
encode_frame_total :
    (p : Postcard Frame) (f : Frame)
    → ((p.to_allocvec f ≡ none) × (encode_frame p f ≡ err serialization))
      ⊎ ((b : Bytes) × (p.to_allocvec f ≡ some b)
          × (max_frame_length < length b)
          × (encode_frame p f ≡ err (frame_too_large (length b) max_frame_length)))
      ⊎ ((b : Bytes) × (w : Bytes) × (p.to_allocvec f ≡ some b)
          × (encode_frame p f ≡ ok w)
          × (length w ≡ length b + 8)
          × (length w ≤ 16777224))
unfolding encode_frame to_be_bytes
encode_frame_total p f = elim (Option-cases (p.to_allocvec f)) [
  | inl e ↦ inl (e, rw e)
  | inr (b, e) ↦ elim (Bool-cases (ltb max_frame_length (length b))) [
    | inl big ↦ inr (inl (b, e, ltb→lt _ _ big, ground arith))
    | inr small ↦
        inr (inr (b, framed b, e, ground arith, omega arith, omega (arith, ltb→le _ _ small)))
  ]
]
