-- ===== src/Transport/Delivery.antt =====
-- Frames over a byte stream that keeps its bytes in order (framed.rs).
use mathlib.Core.List.{append-nil, append_assoc}
use bridgeos.Prelude.{
  length, take, drop, length-append, take-append_length, drop-append_length, Bytes, bytes_eq,
  bytes_eq_iff, ℕ, ◌≤◌, ◌<◌, ◌≡◌, refl, sym, ap, ◌∙◌, Option, none, some, List, [], ◌∷◌, ◌++◌,
  arith,
}
use bridgeos.Prelude.Result.{Result, ok, err, ◌>>=◌}
use bridgeos.Protocol.Frame.{magic, max_frame_length, Frame}
use bridgeos.Protocol.Codec.{
  Postcard, RoundTrips, to_be_bytes, from_be_bytes, decode_payload, encode_frame,
}
use bridgeos.Protocol.Codec.WireFormat.{from_be_bytes-to_be_bytes, framed, encode_frame-eq_ok}
use bridgeos.Transport.{
  filled, unexpected_eof, ByteStream, recv_payload, recv_header, recv_frame, flush_after,
  send_frame,
}
use bridgeos.Core.{BridgeError, frame_too_large}

-- The documented behaviour of a working stream whose peer has closed it: `pending` is what is still
-- to be read, `written` what was written.
pub record InOrder {T : Type 0} (io : ByteStream T) : Type 0 where
  pub pending : T → Bytes
  pub written : T → Bytes
  pub read_full :
      (n : ℕ) (s : T) → n ≤ length (pending s) → (io.read_exact n s).0 ≡ filled (take n (pending s))
  pub read_rest :
      (n : ℕ) (s : T) → n ≤ length (pending s) → pending (io.read_exact n s).1 ≡ drop n (pending s)
  pub read_short : (n : ℕ) (s : T) → length (pending s) < n → (io.read_exact n s).0 ≡ unexpected_eof
  pub write_ok : (b : Bytes) (s : T) → (io.write_all b s).0 ≡ ok tt
  pub write_adds : (b : Bytes) (s : T) → written (io.write_all b s).1 ≡ written s ++ b
  pub flush_ok : (s : T) → (io.flush s).0 ≡ ok tt
  pub flush_keeps : (s : T) → written (io.flush s).1 ≡ written s

module _ (p : Postcard Frame) {T : Type 0} (io : ByteStream T) (order : InOrder io) where
  open order use {pending, written}

  -- The state that a received frame leaves.
  abbrev pub next : T → T
  next s = (recv_frame p io s).1

  -- A stream that ends within the first eight bytes of a frame is reported as a clean end.
  recv_frame-truncated_header : (s : T) → length (pending s) < 8 → (recv_frame p io s).0 ≡ ok none
  unfolding recv_frame
  recv_frame-truncated_header s h = rw (order.read_short 8 s h, recv_frame)

  -- A header with too large a length ends the call before any more of the stream is read.
  recv_frame-oversize :
      (s : T) (header : Bytes)
      → (io.read_exact 8 s).0 ≡ filled header
      → take 4 header ≡ magic
      → max_frame_length < from_be_bytes (take 4 (drop 4 header))
      → recv_frame p io s ≡ (
        err (frame_too_large (from_be_bytes (take 4 (drop 4 header))) max_frame_length),
        (io.read_exact 8 s).1,
      )
  unfolding recv_frame recv_header
  recv_frame-oversize s header e m big =
      rw (e, recv_frame) (ground (arith, bytes_eq_iff (take 4 header) magic))

  recv_header-framed :
      (n : ℕ) (s : T)
      → n ≤ max_frame_length
      → recv_header p io (magic ++ to_be_bytes n) s ≡ recv_payload p io n s
  unfolding recv_header bytes_eq to_be_bytes
  recv_header-framed n s h = rw (from_be_bytes-to_be_bytes n (omega arith)) (ground arith)

  module _ (s : T) (payload rest : Bytes) (size : length payload ≤ max_frame_length)
      (e : pending s ≡ framed payload ++ rest) where
    abbrev body : T
    body = (io.read_exact 8 s).1

    header_there : 8 ≤ length (pending s)
    unfolding to_be_bytes
    header_there = rw e (omega (arith, length-append payload rest))

    read_header : (io.read_exact 8 s).0 ≡ filled (magic ++ to_be_bytes (length payload))
    unfolding to_be_bytes
    read_header = order.read_full 8 s header_there ∙ rw e

    pending-body : pending body ≡ payload ++ rest
    unfolding to_be_bytes
    pending-body = order.read_rest 8 s header_there ∙ rw e

    payload_there : length payload ≤ length (pending body)
    payload_there = rw pending-body (omega (arith, length-append payload rest))

    read_payload : (io.read_exact (length payload) body).0 ≡ filled payload
    read_payload =
        order.read_full (length payload) body payload_there
        ∙ rw (pending-body, take-append_length payload rest)

    pending_after : pending (io.read_exact (length payload) body).1 ≡ rest
    pending_after =
        order.read_rest (length payload) body payload_there
        ∙ rw (pending-body, drop-append_length payload rest)

    recv_framed : recv_frame p io s ≡ (
      (do frame ← decode_payload p payload; ok (some frame)),
      (io.read_exact (length payload) body).1,
    )
    unfolding recv_frame recv_payload
    recv_framed =
        rw (read_header, recv_frame)
          (recv_header-framed (length payload) body size ∙ rw (read_payload, recv_payload) refl)

  recv_frame-encoded :
      (s : T) (f : Frame) (w rest : Bytes)
      → RoundTrips p
      → encode_frame p f ≡ ok w
      → pending s ≡ w ++ rest
      → ((recv_frame p io s).0 ≡ ok (some f)) × (pending (next s) ≡ rest)
  unfolding decode_payload
  recv_frame-encoded s f w rest law h e =
      let (payload, wrote, size, shape) = encode_frame-eq_ok p f w h in
      let start : pending s ≡ framed payload ++ rest = rw (e, shape) in
      let got = recv_framed s payload rest size start in
      (
        rw (got, law.read_back f payload wrote),
        ap (λ (r : Result (Option Frame) BridgeError × T). pending r.1) got
            ∙ pending_after s payload rest size start,
      )

  abbrev pub after_sending : List Frame → T → T
  after_sending [] s = s
  after_sending (f ∷ fs) s = after_sending fs (send_frame p io f s).1

  abbrev pub AllSent : List Frame → T → Type 0
  AllSent [] s = Unit {0}
  AllSent (f ∷ fs) s = ((send_frame p io f s).0 ≡ ok tt) × AllSent fs (send_frame p io f s).1

  -- Successive calls of `recv_frame` return these frames and then a clean end.
  abbrev pub Delivers : List Frame → T → Type 0
  Delivers [] s = (recv_frame p io s).0 ≡ ok none
  Delivers (f ∷ fs) s = ((recv_frame p io s).0 ≡ ok (some f)) × Delivers fs (next s)

  written-flush_after :
      (x : Result (Unit {0}) BridgeError × T)
      → x.0 ≡ ok tt
      → written (flush_after p io x).1 ≡ written x.1
  unfolding flush_after
  written-flush_after (ok u, s) h = order.flush_keeps s
  written-flush_after (err e, s) h = cc

  send_frame-written :
      (s : T) (f : Frame)
      → (send_frame p io f s).0 ≡ ok tt
      → (w : Bytes) × (encode_frame p f ≡ ok w) × (written (send_frame p io f s).1 ≡ written s ++ w)
  unfolding send_frame
  send_frame-written s f h = go (encode_frame p f) refl
    where
      go :
          (r : Result Bytes BridgeError)
          → encode_frame p f ≡ r
          → (w : Bytes) × (encode_frame p f ≡ ok w)
            × (written (send_frame p io f s).1 ≡ written s ++ w)
      go (err e) x = ground arith
      go (ok w) x = (
        w,
        x,
        rw (x, send_frame)
            (written-flush_after (io.write_all w s) (order.write_ok w s) ∙ order.write_adds w s),
      )

  -- The bytes of the sent frames, and what a peer makes of them.
  sent_bytes :
      (fs : List Frame) (a : T)
      → RoundTrips p
      → AllSent fs a
      → (bytes : Bytes) × (written (after_sending fs a) ≡ written a ++ bytes)
        × ((b : T) → pending b ≡ bytes → Delivers fs b)
  sent_bytes [] a law h =
      ([], sym (append-nil (written a)), λ b e. recv_frame-truncated_header b (rw e (omega arith)))
  sent_bytes (f ∷ fs) a law h =
      let (w, wrote, e) = send_frame-written a f h.0 in
      let (rest, e', there) = sent_bytes fs (send_frame p io f a).1 law h.1 in
      (
        w ++ rest,
        e' ∙ rw (e, append_assoc),
        λ b start.
            let got = recv_frame-encoded b f w rest law wrote start in
            (got.0, there (next b) got.1),
      )

  -- Whatever frames one end sends without an error, the other end, whose stream holds what was
  -- written, receives those frames in their order and then a clean end.
  pub recv_frame-send_frame :
      (fs : List Frame) (a b : T)
      → RoundTrips p
      → AllSent fs a
      → written a ≡ []
      → pending b ≡ written (after_sending fs a)
      → Delivers fs b
  recv_frame-send_frame fs a b law h fresh e =
      let (bytes, wrote, there) = sent_bytes fs a law h in there b (e ∙ wrote ∙ rw fresh)
