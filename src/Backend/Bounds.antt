-- ===== src/Backend/Bounds.antt =====
-- What a successful readFrame says of the bytes that it took.
use instachron.Base.{ℕ, ◌+◌, ◌≤◌, ◌<◌, ◌≡◌, arith, inl, inr}
use instachron.Base.{List, length, length-append, Result-cases, ok}
use instachron.Wire.Stream.{Reader, read_full, read_full_takes}
use instachron.Backend.Protocol.{Header, Captured, read_rest, read_header, read_payload, read_frame}

read_rest_takes :
    (hdr : List ℕ) (r s : Reader) (h : Header)
    → read_rest hdr r ≡ ok (h, s)
    → length s.bytes ≤ length r.bytes
unfolding read_rest
read_rest_takes hdr r s h e = elim (Result-cases (read_full 4 r)) [
  | inl ((id, t), full) ↦ ground (arith, read_full_takes 4 r t id full, length-append id t.bytes)
  | inr (x, full) ↦ ground arith
]

read_header_takes :
    (r s : Reader) (h : Header) → read_header r ≡ ok (h, s) → length s.bytes + 16 ≤ length r.bytes
unfolding read_header
read_header_takes r s h e = elim (Result-cases (read_full 16 r)) [
  | inl ((hdr, t), full) ↦
      ground (
        arith,
        read_full_takes 16 r t hdr full,
        length-append hdr t.bytes,
        read_rest_takes hdr t s h,
      )
  | inr (x, full) ↦ ground arith
]

read_payload_takes :
    (m : ℕ) (h : Header) (r s : Reader) (c : Captured)
    → read_payload m h r ≡ ok (c, s)
    → (c.header ≡ h)
      × (length c.payload ≡ h.payload_size)
      × (0 < length c.payload)
      × (length c.payload ≤ m)
      × (length s.bytes + length c.payload ≡ length r.bytes)
unfolding read_payload
read_payload_takes m h r s c e = elim (Result-cases (read_full h.payload_size r)) [
  | inl ((bs, t), full) ↦
      ground (arith, read_full_takes h.payload_size r t bs full, length-append bs t.bytes)
  | inr (x, full) ↦ ground arith
]

-- A frame that the backend accepts has the size that its header states, is not empty, is not over
-- the limit, and took its header and its payload from the connection.
pub read_frame_bounds :
    (m : ℕ) (r s : Reader) (c : Captured)
    → read_frame m r ≡ ok (c, s)
    → (length c.payload ≡ c.header.payload_size)
      × (0 < length c.payload)
      × (length c.payload ≤ m)
      × (length s.bytes + 16 + length c.payload ≤ length r.bytes)
unfolding read_frame
read_frame_bounds m r s c e = elim (Result-cases (read_header r)) [
  | inl ((h, t), parsed) ↦
      let inner : read_payload m h t ≡ ok (c, s) = rw parsed at e in
      let (same, size, some_bytes, fits, left) = read_payload_takes m h t s c inner in
      let front = read_header_takes r t h parsed in (rw same size, some_bytes, fits, omega arith)
  | inr (x, parsed) ↦ ground arith
]
