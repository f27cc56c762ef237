-- ===== src/Plugin/Protocol/Frames.antt =====
-- src/plugin/protocol.rs: what `read_frame` answers, and that its framing is that of `write_frame`.
use wazabi_edr_agent.Prelude.{
  Bool, true, ℕ, ◌+◌, ◌≤◌, ◌<◌, ◌≡◌, refl, ap, ◌∙◌, false, List, [], ◌∷◌, ◌++◌, Option, none, some,
  arith, ltb, if◌then◌else◌, length, take, drop, append_assoc, length-append, take-append_length,
  drop-append_length, when, unless, lt→ltb, inl, inr, Option-cases,
}
use wazabi_edr_agent.Prelude.Bytes.{u32_to_le_bytes, u32_from_le_bytes, u32_le_round_trip}
use wazabi_edr_agent.Plugin.Protocol.{
  max_frame_bytes, truncated, too_large, ok, err, Stream, full, ended, fill, parse_body, read_body,
  read_length, read_frame, write_frame, ServerFrame,
}
use wazabi_edr_agent.Plugin.Protocol.Fill.{bytes_of, Clean, fill-full, fill-ended}

module _ {F : Type 0} (from_slice : List ℕ → Option F) where
  -- Reading the body, when the stream holds it.
  read_body-full :
      (body rest : List ℕ) (s : Stream)
      → Clean s
      → bytes_of s ≡ body ++ rest
      → (s' : Stream) × (read_body from_slice (fill (length body) [] s)
          ≡ (parse_body from_slice body, s'))
        × (bytes_of s' ≡ rest)
        × Clean s'
  unfolding read_body
  read_body-full body rest s c e =
      let size : length (bytes_of s) ≡ length body + length rest =
        ap length e ∙ length-append body rest in
      let got = fill-full (length body) [] s c (omega arith) in
      let front : take (length body) (bytes_of s) ≡ body =
        ap (take (length body)) e ∙ take-append_length body rest in
      (
        got.0,
        ap (read_body from_slice) got.1 ∙ ap (λ t. (parse_body from_slice t, got.0)) front,
        got.2 ∙ ap (drop (length body)) e ∙ drop-append_length body rest,
        got.3,
      )

  -- Reading the length, when the stream holds it.
  read_frame-length :
      (n : ℕ) (rest : List ℕ) (s : Stream)
      → Clean s
      → bytes_of s ≡ u32_to_le_bytes n ++ rest
      → (s' : Stream) × (read_frame from_slice s
          ≡ read_length from_slice (full (u32_to_le_bytes n) s'))
        × (bytes_of s' ≡ rest)
        × Clean s'
  unfolding read_frame
  read_frame-length n rest s c e =
      let size : length (bytes_of s) ≡ 4 + length rest =
        ap length e ∙ length-append (u32_to_le_bytes n) rest in
      let got = fill-full 4 [] s c (omega arith) in
      (
        got.0,
        ap (read_length from_slice) (got.1 ∙ ap (λ t. full (take 4 t) got.0) e),
        got.2 ∙ ap (drop 4) e,
        got.3,
      )

  -- However the pipe cuts the bytes and wherever reads are interrupted, a stream without failure that holds the
  -- length of a body of at most `max_frame_bytes` bytes, the body and then `rest` is answered with the outcome of
  -- parsing that body, and exactly `rest` is left for the next frame.
  pub read_frame-body :
      (body rest : List ℕ) (s : Stream)
      → Clean s
      → length body ≤ max_frame_bytes
      → bytes_of s ≡ u32_to_le_bytes (length body) ++ (body ++ rest)
      → (s' : Stream) × (read_frame from_slice s ≡ (parse_body from_slice body, s'))
        × (bytes_of s' ≡ rest)
        × Clean s'
  unfolding read_length
  read_frame-body body rest s c h e =
      let len = read_frame-length (length body) (body ++ rest) s c e in
      let n : u32_from_le_bytes (u32_to_le_bytes (length body)) ≡ length body =
        u32_le_round_trip (length body) (omega arith) in
      let got = read_body-full body rest len.0 len.3 len.2 in
      let fits : ltb max_frame_bytes (length body) ≡ false = ground arith in
      (
        got.0,
        len.1
            ∙ ap
                (λ k.
                  if ltb max_frame_bytes k
                  then (err (too_large k), len.0)
                  else read_body from_slice (fill k [] len.0))
                n
            ∙ unless fits _ _
            ∙ got.1,
        got.2,
        got.3,
      )

  -- A length above `max_frame_bytes` is refused with that length, and none of the body has been read: all that
  -- follows the four bytes is still in the stream.
  pub read_frame-too_large :
      (n : ℕ) (rest : List ℕ) (s : Stream)
      → Clean s
      → n < 4294967296
      → max_frame_bytes < n
      → bytes_of s ≡ u32_to_le_bytes n ++ rest
      → (s' : Stream) × (read_frame from_slice s ≡ (err (too_large n), s'))
        × (bytes_of s' ≡ rest)
        × Clean s'
  unfolding read_length
  read_frame-too_large n rest s c w h e =
      let len = read_frame-length n rest s c e in
      (
        len.0,
        len.1
            ∙ ap
                (λ k.
                  if ltb max_frame_bytes k
                  then (err (too_large k), len.0)
                  else read_body from_slice (fill k [] len.0))
                (u32_le_round_trip n w)
            ∙ when (lt→ltb max_frame_bytes n h) _ _,
        len.2,
        len.3,
      )

  -- A clean stream that delivers no byte is a clean end.
  pub read_frame-end :
      (s : Stream) → Clean s → bytes_of s ≡ [] → read_frame from_slice s ≡ (ok none, [])
  unfolding read_frame read_length
  read_frame-end s c e =
      ap (read_length from_slice)
        (fill-ended 4 [] s c (rw e (omega arith)) ∙ ap (λ t. ended t []) e)

-- A frame that is cut short: in its length, or in a body of at most `max_frame_bytes` bytes.
pub data Cut : List ℕ → Type 0 where
  in_length : (b : ℕ) (bs : List ℕ) → length bs < 3 → Cut (b ∷ bs)
  in_body :
      (n : ℕ) (part : List ℕ)
      → n ≤ max_frame_bytes
      → length part < n
      → Cut (u32_to_le_bytes n ++ part)

module _ {F : Type 0} (from_slice : List ℕ → Option F) where
  Cut-truncated :
      (bs : List ℕ)
      → Cut bs
      → (s : Stream) → Clean s
      → bytes_of s ≡ bs
      → read_frame from_slice s ≡ (err truncated, [])
  unfolding read_frame read_length read_body
  Cut-truncated _ (in_length b bs few) s c e =
      let short : length (bytes_of s) < 4 = rw e (omega arith) in
      ap (read_length from_slice) (fill-ended 4 [] s c short)
      ∙ ap (λ t. read_length from_slice (ended t [])) e
  Cut-truncated _ (in_body n part h few) s c e =
      let len = read_frame-length from_slice n part s c e in
      let few' : length (bytes_of len.0) < n = rw (len.2) few in
      let fits : ltb max_frame_bytes n ≡ false = ground arith in
      len.1
      ∙ ap
          (λ k.
            if ltb max_frame_bytes k
            then (err (too_large k), len.0)
            else read_body from_slice (fill k [] len.0))
          (u32_le_round_trip n (omega arith))
      ∙ unless fits _ _
      ∙ ap (read_body from_slice) (fill-ended n [] len.0 len.3 few')

  -- A stream without failure whose bytes are a frame cut short, in its length or in a body of at most
  -- `max_frame_bytes` bytes, is answered as truncated, not as a clean end.
  pub read_frame-truncated :
      (s : Stream) → Clean s → Cut (bytes_of s) → read_frame from_slice s ≡ (err truncated, [])
  read_frame-truncated s c cut = Cut-truncated (bytes_of s) cut s c refl

-- What `write_frame` puts on the pipe for a frame, `read_frame` with a parser that takes any body gives back as the
-- body that serde wrote for this frame, however the pipe cuts it, and it leaves what follows.
pub read_frame-write_frame :
    (to_vec : ServerFrame → Option (List ℕ)) (flushed : Bool) (f : ServerFrame) (out rest : List ℕ)
    (s : Stream)
    → write_frame to_vec flushed f ≡ ok out
    → Clean s
    → bytes_of s ≡ out ++ rest
    → (body : List ℕ) × (to_vec f ≡ some body)
      × (s' : Stream) × (read_frame (λ b. some b) s ≡ (ok (some body), s'))
      × (bytes_of s' ≡ rest)
      × Clean s'
unfolding write_frame parse_body
read_frame-write_frame to_vec true f out rest s w c e = elim (Option-cases (to_vec f)) [
  | inl none' ↦ absurd (cc (none', w))
  | inr (body, some') ↦
      let shape : (length body ≤ max_frame_bytes) × (out ≡ u32_to_le_bytes (length body) ++ body) =
        ground (arith, some', w) in
      let got =
        read_frame-body (λ b. some b) body rest s c shape.0
          (e
            ∙ ap (λ t. t ++ rest) shape.1
            ∙ append_assoc (u32_to_le_bytes (length body)) body rest) in
      (body, some', got.0, got.1, got.2, got.3)
]
read_frame-write_frame to_vec false f out rest s w c e = absurd (ground (arith, w))
