-- ===== src/Ipc/Bounds.antt =====
-- No read of an event leaves the bytes that the driver delivered.
use wazabi_edr_agent.Prelude.{
  ℕ, ◌≡◌, ◌≤◌, refl, List, Option, none, some, ltb, ◌==◌, length, if-either, if-cases, ltb→lt,
  subst, arith,
}
use wazabi_edr_agent.Prelude.Bytes.{codes}
use wazabi_edr_agent.Prelude.Json.{Json, object, member, no_member, number}
use wazabi_edr_agent.Ipc.Wire.{
  Field, FieldValue, size_of, read_fields, read_unaligned, value_at, event_header,
  process_create_event, process_exit_event, image_load_event, registry_event, thread_create_event,
  thread_exit_event, process_handle_access_event,
}
use wazabi_edr_agent.Ipc.Payloads.{
  Lookups, Decoded, malformed, undefined_read, decoded, read_packed, then_encode, encode_event,
  process_create_payload, process_exit_payload, image_load_payload, registry_payload,
  thread_create_payload, thread_exit_payload, handle_access_payload,
}
use wazabi_edr_agent.Ipc.Kernel.{
  DecodedKernel, event_version, with_header, decode_with, decode_kernel_event,
}

-- The decoding is an error or a value, and a value is of an event of the version known, not longer than the buffer.
abbrev pub IsDefined : {A : Type 0} → Decoded A → Type 0
IsDefined malformed = Unit {0}
IsDefined undefined_read = ⊥
IsDefined (decoded a) = Unit {0}

-- A buffer that is long enough can be read.
read_unaligned-some :
    (fs : List Field) (buf : List ℕ)
    → size_of fs ≤ length buf
    → read_unaligned fs buf ≡ some (read_fields fs buf)
unfolding read_unaligned
read_unaligned-some fs buf h =
    if-cases (λ o. o ≡ some (read_fields fs buf)) (ltb (length buf) (size_of fs))
      (λ e. absurd (omega (arith, h, ltb→lt (length buf) (size_of fs) e))) (λ e. refl)

-- What follows a read that succeeds.
read-IsDefined :
    {A : Type 0} (f : List FieldValue → Decoded A) (o : Option (List FieldValue))
    (vs : List FieldValue)
    → o ≡ some vs
    → IsDefined (f vs)
    → IsDefined (elim o as (λ x. Decoded A) [ none ↦ undefined_read | some v ↦ f v ])
read-IsDefined f none vs e h = cc
read-IsDefined f (some v) vs e h = let s : vs ≡ v = cc in subst (λ t. IsDefined (f t)) s h

read_packed-IsDefined :
    (fs : List Field) (buf : List ℕ) (size : ℕ)
    → size ≤ length buf
    → IsDefined (read_packed fs buf size)
unfolding read_packed
read_packed-IsDefined fs buf size h =
    if-cases IsDefined (ltb size (size_of fs)) (λ e. tt)
      (λ e.
        read-IsDefined decoded (read_unaligned fs buf) (read_fields fs buf)
          (read_unaligned-some fs buf (ground arith)) tt)

then_encode-IsDefined :
    (f : List FieldValue → Json) (fs : List Field) (buf : List ℕ) (size : ℕ)
    → size ≤ length buf
    → IsDefined (then_encode f (read_packed fs buf size))
then_encode-IsDefined f fs buf size h =
    go (read_packed fs buf size) (read_packed-IsDefined fs buf size h)
  where
    go : (d : Decoded (List FieldValue)) → IsDefined d → IsDefined (then_encode f d)
    go malformed h = tt
    go undefined_read h = h
    go (decoded vs) h = tt

module _ (look : Lookups) where
  encode_event-IsDefined :
      (type : ℕ) (buf : List ℕ) (size : ℕ)
      → size ≤ length buf
      → IsDefined (encode_event look type buf size)
  unfolding encode_event
  encode_event-IsDefined type buf size h =
      if-either (λ (d : Decoded Json). IsDefined d) (type == 1)
        (then_encode-IsDefined (process_create_payload look) process_create_event buf size h)
        (if-either (λ (d : Decoded Json). IsDefined d) (type == 2)
          (then_encode-IsDefined process_exit_payload process_exit_event buf size h)
          (if-either (λ (d : Decoded Json). IsDefined d) (type == 3)
            (then_encode-IsDefined (image_load_payload look) image_load_event buf size h)
            (if-either (λ (d : Decoded Json). IsDefined d) (type == 4)
              (then_encode-IsDefined (registry_payload look) registry_event buf size h)
              (if-either (λ (d : Decoded Json). IsDefined d) (type == 5)
                (then_encode-IsDefined thread_create_payload thread_create_event buf size h)
                (if-either (λ (d : Decoded Json). IsDefined d) (type == 6)
                  (then_encode-IsDefined thread_exit_payload thread_exit_event buf size h)
                  (if-either (λ (d : Decoded Json). IsDefined d) (type == 7)
                    {y = decoded (
                      object (
                        member (codes "type") (number type)
                          (member (codes "size") (number size) no_member)))}
                    (then_encode-IsDefined handle_access_payload process_handle_access_event buf
                      size h)
                    tt))))))

  with_header-IsDefined :
      (h : List FieldValue) (d : Decoded Json) → IsDefined d → IsDefined (with_header look h d)
  unfolding with_header
  with_header-IsDefined h malformed k = tt
  with_header-IsDefined h undefined_read k = k
  with_header-IsDefined h (decoded j) k = tt

  decode_with-IsDefined : (h : List FieldValue) (buf : List ℕ) → IsDefined (decode_with look h buf)
  unfolding decode_with
  decode_with-IsDefined h buf =
      if-either (λ (d : Decoded DecodedKernel). IsDefined d) (value_at 0 h == event_version)
        {y = malformed}
        (if-cases (λ (d : Decoded DecodedKernel). IsDefined d) (ltb (length buf) (value_at 3 h))
          {x = malformed} (λ e. tt)
          (λ e.
            with_header-IsDefined h (encode_event look (value_at 1 h) buf (value_at 3 h))
              (encode_event-IsDefined (value_at 1 h) buf (value_at 3 h) (ground arith))))
        tt

  -- Whatever bytes the driver delivers, the decoding of the event reads none behind their end.
  pub decode_kernel_event-IsDefined : (buf : List ℕ) → IsDefined (decode_kernel_event look buf)
  unfolding decode_kernel_event
  decode_kernel_event-IsDefined buf =
      if-cases (λ (d : Decoded DecodedKernel). IsDefined d)
        (ltb (length buf) (size_of event_header)) {x = malformed} (λ e. tt)
        (λ e.
          read-IsDefined (λ h. decode_with look h buf) (read_unaligned event_header buf)
            (read_fields event_header buf) (read_unaligned-some event_header buf (ground arith))
            (decode_with-IsDefined (read_fields event_header buf) buf))
