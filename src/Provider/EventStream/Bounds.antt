-- ===== src/Provider/EventStream/Bounds.antt =====
-- No body makes the frame walk of bedrock.go slice out of range or run forever.
use majordomo_steward.Prelude.{
  ℕ, zero, suc, ◌+◌, ◌-◌, ◌≤◌, ◌<◌, Str, Option, none, ◌≡◌, inl, inr, arith, ◌&&◌, ltb, leb, length,
  drop, take, Bool-cases, Result, ok, err, panic, out_of_fuel, Returns, ◌>>=◌,
}
use majordomo_steward.Provider.EventStream.{
  BedrockUsage, FrameError, slice, be32-lt, u32_mod, read_payload, read_frame, read_frames,
  metrics_of, parse_event_stream_response,
}

slice_in_range :
    (body : Str) (lo hi : ℕ)
    → lo ≤ hi
    → hi ≤ length body
    → slice body lo hi ≡ ok (take (hi - lo) (drop lo body))
unfolding slice
slice_in_range body lo hi h k = ground arith

module _ (unmarshal : Str → Option BedrockUsage) where
  -- What a round may do: fail with an error, or move on by at least sixteen bytes within the body.
  abbrev Moves : ℕ → ℕ → Result FrameError (Option BedrockUsage × ℕ) → Type 0
  Moves offset len (ok next) = (offset < next.1) × (next.1 ≤ len)
  Moves offset len (err e) = Unit
  Moves offset len panic = ⊥
  Moves offset len out_of_fuel = ⊥

  read_payload-Moves :
      (body : Str) (offset : ℕ) (found : Option BedrockUsage) (total headers : ℕ)
      → offset < length body
      → total < u32_mod
      → Moves offset (length body) (read_payload unmarshal body offset found total headers)
  unfolding read_payload
  read_payload-Moves body offset found total headers h k =
      ground (arith, slice_in_range body (offset + 12 + headers) (offset + total - 4))

  read_frame-Moves :
      (body : Str) (offset : ℕ) (found : Option BedrockUsage)
      → offset < length body
      → 12 ≤ length body - offset
      → Moves offset (length body) (read_frame unmarshal body offset found)
  unfolding read_frame
  read_frame-Moves body offset found h k =
      rw (slice_in_range body offset (offset + 4) (omega arith) (omega arith), read_frame)
        (rw (slice_in_range body (offset + 4) (offset + 8) (omega arith) (omega arith))
          (read_payload-Moves body offset found _ _ h (be32-lt _)))

  -- Fuel above the bytes that are left is enough, and the walk neither panics nor runs out.
  read_frames-Returns :
      (fuel : ℕ) (body : Str) (offset : ℕ) (found : Option BedrockUsage)
      → length body - offset < fuel
      → Returns (read_frames unmarshal fuel body offset found)
  unfolding read_frames
  read_frames-Returns zero body offset found h = elim h [ ]
  read_frames-Returns (suc fuel) body offset found h =
      elim (Bool-cases (ltb offset (length body) && leb 12 (length body - offset))) [
        | inr done ↦ rw (done, Returns) tt
        | inl more ↦
            rw (more, Returns)
              (next (λ n l. read_frames-Returns fuel body n.1 n.0 l)
                (read_frame unmarshal body offset found)
                (read_frame-Moves body offset found (ground arith) (ground arith)))
      ]
    where
      next :
          ((n : Option BedrockUsage × ℕ)
            → length body - n.1 < fuel
            → Returns (read_frames unmarshal fuel body n.1 n.0))
          → (r : Result FrameError (Option BedrockUsage × ℕ)) → Moves offset (length body) r
          → Returns (r >>= λ n. read_frames unmarshal fuel body n.1 n.0)
      next rest (ok n) m = rest n (omega arith)
      next rest (err e) m = tt
      next rest panic m = m
      next rest out_of_fuel m = m

  -- For every body: the parser returns, with metrics or with an error. It does not slice out of the
  -- bounds of the body, and the walk ends.
  pub parse_event_stream_response-Returns :
      (body : Str) → Returns (parse_event_stream_response unmarshal body)
  unfolding parse_event_stream_response
  parse_event_stream_response-Returns body =
      mapped _ (read_frames-Returns (suc (length body)) body 0 none (omega arith))
    where
      mapped :
          (r : Result FrameError (Option BedrockUsage))
          → Returns r
          → Returns (r >>= λ f. ok (metrics_of f))
      mapped (ok f) h = tt
      mapped (err e) h = tt
      mapped panic h = h
      mapped out_of_fuel h = h
