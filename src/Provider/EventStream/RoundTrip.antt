-- ===== src/Provider/EventStream/RoundTrip.antt =====
-- A body written as eventstream frames gives the usage of its last frame that reports tokens.
use mathlib.Core.List.{append_assoc}
use mathlib.Core.Path.{subst₂}
use majordomo_steward.Prelude.{
  ℕ, zero, suc, ◌+◌, ◌-◌, ◌/◌, ◌%◌, ◌^◌, ◌<◌, Str, Option, none, some, List, [], ◌∷◌, ◌++◌, ◌≡◌,
  refl, ap, sym, ◌∙◌, arith, true, ◌&&◌, ltb, leb, length, length-append, drop-append, take-append,
  All, ok, Bool-cases, inl, inr, if◌then◌else◌,
}
use majordomo_steward.Prelude.Int.{pos, ltb_ℤ, ◌+ℤ◌}
use majordomo_steward.Provider.EventStream.{
  BedrockUsage, slice, be32, u32_mod, take_event, read_payload, read_frame, read_frames, metrics_of,
  parse_event_stream_response,
}

-- The four bytes of a number, most significant first.
abbrev pub be32_bytes : ℕ → Str
be32_bytes n = (n / 2 ^ 24) ∷ (n / 2 ^ 16 % 256) ∷ (n / 2 ^ 8 % 256) ∷ (n % 256) ∷ []

be32-be32_bytes : (n : ℕ) → n < u32_mod → be32 (be32_bytes n) ≡ n
unfolding be32
be32-be32_bytes n h = omega arith

pub record Frame : Type 0 where
  pub prelude_crc : Str
  pub headers : Str
  pub payload : Str
  pub message_crc : Str

abbrev pub total_length : Frame → ℕ
total_length f = 16 + length f.headers + length f.payload

-- A frame as AWS writes it: both checksums have four bytes, and the length fits its field.
pub record IsFrame (f : Frame) : Type 0 where
  pub prelude_crc_size : length f.prelude_crc ≡ 4
  pub message_crc_size : length f.message_crc ≡ 4
  pub fits : total_length f < u32_mod

unfoldable pub encode : Frame → Str
encode f =
    be32_bytes (total_length f)
    ++ (be32_bytes (length f.headers)
        ++ (f.prelude_crc ++ (f.headers ++ (f.payload ++ f.message_crc))))

unfoldable pub encode_all : List Frame → Str
encode_all [] = []
encode_all (f ∷ fs) = encode f ++ encode_all fs

slice-middle :
    (body pre mid post : Str) (lo hi : ℕ)
    → body ≡ pre ++ (mid ++ post)
    → lo ≡ length pre
    → hi ≡ length pre + length mid
    → slice body lo hi ≡ ok mid
unfolding slice
slice-middle body pre mid post lo hi e l h =
    let k : length pre + length mid - length pre ≡ length mid = omega arith in
    rw (e, l, h, drop-append pre (mid ++ post), k, take-append mid post)
      (ground (arith, length-append pre (mid ++ post), length-append mid post))

length-encode : (f : Frame) → IsFrame f → length (encode f) ≡ total_length f
unfolding encode
length-encode f v = omega (
  arith,
  length-append f.prelude_crc (f.headers ++ (f.payload ++ f.message_crc)),
  length-append f.headers (f.payload ++ f.message_crc),
  length-append f.payload f.message_crc,
)

-- The six parts of a frame between what stands before and after it, and the slices that take
-- the first, the second and the fifth.
module _ (pre a b c d e g post body : Str)
    (eq : body ≡ pre ++ ((a ++ (b ++ (c ++ (d ++ (e ++ g))))) ++ post)) where
  first_slice : slice body (length pre) (length pre + length a) ≡ ok a
  first_slice =
      slice-middle body pre a ((b ++ (c ++ (d ++ (e ++ g)))) ++ post) _ _ (eq ∙ simp append_assoc)
        refl refl

  second_slice : slice body (length pre + length a) (length pre + length a + length b) ≡ ok b
  second_slice =
      slice-middle body (pre ++ a) b ((c ++ (d ++ (e ++ g))) ++ post) _ _ (eq ∙ simp append_assoc)
        (omega (arith, length-append pre a)) (omega (arith, length-append pre a))

  fifth_slice :
      slice body
        (length pre + length a + length b + length c + length d)
        (length pre + length a + length b + length c + length d + length e)
      ≡ ok e
  fifth_slice =
      slice-middle body (((pre ++ a) ++ b) ++ (c ++ d)) e (g ++ post) _ _ (eq ∙ simp append_assoc)
        (omega (arith, sizes)) (omega (arith, sizes))
    where
      sizes :
          length (((pre ++ a) ++ b) ++ (c ++ d))
          ≡ length pre + length a + length b + length c + length d
      sizes = omega (
        arith,
        length-append ((pre ++ a) ++ b) (c ++ d),
        length-append (pre ++ a) b,
        length-append pre a,
        length-append c d,
      )

module _ (body pre post : Str) (f : Frame) (v : IsFrame f)
    (eq : body ≡ pre ++ (encode f ++ post)) where
  abbrev total_bytes : Str
  total_bytes = be32_bytes (total_length f)

  abbrev headers_bytes : Str
  headers_bytes = be32_bytes (length f.headers)

  first_length : slice body (length pre) (length pre + 4) ≡ ok (be32_bytes (total_length f))
  unfolding encode
  first_length =
      first_slice pre total_bytes headers_bytes f.prelude_crc f.headers f.payload f.message_crc post
        body eq

  second_length : slice body (length pre + 4) (length pre + 8) ≡ ok (be32_bytes (length f.headers))
  unfolding encode
  second_length =
      let e : length pre + 8 ≡ length pre + 4 + 4 = omega arith in
      rw e (
        second_slice pre total_bytes headers_bytes f.prelude_crc f.headers f.payload f.message_crc
          post body eq)

  payload :
      slice body (length pre + 12 + length f.headers) (length pre + total_length f - 4)
      ≡ ok f.payload
  unfolding encode
  payload =
      let lo : length pre + 12 + length f.headers
          ≡ length pre + 4 + 4 + length f.prelude_crc + length f.headers =
        omega (arith, v.prelude_crc_size) in
      let hi : length pre + total_length f - 4
          ≡ length pre + 4 + 4 + length f.prelude_crc + length f.headers + length f.payload =
        omega (arith, v.prelude_crc_size) in
      subst₂ (λ l h. slice body l h ≡ ok f.payload) (sym lo) (sym hi)
        (fifth_slice pre total_bytes headers_bytes f.prelude_crc f.headers f.payload f.message_crc
          post body eq)

module _ (unmarshal : Str → Option BedrockUsage) where
  -- A frame's lengths pass the tests, and its payload is what the slice takes.
  read_payload-encode :
      (body pre post : Str) (f : Frame) (found : Option BedrockUsage)
      → IsFrame f
      → body ≡ pre ++ (encode f ++ post)
      → read_payload unmarshal body (length pre) found (total_length f) (length f.headers)
        ≡ ok (take_event (unmarshal f.payload) found, length pre + total_length f)
  unfolding read_payload
  read_payload-encode body pre post f found v e = ground (
    arith,
    ap length e,
    payload body pre post f v e,
    length-append pre (encode f ++ post),
    length-append (encode f) post,
    length-encode f v,
  )

  read_frame-encode :
      (body pre post : Str) (f : Frame) (found : Option BedrockUsage)
      → IsFrame f
      → body ≡ pre ++ (encode f ++ post)
      → read_frame unmarshal body (length pre) found
        ≡ ok (take_event (unmarshal f.payload) found, length pre + total_length f)
  unfolding read_frame
  read_frame-encode body pre post f found v e =
      rw (first_length body pre post f v e, read_frame)
        (rw (second_length body pre post f v e, read_frame)
          (rw (be32-be32_bytes _ v.fits, be32-be32_bytes (length f.headers) (omega (arith, v.fits)))
            (read_payload-encode body pre post f found v e)))

  -- A usage that reports tokens.
  abbrev pub with_tokens : Option BedrockUsage → Option BedrockUsage
  with_tokens none = none
  with_tokens (some u) = if ltb_ℤ (pos 0) (u.input_tokens +ℤ u.output_tokens) then some u else none

  -- The usage of the first frame, unless a later one has a usage.
  abbrev pub unless_later : Option BedrockUsage → Option BedrockUsage → Option BedrockUsage
  unless_later first none = first
  unless_later first (some u) = some u

  -- The usage of the last frame whose payload decodes to one with tokens.
  abbrev pub last_usage : List Frame → Option BedrockUsage
  last_usage [] = none
  last_usage (f ∷ fs) = unless_later (with_tokens (unmarshal f.payload)) (last_usage fs)

  -- What the loop has found after some frames.
  abbrev found_after : Option BedrockUsage → List Frame → Option BedrockUsage
  found_after found [] = found
  found_after found (f ∷ fs) = found_after (take_event (unmarshal f.payload) found) fs

  take_event_lem :
      (found event : Option BedrockUsage)
      → take_event event found ≡ unless_later found (with_tokens event)
  unfolding take_event
  take_event_lem found none = refl
  take_event_lem found (some u) =
      elim (Bool-cases (ltb_ℤ (pos 0) (u.input_tokens +ℤ u.output_tokens))) [
        | inl tokens ↦ rw tokens refl
        | inr nothing ↦ rw nothing refl
      ]

  unless_later_assoc :
      (x y z : Option BedrockUsage)
      → unless_later (unless_later x y) z ≡ unless_later x (unless_later y z)
  unless_later_assoc x y none = refl
  unless_later_assoc x y (some u) = refl

  found_after-last_usage :
      (found : Option BedrockUsage) (fs : List Frame)
      → found_after found fs ≡ unless_later found (last_usage fs)
  found_after-last_usage found [] = refl
  found_after-last_usage found (f ∷ fs) =
      found_after-last_usage (take_event (unmarshal f.payload) found) fs
      ∙ ap (λ o. unless_later o (last_usage fs)) (take_event_lem found (unmarshal f.payload))
      ∙ unless_later_assoc found (with_tokens (unmarshal f.payload)) (last_usage fs)

  unless_later-none : (o : Option BedrockUsage) → unless_later none o ≡ o
  unless_later-none none = refl
  unless_later-none (some u) = refl

  read_frames-encode :
      (fuel : ℕ) (pre post : Str) (fs : List Frame) (found : Option BedrockUsage)
      → All IsFrame fs
      → length post < 12
      → length (encode_all fs ++ post) < fuel
      → read_frames unmarshal fuel (pre ++ (encode_all fs ++ post)) (length pre) found
        ≡ ok (found_after found fs)
  unfolding read_frames encode_all
  read_frames-encode zero pre post fs found v t h = elim h [ ]
  read_frames-encode (suc fuel) pre post [] found v t h = ground (arith, length-append pre post)
  read_frames-encode (suc fuel) pre post (f ∷ fs) found v t h =
      rw (append_assoc (encode f) (encode_all fs) post) (
        rw (more, read_frames)
          (rw (read_frame-encode _ pre rest f found v.0 refl) (
            rw (sym (append_assoc pre (encode f) rest), at_end)
              (read_frames-encode fuel (pre ++ encode f) post fs _ v.1 t (omega (arith, sizes))))))
    where
      rest : Str
      rest = encode_all fs ++ post

      sizes : length ((encode f ++ encode_all fs) ++ post) ≡ total_length f + length rest
      sizes =
          rw (append_assoc (encode f) (encode_all fs) post)
            (omega (arith, length-append (encode f) rest, length-encode f v.0))

      more :
          (ltb (length pre) (length (pre ++ (encode f ++ rest)))
            && leb 12 (length (pre ++ (encode f ++ rest)) - length pre))
          ≡ true
      more = ground (
        arith,
        length-append pre (encode f ++ rest),
        length-append (encode f) rest,
        length-encode f v.0,
      )

      at_end : length pre + total_length f ≡ length (pre ++ encode f)
      at_end = omega (arith, length-append pre (encode f), length-encode f v.0)

  -- For every list of well-formed frames and fewer than twelve bytes after them: the parser returns
  -- the metrics of the last frame whose payload decodes to a usage with tokens, and empty metrics if
  -- there is none.
  pub parse-encode_all :
      (fs : List Frame) (post : Str)
      → All IsFrame fs
      → length post < 12
      → parse_event_stream_response unmarshal (encode_all fs ++ post)
        ≡ ok (metrics_of (last_usage fs))
  unfolding parse_event_stream_response
  parse-encode_all fs post v t =
      rw
        (read_frames-encode (suc (length (encode_all fs ++ post))) [] post fs none v t
          (omega arith))
        (ap (λ o. ok (metrics_of o))
          (found_after-last_usage none fs ∙ unless_later-none (last_usage fs)))
