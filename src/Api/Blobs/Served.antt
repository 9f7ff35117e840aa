-- ===== src/Api/Blobs/Served.antt =====
-- What a response of src/localmail/serve/routes/blob_response.py gives of an attachment.
use localmail.Api.Ranges.{
  full, partial, unsatisfiable, Field, RangeResult, asks_for, is_no_range, covers, Answers,
  parse_byte_range, parse_byte_range-Answers,
}
use localmail.Common.{
  ltb, if◌then◌else◌, ◌<◌, ◌+◌, ℕ, ◌≡◌, refl, Bool, true, false, not, ◌&&◌, Option, none, some,
  List, [], ◌∷◌, ◌++◌, arith, suc,
}
use localmail.Common.Lists.{drop}
use localmail.Query.Text.{Text, text_eq, is_space, strip}
use localmail.Api.Blobs.{
  starts_with_quote, if_range_allows_partial, BlobResponse, respond, stream_blob, etag_for_sha256,
  blob_response, refused_range, range_length, if_none_match_satisfies, part_sent, whole_sent,
  unmodified, range_fields, ℤ,
}
use localmail.Api.Blobs.Stream.{stream_slice-next_bytes, next_bytes}
use localmail.Api.Ranges.Header.{range_fields}
use localmail.Common.Int.{ℤ}

-- The client names the representation that it has a part of, if any, by its strong tag.
abbrev pub is_current : Option Text → Text → Bool
is_current none etag = true
is_current (some header) etag = text_eq (strip is_space header) etag

quoted_start : (s t : Text) → text_eq s (b'"' ∷ t) ≡ true → starts_with_quote s ≡ true
quoted_start [] t h = absurd (cc h)
quoted_start (c ∷ s) t h = ground arith

-- No weak tag and no date is taken for the strong tag.
if_range_allows_partial-is_current :
    (if_range : Option Text) (sha256 : Text)
    → if_range_allows_partial if_range (etag_for_sha256 sha256)
      ≡ is_current if_range (etag_for_sha256 sha256)
unfolding if_range_allows_partial
if_range_allows_partial-is_current none sha256 = refl
if_range_allows_partial-is_current (some header) sha256 =
    ground (arith, quoted_start (strip is_space header) (sha256 ++ b'"' ∷ []))

-- What a response says of byte `i`, where the Range header has the fields `s` and `e`, `current` is
-- whether If-Range lets it count, and `cached` whether If-None-Match names the tag.
abbrev pub Serves : Bool → Bool → Field → Field → ℕ → List ℕ → ℕ → BlobResponse → Type 0
Serves cached current s e size file i unmodified = cached ≡ true
Serves cached current s e size file i (refused_range n) =
    (cached ≡ false) × (current ≡ true) × (n ≡ size) × ((asks_for s e size i && ltb i size) ≡ false)
Serves cached current s e size file i (part_sent r n sent) =
    (cached ≡ false)
    × (current ≡ true)
    × (r.start + n ≡ suc r.end)
    × (r.end < size)
    × (covers r i ≡ (asks_for s e size i && ltb i size))
    × (sent ≡ next_bytes n (drop r.start file))
Serves cached current s e size file i (whole_sent n sent) =
    (cached ≡ false)
    × ((current && not (is_no_range s e)) ≡ false)
    × (n ≡ size)
    × (sent ≡ next_bytes size file)

respond-Serves :
    (s e : Field) (size : ℕ) (file : List ℕ) (i : ℕ) (r : RangeResult)
    → Answers s e size i r
    → Serves false true s e size file i (respond size file r)
respond-Serves s e size file i full h =
    (refl, ground arith, refl, stream_slice-next_bytes file 0 size)
respond-Serves s e size file i unsatisfiable h = (refl, refl, refl, h)
respond-Serves s e size file i (partial r) (ordered, inside, exact) =
    (refl, refl, omega arith, inside, exact, stream_slice-next_bytes file r.start (range_length r))

unsent-Serves :
    (int : Text → Option ℤ) (s e : Field) (size : ℕ) (file : List ℕ) (i : ℕ)
    → Serves false false s e size file i
        (respond size file (parse_byte_range (range_fields int none) size))
unfolding parse_byte_range range_fields
unsent-Serves int s e size file i = (refl, refl, refl, stream_slice-next_bytes file 0 size)

module _ (int : Text → Option ℤ) where
  -- `allowed` is what if_range_allows_partial says.
  response-Serves :
      (cached allowed current : Bool) (header : Text) (s e : Field) (size : ℕ) (file : List ℕ)
      (i : ℕ)
      → range_fields int (some header) ≡ some (s, e)
      → allowed ≡ current
      → Serves cached current s e size file i (
          if cached
          then unmodified
          else respond size file (
              parse_byte_range (range_fields int (if not allowed then none else some header)) size))
  response-Serves true allowed current header s e size file i cut same = refl
  response-Serves false true true header s e size file i cut same = rw cut (
      respond-Serves s e size file i (parse_byte_range (some (s, e)) size)
        (parse_byte_range-Answers s e size i))
  response-Serves false false false header s e size file i cut same =
      unsent-Serves int s e size file i
  response-Serves false true false header s e size file i cut same = absurd (cc same)
  response-Serves false false true header s e size file i cut same = absurd (cc same)

  -- The answer to a request with a Range header of one range is the right one for every byte of the attachment. A
  -- part is sent only where If-Range names no other representation, has a byte exactly where the header
  -- asks for it and the attachment has it, and its Content-Length is its number of bytes; 416 means that the
  -- header asks for no byte that there is; the whole is sent only where the fields are no range or
  -- If-Range names something else. What is streamed is the bytes of the file in that range, all of them
  -- unless a truncation is logged, which is exactly where the file is shorter than it says.
  pub stream_blob-Serves :
      (if_none_match if_range : Option Text) (header sha256 : Text) (s e : Field) (size : ℕ)
      (file : List ℕ) (i : ℕ)
      → range_fields int (some header) ≡ some (s, e)
      → Serves
          (if_none_match_satisfies if_none_match (etag_for_sha256 sha256))
          (is_current if_range (etag_for_sha256 sha256))
          s
          e
          size
          file
          i
          (stream_blob int if_none_match (some header) if_range sha256 size file)
  unfolding stream_blob blob_response
  stream_blob-Serves if_none_match if_range header sha256 s e size file i cut =
      response-Serves (if_none_match_satisfies if_none_match (etag_for_sha256 sha256))
        (if_range_allows_partial if_range (etag_for_sha256 sha256))
        (is_current if_range (etag_for_sha256 sha256)) header s e size file i cut
        (if_range_allows_partial-is_current if_range sha256)
