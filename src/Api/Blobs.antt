-- ===== src/Api/Blobs.antt =====
-- The responses to a request for an attachment: src/localmail/serve/routes/blob_response.py and
-- attachments.py, with src/localmail/api/conditional.py. A file is the list of its bytes, headers
-- on its name and type are left out, and so are errors of reading it and the probe for more of it.
pub mod Stream
pub mod Served
use localmail.Api.Ranges.{
  full, partial, unsatisfiable, Field, ByteRange, RangeResult, parse_byte_range,
}
use localmail.Common.{
  ltb, min, if◌then◌else◌, ◌==◌, ◌-◌, ◌+◌, ℕ, suc, zero, Bool, true, false, not, ◌&&◌, ◌||◌, Option,
  none, some, List, [], ◌∷◌, ◌++◌,
}
use localmail.Common.Lists.{take, drop, length}
use localmail.Query.Text.{Text, text_eq, is_empty, is_space, strip}
use localmail.Common.Int.{ℤ}
use localmail.Api.Ranges.Header.{range_fields}

abbrev pub etag_for_sha256 : Text → Text
etag_for_sha256 sha256_hex = b'"' ∷ sha256_hex ++ b'"' ∷ []

-- `_strip_weak`
abbrev pub strip_weak : Text → Text
strip_weak [] = []
strip_weak (c ∷ []) = c ∷ []
strip_weak (c ∷ d ∷ token) = if c == b'W' && d == b'/' then token else c ∷ d ∷ token

abbrev pub cons_first : ℕ → List Text → List Text
cons_first c [] = (c ∷ []) ∷ []
cons_first c (token ∷ tokens) = (c ∷ token) ∷ tokens

-- str.split(",")
abbrev pub split_commas : Text → List Text
split_commas [] = [] ∷ []
split_commas (c ∷ s) =
    let rest = split_commas s in if c == b',' then [] ∷ rest else cons_first c rest

abbrev pub filled_tags : List Text → List Text
filled_tags [] = []
filled_tags (token ∷ tokens) =
    if is_empty (strip is_space token)
    then filled_tags tokens
    else strip is_space token ∷ filled_tags tokens

-- `_split_etag_list`
unfoldable pub split_etag_list : Text → List Text
split_etag_list header = filled_tags (split_commas header)

abbrev pub tag_matches : Text → List Text → Bool
tag_matches target [] = false
tag_matches target (token ∷ tokens) =
    text_eq token (b'*' ∷ []) || text_eq (strip_weak token) target || tag_matches target tokens

-- A header that is empty splits into no tags.
unfoldable pub if_none_match_satisfies : Option Text → Text → Bool
if_none_match_satisfies none etag = false
if_none_match_satisfies (some header) etag =
    if is_empty header then false else tag_matches (strip_weak etag) (split_etag_list header)

abbrev pub starts_with_quote : Text → Bool
starts_with_quote [] = false
starts_with_quote (c ∷ s) = c == b'"'

unfoldable pub if_range_allows_partial : Option Text → Text → Bool
if_range_allows_partial none etag = true
if_range_allows_partial (some header) etag =
    if not (starts_with_quote (strip is_space header))
    then false
    else text_eq (strip is_space header) etag

-- What is sent of a file, and whether a truncation is logged.
abbrev pub Streamed : Type 0
Streamed = List ℕ × Bool

-- `_CHUNK`
abbrev pub chunk_size : ℕ
chunk_size = 65536

-- One turn of the loop, where `left` bytes are still to be sent and a read gives `chunk`.
abbrev pub on_chunk : ℕ → List ℕ → Streamed → Streamed
on_chunk left chunk (sent, truncated) =
    if ltb 0 left
    then if is_empty chunk then ([], true) else (chunk ++ sent, truncated)
    else ([], false)

-- The loop of `_stream_slice` from a position on, of which `unread` is what the file has. `left` is
-- `length - sent`; fuel bounds the reads.
unfoldable pub stream_from : ℕ → List ℕ → ℕ → Streamed
stream_from zero unread left = ([], false)
stream_from (suc fuel) unread left =
    let chunk = take (min chunk_size left) unread in
    on_chunk left chunk (stream_from fuel (drop (min chunk_size left) unread) (left - length chunk))

-- `_stream_slice`, each read of which is of one byte at least
unfoldable pub stream_slice : List ℕ → ℕ → ℕ → Streamed
stream_slice file start length = stream_from length (drop start file) length

abbrev pub range_length : ByteRange → ℕ
range_length r = r.end - r.start + 1

-- 304; 416 with its Content-Range; 206 and 200 with the Content-Length and what is sent.
pub data BlobResponse : Type 0 where
  unmodified : BlobResponse
  refused_range : ℕ → BlobResponse
  part_sent : ByteRange → ℕ → Streamed → BlobResponse
  whole_sent : ℕ → Streamed → BlobResponse

-- `range_header`, which a failed If-Range unsets
abbrev pub honoured_range : Option Text → Option Text → Text → Option Text
honoured_range none if_range etag = none
honoured_range (some header) if_range etag =
    if not (if_range_allows_partial if_range etag) then none else some header

abbrev pub respond : ℕ → List ℕ → RangeResult → BlobResponse
respond size file unsatisfiable = refused_range size
respond size file full = whole_sent size (stream_slice file 0 size)
respond size file (partial r) =
    part_sent r (range_length r) (stream_slice file r.start (range_length r))

module _ (int : Text → Option ℤ) where
  unfoldable pub blob_response : Option Text → Option Text → Text → ℕ → List ℕ → BlobResponse
  blob_response range if_range sha256 size file =
      let header = honoured_range range if_range (etag_for_sha256 sha256) in
      respond size file (parse_byte_range (range_fields int header) size)

  -- The handler, once the user may read the attachment.
  unfoldable pub stream_blob :
      Option Text → Option Text → Option Text → Text → ℕ → List ℕ → BlobResponse
  stream_blob if_none_match range if_range sha256 size file =
      if if_none_match_satisfies if_none_match (etag_for_sha256 sha256)
      then unmodified
      else blob_response range if_range sha256 size file
