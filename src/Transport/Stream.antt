-- ===== src/Transport/Stream.antt =====
-- `LimitedStream.__aiter__` of jobhound/bounded_transport.py. zlib is a parameter; what the response
-- sends, and what its reader does, is a feed.
use job_hound.Base.{
  ℕ, ◌+◌, ◌-◌, Bool, false, String, Option, none, some, List, [], ◌∷◌, ltb, length, ◌||◌,
  if◌then◌else◌,
}
use job_hound.Source.Rows.{RequestLimits}

abbrev pub Bytes : Type 0
Bytes = List ℕ

-- What one call of decompress returns, with the two attributes that are read after it.
pub record Decoded (S : Type 0) : Type 0 where
  pub decoder : S
  pub output : Bytes
  pub has_unconsumed : Bool
  pub has_unused : Bool

-- zlib.decompressobj: none is a zlib.error
pub record Zlib (S : Type 0) : Type 0 where
  pub gzip : S
  pub deflate : S
  pub decompress : S → Bytes → ℕ → Option (Decoded S)
  pub is_eof : S → Bool

pub data Encoding : Type 0 where
  identity gzip deflate other : Encoding

-- The chunks of the body, then its end, the deadline, an error by its name, or a reader that leaves.
pub data Feed : Type 0 where
  chunk : Bytes → Feed → Feed
  finished timed_out abandoned : Feed
  broken : String → Feed

-- How the iteration ends.
pub data Ended : Type 0 where
  complete wire_size_limit decoded_size_limit trailing_data truncated_body : Ended
  unsupported_encoding invalid_body request_deadline abandoned : Ended
  broken : String → Ended

-- A decoder, where there is one, or the chunk itself
unfoldable pub decode : {S : Type 0} → Zlib S → Option S → Bytes → ℕ → Option (Decoded (Option S))
decode z none c most =
    some (record { decoder = none; output = c; has_unconsumed = false; has_unused = false })
decode z (some d) c most = elim (z.decompress d c most) [
  | none ↦ none
  | some r ↦ some (record {
    decoder = some r.decoder;
    output = r.output;
    has_unconsumed = r.has_unconsumed;
    has_unused = r.has_unused;
  })
]

-- `if decoder and not decoder.eof`
unfoldable pub ending : {S : Type 0} → Zlib S → Option S → Ended
ending z none = Ended.complete
ending z (some d) = if z.is_eof d then Ended.complete else Ended.truncated_body

-- The loop, with the bytes read and decoded before: the data that it yields, and how it ends.
unfoldable pub read :
    {S : Type 0} → Zlib S → RequestLimits → Option S → Feed → ℕ → ℕ → List Bytes × Ended
unfolding decode ending
read z l d Feed.finished wire decoded = ([], ending z d)
read z l d Feed.timed_out wire decoded = ([], Ended.request_deadline)
read z l d Feed.abandoned wire decoded = ([], Ended.abandoned)
read z l d (Feed.broken e) wire decoded = ([], Ended.broken e)
read z l d (Feed.chunk c rest) wire decoded =
    if ltb l.wire_bytes (wire + length c)
    then ([], Ended.wire_size_limit)
    else elim (decode z d c (l.decoded_bytes - decoded + 1)) [
      | none ↦ ([], Ended.invalid_body)
      | some r ↦
          let (more, ended) =
            read z l r.decoder rest (wire + length c) (decoded + length r.output) in
          if ltb l.decoded_bytes (decoded + length r.output) || r.has_unconsumed
          then ([], Ended.decoded_size_limit)
          else if r.has_unused
          then ([], Ended.trailing_data)
          else (r.output ∷ more, ended)
    ]

-- The iteration from its start.
unfoldable pub iterate :
    {S : Type 0} → Zlib S → RequestLimits → Encoding → Feed → List Bytes × Ended
unfolding read
iterate z l Encoding.identity f = read z l none f 0 0
iterate z l Encoding.gzip f = read z l (some z.gzip) f 0 0
iterate z l Encoding.deflate f = read z l (some z.deflate) f 0 0
iterate z l Encoding.other f = ([], Ended.unsupported_encoding)
