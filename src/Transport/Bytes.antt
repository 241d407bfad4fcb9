-- ===== src/Transport/Bytes.antt =====
-- The bounds on the bytes of a response.
use job_hound.Base.{
  ℕ, ◌+◌, ◌-◌, ◌≤◌, ◌≡◌, refl, inl, inr, Bool, false, Option, none, some, List, [], ◌∷◌, ltb,
  length, ◌||◌, if◌then◌else◌, arith, Bool-cases, Option-cases, or-false,
}
use job_hound.Source.Rows.{RequestLimits}
use job_hound.Transport.Stream.{Bytes, Zlib, Encoding, Feed, Ended, decode, ending, read, iterate}

-- All bytes of a list of chunks.
unfoldable pub total : List Bytes → ℕ
total [] = 0
total (c ∷ cs) = length c + total cs

-- A whole body.
unfoldable pub body : List Bytes → Feed
body [] = Feed.finished
body (c ∷ cs) = Feed.chunk c (body cs)

-- What a decoded chunk and the rest of the loop come to.
abbrev given : Bool → Bool → Bytes → List Bytes × Ended → List Bytes × Ended
given too_large unused output more =
    if too_large
    then ([], Ended.decoded_size_limit)
    else if unused
    then ([], Ended.trailing_data)
    else (output ∷ more.0, more.1)

ltb-false : (a b : ℕ) → ltb a b ≡ false → b ≤ a
ltb-false a b h = ground arith

ltb-above : (a b : ℕ) → b ≤ a → ltb a b ≡ false
ltb-above a b h = ground arith

yielded_lem :
    (limit decoded : ℕ) (output : Bytes) (unconsumed unused : Bool) (more : List Bytes × Ended)
    → (decoded + length output ≤ limit → decoded + length output + total more.0 ≤ limit)
    → decoded ≤ limit
    → decoded
        + total (given (ltb limit (decoded + length output) || unconsumed) unused output more).0
      ≤ limit
unfolding total
yielded_lem limit decoded output unconsumed unused more rest h =
    elim (Bool-cases (ltb limit (decoded + length output) || unconsumed)) [
      | inl e ↦ rw e (omega (arith, h))
      | inr e ↦ elim (Bool-cases unused) [
        | inl f ↦ rw (e, f) (omega (arith, h))
        | inr f ↦
            let small : decoded + length output ≤ limit = ltb-false _ _ (or-false _ _ e).0 in
            rw (e, f) (omega (arith, rest small))
      ]
    ]

read-total :
    {S : Type 0} (z : Zlib S) (l : RequestLimits) (d : Option S) (f : Feed) (wire decoded : ℕ)
    → decoded ≤ l.decoded_bytes
    → decoded + total (read z l d f wire decoded).0 ≤ l.decoded_bytes
unfolding read total
read-total z l d Feed.finished wire decoded h = omega (arith, h)
read-total z l d Feed.timed_out wire decoded h = omega (arith, h)
read-total z l d Feed.abandoned wire decoded h = omega (arith, h)
read-total z l d (Feed.broken e) wire decoded h = omega (arith, h)
read-total z l d (Feed.chunk c rest) wire decoded h =
    elim (Bool-cases (ltb l.wire_bytes (wire + length c))) [
      | inl e ↦ rw e (omega (arith, h))
      | inr e ↦ elim (Option-cases (decode z d c (l.decoded_bytes - decoded + 1))) [
        | inl q ↦ rw (e, q) (omega (arith, h))
        | inr (r, q) ↦
            rw (e, q)
              (yielded_lem l.decoded_bytes decoded r.output r.has_unconsumed r.has_unused _
                (read-total z l r.decoder rest (wire + length c) (decoded + length r.output)) h)
      ]
    ]

-- Whatever is sent and whatever the decoder makes of it, what a reader is given is at most the limit of
-- decoded bytes.
pub iterate-total :
    {S : Type 0} (z : Zlib S) (l : RequestLimits) (e : Encoding) (f : Feed)
    → total (iterate z l e f).0 ≤ l.decoded_bytes
unfolding iterate total
iterate-total z l Encoding.identity f = omega (arith, read-total z l none f 0 0 (omega arith))
iterate-total z l Encoding.gzip f = omega (arith, read-total z l (some z.gzip) f 0 0 (omega arith))
iterate-total z l Encoding.deflate f =
    omega (arith, read-total z l (some z.deflate) f 0 0 (omega arith))
iterate-total z l Encoding.other f = omega arith

read-body :
    {S : Type 0} (z : Zlib S) (l : RequestLimits) (cs : List Bytes) (wire decoded : ℕ)
    → wire + total cs ≤ l.wire_bytes
    → decoded + total cs ≤ l.decoded_bytes
    → read z l none (body cs) wire decoded ≡ (cs, Ended.complete)
unfolding read body total decode ending
read-body z l [] wire decoded h g = refl
read-body z l (c ∷ cs) wire decoded h g =
    let rest =
      read-body z l cs (wire + length c) (decoded + length c) (omega (arith, h))
        (omega (arith, g)) in
    let fits = ltb-above l.wire_bytes (wire + length c) (omega (arith, h)) in
    let small = ltb-above l.decoded_bytes (decoded + length c) (omega (arith, g)) in
    rw (fits, small, rest) refl

-- A body that is sent unencoded and whole, and that stays within both limits, is handed on chunk by
-- chunk and its iteration completes.
pub iterate-body :
    {S : Type 0} (z : Zlib S) (l : RequestLimits) (cs : List Bytes)
    → total cs ≤ l.wire_bytes
    → total cs ≤ l.decoded_bytes
    → iterate z l Encoding.identity (body cs) ≡ (cs, Ended.complete)
unfolding iterate
iterate-body z l cs h g = read-body z l cs 0 0 (omega (arith, h)) (omega (arith, g))
