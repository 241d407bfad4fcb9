-- ===== src/Transport/Exchange.antt =====
-- `BoundedTransport.handle_async_request` and the end of a `LimitedStream` in
-- jobhound/bounded_transport.py. What the waits come to and the clocks before and after them are
-- arguments; bookkeeping that fails writes nothing more, and the gates are released all the same.
use job_hound.Base.{
  ℕ, zero, suc, ◌+◌, ◌-◌, ◌==◌, Bool, true, false, String, Option, none, some, List, if◌then◌else◌,
}
use job_hound.Base.Results.{Attempt, ok, err}
use job_hound.Source.Rows.{Ledger, RunBudget, SourceInspection, Request, Deferred, AttemptState}
use job_hound.Source.Requests.{RetryAfter, remaining, reserve, finish_attempt, cooldown}
use job_hound.Transport.Stream.{Bytes, Zlib, Encoding, Feed, Ended, iterate}

-- The values of the two semaphores, and the shared tables.
pub record Wire : Type 0 where
  pub gate : ℕ
  pub host_gate : ℕ
  pub ledger : Ledger

-- What the two acquisitions come to within the remaining time: both gates are had, the first is not had
-- in time, or the first is had and the second is not.
pub data Admission : Type 0 where
  both gate_timeout host_timeout : Admission

-- What the inner transport returns, or the name of what it or the bookkeeping after it raises.
pub data Reply : Type 0 where
  answered : ℕ → RetryAfter → Encoding → Reply
  raised : String → Reply

-- The part of `LimitedStream` that changes.
pub record Stream : Type 0 where
  pub attempt : ℕ
  pub encoding : Encoding
  pub closed : Bool
  pub finished : Bool

pub data Handled : Type 0 where
  response : ℕ → Stream → Handled
  deferred : Deferred → Handled
  failed : String → Handled

-- `budget.gate.acquire()`
unfoldable pub acquire_gate : Wire → Wire
acquire_gate w = record w { gate = w.gate - 1 }

-- `budget.gate.release()`
unfoldable pub release_gate : Wire → Wire
release_gate w = record w { gate = w.gate + 1 }

-- `host_gate.acquire()`
unfoldable pub acquire_host : Wire → Wire
acquire_host w = record w { host_gate = w.host_gate - 1 }

-- `host_gate.release()` and `budget.gate.release()`
unfoldable pub release : Wire → Wire
unfolding release_gate
release w = release_gate (record w { host_gate = w.host_gate + 1 })

-- `budget.finish`, where the bookkeeping works
unfoldable pub note_attempt : Bool → ℕ → AttemptState → Option String → Wire → Wire
unfolding finish_attempt
note_attempt books id state code w =
    if books then record w { ledger = finish_attempt id state code w.ledger } else w

-- The second `try` and its `except`, by the name of what SQLite raises in the reservation, and by what the
-- reservation comes to otherwise. A failure carries the name of what the `except` has caught.
unfoldable pub answer :
    (String → String)
    → Request
    → Reply
    → Bool
    → ℕ
    → Wire
    → Option String
    → Attempt Deferred (ℕ × Ledger)
    → Handled × Wire
unfolding cooldown note_attempt release
answer digest req reply books wall w (some e) a = (Handled.failed e, release w)
answer digest req reply books wall w none (err e) = (Handled.deferred e, release w)
answer digest req (Reply.answered status retry encoding) books wall w none (ok (id, l)) = (
  Handled.response status
      (record { attempt = id; encoding = encoding; closed = false; finished = false }),
  record w { ledger = cooldown digest req status retry wall l },
)
answer digest req (Reply.raised e) books wall w none (ok (id, l)) = (
  Handled.failed e,
  release (note_attempt books id AttemptState.interrupted (some e) (record w { ledger = l })),
)

-- What follows the test of the remaining time. The waits may take long: what is reserved depends on the
-- clocks after them.
unfoldable pub admit :
    (String → String)
    → RunBudget
    → Option SourceInspection
    → Request
    → Admission
    → Option String
    → Reply
    → Bool
    → ℕ
    → ℕ
    → Wire
    → Handled × Wire
unfolding answer reserve acquire_gate acquire_host release_gate
admit digest b sc req Admission.gate_timeout fault reply books wall mono w =
    (Handled.deferred Deferred.time_budget_exhausted, w)
admit digest b sc req Admission.host_timeout fault reply books wall mono w =
    (Handled.deferred Deferred.time_budget_exhausted, release_gate (acquire_gate w))
admit digest b sc req Admission.both fault reply books wall mono w =
    answer digest req reply books wall (acquire_host (acquire_gate w)) fault
      (reserve digest b sc req wall mono w.ledger)

-- The wall and the monotonic clock.
abbrev pub Clocks : Type 0
Clocks = ℕ × ℕ

-- `handle_async_request`
unfoldable pub handle :
    (String → String)
    → RunBudget
    → Option SourceInspection
    → Request
    → Admission
    → Option String
    → Reply
    → Bool
    → Clocks
    → Clocks
    → Wire
    → Handled × Wire
unfolding admit remaining
handle digest b sc req adm fault reply books (wall, mono) (wall', mono') w =
    if remaining b wall mono == 0
    then (Handled.deferred Deferred.time_budget_exhausted, w)
    else admit digest b sc req adm fault reply books wall' mono' w

-- `LimitedStream.aclose`
unfoldable pub aclose : Bool → Stream → Wire → Stream × Wire
unfolding note_attempt release
aclose books s w = if s.closed then (s, w) else (
  record s { closed = true },
  release (
      if s.finished
      then w
      else note_attempt books s.attempt AttemptState.interrupted (some "body_not_completed") w),
)

-- The code under which an iteration that broke off is booked: the name of what was raised.
unfoldable pub code_of : Ended → String
code_of Ended.complete = ""
code_of Ended.wire_size_limit = "ReadError"
code_of Ended.decoded_size_limit = "ReadError"
code_of Ended.trailing_data = "DecodingError"
code_of Ended.truncated_body = "DecodingError"
code_of Ended.unsupported_encoding = "DecodingError"
code_of Ended.invalid_body = "error"
code_of Ended.request_deadline = "request_deadline"
code_of Ended.abandoned = "GeneratorExit"
code_of (Ended.broken e) = e

abbrev pub is_complete : Ended → Bool
is_complete Ended.complete = true
is_complete _ = false

-- The bookkeeping at the end of an iteration, before it closes the stream.
unfoldable pub settle_stream : Bool → Ended → Stream → Wire → Stream × Wire
unfolding note_attempt code_of
settle_stream books e s w =
    if is_complete e
    then (record s { finished = true }, note_attempt books s.attempt AttemptState.complete none w)
    else (s, note_attempt books s.attempt AttemptState.interrupted (some (code_of e)) w)

-- `__aiter__` to its end
unfoldable pub consume :
    {S : Type 0} → Zlib S → RunBudget → Bool → Feed → Stream → Wire → List Bytes × Stream × Wire
unfolding settle_stream aclose iterate
consume z b books f s w =
    let (out, ended) = iterate z b.limits s.encoding f in
    let (s', w') = settle_stream books ended s w in
    let (s'', w'') = aclose books s' w' in (out, s'', w'')

-- Further calls of aclose.
unfoldable pub close_again : Bool → ℕ → Stream → Wire → Stream × Wire
unfolding aclose
close_again books zero s w = (s, w)
close_again books (suc n) s w = let (s', w') = aclose books s w in close_again books n s' w'
