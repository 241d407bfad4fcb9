-- ===== src/Transport/Gates.antt =====
-- The gates of a run after a request, whatever became of it.
use job_hound.Base.{
  ℕ, zero, suc, ◌+◌, ◌-◌, ◌≤◌, ◌≡◌, refl, ap, ◌∙◌, inl, inr, Bool, true, false, String, Option,
  none, some, ◌==◌, arith, Bool-cases,
}
use job_hound.Base.Results.{Attempt, ok, err}
use job_hound.Source.Rows.{Ledger, RunBudget, SourceInspection, Request, Deferred, AttemptState}
use job_hound.Source.Requests.{remaining, reserve}
use job_hound.Transport.Stream.{Zlib, Feed, Ended, iterate}
use job_hound.Transport.Exchange.{
  Wire, Admission, Reply, Stream, Handled, release, note_attempt, answer, handle, admit, Clocks,
  acquire_gate, acquire_host, release_gate, aclose, is_complete, settle_stream, consume,
  close_again,
}

-- The client's part: it reads a response by a feed or leaves it unread, and closes it once or more.
unfoldable pub finish_response :
    {S : Type 0} → Zlib S → RunBudget → Bool → Option Feed → ℕ → Stream → Wire → Wire
unfolding consume close_again aclose
finish_response z b books none n s w = (close_again books (suc n) s w).1
finish_response z b books (some f) n s w =
    let (out, s', w') = consume z b books f s w in (close_again books n s' w').1

record HasGates (run host : ℕ) (w : Wire) : Type 0 where
  gate : w.gate ≡ run
  host_gate : w.host_gate ≡ host

note_attempt-HasGates :
    (g h : ℕ) (books : Bool) (id : ℕ) (state : AttemptState) (code : Option String) (w : Wire)
    → HasGates g h w
    → HasGates g h (note_attempt books id state code w)
unfolding note_attempt
note_attempt-HasGates g h true id state code w k = record { gate = k.gate; host_gate = k.host_gate }
note_attempt-HasGates g h false id state code w k = k

release-HasGates : (g h : ℕ) (w : Wire) → HasGates g h w → HasGates (g + 1) (h + 1) (release w)
unfolding release release_gate
release-HasGates g h w k = record {
  gate = ap (λ x. x + 1) k.gate;
  host_gate = ap (λ x. x + 1) k.host_gate;
}

-- Closing an open stream releases both gates.
aclose-HasGates :
    (g h : ℕ) (books : Bool) (s : Stream) (w : Wire)
    → s.closed ≡ false
    → HasGates g h w
    → ((aclose books s w).0.closed ≡ true) × HasGates (g + 1) (h + 1) (aclose books s w).1
unfolding aclose
aclose-HasGates g h books s w e k = elim (Bool-cases s.finished) [
  | inl f ↦ rw (e, f) (refl, release-HasGates g h w k)
  | inr f ↦
      rw (e, f) (refl, release-HasGates g h _ (note_attempt-HasGates g h books s.attempt _ _ w k))
]

-- Closing a closed one does nothing.
close_again-closed :
    (books : Bool) (n : ℕ) (s : Stream) (w : Wire)
    → s.closed ≡ true
    → (close_again books n s w).1 ≡ w
unfolding close_again aclose
close_again-closed books zero s w e = refl
close_again-closed books (suc n) s w e =
    rw e (close_again-closed books n (record s { closed = true }) w refl)

settle_stream-HasGates :
    (g h : ℕ) (books : Bool) (e : Ended) (s : Stream) (w : Wire)
    → HasGates g h w
    → ((settle_stream books e s w).0.closed ≡ s.closed) × HasGates g h (settle_stream books e s w).1
unfolding settle_stream
settle_stream-HasGates g h books e s w k = elim (Bool-cases (is_complete e)) [
  | inl f ↦ rw f (refl, note_attempt-HasGates g h books s.attempt _ _ w k)
  | inr f ↦ rw f (refl, note_attempt-HasGates g h books s.attempt _ _ w k)
]

closed_twice :
    (g h : ℕ) (books : Bool) (n : ℕ) (s : Stream) (w : Wire)
    → s.closed ≡ false
    → HasGates g h w
    → HasGates (g + 1) (h + 1) (close_again books n (aclose books s w).0 (aclose books s w).1).1
closed_twice g h books n s w e k =
    let (closed, gates) = aclose-HasGates g h books s w e k in
    rw (close_again-closed books n (aclose books s w).0 (aclose books s w).1 closed) gates

finish_response-HasGates :
    {S : Type 0} (z : Zlib S) (b : RunBudget) (g h : ℕ) (books : Bool) (feed : Option Feed) (n : ℕ)
    (s : Stream) (w : Wire)
    → s.closed ≡ false
    → HasGates g h w
    → HasGates (g + 1) (h + 1) (finish_response z b books feed n s w)
unfolding finish_response consume close_again
finish_response-HasGates z b g h books none n s w e k = closed_twice g h books n s w e k
finish_response-HasGates z b g h books (some f) n s w e k =
    let ended = (iterate z b.limits s.encoding f).1 in
    let (same, gates) = settle_stream-HasGates g h books ended s w k in
    closed_twice g h books n _ _ (same ∙ e) gates

-- What `answer` leaves: a response with an open stream, or both gates released.
HasEnded : ℕ → ℕ → Handled → Wire → Type 0
HasEnded g h (Handled.response status s) w = (s.closed ≡ false) × HasGates g h w
HasEnded g h (Handled.deferred e) w = HasGates (g + 1) (h + 1) w
HasEnded g h (Handled.failed e) w = HasGates (g + 1) (h + 1) w

answer-HasEnded :
    (digest : String → String) (req : Request) (reply : Reply) (books : Bool) (wall g h : ℕ)
    (w : Wire) (fault : Option String) (a : Attempt Deferred (ℕ × Ledger))
    → HasGates g h w
    → HasEnded g h
        (answer digest req reply books wall w fault a).0
        (answer digest req reply books wall w fault a).1
unfolding answer HasEnded
answer-HasEnded digest req reply books wall g h w (some e) a k = release-HasGates g h w k
answer-HasEnded digest req reply books wall g h w none (err e) k = release-HasGates g h w k
answer-HasEnded digest req (Reply.answered status retry encoding) books wall g h w none (ok (id, l))
      k =
    (refl, record { gate = k.gate; host_gate = k.host_gate })
answer-HasEnded digest req (Reply.raised e) books wall g h w none (ok (id, l)) k =
    release-HasGates g h _ (
      note_attempt-HasGates g h books id _ _ (record w { ledger = l })
        (record { gate = k.gate; host_gate = k.host_gate }))

-- What follows a request, by what it left.
unfoldable pub follow :
    {S : Type 0} → Zlib S → RunBudget → Bool → Option Feed → ℕ → Handled × Wire → Wire
unfolding finish_response
follow z b books feed n (Handled.response status s, w) = finish_response z b books feed n s w
follow z b books feed n (Handled.deferred e, w) = w
follow z b books feed n (Handled.failed e, w) = w

-- A request with all that follows it.
unfoldable pub exchange :
    {S : Type 0}
    → Zlib S
    → (String → String)
    → RunBudget
    → Option SourceInspection
    → Request
    → Admission
    → Option String
    → Reply
    → Bool
    → Clocks
    → Clocks
    → Option Feed
    → ℕ
    → Wire
    → Wire
unfolding handle follow
exchange z digest b sc req adm fault reply books before after feed n w =
    follow z b books feed n (handle digest b sc req adm fault reply books before after w)

follow-HasGates :
    {S : Type 0} (z : Zlib S) (b : RunBudget) (books : Bool) (feed : Option Feed) (n g h : ℕ)
    (r : Handled) (w : Wire)
    → HasEnded g h r w
    → HasGates (g + 1) (h + 1) (follow z b books feed n (r, w))
unfolding follow HasEnded
follow-HasGates z b books feed n g h (Handled.response status s) w k =
    finish_response-HasGates z b g h books feed n s w k.0 k.1
follow-HasGates z b books feed n g h (Handled.deferred e) w k = k
follow-HasGates z b books feed n g h (Handled.failed e) w k = k

back : (a : ℕ) → 1 ≤ a → a - 1 + 1 ≡ a
back a h = omega (arith, h)

-- What `admit` leaves, once followed.
admit-HasGates :
    {S : Type 0} (z : Zlib S) (digest : String → String) (b : RunBudget)
    (sc : Option SourceInspection) (req : Request) (adm : Admission) (fault : Option String)
    (reply : Reply) (books : Bool) (wall mono : ℕ) (feed : Option Feed) (n : ℕ) (w : Wire)
    → 1 ≤ w.gate
    → 1 ≤ w.host_gate
    → HasGates w.gate w.host_gate
        (follow z b books feed n (admit digest b sc req adm fault reply books wall mono w))
unfolding admit follow acquire_gate acquire_host release_gate
admit-HasGates z digest b sc req Admission.gate_timeout fault reply books wall mono feed n w g h =
    record { gate = refl; host_gate = refl }
admit-HasGates z digest b sc req Admission.host_timeout fault reply books wall mono feed n w g h =
    record { gate = back w.gate g; host_gate = refl }
admit-HasGates z digest b sc req Admission.both fault reply books wall mono feed n w g h =
    let held : Wire = acquire_host (acquire_gate w) in
    let a = reserve digest b sc req wall mono w.ledger in
    let r = answer digest req reply books wall held fault a in
    let kept = follow-HasGates z b books feed n (w.gate - 1) (w.host_gate - 1) r.0 r.1 (
      answer-HasEnded digest req reply books wall (w.gate - 1) (w.host_gate - 1) held fault a
        (record { gate = refl; host_gate = refl })) in
    record { gate = kept.gate ∙ back w.gate g; host_gate = kept.host_gate ∙ back w.host_gate h }

-- A request with no other between leaves both gates as they were, where both were free: when no time is
-- left, when the first gate or the second is not had in time, when the reservation is refused or fails,
-- when the transport raises, when bookkeeping fails, and when a response is read to its end, breaks off or
-- is abandoned (and closed again any number of times) or is never read but closed at least once. A
-- response that is neither read nor closed keeps the gates, and is not covered.
pub exchange_returns_gates :
    {S : Type 0} (z : Zlib S) (digest : String → String) (b : RunBudget)
    (sc : Option SourceInspection) (req : Request) (adm : Admission) (fault : Option String)
    (reply : Reply) (books : Bool) (before after : Clocks) (feed : Option Feed) (n : ℕ) (w : Wire)
    → 1 ≤ w.gate
    → 1 ≤ w.host_gate
    → ((exchange z digest b sc req adm fault reply books before after feed n w).gate ≡ w.gate)
      × ((exchange z digest b sc req adm fault reply books before after feed n w).host_gate
          ≡ w.host_gate)
unfolding exchange handle follow
exchange_returns_gates z digest b sc req adm fault reply books before after feed n w g h =
    elim (Bool-cases (remaining b before.0 before.1 == 0)) [
      | inl e ↦ rw e (refl, refl)
      | inr e ↦
          let kept =
            admit-HasGates z digest b sc req adm fault reply books after.0 after.1 feed n w g h in
          rw e (kept.gate, kept.host_gate)
    ]
