-- ===== src/Transport/Examples.antt =====
-- A request under a small budget, with a decoder that doubles what it is given.
use job_hound.Base.{
  ℕ, ◌≤◌, ◌≡◌, refl, true, false, String, none, some, List, [], ◌∷◌, ◌++◌, take, arith,
}
use job_hound.Source.Rows.{RequestLimits, RunBudget, Request}
use job_hound.Source.Requests.{RetryAfter}
use job_hound.Transport.Stream.{Bytes, Zlib, Encoding, Ended, iterate}
use job_hound.Transport.Exchange.{Wire, Admission, Reply}
use job_hound.Transport.Bytes.{total, body, iterate-total, iterate-body}
use job_hound.Transport.Gates.{exchange, exchange_returns_gates}

abbrev doubling : Zlib ℕ
doubling = record {
  gzip = 31;
  deflate = 15;
  decompress = λ d c most. some (record {
    decoder = d;
    output = take most (c ++ c);
    has_unconsumed = false;
    has_unused = false;
  });
  is_eof = λ _. true;
}

abbrev limits : RequestLimits
limits = record {
  requests = 2;
  seconds = 100;
  request_seconds = 10;
  wire_bytes = 5;
  decoded_bytes = 6;
  concurrency = 2;
}

abbrev chunks : List Bytes
chunks = (1 ∷ 2 ∷ []) ∷ (3 ∷ 4 ∷ []) ∷ []

-- The second chunk would exceed the limit of decoded bytes.
doubled :
    iterate doubling limits Encoding.gzip (body chunks)
    ≡ ((1 ∷ 2 ∷ 1 ∷ 2 ∷ []) ∷ [], Ended.decoded_size_limit)
unfolding iterate body
doubled = refl

iterate-total_example : total (iterate doubling limits Encoding.gzip (body chunks)).0 ≤ 6
iterate-total_example = iterate-total doubling limits Encoding.gzip (body chunks)

iterate-body_example :
    iterate doubling limits Encoding.identity (body chunks) ≡ (chunks, Ended.complete)
unfolding total
iterate-body_example = iterate-body doubling limits chunks (omega arith) (omega arith)

abbrev budget : RunBudget
budget = record {
  run_id = "run";
  owner_key = "owner";
  as_of = 100;
  limits = limits;
  started = 0;
  deadline = 100;
  sources = none;
}

abbrev request : Request
request = record {
  scheme = "https";
  has_userinfo = false;
  host = "board.example";
  headers = [];
  params = [];
}

abbrev wire : Wire
wire = record {
  gate = 2;
  host_gate = 1;
  ledger = record {
    runs = record { id = "run"; fingerprint = ""; used = 0; deadline = 100; cap = 2 } ∷ [];
    cooldowns = [];
    attempts = [];
    works = [];
    source_attempts = [];
  };
}

abbrev plain : String → String
plain text = text

abbrev after_reading : Wire
after_reading =
    exchange doubling plain budget none request Admission.both none
      (Reply.answered 200 RetryAfter.unreadable Encoding.gzip) true (10, 10) (12, 12)
      (some (body chunks)) 1 wire

exchange_returns_gates_example : (after_reading.gate ≡ 2) × (after_reading.host_gate ≡ 1)
exchange_returns_gates_example =
    exchange_returns_gates doubling plain budget none request Admission.both none
      (Reply.answered 200 RetryAfter.unreadable Encoding.gzip) true (10, 10) (12, 12)
      (some (body chunks)) 1 wire (omega arith) (omega arith)
