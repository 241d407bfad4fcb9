-- ===== src/Envelopes/Delivered.antt =====
-- How many envelopes a run delivers to a destination.
use job_hound.Base.{
  ℕ, zero, suc, ◌-◌, ◌≤◌, ◌≡◌, String, none, List, [], ◌∷◌, length, length-append, filter, take,
  max, arith,
}
use job_hound.Outbox.Rows.{Owner, Destination, EnvelopeStatus, Part, Db}
use job_hound.Outbox.Monad.{ok}
use job_hound.Envelopes.Returned.{Returns, Returns-bind, Returns-then, Returns-pure}
use job_hound.Envelopes.Runs.{
  plan_dispatch, is_other, Reply, Turn, send_all, Run, send_new, deliver_destination,
}

-- An envelope with what became of it.
abbrev Report : Type 0
Report = List (String × EnvelopeStatus)

abbrev AtMost : ℕ → Report → Type 0
AtMost n out = length out ≤ n

length-take : (n : ℕ) (xs : List String) → length (take n xs) ≤ n
length-take zero xs = omega arith
length-take (suc n) [] = omega arith
length-take (suc n) (x ∷ xs) = (let h = length-take n xs in omega (arith, h))

send_all-AtMost :
    (hash : String → String) (o : Owner) (sender : Part → Reply) (turns : String → List Turn)
    (envs : List String)
    → Returns (AtMost (length envs)) (send_all hash o sender turns envs)
unfolding send_all
send_all-AtMost hash o sender turns [] = Returns-pure _ [] (omega arith)
send_all-AtMost hash o sender turns (env ∷ envs) = Returns-then _ _ _ (λ status.
    Returns-bind (AtMost (length envs)) _ _ _ (send_all-AtMost hash o sender turns envs)
      (λ rest few. Returns-pure _ _ (omega (arith, few))))

send_new-AtMost :
    (hash : String → String) (o : Owner) (d : Destination) (sender : Part → Reply) (run : Run)
    (ids : List ℕ)
    → Returns (AtMost 1) (send_new hash o d sender run ids)
unfolding send_new
send_new-AtMost hash o d sender run [] = Returns-pure _ [] (omega arith)
send_new-AtMost hash o d sender run (id ∷ ids) =
    Returns-then _ _ _ (λ env. send_all-AtMost hash o sender run.turns (env ∷ []))

-- A run that returns has dispatched at most as many envelopes to a destination as its limit, or one where
-- the limit is none.
pub deliver_destination_within_limit :
    (hash : String → String) (o : Owner) (d : Destination) (sender : Part → Reply) (run : Run)
    (limit max_intents : ℕ) (db : Db) (out : Report)
    → (deliver_destination hash o d sender run limit max_intents db).0 ≡ ok out
    → length out ≤ max limit 1
unfolding deliver_destination plan_dispatch
deliver_destination_within_limit hash o d sender run limit max_intents db out =
    (Returns-then (AtMost (max limit 1)) _ _ (λ expired. Returns-then _ _ _ (λ retries.
        (let few = length-take (limit - 1) (filter (is_other none) retries) in
          Returns-bind (AtMost (length (take (limit - 1) (filter (is_other none) retries)))) _ _ _
            (send_all-AtMost hash o sender run.turns _)
            (λ sent fits. Returns-then _ _ _ (λ intents.
              Returns-bind (AtMost 1) _ _ _ (send_new-AtMost hash o d sender run intents)
                (λ new one.
                  (let sum = length-append sent new in
                    Returns-pure _ _ (omega (arith, few, fits, one, sum)))))))))).returns
      db out
