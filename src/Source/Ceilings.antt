-- ===== src/Source/Ceilings.antt =====
-- The inspections and searches of a run stay within the ceilings of its plan.
use job_hound.Base.{
  ℕ, suc, ◌+◌, ◌<◌, ◌≤◌, ◌/◌, ◌≡◌, refl, inl, inr, String, Option, some, none, Bool, true, false,
  List, [], ◌∷◌, arith, leb, str_eq, find?, count, Bool-cases, if◌then◌else◌, ◌&&◌, All,
  update_where, not-false,
}
use job_hound.Base.Results.{Attempt, ok, ◌>>=◌, ◌>>◌}
use job_hound.Source.Plan.{CategoryLimit, SourceRoute, SourcePlan, is_pilot, find_category}
use job_hound.Source.Rows.{Work, WorkKind, RunBudget, Deferred}
use job_hound.Source.Work.{
  is_work, same_kind, is_cancelled, counts, used, upsert_work, limit_of, check_ceilings, holds,
  defer_if, or_defer,
}

within_lem :
    (a c k : Bool) (new old limit : ℕ)
    → (a ≡ true → k ≡ true)
    → old ≤ limit
    → (k ≡ true → c ≡ true → old < limit)
    → new ≤ old + (if a && c then 1 else 0)
    → new ≤ limit
within_lem true true k new old limit f h room g = omega (arith, room (f refl) refl)
within_lem true false k new old limit f h room g = omega arith
within_lem false c k new old limit f h room g = omega arith

-- A row that stands for the same work as `n` with the state of `n`.
abbrev pub revived : Work → Work → Work
revived n w = record w { state = n.state; holders = n.holders }

count_first :
    (a b : Bool) (m : ℕ)
    → (a ≡ true → b ≡ true)
    → (if a then suc m else m) ≤ m + (if b then 1 else 0)
count_first a b m h = ground arith

count_next :
    (a : Bool) (m m' x : ℕ) → m' ≤ m + x → (if a then suc m' else m') ≤ (if a then suc m else m) + x
count_next a m m' x h = ground arith

-- One reservation adds at most one to what is counted, and nothing where it is not counted itself.
count-upsert_work :
    (p : Work → Bool) (n : Work) (ws : List Work)
    → holds (find? (is_work n.run_id n.source_id n.kind n.key) ws) ≡ false
    → All
        (λ w.
          is_work n.run_id n.source_id n.kind n.key w ≡ true → p (revived n w) ≡ true → p n ≡ true)
        ws
    → ((w : Work) → is_cancelled w.state ≡ true → p w ≡ false)
    → count p (upsert_work n ws) ≤ count p ws + (if p n then 1 else 0)
unfolding upsert_work
count-upsert_work p n [] h k c = ground arith
count-upsert_work p n (w ∷ ws) h k c =
    elim (Bool-cases (is_work n.run_id n.source_id n.kind n.key w)) [
      | inl e ↦
          let q : p w ≡ false = c w (not-false _ (rw e at h)) in
          rw (e, q) (count_first (p (revived n w)) (p n) (count p ws) (k.0 e))
      | inr e ↦ rw e (
          count_next (p w) (count p ws) (count p (upsert_work n ws)) (if p n then 1 else 0)
            (count-upsert_work p n ws (rw e at h) k.1 c))
    ]

-- What is counted under a condition that the reservation keeps stays within a limit that had room.
pub used-upsert_work :
    (run_id : String) (kind : WorkKind) (condition : Work → Bool) (limit : ℕ) (n : Work)
    (ws : List Work)
    → holds (find? (is_work n.run_id n.source_id n.kind n.key) ws) ≡ false
    → All
        (λ w.
          is_work n.run_id n.source_id n.kind n.key w ≡ true
          → (counts run_id kind (revived n w) && condition (revived n w)) ≡ true
          → (counts run_id kind n && condition n) ≡ true)
        ws
    → used run_id kind condition ws ≤ limit
    → (same_kind n.kind kind ≡ true → condition n ≡ true → used run_id kind condition ws < limit)
    → used run_id kind condition (upsert_work n ws) ≤ limit
unfolding used
used-upsert_work run_id kind condition limit n ws h k old room =
    let grown =
      count-upsert_work (λ w. counts run_id kind w && condition w) n ws h k (λ w e. ground arith) in
    within_lem (counts run_id kind n) (condition n) (same_kind n.kind kind) _ _ limit
      (λ e. ground arith) old room grown

pub used-update_where :
    (run_id : String) (kind : WorkKind) (condition q : Work → Bool) (f : Work → Work)
    (ws : List Work)
    → ((w : Work)
        → (counts run_id kind (f w) && condition (f w)) ≡ (counts run_id kind w && condition w))
    → used run_id kind condition (update_where q f ws) ≡ used run_id kind condition ws
unfolding used
used-update_where run_id kind condition q f [] h = refl
used-update_where run_id kind condition q f (w ∷ ws) h = elim (Bool-cases (q w)) [
  | inl e ↦ rw (e, h w, used-update_where run_id kind condition q f ws h)
  | inr e ↦ rw (e, used-update_where run_id kind condition q f ws h)
]

-- The room that `check_ceilings` found.
pub record HasRoom (run_id : String) (plan : SourcePlan) (r : SourceRoute) (kind : WorkKind)
    (ws : List Work) : Type 0 where
  pub shared : used run_id kind (λ _. true) ws < limit_of kind plan.ceilings
  pub exploration :
      is_pilot r.mode ≡ true
      → used run_id kind (λ w. is_pilot w.mode) ws < limit_of kind plan.ceilings / 5
  pub route : used run_id kind (λ w. str_eq w.source_id r.source_id) ws < limit_of kind r.limits
  pub category :
      (c : CategoryLimit)
      → find_category r.category plan ≡ some c
      → used run_id kind (λ w. str_eq w.category r.category) ws < limit_of kind c.limits

pub defer_if-ok :
    {A : Type 0} (c : Bool) (e : Deferred) (k : Attempt Deferred A) (a : A)
    → (defer_if c e >> k) ≡ ok a
    → (c ≡ false) × (k ≡ ok a)
defer_if-ok true e k a h = cc
defer_if-ok false e k a h = (refl, h)

last_defer_if-ok : (c : Bool) (e : Deferred) → defer_if c e ≡ ok tt → c ≡ false
last_defer_if-ok true e h = cc
last_defer_if-ok false e h = refl

or_defer-ok :
    (x : Option CategoryLimit) (e e' : Deferred) (full : CategoryLimit → Bool)
    → (or_defer x e >>= (λ c. defer_if (full c) e')) ≡ ok tt
    → (c : CategoryLimit) → x ≡ some c
    → full c ≡ false
or_defer-ok none e e' full h c q = cc
or_defer-ok (some d) e e' full h c q = let room = last_defer_if-ok (full d) e' h in cc

and_lem : (a b : Bool) → (a && b) ≡ false → a ≡ true → b ≡ false
and_lem true b h e = h
and_lem false b h e = cc

pub leb-false : (a b : ℕ) → leb a b ≡ false → b < a
leb-false a b h = ground arith

pub check_ceilings-HasRoom :
    (b : RunBudget) (plan : SourcePlan) (r : SourceRoute) (kind : WorkKind) (ws : List Work)
    → check_ceilings b plan r kind ws ≡ ok tt
    → HasRoom b.run_id plan r kind ws
unfolding check_ceilings
check_ceilings-HasRoom b plan r kind ws h =
    let (shared, h1) = defer_if-ok _ _ _ _ h in
    let (exploration, h2) = defer_if-ok _ _ _ _ h1 in
    let (route, h3) = defer_if-ok _ _ _ _ h2 in
    record {
      shared = leb-false _ _ shared;
      exploration = λ p. leb-false _ _ (and_lem _ _ exploration p);
      route = leb-false _ _ route;
      category = λ c e. leb-false _ _ (
          or_defer-ok (find_category r.category plan) Deferred.missing_row
            (Deferred.category_ceiling kind)
            (λ c.
              leb (limit_of kind c.limits)
                (used b.run_id kind (λ w. str_eq w.category r.category) ws))
            h3 c e);
    }
