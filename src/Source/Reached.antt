-- ===== src/Source/Reached.antt =====
-- Whatever a source budget does with inspections and searches, its run stays within the plan.
use job_hound.Base.{
  ◌-◌, or-false, any, and-true, str_eq_iff, ◌≡◌, refl, subst, String, Option, some, none, Bool,
  true, false, List, [], ◌∷◌, arith, str_eq, All,
}
use job_hound.Base.Results.{ok}
use job_hound.Source.Plan.{SourcePlan, is_pilot}
use job_hound.Source.Rows.{WorkState, Work, WorkKind, Ledger, RunBudget, SourceInspection}
use job_hound.Source.Work.{
  is_reserved, release_inspection, cached_inspection, is_cancelled, used, reserve_work,
}
use job_hound.Source.Ceilings.{defer_if-ok}
use job_hound.Source.Within.{IsFiled}
use job_hound.Source.Bounded.{
  IsBounded, update-IsTame, update_where-IsBounded, reserve_work-IsBounded, ok-injective,
}

release_inspection-IsBounded :
    (run_id : String) (plan : SourcePlan) (sc : SourceInspection) (s : Ledger)
    → IsBounded run_id plan s.works
    → IsBounded run_id plan (release_inspection sc s).works
unfolding release_inspection
release_inspection-IsBounded run_id plan sc s h =
    update_where-IsBounded run_id plan _ _ _
      (update-IsTame _ (λ _. WorkState.cancelled) (λ w. w.holders) (λ w _ a. cc))
      (update_where-IsBounded run_id plan _ _ s.works
        (update-IsTame _ (λ w. w.state) (λ w. w.holders - 1) (λ w _ a. a)) h)

reserved_alive : (t : WorkState) → is_reserved t ≡ true → is_cancelled t ≡ false
reserved_alive WorkState.reserved h = refl
reserved_alive WorkState.inspected h = refl
reserved_alive WorkState.inspected_cache h = refl
reserved_alive WorkState.sent_unknown h = refl
reserved_alive WorkState.cancelled h = cc

cached_inspection-IsBounded :
    (b : RunBudget) (run_id : String) (plan : SourcePlan) (sc : Option SourceInspection)
    (s s' : Ledger)
    → cached_inspection b sc s ≡ ok s'
    → IsBounded run_id plan s.works
    → IsBounded run_id plan s'.works
unfolding cached_inspection
cached_inspection-IsBounded b run_id plan none s s' e h = cc
cached_inspection-IsBounded b run_id plan (some sc) s s' e h =
    let (_, f) = defer_if-ok _ _ (ok (record s { works = _ })) s' e in
    subst (λ (t : Ledger). IsBounded run_id plan t.works) (ok-injective _ s' f)
      (update_where-IsBounded run_id plan _ _ s.works
        (update-IsTame _ (λ _. WorkState.inspected_cache) (λ w. w.holders)
          (λ w hit _. reserved_alive w.state (and-true _ _ hit).1))
        h)

-- The ledgers that inspections and searches of one run lead to from one in which it has none.
pub data Reached (b : RunBudget) (plan : SourcePlan) : Ledger → Type 0 where
  fresh : (s : Ledger) → any (λ w. str_eq w.run_id b.run_id) s.works ≡ false → Reached b plan s
  reserved :
      (source_id : String) (kind : WorkKind) (key : String) (s s' : Ledger)
      → Reached b plan s
      → reserve_work b plan source_id kind key s ≡ ok s'
      → Reached b plan s'
  released :
      (sc : SourceInspection) (s : Ledger)
      → Reached b plan s
      → Reached b plan (release_inspection sc s)
  cached :
      (sc : Option SourceInspection) (s s' : Ledger)
      → Reached b plan s
      → cached_inspection b sc s ≡ ok s'
      → Reached b plan s'

count-none :
    (run_id : String) (kind : WorkKind) (condition : Work → Bool) (ws : List Work)
    → any (λ w. str_eq w.run_id run_id) ws ≡ false
    → used run_id kind condition ws ≡ 0
unfolding used
count-none run_id kind condition [] h = refl
count-none run_id kind condition (w ∷ ws) h =
    let (here, there) =
      or-false (str_eq w.run_id run_id) (any (λ v. str_eq v.run_id run_id) ws) h in
    rw (here, count-none run_id kind condition ws there)

fresh-IsFiled :
    (run_id : String) (plan : SourcePlan) (ws : List Work)
    → any (λ w. str_eq w.run_id run_id) ws ≡ false
    → All (IsFiled run_id plan) ws
fresh-IsFiled run_id plan [] h = tt
fresh-IsFiled run_id plan (w ∷ ws) h =
    let (here, there) =
      or-false (str_eq w.run_id run_id) (any (λ v. str_eq v.run_id run_id) ws) h in
    (
      record {
        mode = λ r e _. (let own = (str_eq_iff w.run_id run_id).1 e in cc);
        category = λ r e _. (let own = (str_eq_iff w.run_id run_id).1 e in cc);
      },
      fresh-IsFiled run_id plan ws there,
    )

fresh-IsBounded :
    (run_id : String) (plan : SourcePlan) (ws : List Work)
    → any (λ w. str_eq w.run_id run_id) ws ≡ false
    → IsBounded run_id plan ws
fresh-IsBounded run_id plan ws h = record {
  filed = fresh-IsFiled run_id plan ws h;
  within = λ kind. record {
    shared = rw (count-none run_id kind (λ _. true) ws h) (omega arith);
    exploration = rw (count-none run_id kind (λ w. is_pilot w.mode) ws h) (omega arith);
    route = λ id r e. rw (count-none run_id kind (λ w. str_eq w.source_id id) ws h) (omega arith);
    category =
        λ name c e. rw (count-none run_id kind (λ w. str_eq w.category name) ws h) (omega arith);
  };
}

-- Whatever inspections and searches a run reserves, releases and serves from a cache, in any order,
-- what it counts of either kind stays within the plan's ceilings: in all, a fifth for its pilots, and
-- those of each route and of each category; and every work is filed under its route's mode and category.
pub reached-IsBounded :
    (b : RunBudget) (plan : SourcePlan) (s : Ledger)
    → Reached b plan s
    → IsBounded b.run_id plan s.works
reached-IsBounded b plan _ (Reached.fresh s h) = fresh-IsBounded b.run_id plan s.works h
reached-IsBounded b plan _ (Reached.reserved source_id kind key s s' r e) =
    reserve_work-IsBounded b plan source_id kind key s s' e (reached-IsBounded b plan s r)
reached-IsBounded b plan _ (Reached.released sc s r) =
    release_inspection-IsBounded b.run_id plan sc s (reached-IsBounded b plan s r)
reached-IsBounded b plan _ (Reached.cached sc s s' r e) =
    cached_inspection-IsBounded b b.run_id plan sc s s' e (reached-IsBounded b plan s r)
