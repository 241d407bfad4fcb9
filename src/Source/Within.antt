-- ===== src/Source/Within.antt =====
-- Reservations of inspections and searches keep a run within its plan.
use job_hound.Base.{
  ◌∙◌, ℕ, ◌<◌, ◌≤◌, ◌/◌, ◌≡◌, refl, sym, ap, subst, inl, inr, String, some, Bool, true, false, List,
  [], ◌∷◌, str_eq, str_eq_iff, find?, Bool-cases, All, All-map, and-true,
}
use mathlib.Core.Option.{some-injective}
use job_hound.Source.Plan.{
  CategoryLimit, SourceRoute, SourcePlan, is_pilot, find_route, find_category,
}
use job_hound.Source.Rows.{Work, WorkKind, RunBudget}
use job_hound.Source.Work.{is_work, same_kind, used, upsert_work, new_work, limit_of, holds}
use job_hound.Source.Ceilings.{revived, used-upsert_work, HasRoom}

-- A work is filed under the mode and the category of its route.
pub record IsFiled (run_id : String) (plan : SourcePlan) (w : Work) : Type 0 where
  pub mode :
      (r : SourceRoute) → w.run_id ≡ run_id → find_route w.source_id plan ≡ some r → w.mode ≡ r.mode
  pub category :
      (r : SourceRoute)
      → w.run_id ≡ run_id
      → find_route w.source_id plan ≡ some r
      → w.category ≡ r.category

-- What the run counts of one kind stays within the plan: in all, by its pilots, by each route and by
-- each category.
pub record IsWithin (run_id : String) (plan : SourcePlan) (kind : WorkKind) (ws : List Work)
    : Type 0 where
  pub shared : used run_id kind (λ _. true) ws ≤ limit_of kind plan.ceilings
  pub exploration : used run_id kind (λ w. is_pilot w.mode) ws ≤ limit_of kind plan.ceilings / 5
  pub route :
      (id : String) (r : SourceRoute)
      → find_route id plan ≡ some r
      → used run_id kind (λ w. str_eq w.source_id id) ws ≤ limit_of kind r.limits
  pub category :
      (name : String) (c : CategoryLimit)
      → find_category name plan ≡ some c
      → used run_id kind (λ w. str_eq w.category name) ws ≤ limit_of kind c.limits

find?-test {ℓ} :
    {A : Type ℓ} (q : A → Bool) (xs : List A) (x : A) → find? q xs ≡ some x → q x ≡ true
find?-test q [] x e = cc
find?-test q (y ∷ xs) x e = elim (Bool-cases (q y)) [
  | inl t ↦ (let f : some y ≡ some x = rw t at e in cc)
  | inr t ↦ find?-test q xs x (rw t at e)
]

pub find_route-id :
    (id : String) (plan : SourcePlan) (r : SourceRoute)
    → find_route id plan ≡ some r
    → r.source_id ≡ id
unfolding find_route
find_route-id id plan r e =
    (str_eq_iff _ _).0 (find?-test (λ q. str_eq q.source_id id) plan.routes r e)

same_kind-≡ : (a b : WorkKind) → same_kind a b ≡ true → a ≡ b
same_kind-≡ WorkKind.inspection WorkKind.inspection h = refl
same_kind-≡ WorkKind.search WorkKind.search h = refl
same_kind-≡ WorkKind.inspection WorkKind.search h = cc
same_kind-≡ WorkKind.search WorkKind.inspection h = cc

is_work-≡ :
    (run_id id : String) (kind : WorkKind) (key : String) (w : Work)
    → is_work run_id id kind key w ≡ true
    → (w.run_id ≡ run_id) × (w.source_id ≡ id) × (w.kind ≡ kind)
is_work-≡ run_id id kind key w h =
    let (h1, _) = and-true _ _ h in
    let (h2, c) = and-true _ _ h1 in
    let (a, b) = and-true _ _ h2 in ((str_eq_iff _ _).0 a, (str_eq_iff _ _).0 b, same_kind-≡ _ _ c)

-- A new work that is filed where its route says.
pub new_work-IsFiled :
    (b : RunBudget) (plan : SourcePlan) (r : SourceRoute) (kind : WorkKind) (key : String)
    → find_route r.source_id plan ≡ some r
    → IsFiled b.run_id plan (new_work b r kind key)
new_work-IsFiled b plan r kind key e = record {
  mode = λ q same f. (let g : some r ≡ some q = sym e ∙ f in cc);
  category = λ q same f. (let g : some r ≡ some q = sym e ∙ f in cc);
}

pub upsert_work-IsFiled :
    (run_id : String) (plan : SourcePlan) (n : Work) (ws : List Work)
    → IsFiled run_id plan n
    → All (IsFiled run_id plan) ws
    → All (IsFiled run_id plan) (upsert_work n ws)
unfolding upsert_work
upsert_work-IsFiled run_id plan n [] f fs = (f, tt)
upsert_work-IsFiled run_id plan n (w ∷ ws) f fs =
    elim (Bool-cases (is_work n.run_id n.source_id n.kind n.key w)) [
      | inl e ↦ rw e (record { mode = fs.0.mode; category = fs.0.category }, fs.1)
      | inr e ↦ rw e (fs.0, upsert_work-IsFiled run_id plan n ws f fs.1)
    ]

-- A row under the key of a new work agrees with it in all that is counted.
record Agrees (n w : Work) : Type 0 where
  run_id : w.run_id ≡ n.run_id
  source_id : w.source_id ≡ n.source_id
  kind : w.kind ≡ n.kind
  mode : w.mode ≡ n.mode
  category : w.category ≡ n.category

filed-Agrees :
    (b : RunBudget) (plan : SourcePlan) (r : SourceRoute) (kind : WorkKind) (key : String)
    (w : Work)
    → find_route r.source_id plan ≡ some r
    → IsFiled b.run_id plan w
    → is_work b.run_id r.source_id kind key w ≡ true
    → Agrees (new_work b r kind key) w
filed-Agrees b plan r kind key w e filed h =
    let (run, source, same) = is_work-≡ _ _ _ _ w h in
    let found : find_route w.source_id plan ≡ some r = rw source e in
    record {
      run_id = run;
      source_id = source;
      kind = same;
      mode = filed.mode r run found;
      category = filed.category r run found;
    }

-- A condition that reads only what agrees, of a new reservation where its ceilings had room.
upsert_work-used :
    (b : RunBudget) (plan : SourcePlan) (r : SourceRoute) (kind kind' : WorkKind) (key : String)
    (condition : Work → Bool) (limit : WorkKind → ℕ) (ws : List Work)
    → find_route r.source_id plan ≡ some r
    → holds (find? (is_work b.run_id r.source_id kind key) ws) ≡ false
    → All (IsFiled b.run_id plan) ws
    → ((w : Work)
        → Agrees (new_work b r kind key) w
        → condition (revived (new_work b r kind key) w) ≡ condition (new_work b r kind key))
    → used b.run_id kind' condition ws ≤ limit kind'
    → (condition (new_work b r kind key) ≡ true → used b.run_id kind condition ws < limit kind)
    → used b.run_id kind' condition (upsert_work (new_work b r kind key) ws) ≤ limit kind'
upsert_work-used b plan r kind kind' key condition limit ws e free filed reads old room =
    used-upsert_work b.run_id kind' condition (limit kind') (new_work b r kind key) ws free
      (All-map _ _ ws
        (λ w f i c.
          let a = filed-Agrees b plan r kind key w e f i in
          let q = reads w a in rw (q, a.run_id, a.kind) at c)
        filed)
      old
      (λ same c.
        subst (λ k. used b.run_id k condition ws < limit k) (same_kind-≡ kind kind' same) (room c))

route_room :
    (run_id : String) (plan : SourcePlan) (r q : SourceRoute) (kind : WorkKind) (ws : List Work)
    → find_route r.source_id plan ≡ some r
    → HasRoom run_id plan r kind ws
    → find_route r.source_id plan ≡ some q
    → used run_id kind (λ w. str_eq w.source_id r.source_id) ws < limit_of kind q.limits
route_room run_id plan r q kind ws e room f =
    subst (λ x. used run_id kind (λ w. str_eq w.source_id r.source_id) ws < limit_of kind x.limits)
      (some-injective _ _ (sym e ∙ f)) room.route

-- A new reservation where its ceilings had room.
pub upsert_work-IsWithin :
    (b : RunBudget) (plan : SourcePlan) (r : SourceRoute) (kind kind' : WorkKind) (key : String)
    (ws : List Work)
    → find_route r.source_id plan ≡ some r
    → holds (find? (is_work b.run_id r.source_id kind key) ws) ≡ false
    → HasRoom b.run_id plan r kind ws
    → All (IsFiled b.run_id plan) ws
    → IsWithin b.run_id plan kind' ws
    → IsWithin b.run_id plan kind' (upsert_work (new_work b r kind key) ws)
upsert_work-IsWithin b plan r kind kind' key ws e free room filed within = record {
  shared =
      upsert_work-used b plan r kind kind' key (λ _. true) (λ k. limit_of k plan.ceilings) ws e free
        filed (λ w a. refl) within.shared (λ _. room.shared);
  exploration =
      upsert_work-used b plan r kind kind' key (λ w. is_pilot w.mode)
        (λ k. limit_of k plan.ceilings / 5) ws e free filed (λ w a. ap is_pilot a.mode)
        within.exploration room.exploration;
  route = λ id q f.
      upsert_work-used b plan r kind kind' key (λ w. str_eq w.source_id id)
        (λ k. limit_of k q.limits) ws e free filed (λ w a. ap (λ s. str_eq s id) a.source_id)
        (within.route id q f)
        (λ t.
          subst
            (λ x.
              find_route x plan ≡ some q
              → used b.run_id kind (λ w. str_eq w.source_id x) ws < limit_of kind q.limits)
            ((str_eq_iff _ _).0 t) (route_room b.run_id plan r q kind ws e room) f);
  category = λ name c f.
      upsert_work-used b plan r kind kind' key (λ w. str_eq w.category name)
        (λ k. limit_of k c.limits) ws e free filed (λ w a. ap (λ s. str_eq s name) a.category)
        (within.category name c f)
        (λ t.
          subst
            (λ x.
              find_category x plan ≡ some c
              → used b.run_id kind (λ w. str_eq w.category x) ws < limit_of kind c.limits)
            ((str_eq_iff _ _).0 t) (room.category c) f);
}
