-- ===== src/Source/Bounded.antt =====
-- The operations of a source budget keep its run within its plan.
use job_hound.Base.{
  ◌+◌, ◌∙◌, ℕ, ◌≤◌, ◌≡◌, refl, sym, ap, subst, ◌⊎◌, inl, inr, String, Option, some, none, Bool,
  true, false, List, [], ◌∷◌, arith, str_eq, find?, count, Bool-cases, if◌then◌else◌, ◌&&◌, All,
  All-update_where, update_where,
}
use job_hound.Base.Results.{Attempt, ok, err, ◌>>=◌, ◌>>◌}
use job_hound.Source.Plan.{SourceRoute, SourcePlan, is_pilot, find_route, is_watch}
use job_hound.Source.Rows.{WorkState, Work, WorkKind, Ledger, RunBudget, Deferred}
use job_hound.Source.Work.{
  is_work, is_cancelled, counts, used, upsert_work, new_work, check_ceilings, holds, reserve_work,
  usable_route, is_before_check, is_inspection, add_holder, defer_if, or_defer,
}
use job_hound.Source.Ceilings.{check_ceilings-HasRoom, defer_if-ok}
use job_hound.Source.Within.{
  IsFiled, IsWithin, upsert_work-IsFiled, new_work-IsFiled, upsert_work-IsWithin, find_route-id,
}

-- What a run has reserved of both kinds is filed and within its plan.
pub record IsBounded (run_id : String) (plan : SourcePlan) (ws : List Work) : Type 0 where
  pub filed : All (IsFiled run_id plan) ws
  pub within : (kind : WorkKind) → IsWithin run_id plan kind ws

-- An update that leaves what a work is and does not bring a cancelled one back.
pub record IsTame (q : Work → Bool) (f : Work → Work) : Type 0 where
  pub run_id : (w : Work) → (f w).run_id ≡ w.run_id
  pub source_id : (w : Work) → (f w).source_id ≡ w.source_id
  pub kind : (w : Work) → (f w).kind ≡ w.kind
  pub mode : (w : Work) → (f w).mode ≡ w.mode
  pub category : (w : Work) → (f w).category ≡ w.category
  pub alive :
      (w : Work) → q w ≡ true → is_cancelled (f w).state ≡ false → is_cancelled w.state ≡ false

-- An update of the state and the holders alone.
pub update-IsTame :
    (q : Work → Bool) (state : Work → WorkState) (holders : Work → ℕ)
    → ((w : Work) → q w ≡ true → is_cancelled (state w) ≡ false → is_cancelled w.state ≡ false)
    → IsTame q (λ w. record w { state = state w; holders = holders w })
update-IsTame q state holders alive = record {
  run_id = λ w. refl;
  source_id = λ w. refl;
  kind = λ w. refl;
  mode = λ w. refl;
  category = λ w. refl;
  alive = alive;
}

count-update_where :
    (p q : Work → Bool) (f : Work → Work) (ws : List Work)
    → ((w : Work) → q w ≡ true → p (f w) ≡ true → p w ≡ true)
    → count p (update_where q f ws) ≤ count p ws
count-update_where p q f [] h = ground arith
count-update_where p q f (w ∷ ws) h =
    let rest = count-update_where p q f ws h in
    elim (Bool-cases (q w)) [
      | inl e ↦ (let kept = h w e in rw e (ground arith))
      | inr e ↦ rw e (ground arith)
    ]

still_counts :
    (q : Work → Bool) (f : Work → Work) (run_id : String) (kind : WorkKind) (w : Work) (a b : Bool)
    → IsTame q f
    → a ≡ b
    → q w ≡ true
    → (counts run_id kind (f w) && a) ≡ true
    → (counts run_id kind w && b) ≡ true
still_counts q f run_id kind w a b t same hit h =
    let alive = t.alive w hit in let g = rw (same, t.run_id w, t.kind w) at h in ground arith

update_where-used :
    (run_id : String) (kind : WorkKind) (condition q : Work → Bool) (f : Work → Work) (limit : ℕ)
    (ws : List Work)
    → IsTame q f
    → ((w : Work) → condition (f w) ≡ condition w)
    → used run_id kind condition ws ≤ limit
    → used run_id kind condition (update_where q f ws) ≤ limit
unfolding used
update_where-used run_id kind condition q f limit ws t same old =
    let grown =
      count-update_where (λ w. counts run_id kind w && condition w) q f ws
        (λ w hit h. still_counts q f run_id kind w _ _ t (same w) hit h) in
    omega arith

update_where-IsFiled :
    (run_id : String) (plan : SourcePlan) (q : Work → Bool) (f : Work → Work) (w : Work)
    → IsTame q f
    → IsFiled run_id plan w
    → IsFiled run_id plan (f w)
update_where-IsFiled run_id plan q f w t h = record {
  mode = λ r e g. t.mode w ∙ h.mode r (sym (t.run_id w) ∙ e) (rw (sym (t.source_id w)) g);
  category =
      λ r e g. t.category w ∙ h.category r (sym (t.run_id w) ∙ e) (rw (sym (t.source_id w)) g);
}

-- A tame update keeps a run within its plan.
pub update_where-IsBounded :
    (run_id : String) (plan : SourcePlan) (q : Work → Bool) (f : Work → Work) (ws : List Work)
    → IsTame q f
    → IsBounded run_id plan ws
    → IsBounded run_id plan (update_where q f ws)
update_where-IsBounded run_id plan q f ws t h = record {
  filed =
      All-update_where _ _ q f ws (λ w _ g. update_where-IsFiled run_id plan q f w t g) (λ w _ g. g)
        h.filed;
  within = λ kind. record {
    shared = update_where-used run_id kind _ q f _ ws t (λ w. refl) (h.within kind).shared;
    exploration =
        update_where-used run_id kind _ q f _ ws t (λ w. ap is_pilot (t.mode w))
          (h.within kind).exploration;
    route = λ id r e.
        update_where-used run_id kind _ q f _ ws t (λ w. ap (λ s. str_eq s id) (t.source_id w))
          ((h.within kind).route id r e);
    category = λ name c e.
        update_where-used run_id kind _ q f _ ws t (λ w. ap (λ s. str_eq s name) (t.category w))
          ((h.within kind).category name c e);
  };
}

pub bind-ok :
    {A B : Type 0} (m : Attempt Deferred A) (k : A → Attempt Deferred B) (b : B)
    → (m >>= k) ≡ ok b
    → (a : A) × (m ≡ ok a) × (k a ≡ ok b)
bind-ok (ok a) k b h = (a, refl, h)
bind-ok (err e) k b h = cc

or_defer-found :
    (x : Option SourceRoute) (c c' : SourceRoute → Bool) (e e' e'' : Deferred) (r : SourceRoute)
    → (or_defer x e >>= λ q. defer_if (c q) e' >> (defer_if (c' q) e'' >> ok q)) ≡ ok r
    → x ≡ some r
or_defer-found none c c' e e' e'' r h = cc
or_defer-found (some q) c c' e e' e'' r h =
    let (_, h') = defer_if-ok (c q) e' (defer_if (c' q) e'' >> ok q) r h in
    let (_, h'') = defer_if-ok (c' q) e'' (ok q) r h' in cc

usable_route-found :
    (b : RunBudget) (plan : SourcePlan) (id : String) (r : SourceRoute)
    → usable_route b plan id ≡ ok r
    → find_route id plan ≡ some r
unfolding usable_route
usable_route-found b plan id r h =
    or_defer-found (find_route id plan) (λ q. is_watch q.mode)
      (λ q. is_before_check b.as_of q.next_check_at) _ _ _ r h

if-ok :
    {A : Type 0} (c : Bool) (x y : Attempt Deferred A) (a : A)
    → (if c then x else y) ≡ ok a
    → ((c ≡ true) × (x ≡ ok a)) ⊎ ((c ≡ false) × (y ≡ ok a))
if-ok true x y a h = inl (refl, h)
if-ok false x y a h = inr (refl, h)

pub ok-injective : {A : Type 0} (x y : A) → ◌≡◌ {A = Attempt Deferred A} (ok x) (ok y) → x ≡ y
ok-injective x y h = cc

held-IsBounded :
    (run_id : String) (plan : SourcePlan) (inspects : Bool) (q : Work → Bool) (s : Ledger)
    → IsBounded run_id plan s.works
    → IsBounded run_id plan
        (if inspects then record s { works = update_where q add_holder s.works } else s).works
held-IsBounded run_id plan true q s h =
    update_where-IsBounded run_id plan q add_holder s.works
      (update-IsTame _ (λ w. w.state) (λ w. w.holders + 1) (λ w _ a. a)) h
held-IsBounded run_id plan false q s h = h

new-IsBounded :
    (b : RunBudget) (plan : SourcePlan) (r : SourceRoute) (id : String) (kind : WorkKind)
    (key : String) (ws : List Work)
    → find_route id plan ≡ some r
    → holds (find? (is_work b.run_id id kind key) ws) ≡ false
    → check_ceilings b plan r kind ws ≡ ok tt
    → IsBounded b.run_id plan ws
    → IsBounded b.run_id plan (upsert_work (new_work b r kind key) ws)
new-IsBounded b plan r id kind key ws found free checked h =
    let same = find_route-id id plan r found in
    let found' : find_route r.source_id plan ≡ some r =
      subst (λ x. find_route x plan ≡ some r) (sym same) found in
    let free' : holds (find? (is_work b.run_id r.source_id kind key) ws) ≡ false =
      subst (λ x. holds (find? (is_work b.run_id x kind key) ws) ≡ false) (sym same) free in
    record {
      filed =
          upsert_work-IsFiled b.run_id plan _ ws (new_work-IsFiled b plan r kind key found')
            h.filed;
      within = λ kind'.
          upsert_work-IsWithin b plan r kind kind' key ws found' free'
            (check_ceilings-HasRoom b plan r kind ws checked) h.filed (h.within kind');
    }

pub reserve_work-IsBounded :
    (b : RunBudget) (plan : SourcePlan) (source_id : String) (kind : WorkKind) (key : String)
    (s s' : Ledger)
    → reserve_work b plan source_id kind key s ≡ ok s'
    → IsBounded b.run_id plan s.works
    → IsBounded b.run_id plan s'.works
unfolding reserve_work
reserve_work-IsBounded b plan source_id kind key s s' h bounded =
    let (r, u, h1) = bind-ok (usable_route b plan source_id) _ s' h in
    let found = usable_route-found b plan source_id r u in
    let held = update_where (is_work b.run_id source_id kind key) add_holder s.works in
    let kept = if is_inspection kind then record s { works = held } else s in
    let fresh = record s { works = upsert_work (new_work b r kind key) s.works } in
    elim (if-ok (holds (find? (is_work b.run_id source_id kind key) s.works)) (ok kept)
      (check_ceilings b plan r kind s.works >> ok fresh) s' h1) [
        | inl (e, g) ↦
            subst (λ (t : Ledger). IsBounded b.run_id plan t.works) (ok-injective kept s' g)
              (held-IsBounded b.run_id plan (is_inspection kind)
                (is_work b.run_id source_id kind key) s bounded)
        | inr (e, g) ↦
            let (_, checked, f) =
              bind-ok (check_ceilings b plan r kind s.works) (λ _. ok fresh) s' g in
            subst (λ (t : Ledger). IsBounded b.run_id plan t.works) (ok-injective fresh s' f)
              (new-IsBounded b plan r source_id kind key s.works found e checked bounded)
      ]
