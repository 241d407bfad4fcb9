-- ===== src/Outcomes/Disposed.antt =====
-- What a projection says of each of its events.
use job_hound.Base.{
  ◌≡◌, refl, sym, ap, subst, ◌∙◌, ◌⊎◌, inl, inr, String, Bool, true, false, not, Option, none, some,
  List, [], ◌∷◌, str_eq, str_eq_iff, filter, contains, is_some, All, All-map, All-filter,
  if◌then◌else◌, Bool-cases,
}
use job_hound.Outcomes.Events.{Scope, same_scope, OutcomeEvent}
use job_hound.Outcomes.Grouped.{Group, members_of, sort_by, All-sort_by}
use job_hound.Outcomes.Projections.{
  event_key, removed, is_conflict, Disposition, set_entry, entry, OutcomeProjection, dispose_each,
  project_group, project_groups, group_each, project,
}
use job_hound.Outcomes.Standing.{
  IsDisposed, project_groups-has, events-project_groups, OfMembers, All-group_each,
}
use job_hound.Outcomes.Agreement.{stands, removed-stands}
use job_hound.Outcomes.Gathered.{facts_of, group_each-facts_of, All-sorted}

-- An event among the facts of its key: superseded unless it stands, in conflict where the facts of its key
-- are, and current otherwise.
unfoldable pub disposition : (String → String) → List OutcomeEvent → OutcomeEvent → Disposition
unfolding stands is_conflict
disposition quote rows e =
    let facts = facts_of quote (event_key quote e) rows in
    if stands facts e
    then (if is_conflict quote facts then Disposition.conflict else Disposition.current)
    else Disposition.superseded

In : OutcomeEvent → List OutcomeEvent → Type 0
In e [] = ⊥
In e (x ∷ xs) = (x ≡ e) ⊎ In e xs

In-All :
    (P : OutcomeEvent → Type 0) (e : OutcomeEvent) (xs : List OutcomeEvent)
    → All P xs
    → In e xs
    → P e
unfolding In
In-All P e [] h i = elim i [ ]
In-All P e (x ∷ xs) h (inl q) = subst P q h.0
In-All P e (x ∷ xs) h (inr i) = In-All P e xs h.1 i

All-In :
    (P : OutcomeEvent → Type 0) (xs : List OutcomeEvent)
    → ((e : OutcomeEvent) → In e xs → P e)
    → All P xs
unfolding In
All-In P [] h = tt
All-In P (x ∷ xs) h = (h x (inl refl), All-In P xs (λ e i. h e (inr i)))

In-filter :
    (p : OutcomeEvent → Bool) (e : OutcomeEvent) (xs : List OutcomeEvent)
    → In e (filter p xs)
    → In e xs × (p e ≡ true)
unfolding In
In-filter p e [] i = elim i [ ]
In-filter p e (x ∷ xs) i = elim (Bool-cases (p x)) [
  | inr b ↦ (let r : In e (filter p xs) = rw b at i in let k = In-filter p e xs r in (inr k.0, k.1))
  | inl b ↦
      let r : (x ≡ e) ⊎ In e (filter p xs) = rw b at i in
      elim r [
        | inl q ↦ (inl q, subst (λ y. p y ≡ true) q b)
        | inr j ↦ (let k = In-filter p e xs j in (inr k.0, k.1))
      ]
]

module _ (V : String → Disposition → Type 0) where
  Says : List (String × Disposition) → Type 0
  Says ds = All (λ d. V d.0 d.1) ds

  entry-Says :
      (k : String) (v : Disposition) (ds : List (String × Disposition))
      → Says ds
      → entry k ds ≡ some v
      → V k v
  unfolding Says entry
  entry-Says k v [] h e = cc
  entry-Says k v ((j, y) ∷ ds) h e = elim (Bool-cases (str_eq j k)) [
    | inr b ↦ (let r : entry k ds ≡ some v = rw b at e in entry-Says k v ds h.1 r)
    | inl b ↦
        let r : some y ≡ some v = rw b at e in
        let same : y ≡ v = cc in subst (λ i. V i v) ((str_eq_iff j k).0 b) (subst (V j) same h.0)
  ]

  set_entry-Says :
      (k : String) (v : Disposition) (ds : List (String × Disposition))
      → V k v
      → Says ds
      → Says (set_entry k v ds)
  unfolding Says set_entry
  set_entry-Says k v [] q h = (q, tt)
  set_entry-Says k v ((j, y) ∷ ds) q h = elim (Bool-cases (str_eq j k)) [
    | inr b ↦ rw b (h.0, set_entry-Says k v ds q h.1)
    | inl b ↦ rw b (subst (λ i. V i v) (sym ((str_eq_iff j k).0 b)) q, h.1)
  ]

  dispose_each-Says :
      (gone : List String) (clash : Bool) (es : List OutcomeEvent)
      (ds : List (String × Disposition))
      → All
          (λ e. V e.event_id (
            if contains e.event_id gone
            then Disposition.superseded
            else if clash
            then Disposition.conflict
            else Disposition.current))
          es
      → Says ds
      → Says (dispose_each gone clash es ds)
  unfolding dispose_each
  dispose_each-Says gone clash [] ds q h = h
  dispose_each-Says gone clash (e ∷ es) ds q h =
      dispose_each-Says gone clash es _ q.1 (set_entry-Says e.event_id _ ds q.0 h)

-- What the loop over a key's facts makes of a fact is its disposition.
disposed :
    (gone stands_here clash : Bool)
    → not gone ≡ stands_here
    → (if gone
        then Disposition.superseded
        else if clash
        then Disposition.conflict
        else Disposition.current)
      ≡ (if stands_here
          then (if clash then Disposition.conflict else Disposition.current)
          else Disposition.superseded)
disposed true s clash h = rw (sym h) refl
disposed false s clash h = rw (sym h) refl

module _ (quote : String → String) (rows : List OutcomeEvent) where
  -- A value for an id is the disposition of each event with the id.
  Sound : String → Disposition → Type 0
  Sound id v = (f : OutcomeEvent) → In f rows → f.event_id ≡ id → v ≡ disposition quote rows f

  Unique : Type 0
  Unique = All (λ e. All (λ f. f.event_id ≡ e.event_id → f ≡ e) rows) rows

  facts-Sound :
      (k : String)
      → Unique
      → All
          (λ e. Sound e.event_id (
            if contains e.event_id (removed (facts_of quote k rows))
            then Disposition.superseded
            else if is_conflict quote (facts_of quote k rows)
            then Disposition.conflict
            else Disposition.current))
          (facts_of quote k rows)
  unfolding Sound Unique disposition
  facts-Sound k u = All-In _ (facts_of quote k rows) (λ e i f j same.
      (let (here, keyed) = In-filter (λ x. str_eq (event_key quote x) k) e rows i in
        let q : f ≡ e = In-All _ f rows (In-All _ e rows u here) j same in
        let key : event_key quote f ≡ k =
          ap (event_key quote) q ∙ (str_eq_iff (event_key quote e) k).0 keyed in
        let out =
          disposed (contains e.event_id (removed (facts_of quote k rows)))
            (stands (facts_of quote k rows) e) (is_conflict quote (facts_of quote k rows))
            (removed-stands (facts_of quote k rows) e) in
        rw (key, q) out))

  project_groups-Says :
      (gs : List (Group OutcomeEvent)) (p : OutcomeProjection)
      → Unique
      → All (λ g. members_of g ≡ facts_of quote g.key rows) gs
      → Says Sound p.dispositions
      → Says Sound (project_groups quote gs p).dispositions
  unfolding project_groups project_group
  project_groups-Says [] p u m h = h
  project_groups-Says (g ∷ gs) p u m h = project_groups-Says gs (project_group quote g p) u m.1 (
      subst
        (λ facts.
          Says Sound (dispose_each (removed facts) (is_conflict quote facts) facts p.dispositions))
        (sym m.0)
        (dispose_each-Says Sound _ _ (facts_of quote g.key rows) p.dispositions
          (facts-Sound g.key u) h))

  -- An entry that is there and sound is the disposition.
  Says-entry :
      (ds : List (String × Disposition)) (e : OutcomeEvent) (o : Option Disposition)
      → In e rows
      → Says Sound ds
      → is_some o ≡ true
      → entry e.event_id ds ≡ o
      → o ≡ some (disposition quote rows e)
  unfolding Sound
  Says-entry ds e none i h s q = cc
  Says-entry ds e (some v) i h s q = ap some (entry-Says Sound e.event_id v ds h q e i refl)

All-rows :
    (P : OutcomeEvent → Type 0) (events : List OutcomeEvent) (scope : Scope)
    → All P events
    → All P (sort_by (λ e. e.event_id) (filter (λ e. same_scope e.scope scope) events))
All-rows P events scope h = All-sorted P _ _ (All-filter P _ events h)

-- A projection of a journal whose ids tell its events apart says of each of its events what becomes of it
-- among those of its key: it is superseded where a fact names it as superseded or a later one of the same
-- authority overtakes it, in conflict where it stands and those that stand do not have one value, and
-- current where it stands and they do.
pub project-IsDisposed :
    (quote : String → String) (events : List OutcomeEvent) (scope : Scope)
    → All (λ e. All (λ f. f.event_id ≡ e.event_id → f ≡ e) events) events
    → All
        (λ e.
          entry e.event_id (project quote events scope).dispositions
          ≡ some (disposition quote (project quote events scope).events e))
        (project quote events scope).events
unfolding project Unique Says Sound
project-IsDisposed quote events scope apart =
    let rows = sort_by (λ e. e.event_id) (filter (λ e. same_scope e.scope scope) events) in
    let u : Unique quote rows =
      All-rows _ events scope (All-map _ _ events (λ e h. All-rows _ events scope h) apart) in
    let grouped = group_each quote rows [] in
    let p : OutcomeProjection = record {
      scope = scope;
      events = rows;
      current = [];
      conflicts = [];
      dispositions = [];
    } in
    let all_groups = sort_by (λ g. g.key) grouped in
    let ds = (project_groups quote all_groups p).dispositions in
    let placed =
      All-sort_by (OfMembers (λ e. IsDisposed ds e.event_id)) (λ g. g.key) grouped
        (project_groups-has quote all_groups p) in
    let has = (All-group_each (λ e. IsDisposed ds e.event_id) quote rows [] placed).0 in
    let said =
      project_groups-Says quote rows all_groups p u
        (All-sorted _ (λ g. g.key) grouped (group_each-facts_of quote rows)) tt in
    rw (events-project_groups quote all_groups p) (
      All-In _ rows (λ e i.
        Says-entry quote rows ds e (entry e.event_id ds) i said (In-All _ e rows has i) refl))
