-- ===== src/Envelopes/Keys.antt =====
-- A part has its envelope and its ordinal to itself.
use job_hound.Base.{
  ℕ, ◌≡◌, sym, ◌∙◌, inl, inr, String, Bool, true, false, ◌&&◌, some, List, [], ◌∷◌, ◌++◌, ◌==◌,
  arith, str_eq, str_eq_iff, find?, any, All, All-append, All-map, All-filter, All-filter_test,
  All-find?, All-every, All-update_where, update_where, Bool-cases, or-false, and-true,
}
use job_hound.Outbox.Rows.{Part}
use job_hound.Envelopes.Reads.{parts_of}
use job_hound.Envelopes.Writes.{is_part}

abbrev same_key : Part → Part → Bool
same_key p q = is_part p.envelope p.ordinal q

abbrev pub HasUniqueKeys : List Part → Type 0
HasUniqueKeys [] = Unit
HasUniqueKeys (p ∷ ps) = All (λ q. same_key p q ≡ false) ps × HasUniqueKeys ps

module _ (env : String) (ordinal : ℕ) (f : Part → Part)
    (same : (p : Part) → ((f p).envelope ≡ p.envelope) × ((f p).ordinal ≡ p.ordinal)) where
  keys-update :
      (p : Part) (ps : List Part)
      → All (λ q. same_key p q ≡ false) ps
      → All (λ q. same_key p q ≡ false) (update_where (is_part env ordinal) f ps)
  keys-update p ps h =
      All-update_where _ _ (is_part env ordinal) f ps (λ q _ k. rw ((same q).0, (same q).1) k)
        (λ q _ k. k) h

  pub HasUniqueKeys-update :
      (ps : List Part) → HasUniqueKeys ps → HasUniqueKeys (update_where (is_part env ordinal) f ps)
  HasUniqueKeys-update [] h = tt
  HasUniqueKeys-update (p ∷ ps) h = elim (Bool-cases (is_part env ordinal p)) [
    | inl e ↦ rw e (rw ((same p).0, (same p).1) (keys-update p ps h.0), HasUniqueKeys-update ps h.1)
    | inr e ↦ rw e (keys-update p ps h.0, HasUniqueKeys-update ps h.1)
  ]

pub found-Both :
    (env : String) (t : Part → Bool) (P : Part → Type 0) (ps : List Part) (p : Part)
    → find? t (parts_of env ps) ≡ some p
    → All P ps
    → P p × (p.envelope ≡ env) × (t p ≡ true)
found-Both env t P ps p e h =
    let kept : All P (parts_of env ps) = All-filter P _ ps h in
    let own : All (λ q. q.envelope ≡ env) (parts_of env ps) =
      All-filter_test _ ps (λ q b. (str_eq_iff q.envelope env).0 b) in
    let (a, b) = All-find? P t (parts_of env ps) p kept e in
    (a, (All-find? _ t (parts_of env ps) p own e).0, b)

-- The row that a look-up finds is the only one under its key.
pub found_unique :
    (env : String) (t : Part → Bool) (ps : List Part) (p : Part)
    → HasUniqueKeys ps
    → find? t (parts_of env ps) ≡ some p
    → All (λ q. is_part env p.ordinal q ≡ true → q ≡ p) ps
found_unique env t [] p u e = tt
found_unique env t (r ∷ ps) p u e = elim (Bool-cases (str_eq r.envelope env)) [
  | inl own ↦
      let same : r.envelope ≡ env = (str_eq_iff r.envelope env).0 own in
      elim (Bool-cases (t r)) [
        | inl hit ↦
            let q : some r ≡ some p = rw (own, hit) at e in
            let eq : r ≡ p = cc in (λ _. eq, All-map _ _ ps (λ s k b. cc) u.0)
        | inr miss ↦
            let e' : find? t (parts_of env ps) ≡ some p = rw (own, miss) at e in
            let (apart, home, _) = found-Both env t _ ps p e' u.0 in
            (
              λ b. ground (arith, (str_eq_iff p.envelope r.envelope).1 (home ∙ sym same)),
              found_unique env t ps p u.1 e',
            )
      ]
  | inr other ↦
      let e' : find? t (parts_of env ps) ≡ some p = rw other at e in
      (λ b. ground arith, found_unique env t ps p u.1 e')
]

-- A found part is the envelope's.
pub found-home :
    (env : String) (t : Part → Bool) (ps : List Part) (p : Part)
    → find? t (parts_of env ps) ≡ some p
    → p.envelope ≡ env
found-home env t ps p e = (found-Both env t (λ _. Unit) ps p e (All-every ps (λ q. tt))).1

pub apart_from :
    (n : Part) (ps : List Part)
    → any (λ p. str_eq p.envelope n.envelope && p.ordinal == n.ordinal) ps ≡ false
    → HasUniqueKeys ps
    → HasUniqueKeys (ps ++ n ∷ [])
apart_from n [] free u = (tt, tt)
apart_from n (p ∷ ps) free u =
    let (apart, rest) = or-false (is_part n.envelope n.ordinal p) _ free in
    (All-append _ ps (n ∷ []) u.0 (is_part-sym p n apart, tt), apart_from n ps rest u.1)
  where
    is_part-sym :
        (p n : Part)
        → is_part n.envelope n.ordinal p ≡ false
        → is_part p.envelope p.ordinal n ≡ false
    is_part-sym p n h = elim (Bool-cases (is_part p.envelope p.ordinal n)) [
      | inr e ↦ e
      | inl e ↦
          let (home, number) = and-true (str_eq n.envelope p.envelope) _ e in
          let same =
            (str_eq_iff p.envelope n.envelope).1
              (sym ((str_eq_iff n.envelope p.envelope).0 home)) in
          ground arith
    ]
