-- ===== src/Source/Streak/Uninterrupted.antt =====
-- Which checks a streak consists of, said without a running tally: the checks after the last one that
-- found something.
use job_hound.Base.{
  append-nil, append_assoc, ℕ, ◌+◌, ◌≡◌, refl, sym, ◌∙◌, String, true, false, ◌&&◌, Option, none,
  some, List, [], ◌∷◌, ◌++◌, map, length, any, if◌then◌else◌, Bool-cases, inl, inr, arith,
}
use job_hound.Source.Checks.{
  SourceCheck, is_adequate, has_novel, Tally, start, is_apart, count_zero, tally_check, tally,
}

-- The checks after the last one that has found something.
unfoldable pub since_novel : List SourceCheck → List SourceCheck
since_novel [] = []
since_novel (c ∷ cs) =
    let later = since_novel cs in
    if any has_novel cs then later else if has_novel c then cs else c ∷ cs

-- The adequate checks, each in a window that starts no earlier than the one before ends.
unfoldable pub apart_from : Option ℕ → List SourceCheck → List SourceCheck
unfolding is_adequate
apart_from e [] = []
apart_from e (c ∷ cs) =
    let taken = apart_from (some c.window_end) cs in
    let passed = apart_from e cs in
    if is_adequate c && is_apart e c.window_start then c ∷ taken else passed

-- That a tally has gone on from some ids and a number by some checks.
record WentOn (before : List String) (n : ℕ) (zs : List SourceCheck) (t : Tally) : Type 0 where
  ids : t.zero_checks ≡ before ++ map (λ c. c.check_id) zs
  streak : t.streak ≡ n + length zs

-- Where nothing is found, every turn goes on from what was counted.
tally-WentOn :
    (t : Tally) (cs : List SourceCheck)
    → any has_novel cs ≡ false
    → WentOn t.zero_checks t.streak (apart_from t.zero_end cs) (tally t cs)
unfolding tally tally_check count_zero apart_from
tally-WentOn t [] h = record { ids = sym (append-nil t.zero_checks); streak = omega arith }
tally-WentOn t (c ∷ cs) h =
    let n : has_novel c ≡ false = ground (arith, h) in
    let h' : any has_novel cs ≡ false = ground (arith, h) in
    elim (Bool-cases (is_adequate c)) [
      | inr a ↦ rw (n, a) (tally-WentOn t cs h')
      | inl a ↦
          let t' : Tally = record t { adequate = t.adequate ++ c.check_id ∷ [] } in
          elim (Bool-cases (is_apart t.zero_end c.window_start)) [
            | inr b ↦
                let over : Tally = record t' { overlapping = t.overlapping ++ c.check_id ∷ [] } in
                let k = tally-WentOn over cs h' in
                rw (n, a, b) (record { ids = k.ids; streak = k.streak })
            | inl b ↦
                let next : Tally = record t' {
                  streak = t.streak + 1;
                  zero_end = some c.window_end;
                  zero_checks = t.zero_checks ++ c.check_id ∷ [];
                } in
                let k = tally-WentOn next cs h' in
                let s = k.streak in
                rw (n, a, b)
                  (record {
                    ids = k.ids ∙ append_assoc t.zero_checks (c.check_id ∷ []) _;
                    streak = omega (arith, s);
                  })
          ]
    ]

-- Where something is found, what was counted before the last finding is forgotten.
tally-since_novel :
    (t : Tally) (cs : List SourceCheck)
    → any has_novel cs ≡ true
    → WentOn [] 0 (apart_from none (since_novel cs)) (tally t cs)
unfolding tally tally_check since_novel
tally-since_novel t [] h = cc
tally-since_novel t (c ∷ cs) h = elim (Bool-cases (any has_novel cs)) [
  | inl e ↦ rw e (tally-since_novel (tally_check t c) cs e)
  | inr e ↦
      let n : has_novel c ≡ true = ground (arith, h, e) in
      elim (Bool-cases (is_adequate c)) [
        | inl a ↦ rw (e, n, a) (tally-WentOn _ cs e)
        | inr a ↦ rw (e, n, a) (tally-WentOn _ cs e)
      ]
]

since_novel-all : (cs : List SourceCheck) → any has_novel cs ≡ false → since_novel cs ≡ cs
unfolding since_novel
since_novel-all [] h = refl
since_novel-all (c ∷ cs) h =
    let n : has_novel c ≡ false = ground (arith, h) in
    let h' : any has_novel cs ≡ false = ground (arith, h) in rw (h', n) refl

-- A fresh tally of checks counts those that stand apart after the last finding.
pub tally-start :
    (cs : List SourceCheck)
    → ((tally start cs).zero_checks ≡ map (λ c. c.check_id) (apart_from none (since_novel cs)))
      × ((tally start cs).streak ≡ length (apart_from none (since_novel cs)))
tally-start cs = elim (Bool-cases (any has_novel cs)) [
  | inl e ↦ (let k = tally-since_novel start cs e in let s = k.streak in (k.ids, omega (arith, s)))
  | inr e ↦
      (let k = tally-WentOn start cs e in
        let s = k.streak in rw (since_novel-all cs e) (k.ids, omega (arith, s)))
]
