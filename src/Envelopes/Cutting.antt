-- ===== src/Envelopes/Cutting.antt =====
-- A text is cut without loss, into parts that the sender admits.
use job_hound.Base.{
  ℕ, zero, suc, ◌+◌, ◌/◌, ◌%◌, ◌≤◌, ◌≡◌, refl, sym, ap, ◌∙◌, Bool, true, false, not, ◌||◌, List, [],
  ◌∷◌, ◌++◌, ltb, length, All, All-append, All-map, append-nil, append_assoc, arith, Bool-cases,
  inl, inr,
}
use job_hound.Envelopes.Chunks.{
  max_len, size, is_nil, Cut, cut_char, cut_each, no_cut, last_chunk, chunk, digits, decimal,
  prefix, number_each, telegram_parts,
}

-- The length of a text in UTF-16 units.
unfoldable pub units_of : List ℕ → ℕ
units_of [] = 0
units_of (c ∷ cs) = size c + units_of cs

unfoldable pub join : List (List ℕ) → List ℕ
join [] = []
join (c ∷ cs) = c ++ join cs

units-append : (xs ys : List ℕ) → units_of (xs ++ ys) ≡ units_of xs + units_of ys
unfolding units_of
units-append [] ys = omega arith
units-append (x ∷ xs) ys = let h = units-append xs ys in omega (arith, h)

join-append : (xs ys : List (List ℕ)) → join (xs ++ ys) ≡ join xs ++ join ys
unfolding join
join-append [] ys = refl
join-append (x ∷ xs) ys =
    ap (λ t. x ++ t) (join-append xs ys) ∙ sym (append_assoc x (join xs) (join ys))

join-snoc : (xs : List (List ℕ)) (x : List ℕ) → join (xs ++ x ∷ []) ≡ join xs ++ x
unfolding join
join-snoc xs x = join-append xs (x ∷ []) ∙ ap (λ t. join xs ++ t) (append-nil x)

-- A character goes to the end of what was cut so far.
cut_char-join :
    (s : Cut) (c : ℕ)
    → join (cut_char s c).chunks ++ (cut_char s c).current ≡ (join s.chunks ++ s.current) ++ c ∷ []
unfolding cut_char
cut_char-join s c = elim (Bool-cases (ltb max_len (s.units + size c))) [
  | inl e ↦ rw (e, join-snoc s.chunks s.current) refl
  | inr e ↦ rw e (sym (append_assoc (join s.chunks) s.current (c ∷ [])))
]

cut_each-join :
    (s : Cut) (cs : List ℕ)
    → join (cut_each s cs).chunks ++ (cut_each s cs).current ≡ (join s.chunks ++ s.current) ++ cs
unfolding cut_each
cut_each-join s [] = sym (append-nil _)
cut_each-join s (c ∷ cs) =
    cut_each-join (cut_char s c) cs
    ∙ ap (λ t. t ++ cs) (cut_char-join s c)
    ∙ append_assoc (join s.chunks ++ s.current) (c ∷ []) cs

last_chunk-join : (s : Cut) → join (last_chunk s) ≡ join s.chunks ++ s.current
last_chunk-join s = elim (Bool-cases (not (is_nil s.current) || is_nil s.chunks)) [
  | inl e ↦ rw e (join-snoc s.chunks s.current)
  | inr e ↦
      rw e
        (sym (append-nil _) ∙ ap (λ t. join s.chunks ++ t) (nil_lem s.current (is_nil s.chunks) e))
]
  where
    nil_lem : (xs : List ℕ) (b : Bool) → not (is_nil xs) || b ≡ false → [] ≡ xs
    nil_lem [] b e = refl
    nil_lem (x ∷ xs) b e = cc

-- The chunks of a text, one after the other, are the text.
pub join-chunk : (text : List ℕ) → join (chunk text) ≡ text
unfolding chunk join
join-chunk text = last_chunk-join (cut_each no_cut text) ∙ cut_each-join no_cut text

abbrev IsShort : List ℕ → Type 0
IsShort c = units_of c ≤ max_len

record IsCut (s : Cut) : Type 0 where
  counted : s.units ≡ units_of s.current
  bounded : s.units ≤ max_len
  short : All IsShort s.chunks

cut_char-IsCut : (s : Cut) (c : ℕ) → IsCut s → IsCut (cut_char s c)
unfolding cut_char units_of
cut_char-IsCut s c h = elim (Bool-cases (ltb max_len (s.units + size c))) [
  | inl e ↦ rw e (record {
    counted = omega arith;
    bounded = ground arith;
    short =
        All-append IsShort s.chunks (s.current ∷ []) h.short
          ((let a = h.counted in let b = h.bounded in omega (arith, a, b)), tt);
  })
  | inr e ↦ rw e (record {
    counted = (let a = h.counted in let b = units-append s.current (c ∷ []) in omega (arith, a, b));
    bounded = ground arith;
    short = h.short;
  })
]

cut_each-IsCut : (s : Cut) (cs : List ℕ) → IsCut s → IsCut (cut_each s cs)
unfolding cut_each
cut_each-IsCut s [] h = h
cut_each-IsCut s (c ∷ cs) h = cut_each-IsCut (cut_char s c) cs (cut_char-IsCut s c h)

-- Each chunk of a text has at most 4000 UTF-16 units.
pub chunk-IsShort : (text : List ℕ) → All (λ c. units_of c ≤ 4000) (chunk text)
unfolding chunk units_of
chunk-IsShort text =
    let h =
      cut_each-IsCut no_cut text (record { counted = refl; bounded = omega arith; short = tt }) in
    last_lem (cut_each no_cut text) h
  where
    last_lem : (s : Cut) → IsCut s → All IsShort (last_chunk s)
    last_lem s h = elim (Bool-cases (not (is_nil s.current) || is_nil s.chunks)) [
      | inl e ↦ rw e (
          All-append IsShort s.chunks (s.current ∷ []) h.short
            ((let a = h.counted in let b = h.bounded in omega (arith, a, b)), tt))
      | inr e ↦ rw e h.short
    ]

digit-units : (fuel n : ℕ) → ltb n 10 ≡ true → units_of (digits (suc fuel) n) ≡ 1
unfolding digits units_of
digit-units fuel n e = rw e (ground arith)

digits-units : (n : ℕ) → n ≤ 99 → units_of (decimal n) ≤ 2
unfolding digits units_of
digits-units zero h = ground arith
digits-units (suc m) h = elim (Bool-cases (ltb (suc m) 10)) [
  | inl e ↦ (let a = digit-units (suc m) (suc m) e in omega (arith, a))
  | inr e ↦
      let small : ltb (suc m / 10) 10 ≡ true = ground arith in
      let a = digit-units m (suc m / 10) small in
      let b = units-append (digits (suc m) (suc m / 10)) ((48 + suc m % 10) ∷ []) in
      rw e (ground arith)
]

frame-units :
    (a b : List ℕ)
    → units_of a ≤ 2
    → units_of b ≤ 2
    → units_of (40 ∷ a ++ 47 ∷ b ++ 41 ∷ 10 ∷ []) ≤ 8
unfolding units_of
frame-units a b ha hb =
    let c = units-append (a ++ 47 ∷ b) (41 ∷ 10 ∷ []) in
    let d = units-append a (47 ∷ b) in omega (arith, ha, hb, c, d)

prefix-units : (i n : ℕ) → i ≤ 99 → n ≤ 99 → units_of (prefix i n) ≤ 8
unfolding prefix
prefix-units i n hi hn = frame-units (decimal i) (decimal n) (digits-units i hi) (digits-units n hn)

number_each-units :
    (i n : ℕ) (cs : List (List ℕ))
    → i + length cs ≤ 99
    → n ≤ 99
    → All IsShort cs
    → All (λ c. units_of c ≤ 4096) (number_each i n cs)
unfolding number_each
number_each-units i n [] hi hn h = tt
number_each-units i n (c ∷ cs) hi hn h =
    let a = prefix-units i n (omega (arith, hi)) hn in
    let b = units-append (prefix i n) c in
    let k = h.0 in
    (omega (arith, a, b, k), number_each-units (suc i) n cs (omega (arith, hi)) hn h.1)

-- A body that is cut into at most 32 parts, which is what `prepare` admits, has no part that the sender
-- refuses: with its prefix, each part has at most 4096 UTF-16 units.
pub telegram_parts-IsSendable :
    (body : List ℕ)
    → length (telegram_parts body) ≤ 32
    → All (λ c. units_of c ≤ 4096) (telegram_parts body)
unfolding telegram_parts number_each
telegram_parts-IsSendable body few = elim (Bool-cases (ltb 1 (length (chunk body)))) [
  | inl e ↦
      let k = length-number_each 1 (length (chunk body)) (chunk body) in
      let few' : length (number_each 1 (length (chunk body)) (chunk body)) ≤ 32 = rw e at few in
      rw e (
        number_each-units 1 (length (chunk body)) (chunk body) (omega (arith, few', k))
          (omega (arith, few', k)) (chunk-IsShort body))
  | inr e ↦ rw e (
      All-map IsShort (λ c. units_of c ≤ 4096) (chunk body) (λ c h. omega (arith, h))
        (chunk-IsShort body))
]
  where
    length-number_each : (i n : ℕ) (cs : List (List ℕ)) → length (number_each i n cs) ≡ length cs
    length-number_each i n [] = refl
    length-number_each i n (c ∷ cs) = let h = length-number_each (suc i) n cs in omega (arith, h)
