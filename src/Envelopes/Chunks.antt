-- ===== src/Envelopes/Chunks.antt =====
-- `_chunk` of jobhound/notify/telegram.py and `_telegram_parts` of jobhound/delivery_transport.py, on
-- code points.
use job_hound.Base.{
  ℕ, zero, suc, ◌+◌, ◌/◌, ◌%◌, Bool, true, false, not, ◌||◌, List, [], ◌∷◌, ◌++◌, ltb, length,
  if◌then◌else◌,
}

abbrev pub max_len : ℕ
max_len = 4000

-- `2 if ord(char) > 0xFFFF else 1`
abbrev pub size : ℕ → ℕ
size c = if ltb 65535 c then 2 else 1

abbrev pub is_nil : {A : Type 0} → List A → Bool
is_nil [] = true
is_nil (x ∷ xs) = false

-- The locals of `_chunk`.
pub record Cut : Type 0 where
  pub chunks : List (List ℕ)
  pub current : List ℕ
  pub units : ℕ

unfoldable pub cut_char : Cut → ℕ → Cut
cut_char s c =
    if ltb max_len (s.units + size c)
    then record { chunks = s.chunks ++ s.current ∷ []; current = c ∷ []; units = size c }
    else record { chunks = s.chunks; current = s.current ++ c ∷ []; units = s.units + size c }

unfoldable pub cut_each : Cut → List ℕ → Cut
unfolding cut_char
cut_each s [] = s
cut_each s (c ∷ cs) = cut_each (cut_char s c) cs

abbrev pub no_cut : Cut
no_cut = record { chunks = []; current = []; units = 0 }

abbrev pub last_chunk : Cut → List (List ℕ)
last_chunk s =
    if not (is_nil s.current) || is_nil s.chunks then s.chunks ++ s.current ∷ [] else s.chunks

-- `_chunk`
unfoldable pub chunk : List ℕ → List (List ℕ)
unfolding cut_each
chunk text = last_chunk (cut_each no_cut text)

-- The digits of a number, with the fuel of the number itself.
unfoldable pub digits : ℕ → ℕ → List ℕ
digits zero n = []
digits (suc fuel) n =
    let rest = digits fuel (n / 10) in
    if ltb n 10 then (48 + n) ∷ [] else rest ++ (48 + n % 10) ∷ []

abbrev pub decimal : ℕ → List ℕ
decimal n = digits (suc n) n

-- `f'({i}/{n})\n'`
unfoldable pub prefix : ℕ → ℕ → List ℕ
unfolding digits
prefix i n = 40 ∷ decimal i ++ 47 ∷ decimal n ++ 41 ∷ 10 ∷ []

unfoldable pub number_each : ℕ → ℕ → List (List ℕ) → List (List ℕ)
unfolding prefix
number_each i n [] = []
number_each i n (c ∷ cs) = (prefix i n ++ c) ∷ number_each (suc i) n cs

-- `_telegram_parts`
unfoldable pub telegram_parts : List ℕ → List (List ℕ)
unfolding chunk number_each
telegram_parts body =
    let cs = chunk body in if ltb 1 (length cs) then number_each 1 (length cs) cs else cs
