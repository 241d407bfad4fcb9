-- ===== src/Envelopes/Dispatched.antt =====
-- What `dispatch_envelope` has seen before it writes or sends anything, and when its loop ends.
use job_hound.Base.{
  ℕ, ◌≡◌, refl, ◌∙◌, ◌⊎◌, inl, inr, String, Bool, true, false, Option, none, some, List, [], ◌∷◌,
  codes, codes_before, str_eq_iff, map, arith,
}
use job_hound.Outbox.Rows.{Owner, Part, Db}
use job_hound.Outbox.Monad.{
  Result, ok, err, Action, pure, gets, or_raise, raise_if, ◌>>=◌, ◌>>◌, Error,
}
use job_hound.Outbox.Queries.{owned}
use job_hound.Envelopes.Reads.{owned_envelope, owned_each, members}
use job_hound.Envelopes.Returned.{Returns}
use job_hound.Envelopes.Runs.{
  View, inspect, Reply, Turn, same_texts, expected_parts, dispatch_envelope,
}

-- An action that only reads.
record Still {A : Type 0} (m : Action A) : Type 0 where
  still : (db : Db) → (m db).1 ≡ db

module _ {A B : Type 0} where
  Still-bind :
      {m : Action A} {k : A → Action B} → Still m → ((a : A) → Still (k a)) → Still (m >>= k)
  unfolding ◌>>=◌
  Still-bind {m} {k} hm hk = record { still = λ db. go (m db).0 (m db).1 ∙ hm.still db }
    where
      go :
          (r : Result A) (db' : Db)
          → (let y : Result B × Db = elim r [ ok a ↦ k a db' | err e ↦ (err e, db') ] in y).1 ≡ db'
      go (ok a) db' = (hk a).still db'
      go (err e) db' = refl

module _ {A : Type 0} where
  Still-pure : (a : A) → Still (pure a)
  unfolding pure
  Still-pure a = record { still = λ db. refl }

  Still-gets : (f : Db → A) → Still (gets f)
  unfolding gets
  Still-gets f = record { still = λ db. refl }

  Still-or_raise : (o : Option A) (e : Error) → Still (or_raise o e)
  unfolding or_raise
  Still-or_raise none e = record { still = λ db. refl }
  Still-or_raise (some a) e = record { still = λ db. refl }

Still-owned : (o : Owner) (id : ℕ) → Still (owned o id)
unfolding owned
Still-owned o id = record { still = λ db. (Still-or_raise _ _).still db }

Still-owned_each : (o : Owner) (ids : List ℕ) → Still (owned_each o ids)
unfolding owned_each
Still-owned_each o [] = Still-pure []
Still-owned_each o (id ∷ ids) =
    Still-bind (Still-owned o id)
      (λ row. Still-bind (Still-owned_each o ids) (λ rows. Still-pure (row ∷ rows)))

ruleset reading = (Still-bind, Still-pure, Still-gets, Still-or_raise, Still-owned_each)

Still-inspect : (o : Owner) (env : String) → Still (inspect o env)
unfolding inspect owned_envelope members
Still-inspect o env = search reading

-- Two texts of which neither comes before the other are the same.
codes_before-antisym :
    (xs ys : List ℕ) → codes_before xs ys ≡ false → codes_before ys xs ≡ false → xs ≡ ys
codes_before-antisym [] [] h k = refl
codes_before-antisym [] (y ∷ ys) h k = cc
codes_before-antisym (x ∷ xs) [] h k = cc
codes_before-antisym (x ∷ xs) (y ∷ ys) h k =
    let e : x ≡ y = ground (arith, h, k) in
    let rest = codes_before-antisym xs ys (ground (arith, h, k, e)) (ground (arith, h, k, e)) in
    rw (e, rest) refl

same_texts-same : (xs ys : List (List ℕ)) → same_texts xs ys ≡ true → xs ≡ ys
unfolding same_texts
same_texts-same [] [] h = refl
same_texts-same [] (y ∷ ys) h = cc
same_texts-same (x ∷ xs) [] h = cc
same_texts-same (x ∷ xs) (y ∷ ys) h =
    let e = codes_before-antisym x y (ground (arith, h)) (ground (arith, h)) in
    let rest = same_texts-same xs ys (ground (arith, h)) in rw (e, rest) refl

-- The envelope is the owner's, the confirmations are of its destination and its body's hash, the hash is
-- that of its body, and its parts are the body as its channel cuts it.
pub record IsVerified (hash : String → String) (o : Owner)
    (env confirm_target confirm_body : String) (db : Db) : Type 0 where
  pub view : View
  pub inspected : (inspect o env db).0 ≡ ok view
  pub target : confirm_target ≡ view.envelope.destination.key
  pub body : confirm_body ≡ view.envelope.body_hash
  pub hashed : hash view.envelope.body ≡ confirm_body
  pub cut : map (λ p. codes p.body) view.parts ≡ expected_parts view.envelope

module _ {A : Type 0} (C : Type 0) (db : Db) where
  abbrev Guarded : Action A → Type 0
  Guarded m = ((m db).1 ≡ db) ⊎ C

  Guarded-raise_if :
      (c : Bool) (e : Error) (m : Action A) → (c ≡ false → Guarded m) → Guarded (raise_if c e >> m)
  unfolding raise_if ◌>>=◌
  Guarded-raise_if true e m h = inl refl
  Guarded-raise_if false e m h = h refl

  Guarded-read :
      {B : Type 0} (m : Action B) (k : B → Action A)
      → Still m
      → ((b : B) → (m db).0 ≡ ok b → Guarded (k b))
      → Guarded (m >>= k)
  unfolding ◌>>=◌
  Guarded-read {B} m k s h = go (m db).0 (m db).1 (s.still db) h
    where
      go :
          (r : Result B) (db' : Db)
          → db' ≡ db
          → ((b : B) → r ≡ ok b → Guarded (k b))
          → ((let y : Result A × Db = elim r [ ok b ↦ k b db' | err e ↦ (err e, db') ] in y).1 ≡ db)
            ⊎ C
      go (ok b) db' e g = elim (g b refl) [ inl u ↦ inl (rw e u) | inr c ↦ inr c ]
      go (err x) db' e g = inl e

-- Unless the owner's envelope is as confirmed, its hash that of its body and its parts the body as its
-- channel cuts it, a dispatch writes nothing, whatever the sender would do.
pub dispatch_envelope-IsVerified :
    (hash : String → String) (o : Owner) (env : String) (sender : Part → Reply)
    (confirm_target confirm_body : String) (turns : List Turn) (db : Db)
    → ((dispatch_envelope hash o env sender confirm_target confirm_body turns db).1 ≡ db)
      ⊎ IsVerified hash o env confirm_target confirm_body db
unfolding dispatch_envelope
dispatch_envelope-IsVerified hash o env sender confirm_target confirm_body turns db =
    let C = IsVerified hash o env confirm_target confirm_body db in
    Guarded-read C db _ _ (Still-gets _) (λ writable got. Guarded-raise_if C db _ _ _ (λ can.
      Guarded-raise_if C db _ _ _ (λ few.
        Guarded-read C db (inspect o env) _ (Still-inspect o env) (λ initial seen.
          Guarded-raise_if C db _ _ _ (λ confirmed. Guarded-raise_if C db _ _ _ (λ intact.
            Guarded-raise_if C db _ _ _ (λ cut. inr (record {
              view = initial;
              inspected = seen;
              target = (str_eq_iff _ _).0 (ground (arith, confirmed));
              body = (str_eq_iff _ _).0 (ground (arith, confirmed));
              hashed = (str_eq_iff _ _).0 (ground (arith, intact));
              cut = same_texts-same _ _ (ground (arith, cut));
            }))))))))

-- An action that never answers that there is more.
abbrev Last : Action Bool → Type 0
Last = Returns (λ b. b ≡ false)
