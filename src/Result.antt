-- ===== src/Result.antt =====
-- Go's `error` and the methods that return one. A method that changes an object and may fail is an
-- action: what was written before an error stays written, so the state comes back beside the error.
use pub_sub_go.Base.{◌≡◌, refl, ◌⊎◌, inl, inr, String, Bool, true, false, List}

-- `plain` holds the parts of a formatted message; `wrapped` is `fmt.Errorf("...: %w", err)`.
pub data Error : Type 0 where
  plain : List String → Error
  wrapped : String → Error → Error

pub data Result {ℓ} (A : Type ℓ) : Type ℓ where
  ok : A → Result A
  err : Error → Result A

abbrev pub Action : Type 0 → Type 0 → Type 0
Action S A = S → Result A × S

abbrev pub annotate {ℓ} : {A : Type ℓ} → String → Result A → Result A
annotate note (ok a) = ok a
annotate note (err e) = err (wrapped note e)

-- The value of a call whose error is logged and dropped.
abbrev pub ok_or {ℓ} : {A : Type ℓ} → A → Result A → A
ok_or d (ok a) = a
ok_or d (err e) = d

abbrev pub is_ok {ℓ} : {A : Type ℓ} → Result A → Bool
is_ok (ok a) = true
is_ok (err e) = false

pub Result-cases {ℓ} :
    {A : Type ℓ} (r : Result A) → ((a : A) × (r ≡ ok a)) ⊎ ((e : Error) × (r ≡ err e))
Result-cases (ok a) = inl (a, refl)
Result-cases (err e) = inr (e, refl)

module _ {S : Type 0} where
  abbrev pub pure : {A : Type 0} → A → Action S A
  pure a s = (ok a, s)

  abbrev pub raise : {A : Type 0} → Error → Action S A
  raise e s = (err e, s)

  abbrev pub modify : (S → S) → Action S (Unit {0})
  modify f s = (ok tt, f s)

  abbrev pub read : {A : Type 0} → (S → A) → Action S A
  read f s = (ok (f s), s)

  infixl 5 ◌>>=◌ ◌>>◌
  abbrev pub ◌>>=◌ : {A B : Type 0} → Action S A → (A → Action S B) → Action S B
  ◌>>=◌ m f s = let r = m s in elim r.0 [ ok a ↦ f a r.1 | err e ↦ (err e, r.1) ]

  abbrev pub ◌>>◌ : {B : Type 0} → Action S (Unit {0}) → Action S B → Action S B
  m >> k = m >>= λ _. k

  -- `if err := m; err != nil { return fmt.Errorf(note, err) }`
  abbrev pub noting : {A : Type 0} → String → Action S A → Action S A
  noting note m s = let r = m s in (annotate note r.0, r.1)

  -- `if err := m; err != nil { log }`
  abbrev pub ignoring : {A : Type 0} → Action S A → Action S (Unit {0})
  ignoring m s = (ok tt, (m s).1)

  -- The result, error and all, as a value.
  abbrev pub attempt : {A : Type 0} → Action S A → Action S (Result A)
  attempt m s = let r = m s in (ok r.0, r.1)

  result_cases :
      {A B : Type 0} (Q : Result B → Type 0) (r : Result A) (f : A → Action S B) (t : S)
      → ((e : Error) → Q (err e))
      → ((a : A) → r ≡ ok a → Q (f a t).0)
      → Q (((λ _. (r, t)) >>= f) t).0
  result_cases Q (ok a) f t he hf = hf a refl
  result_cases Q (err e) f t he hf = he e

  -- What holds of a chain's result: of an error of its first part, and of what follows a result.
  pub then_lem :
      {A B : Type 0} (Q : Result B → Type 0) (m : Action S A) (f : A → Action S B) (s : S)
      → ((e : Error) → Q (err e))
      → ((a : A) → (m s).0 ≡ ok a → Q (f a (m s).1).0)
      → Q ((m >>= f) s).0
  then_lem Q m f s he hf = result_cases Q (m s).0 f (m s).1 he hf
