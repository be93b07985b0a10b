-- ===== src/Outcome.antt =====
-- Results of code that can throw, and the monad of methods that change an object and can throw.
use lido.Base.{◌≡◌, ◌≢◌, ap, refl, ◌⊎◌, inl, inr, Bool, true, false}

-- `range_error` is a RangeError, `failure` an Error, by what the source's text for it says.
-- `stuck` is no JavaScript value: a loop of the model ran out of fuel.
pub data Exception : Type 0 where
  range_error : Exception
  cipher_failure : Exception
  bad_argument : Exception
  exhausted : Exception
  stuck : Exception

pub data Result {ℓ} (A : Type ℓ) : Type ℓ where
  ok : A → Result A
  err : Exception → Result A

-- A method of an object of type S. An exception drops the object: no caller uses it afterwards.
abbrev pub M : Type 0 → Type 0 → Type 0
M S A = S → Result (A × S)

unfoldable pub pure : {S A : Type 0} → A → M S A
pure a s = ok (a, s)

infixl 5 ◌>>=◌ ◌>>◌
unfoldable pub ◌>>=◌ : {S A B : Type 0} → M S A → (A → M S B) → M S B
◌>>=◌ m f s = elim (m s) [ ok (a, s') ↦ f a s' | err e ↦ err e ]

unfoldable pub ◌>>◌ : {S B : Type 0} → M S (Unit {0}) → M S B → M S B
◌>>◌ m k s = elim (m s) [ ok (_, s') ↦ k s' | err e ↦ err e ]

unfoldable pub guard : {S : Type 0} → Bool → Exception → M S (Unit {0})
guard true e s = ok (tt, s)
guard false e s = err e

-- One step of a block, where the action's result is known.
pub >>=_ok :
    {S A B : Type 0} (m : M S A) (f : A → M S B) (s : S) {a : A} {s' : S}
    → m s ≡ ok (a, s')
    → (m >>= f) s ≡ f a s'
unfolding ◌>>=◌
>>=_ok m f s e = rw (e, ◌>>=◌)

pub >>=_err :
    {S A B : Type 0} (m : M S A) (f : A → M S B) (s : S) {x : Exception}
    → m s ≡ err x
    → (m >>= f) s ≡ err x
unfolding ◌>>=◌
>>=_err m f s e = rw (e, ◌>>=◌)

pub >>_ok :
    {S B : Type 0} (m : M S (Unit {0})) (n : M S B) (s : S) {s' : S}
    → m s ≡ ok (tt, s')
    → (m >> n) s ≡ n s'
unfolding ◌>>◌
>>_ok m n s e = rw (e, ◌>>◌)

pub >>_err :
    {S B : Type 0} (m : M S (Unit {0})) (n : M S B) (s : S) {x : Exception}
    → m s ≡ err x
    → (m >> n) s ≡ err x
unfolding ◌>>◌
>>_err m n s e = rw (e, ◌>>◌)

-- A guard that holds does nothing.
pub guard-true :
    {S B : Type 0} (b : Bool) (x : Exception) (m : M S B) → b ≡ true → (guard b x >> m) ≡ m
unfolding guard ◌>>◌
guard-true b x m h = rw h

-- A guard that fails throws.
pub guard-false :
    {S B : Type 0} (b : Bool) (x : Exception) (m : M S B) (s : S)
    → b ≡ false
    → (guard b x >> m) s ≡ err x
unfolding guard ◌>>◌
guard-false b x m s h = rw h

pub Result-cases {ℓ} :
    {A : Type ℓ} (r : Result A) → ((a : A) × (r ≡ ok a)) ⊎ ((e : Exception) × (r ≡ err e))
Result-cases (ok a) = inl (a, refl)
Result-cases (err e) = inr (e, refl)

-- What goes on where nothing was thrown.
unfoldable pub and_then : {A B : Type 0} → Result A → (A → Result B) → Result B
and_then (ok a) f = f a
and_then (err e) f = err e

pub and_then_ok :
    {A B : Type 0} (r : Result A) (f : A → Result B) {a : A} → r ≡ ok a → and_then r f ≡ f a
unfolding and_then
and_then_ok r f e = rw e

pub and_then_inv :
    {A B : Type 0} (r : Result A) (f : A → Result B) {b : B}
    → and_then r f ≡ ok b
    → (a : A) × (r ≡ ok a) × (f a ≡ ok b)
unfolding and_then
and_then_inv (ok a) f e = (a, refl, e)
and_then_inv (err x) f e = absurd (cc e)

abbrev result_or {ℓ} : {A : Type ℓ} → A → Result A → A
result_or a (ok b) = b
result_or a (err e) = a

pub ok-injective {ℓ} : {A : Type ℓ} {a b : A} → ok a ≡ ok b → a ≡ b
ok-injective {a = a} e = ap (result_or a) e

pub err≢ok {ℓ} : {A : Type ℓ} {x : Exception} {a : A} → err x ≢ ok a
err≢ok e = cc e
