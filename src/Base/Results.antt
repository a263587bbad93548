-- ===== src/Base/Results.antt =====
-- What a Go function comes back with: a result, an error value, or a panic that unwinds it.
use Prim.Native.Nat.{ℕ}
use Prim.Native.String.{String}
use mathlib.Core.Path.{◌≡◌, refl}
use mathlib.Core.Bool.{Bool, true, false}
use mathlib.Core.List.{List}

-- A Go `error`: `errors.New` and `fmt.Errorf` with a fixed text, `fmt.Errorf` that quotes a string,
-- and a text put in front of a cause (`errors.Wrap`, or `fmt.Errorf` with `%v` or `%w`).
pub data GoError : Type 0 where
  new : String → GoError
  quoting : String → List ℕ → GoError
  wrap : String → GoError → GoError

pub data Outcome {ℓ} (A : Type ℓ) : Type ℓ where
  ok : A → Outcome A
  fail : GoError → Outcome A
  panic : GoError → Outcome A

-- Go on with the result, or hand the error or the panic to the caller.
infixl 5 ◌>>=◌
abbrev pub ◌>>=◌ {ℓ κ} : {A : Type ℓ} {B : Type κ} → Outcome A → (A → Outcome B) → Outcome B
panic reason >>= next = panic reason
fail error >>= next = fail error
ok result >>= next = next result

infixl 5 ◌>>◌
abbrev pub ◌>>◌ {ℓ} : {B : Type ℓ} → Outcome (Unit {0}) → Outcome B → Outcome B
check >> after = check >>= λ done. after

-- `if err != nil { return …, errors.Wrap(err, text) }`
abbrev pub wrapping {ℓ} : {A : Type ℓ} → String → Outcome A → Outcome A
wrapping text (ok a) = ok a
wrapping text (fail e) = fail (wrap text e)
wrapping text (panic e) = panic e

-- `if err != nil { log.Panic(text, err) }`, and `Expect(err).Should(BeNil())`
abbrev pub or_panic {ℓ} : {A : Type ℓ} → String → Outcome A → Outcome A
or_panic text (ok a) = ok a
or_panic text (fail e) = panic (wrap text e)
or_panic text (panic e) = panic e

-- `if !test { return …, e }`
abbrev pub guard : Bool → GoError → Outcome (Unit {0})
guard true e = ok tt
guard false e = fail e

-- `Expect(test).Should(…)`, a failed assertion unwinds the test.
abbrev pub expect : Bool → String → Outcome (Unit {0})
expect true text = ok tt
expect false text = panic (new text)

pub >>=-eq-ok {ℓ κ} :
    {A : Type ℓ} {B : Type κ} (first : Outcome A) (next : A → Outcome B) {out : B}
    → (first >>= next) ≡ ok out
    → (mid : A) × (first ≡ ok mid) × (next mid ≡ ok out)
>>=-eq-ok (panic reason) next whole = cc
>>=-eq-ok (fail error) next whole = cc
>>=-eq-ok (ok mid) next whole = (mid, refl, whole)

-- Inversion of a bind behind an assertion that there is no error.
pub >>=-or_panic {ℓ κ} :
    {A : Type ℓ} {B : Type κ} (text : String) (first : Outcome A) (next : A → Outcome B) {out : B}
    → (or_panic text first >>= next) ≡ ok out
    → (mid : A) × (first ≡ ok mid) × (next mid ≡ ok out)
>>=-or_panic text (panic reason) next whole = cc
>>=-or_panic text (fail error) next whole = cc
>>=-or_panic text (ok mid) next whole = (mid, refl, whole)

pub or_panic-eq-ok {ℓ} :
    {A : Type ℓ} (text : String) (m : Outcome A) {a : A} → or_panic text m ≡ ok a → m ≡ ok a
or_panic-eq-ok text (ok a) h = h
or_panic-eq-ok text (fail e) h = cc
or_panic-eq-ok text (panic e) h = cc

pub ok-injective {ℓ} : {A : Type ℓ} {a b : A} → ok a ≡ ok b → a ≡ b
ok-injective h = cc

-- What is behind an assertion has run only if the assertion holds.
pub >>-expect {ℓ} :
    {B : Type ℓ} (test : Bool) (text : String) (after : Outcome B) {out : B}
    → (expect test text >> after) ≡ ok out
    → (test ≡ true) × (after ≡ ok out)
>>-expect false text after whole = cc
>>-expect true text after whole = (refl, whole)

pub >>=-ok {ℓ} : {A : Type ℓ} (o : Outcome A) → (o >>= λ a. ok a) ≡ o
>>=-ok (ok a) = refl
>>=-ok (fail e) = refl
>>=-ok (panic e) = refl

pub >>=-assoc {ℓ κ μ} :
    {A : Type ℓ} {B : Type κ} {C : Type μ} (o : Outcome A) (f : A → Outcome B) (g : B → Outcome C)
    → (o >>= f >>= g) ≡ (o >>= λ a. f a >>= g)
>>=-assoc (ok a) f g = refl
>>=-assoc (fail e) f g = refl
>>=-assoc (panic e) f g = refl
