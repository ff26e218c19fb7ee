-- ===== src/Base/Errors.antt =====
-- Go's errors as values: sentinels, plain messages and `fmt.Errorf` with `%w`, which keeps what it
-- wraps. A message is kept as its format; the values that are formatted into it are left out.
use Prim.Native.String.{String}
use mathlib.Core.Logic.{◌⊎◌, inl, inr}
use mathlib.Core.Path.{◌≡◌, refl}
use mathlib.Core.Bool.{Bool, true, false}

-- The sentinel errors of internal/provider and internal/truenasstore.
pub data Sentinel : Type 0 where
  not_found active foreign unsupported unsafe_operation managed_drift : Sentinel
  unmanaged target_unknown backend_unknown : Sentinel
  -- Those of garm-provider-common.
  garm_not_found garm_unauthorized garm_bad_request garm_unprocessable : Sentinel

pub data Error : Type 0 where
  sentinel : Sentinel → Error
  message : String → Error
  wrap : String → Error → Error

unfoldable pub same_sentinel : Sentinel → Sentinel → Bool
same_sentinel not_found not_found = true
same_sentinel active active = true
same_sentinel foreign foreign = true
same_sentinel unsupported unsupported = true
same_sentinel unsafe_operation unsafe_operation = true
same_sentinel managed_drift managed_drift = true
same_sentinel unmanaged unmanaged = true
same_sentinel target_unknown target_unknown = true
same_sentinel backend_unknown backend_unknown = true
same_sentinel garm_not_found garm_not_found = true
same_sentinel garm_unauthorized garm_unauthorized = true
same_sentinel garm_bad_request garm_bad_request = true
same_sentinel garm_unprocessable garm_unprocessable = true
same_sentinel _ _ = false

-- `errors.Is` follows the chain of wrapped errors.
unfoldable pub errors_is : Error → Sentinel → Bool
unfolding same_sentinel
errors_is (sentinel s) t = same_sentinel s t
errors_is (message text) t = false
errors_is (wrap text e) t = errors_is e t

-- A Go call that returns a value and an error.
pub data Result {ℓ} (A : Type ℓ) : Type ℓ where
  ok : A → Result A
  err : Error → Result A

-- The same, beside the state of the world that the call leaves.
pub data Outcome {ℓ} (S : Type 0) (A : Type ℓ) : Type ℓ where
  done : A → S → Outcome S A
  failed : Error → S → Outcome S A

-- `if err != nil { return err }` after a pure step.
abbrev pub and_then {ℓ κ} : {A : Type ℓ} {B : Type κ} → Result A → (A → Result B) → Result B
and_then (ok a) f = f a
and_then (err e) f = err e

abbrev pub Run {ℓ} : Type 0 → Type ℓ → Type ℓ
Run S A = S → Outcome S A

abbrev pub follow {ℓ κ} :
    {S : Type 0} {A : Type ℓ} {B : Type κ} → (A → Run S B) → Outcome S A → Outcome S B
follow f (done a s) = f a s
follow f (failed e s) = failed e s

-- `if err != nil { return err }` after a call that reaches the outside.
infixl 5 ◌>>=◌ ◌>>◌
abbrev pub ◌>>=◌ {ℓ κ} : {S : Type 0} {A : Type ℓ} {B : Type κ} → Run S A → (A → Run S B) → Run S B
◌>>=◌ m f s = follow f (m s)

abbrev pub ◌>>◌ {ℓ κ} : {S : Type 0} {A : Type ℓ} {B : Type κ} → Run S A → Run S B → Run S B
m >> k = m >>= λ _. k

abbrev pub return {ℓ} : {S : Type 0} {A : Type ℓ} → A → Run S A
return a s = done a s

abbrev pub raise {ℓ} : {S : Type 0} {A : Type ℓ} → Error → Run S A
raise e s = failed e s

abbrev pub lift {ℓ} : {S : Type 0} {A : Type ℓ} → Result A → Run S A
lift (ok a) s = done a s
lift (err e) s = failed e s

abbrev pub settle {ℓ} : {S : Type 0} {A : Type ℓ} → Outcome S A → Outcome S (Result A)
settle (done a s) = done (ok a) s
settle (failed e s) = done (err e) s

-- A call whose error the caller looks at.
abbrev pub attempt {ℓ} : {S : Type 0} {A : Type ℓ} → Run S A → Run S (Result A)
attempt m s = settle (m s)

abbrev pub relabel {ℓ} : {S : Type 0} {A : Type ℓ} → String → Outcome S A → Outcome S A
relabel text (done a s) = done a s
relabel text (failed e s) = failed (wrap text e) s

-- `return fmt.Errorf("text: %w", err)`.
abbrev pub labelled {ℓ} : {S : Type 0} {A : Type ℓ} → String → Run S A → Run S A
labelled text m s = relabel text (m s)

-- The state that a call leaves.
abbrev pub state_of {ℓ} : {S : Type 0} {A : Type ℓ} → Outcome S A → S
state_of (done a s) = s
state_of (failed e s) = s

-- To split on what a call answers and keep the equation.
pub Outcome-cases {ℓ} :
    {S : Type 0} {A : Type ℓ} (o : Outcome S A)
    → ((a : A) × (s : S) × (o ≡ done a s)) ⊎ ((e : Error) × (s : S) × (o ≡ failed e s))
Outcome-cases (done a s) = inl (a, s, refl)
Outcome-cases (failed e s) = inr (e, s, refl)

pub Result-cases {ℓ} :
    {A : Type ℓ} (r : Result A) → ((a : A) × (r ≡ ok a)) ⊎ ((e : Error) × (r ≡ err e))
Result-cases (ok a) = inl (a, refl)
Result-cases (err e) = inr (e, refl)

pub ok-injective {ℓ} : {A : Type ℓ} {a b : A} → ok a ≡ ok b → a ≡ b
ok-injective h = cc

-- What a chain that succeeds went through.
pub and_then-ok {ℓ κ} :
    {A : Type ℓ} {B : Type κ} (r : Result A) {f : A → Result B} {b : B}
    → and_then r f ≡ ok b
    → (a : A) × (r ≡ ok a) × (f a ≡ ok b)
and_then-ok (ok a) h = (a, refl, h)
and_then-ok (err e) h = cc

-- What a chain of calls that succeeds went through.
pub follow-done {ℓ κ} :
    {S : Type 0} {A : Type ℓ} {B : Type κ} (o : Outcome S A) {f : A → Run S B} {b : B} {s' : S}
    → follow f o ≡ done b s'
    → (a : A) × (t : S) × (o ≡ done a t) × (f a t ≡ done b s')
follow-done (done a t) h = (a, t, refl, h)
follow-done (failed e t) h = cc

pub follow-labelled {ℓ κ} :
    {S : Type 0} {A : Type ℓ} {B : Type κ} (text : String) (o : Outcome S A) {f : A → Run S B}
    {b : B} {s' : S}
    → follow f (relabel text o) ≡ done b s'
    → (a : A) × (t : S) × (o ≡ done a t) × (f a t ≡ done b s')
follow-labelled text (done a t) h = (a, t, refl, h)
follow-labelled text (failed e t) h = cc

pub follow-lift {ℓ κ} :
    {S : Type 0} {A : Type ℓ} {B : Type κ} (r : Result A) (f : A → Run S B) {b : B} {s s' : S}
    → follow f (lift r s) ≡ done b s'
    → (a : A) × (r ≡ ok a) × (f a s ≡ done b s')
follow-lift (ok a) f h = (a, refl, h)
follow-lift (err e) f h = cc
