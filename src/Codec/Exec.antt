-- ===== src/Codec/Exec.antt =====
-- What a run of a codec does. `fault` is a read or a write outside its buffer, which C leaves
-- undefined; `out_of_fuel` is no outcome of the code, but of a loop modelled on fuel.
use xq.Base.{
  ℕ, ◌+◌, ◌≤◌, ◌≡◌, refl, sym, ap, ◌∙◌, ◌⊎◌, inl, inr, arith, List, ◌++◌, Bool, true, false, leb,
  length, take, drop, if◌then◌else◌,
}
use mathlib.Core.Path.{subst}
use xq.Status.{Status}

pub data Exec {ℓ} (A : Type ℓ) : Type ℓ where
  ret : A → Exec A
  fail : Status → Exec A
  fault : Exec A
  out_of_fuel : Exec A

infixl 5 ◌>>=◌ ◌>>◌
abbrev pub ◌>>=◌ {ℓ κ} : {A : Type ℓ} {B : Type κ} → Exec A → (A → Exec B) → Exec B
ret a >>= f = f a
fail st >>= f = fail st
fault >>= f = fault
out_of_fuel >>= f = out_of_fuel

abbrev pub ◌>>◌ {ℓ} : {B : Type ℓ} → Exec (Unit {0}) → Exec B → Exec B
m >> k = m >>= λ _. k

-- `if (cond) return st;`
abbrev pub fail_if : Bool → Status → Exec (Unit {0})
fail_if true st = fail st
fail_if false st = ret tt

-- The `n` bytes of `xs` from `off` on, as `memcpy` reads them.
unfoldable pub read_bytes : List ℕ → ℕ → ℕ → Exec (List ℕ)
read_bytes xs off n = if leb (off + n) (length xs) then ret (take n (drop off xs)) else fault

-- A write of `bytes` behind the output so far, in a buffer of `cap` bytes.
unfoldable pub append_bytes : ℕ → List ℕ → List ℕ → Exec (List ℕ)
append_bytes dst_cap out bytes =
    if leb (length out + length bytes) dst_cap then ret (out ++ bytes) else fault

-- A write of `n` bytes at the start of a buffer of `cap` bytes.
unfoldable pub takes : ℕ → ℕ → Exec (Unit {0})
takes dst_cap n = if leb n dst_cap then ret tt else fault

-- The run neither faults nor runs out of fuel, and what it returns satisfies `P`.
abbrev pub Safe {ℓ} : {A : Type ℓ} → Exec A → (A → Type 0) → Type 0
Safe (ret a) P = P a
Safe (fail st) P = Unit {0}
Safe fault P = ⊥
Safe out_of_fuel P = ⊥

-- A safe run returns a value that satisfies the predicate, or fails.
pub Safe-cases {ℓ} :
    {A : Type ℓ} (P : A → Type 0) (m : Exec A)
    → Safe m P
    → ((a : A) × (m ≡ ret a) × P a) ⊎ ((st : Status) × (m ≡ fail st))
Safe-cases P (ret a) h = inl (a, refl, h)
Safe-cases P (fail st) h = inr (st, refl)
Safe-cases P fault h = absurd h
Safe-cases P out_of_fuel h = absurd h

-- Inside their buffers the copies run.
pub read_bytes_ok :
    (xs : List ℕ) (off n : ℕ)
    → off + n ≤ length xs
    → read_bytes xs off n ≡ ret (take n (drop off xs))
unfolding read_bytes
read_bytes_ok xs off n h = ground arith

pub append_bytes_ok :
    (dst_cap : ℕ) (out bytes : List ℕ)
    → length out + length bytes ≤ dst_cap
    → append_bytes dst_cap out bytes ≡ ret (out ++ bytes)
unfolding append_bytes
append_bytes_ok dst_cap out bytes h = ground arith

pub takes_ok : (dst_cap n : ℕ) → n ≤ dst_cap → takes dst_cap n ≡ ret tt
unfolding takes
takes_ok dst_cap n h = ground arith

-- A run that returns a value with the property, or fails with a status.
pub data Ends {A : Type 0} (P : A → Type 0) : Exec A → Type 0 where
  returns : {a : A} → P a → Ends P (ret a)
  fails : {st : Status} → Ends P (fail st)

-- A chain of steps that end ends.
pub Ends-bind :
    {A B : Type 0} {P : A → Type 0} {Q : B → Type 0} {m : Exec A} {f : A → Exec B}
    → Ends P m
    → ((a : A) → P a → Ends Q (f a))
    → Ends Q (m >>= f)
Ends-bind (returns h) k = k _ h
Ends-bind fails k = fails

-- A test that may end the run, and what follows it.
pub Ends-fail_if :
    {B : Type 0} {Q : B → Type 0} (b : Bool) (st : Status) {next : Exec B}
    → (b ≡ false → Ends Q next)
    → Ends Q (fail_if b st >> next)
Ends-fail_if true st k = fails
Ends-fail_if false st k = k refl

-- Both branches of a test end.
pub Ends-if :
    {B : Type 0} {Q : B → Type 0} (b : Bool) {x y : Exec B}
    → (b ≡ true → Ends Q x)
    → (b ≡ false → Ends Q y)
    → Ends Q (if b then x else y)
Ends-if true h k = h refl
Ends-if false h k = k refl

pub Ends-branch :
    {B : Type 0} {Q : B → Type 0} (b : Bool) {x y : Exec B}
    → (b ≡ true → Ends Q x)
    → (b ≡ false → Ends Q y)
    → Ends Q (elim b [ true ↦ x | false ↦ y ])
Ends-branch true h k = h refl
Ends-branch false h k = k refl

pub Ends-mono :
    {A : Type 0} {P Q : A → Type 0} {m : Exec A} → ((a : A) → P a → Q a) → Ends P m → Ends Q m
Ends-mono f (returns h) = returns (f _ h)
Ends-mono f fails = fails

-- A run whose failure is handled.
pub Ends-catch :
    {A B : Type 0} {P : A → Type 0} {Q : B → Type 0} {m : Exec A} {f : A → Exec B}
    {handler : Status → Exec B}
    → Ends P m
    → ((st : Status) → Ends Q (handler st))
    → ((a : A) → P a → Ends Q (f a))
    → Ends Q
        (elim m [ fail st ↦ handler st | fault ↦ fault | out_of_fuel ↦ out_of_fuel | ret a ↦ f a ])
Ends-catch (returns h) handled k = k _ h
Ends-catch fails handled k = handled _

pub Ends-Safe : {A : Type 0} {P : A → Type 0} {m : Exec A} → Ends P m → Safe m P
Ends-Safe (returns h) = h
Ends-Safe fails = tt

-- A step that returns, a test that passes, and what follows them.
pub step_ret :
    {A B : Type 0} {m : Exec A} {a : A} {r : Exec B} (f : A → Exec B)
    → m ≡ ret a
    → f a ≡ r
    → (m >>= f) ≡ r
step_ret f e k = ap (λ m. m >>= f) e ∙ k

pub pass_fail_if :
    {B : Type 0} {b : Bool} {r : Exec B} (st : Status) (next : Exec B)
    → b ≡ false
    → next ≡ r
    → (fail_if b st >> next) ≡ r
pass_fail_if st next e k = ap (λ b. fail_if b st >> next) e ∙ k

-- A run that is known to return.
pub Ends-known : {A : Type 0} {P : A → Type 0} {m : Exec A} {a : A} → m ≡ ret a → P a → Ends P m
Ends-known {A} {P} e h = subst (λ m. Ends P m) (sym e) (returns h)
