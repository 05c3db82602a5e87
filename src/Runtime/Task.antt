-- ===== src/Runtime/Task.antt =====
-- How the sources' `async` functions stand here: a future is a function of the state of the system
-- that returns its output and the state behind it. Each request of the system may find another
-- state than the one before it left, so nothing is assumed on what other processes do meanwhile.
use heim.Outcome.{Outcome, ok, err, panic}

abbrev pub Task {ℓ κ} : Type ℓ → Type κ → Type (ℓ ⊔ κ)
Task S X = S → X × S

abbrev pub ready {ℓ κ} : {S : Type ℓ} {X : Type κ} → X → Task S X
ready x s = (x, s)

-- `match future.await`
abbrev pub await {ℓ κ μ} :
    {S : Type ℓ} {X : Type κ} {Y : Type μ} → Task S X → (X → Task S Y) → Task S Y
await task f s = let r = task s in f r.0 r.1

abbrev continue {ℓ κ μ ν} :
    {S : Type ℓ} {E : Type κ} {A : Type μ} {B : Type ν}
    → (A → Task S (Outcome E B))
    → Outcome E A
    → Task S (Outcome E B)
continue f (ok a) s = f a s
continue f (err e) s = (err e, s)
continue f panic s = (panic, s)

-- `future.await?`
infixl 5 ◌>>=◌
abbrev pub ◌>>=◌ {ℓ κ μ ν} :
    {S : Type ℓ} {E : Type κ} {A : Type μ} {B : Type ν}
    → Task S (Outcome E A)
    → (A → Task S (Outcome E B))
    → Task S (Outcome E B)
task >>= f = await task (continue f)
