-- ===== src/Net/Rules.antt =====
-- Rules for what holds of the state in which an operation ends, step by step through its code.
use dnet_core.Base.{◌≡◌, refl, Bool, true, false, Option, none, some, if◌then◌else◌}
use dnet_core.Net.{Net, Error, Outcome, ok, thrown, fault, M, ◌>>=◌, ◌>>◌, dnet_assert, load}

-- `P` holds of the final state, however the operation ended. Undefined behaviour ends in none.
unfoldable pub After : {A : Type 0} → (Net → Type 0) → Outcome A → Type 0
After P (ok a n) = P n
After P (thrown e n) = P n
After P fault = Unit {0}

pub After-load :
    {A B : Type 0} (P : Net → Type 0) (o : Option A) (f : A → M B) (n : Net)
    → ((a : A) → After P (f a n))
    → After P ((load o >>= f) n)
unfolding After load
After-load P none f n h = tt
After-load P (some a) f n h = h a

-- The same, with what was read.
pub After-load-some :
    {A B : Type 0} (P : Net → Type 0) (o : Option A) (f : A → M B) (n : Net)
    → ((a : A) → o ≡ some a → After P (f a n))
    → After P ((load o >>= f) n)
unfolding After load
After-load-some P none f n h = tt
After-load-some P (some a) f n h = h a refl

pub After-assert :
    {B : Type 0} (P : Net → Type 0) (b : Bool) (e : Error) (m : M B) (n : Net)
    → P n
    → After P (m n)
    → After P ((dnet_assert b e >> m) n)
unfolding After dnet_assert
After-assert P true e m n refused h = h
After-assert P false e m n refused h = refused

pub After-if :
    {B : Type 0} (P : Net → Type 0) (b : Bool) (m k : M B) (n : Net)
    → After P (m n)
    → After P (k n)
    → After P ((if b then m else k) n)
unfolding After
After-if P true m k n h h' = h
After-if P false m k n h h' = h'

-- One operation after another, for a `P` that the second keeps.
pub After-bind :
    {A B : Type 0} (P : Net → Type 0) (o : Outcome A) (f : A → M B)
    → After P o
    → ((a : A) (n : Net) → P n → After P (f a n))
    → After P (elim o [ ok a n ↦ f a n | thrown e n ↦ thrown e n | fault ↦ fault ])
unfolding After
After-bind P (ok a n) f h k = k a n h
After-bind P (thrown e n) f h k = h
After-bind P fault f h k = tt
