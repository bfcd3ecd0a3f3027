-- ===== src/Net/Ends.antt =====
-- Rules for that an operation ends, normally or by an error, and so leaves nothing undefined.
use dnet_core.Base.{◌≡◌, refl, Bool, true, false, Option, some, subst, sym, if◌then◌else◌}
use dnet_core.Net.{Net, Error, Outcome, ok, thrown, fault, M, ◌>>=◌, ◌>>◌, dnet_assert, load}

unfoldable pub Ends : {A : Type 0} → Outcome A → Type 0
Ends (ok a n) = Unit {0}
Ends (thrown e n) = Unit {0}
Ends fault = ⊥

pub Ends-ok : {A : Type 0} (o : Outcome A) {a : A} {n : Net} → o ≡ ok a n → Ends o
unfolding Ends
Ends-ok o e = rw e tt

pub Ends-load :
    {A B : Type 0} (o : Option A) (a : A) (f : A → M B) (n : Net)
    → o ≡ some a
    → Ends (f a n)
    → Ends ((load o >>= f) n)
unfolding load Ends
Ends-load o a f n e h = rw e h

-- What follows an assertion only matters where the assertion holds.
pub Ends-assert :
    {B : Type 0} (b : Bool) (e : Error) (m : M B) (n : Net)
    → (b ≡ true → Ends (m n))
    → Ends ((dnet_assert b e >> m) n)
unfolding Ends dnet_assert
Ends-assert true e m n h = h refl
Ends-assert false e m n h = tt

pub Ends-if :
    {B : Type 0} (b : Bool) (m k : M B) (n : Net)
    → (b ≡ true → Ends (m n))
    → (b ≡ false → Ends (k n))
    → Ends ((if b then m else k) n)
Ends-if true m k n h h' = h refl
Ends-if false m k n h h' = h' refl

pub Ends-then :
    {B : Type 0} (m : M (Unit {0})) (k : M B) (n : Net)
    → m n ≡ ok tt n
    → Ends (k n)
    → Ends ((m >> k) n)
Ends-then m k n e h =
    subst (λ o. Ends (elim o [ ok a n' ↦ k n' | thrown x n' ↦ thrown x n' | fault ↦ fault ]))
      (sym e) h

pub Ends-refused :
    {B : Type 0} (m : M (Unit {0})) (k : M B) (n : Net) {x : Error} {n' : Net}
    → m n ≡ thrown x n'
    → Ends ((m >> k) n)
unfolding Ends
Ends-refused m k n e =
    subst (λ o. Ends (elim o [ ok a n' ↦ k n' | thrown x n' ↦ thrown x n' | fault ↦ fault ]))
      (sym e) tt
