-- ===== src/Prelude/Results.antt =====
-- A Go call that returns a value or an error. The error type is that of the calling package.
use mathlib.Core.Path.{◌≡◌, refl, subst}
use mathlib.Core.Bool.{Bool, true, false}

pub data Result (E A : Type 0) : Type 0 where
  err : E → Result E A
  ok : A → Result E A

-- The caller wraps the error (`fmt.Errorf("…: %w", err)`).
abbrev pub map_err : {E F A : Type 0} → (E → F) → Result E A → Result F A
map_err wrap (err e) = err (wrap e)
map_err wrap (ok v) = ok v

-- `if cond { return …, err }`: the error is returned when the test holds.
abbrev pub reject_if : {E : Type 0} → Bool → E → Result E (Unit {0})
reject_if cond e = elim cond [ false ↦ ok tt | true ↦ err e ]

-- `v, err := call; if err != nil { return …, err }`, and what follows.
abbrev pub ◌>>=◌ : {E A B : Type 0} → Result E A → (A → Result E B) → Result E B
call >>= rest = elim call [ err e ↦ err e | ok v ↦ rest v ]

-- The same for a call that returns an error only.
abbrev pub ◌>>◌ : {E B : Type 0} → Result E (Unit {0}) → Result E B → Result E B
check >> rest = elim check [ err e ↦ err e | ok done ↦ rest ]

infixl 5 ◌>>=◌ ◌>>◌
-- A value that the call gives satisfies P.
abbrev pub Yields : {E A : Type 0} → (A → Type 0) → Result E A → Type 0
Yields {A = A} P m = (a : A) → m ≡ ok a → P a

-- The rules by which a chain of calls is read.
pub >>=-Yields :
    {E A B : Type 0} (P : B → Type 0) (m : Result E A) (f : A → Result E B)
    → ((a : A) → m ≡ ok a → Yields P (f a))
    → Yields P (m >>= f)
>>=-Yields P (ok a) f h b e = h a refl b e
>>=-Yields P (err x) f h b e = cc

pub reject_if-Yields :
    {E B : Type 0} (P : B → Type 0) (b : Bool) (x : E) (k : Result E B)
    → (b ≡ false → Yields P k)
    → Yields P (reject_if b x >> k)
reject_if-Yields P true x k h c e = cc
reject_if-Yields P false x k h c e = h refl c e

pub ok-injective : {E A : Type 0} {x y : A} → Path (Result E A) (ok x) (ok y) → x ≡ y
ok-injective h = cc

pub ok-Yields :
    {E A : Type 0} (P : A → Type 0) (x : A) → P x → (a : A) → Path (Result E A) (ok x) (ok a) → P a
ok-Yields P x p a e = subst P (ok-injective e) p

pub map_err-Yields :
    {E F A : Type 0} (wrap : E → F) (m : Result E A) → Yields (λ a. m ≡ ok a) (map_err wrap m)
map_err-Yields wrap (ok v) a h = cc
map_err-Yields wrap (err e) a h = cc

-- Chains that go on alike.
pub >>=-congr :
    {E A B : Type 0} (m : Result E A) (f g : A → Result E B)
    → ((a : A) → f a ≡ g a)
    → (m >>= f) ≡ (m >>= g)
>>=-congr (err e) f g h = refl
>>=-congr (ok a) f g h = h a
