-- ===== src/Prelude/Results.antt =====
-- Python code that may raise: a value, or the exception.
use mathlib.Core.Path.{◌≡◌, refl}
use mathlib.Core.Logic.{◌⊎◌, inl, inr}
use mathlib.Core.Bool.{Bool, true, false}
use mathlib.Core.List.{List, [], ◌∷◌}

pub data Result {ℓ κ} (E : Type ℓ) (A : Type κ) : Type (ℓ ⊔ κ) where
  ok : A → Result E A
  raise : E → Result E A

infixl 5 ◌>>=◌ ◌>>◌
abbrev pub ◌>>=◌ {ℓ κ μ} :
    {E : Type ℓ} {A : Type κ} {B : Type μ} → Result E A → (A → Result E B) → Result E B
raise e >>= next = raise e
ok a >>= next = next a

abbrev pub ◌>>◌ {ℓ κ} : {E : Type ℓ} {B : Type κ} → Result E (Unit {0}) → Result E B → Result E B
first >> next = first >>= λ _. next

-- Code that went through went through in both its parts.
pub bind-eq-ok {ℓ κ μ} :
    {E : Type ℓ} {A : Type κ} {B : Type μ} (first : Result E A) (next : A → Result E B) {out : B}
    → first >>= next ≡ ok out
    → (mid : A) × (first ≡ ok mid) × (next mid ≡ ok out)
bind-eq-ok (raise e) next went = cc
bind-eq-ok (ok mid) next went = (mid, refl, went)

abbrev pub guard {ℓ} : {E : Type ℓ} → Bool → E → Result E (Unit {0})
guard false e = raise e
guard true e = ok tt

abbrev pub is_ok {ℓ κ} : {E : Type ℓ} {A : Type κ} → Result E A → Bool
is_ok (raise e) = false
is_ok (ok a) = true

-- A comprehension whose element expression may raise.
unfoldable pub map_ok {ℓ κ μ} :
    {E : Type ℓ} {A : Type κ} {B : Type μ} → (A → Result E B) → List A → Result E (List B)
map_ok f [] = ok []
map_ok f (x ∷ xs) = f x >>= λ y. map_ok f xs >>= λ ys. ok (y ∷ ys)

-- A comprehension went through where its first element and its rest did.
pub map_ok-cons {ℓ κ μ} :
    {E : Type ℓ} {A : Type κ} {B : Type μ} (f : A → Result E B) (x : A) (xs : List A) {out : List B}
    → map_ok f (x ∷ xs) ≡ ok out
    → (y : B) × (ys : List B) × (f x ≡ ok y) × (map_ok f xs ≡ ok ys) × (out ≡ y ∷ ys)
unfolding map_ok
map_ok-cons f x xs went =
    let (y, here, went') = bind-eq-ok (f x) (λ y. map_ok f xs >>= λ ys. ok (y ∷ ys)) went in
    let (ys, there, joined) = bind-eq-ok (map_ok f xs) (λ ys. ok (y ∷ ys)) went' in
    (y, ys, here, there, cc)

pub Result-cases {ℓ κ} :
    {E : Type ℓ} {A : Type κ} (m : Result E A) → ((a : A) × (m ≡ ok a)) ⊎ ((e : E) × (m ≡ raise e))
Result-cases (ok a) = inl (a, refl)
Result-cases (raise e) = inr (e, refl)
