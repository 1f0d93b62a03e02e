-- ===== src/Protocol/Partial.antt =====
-- Fallible code whose exceptions a model does not tell apart: a call that raises gives none.
use loop_skill.Prelude.{arith, Bool, Option, false, none, refl, some, subst, true, ◌≡◌}
use loop_skill.Protocol.Outcome.{Result, err, ok}

infixl 5 ◌>>=◌
unfoldable pub ◌>>=◌ {κ μ} : {A : Type κ} {B : Type μ} → Option A → (A → Option B) → Option B
none >>= next = none
some a >>= next = next a

abbrev pub settled {κ} : {A : Type κ} → Result A → Option A
settled (ok a) = some a
settled (err e) = none

-- `if b: raise`
unfoldable pub unless {κ} : {A : Type κ} → Bool → Option A → Option A
unless true rest = none
unless false rest = rest

pub bind_some {κ μ} :
    {A : Type κ} {B : Type μ} (m : Option A) (next : A → Option B) {b : B}
    → (m >>= next) ≡ some b
    → (a : A) × (m ≡ some a) × (next a ≡ some b)
unfolding ◌>>=◌
bind_some none next h = cc
bind_some (some a) next h = (a, refl, h)

pub unless-some {κ} :
    {A : Type κ} (t : Bool) (rest : Option A) {a : A}
    → unless t rest ≡ some a
    → (t ≡ false) × (rest ≡ some a)
unfolding unless
unless-some true rest h = cc
unless-some false rest h = (refl, h)

-- whatever a call returns has a property
abbrev pub Ensures {κ ℓ} : {A : Type κ} → (A → Type ℓ) → Option A → Type (κ ⊔ ℓ)
Ensures {A = A} P m = (a : A) → m ≡ some a → P a

pub bind-Ensures {κ μ ℓ} :
    {A : Type κ} {B : Type μ} {P : B → Type ℓ} (m : Option A) (next : A → Option B)
    → ((a : A) → m ≡ some a → Ensures P (next a))
    → Ensures P (m >>= next)
bind-Ensures m next rest b h = let (a, p, q) = bind_some m next h in rest a p b q

pub unless-Ensures {κ ℓ} :
    {A : Type κ} {P : A → Type ℓ} (t : Bool) (rest : Option A)
    → (t ≡ false → Ensures P rest)
    → Ensures P (unless t rest)
unless-Ensures t rest holds a h = let (p, q) = unless-some t rest h in holds p a q

pub some_injective {κ} : {A : Type κ} {a b : A} → some a ≡ some b → a ≡ b
some_injective h = ground arith

pub some-Ensures {κ ℓ} : {A : Type κ} (P : A → Type ℓ) (a : A) → P a → Ensures P (some a)
some-Ensures P a holds b h = subst P (some_injective h) holds
