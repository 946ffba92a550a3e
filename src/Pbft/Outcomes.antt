-- ===== src/Pbft/Outcomes.antt =====
-- What holds of the result of a handler, if it has one.
use block_preempt.Prelude.{◌≡◌, refl, subst, Bool, true, false, Option, none, some, if◌then◌else◌}
use block_preempt.Pbft.Node.{Outcome, done, waits, dies, ◌▸◌, or_die}

abbrev pub Holds : {A : Type 0} → (A → Type 0) → Outcome A → Type 0
Holds P (done a) = P a
Holds P waits = Unit
Holds P dies = Unit

pub Holds-▸ :
    {A B : Type 0} (P : A → Type 0) (Q : B → Type 0) (m : Outcome A) (f : A → Outcome B)
    → Holds P m
    → ((a : A) → P a → Holds Q (f a))
    → Holds Q (m ▸ f)
Holds-▸ P Q (done a) f h g = g a h
Holds-▸ P Q waits f h g = tt
Holds-▸ P Q dies f h g = tt

pub Holds-or_die :
    {A B : Type 0} (Q : B → Type 0) (o : Option A) (f : A → Outcome B)
    → ((a : A) → Holds Q (f a))
    → Holds Q (or_die o ▸ f)
Holds-or_die Q none f g = tt
Holds-or_die Q (some a) f g = g a

pub Holds-if :
    {A : Type 0} (Q : A → Type 0) (b : Bool) (x y : Outcome A)
    → Holds Q x
    → Holds Q y
    → Holds Q (if b then x else y)
Holds-if Q true x y hx hy = hx
Holds-if Q false x y hx hy = hy

pub Holds-done :
    {A : Type 0} (Q : A → Type 0) {m : Outcome A} {a : A} → Holds Q m → m ≡ done a → Q a
Holds-done Q h e = subst (Holds Q) e h

pub trivial : {A : Type 0} (m : Outcome A) → Holds (λ a. Unit) m
trivial (done a) = tt
trivial waits = tt
trivial dies = tt

pub ▸-congr :
    {A B : Type 0} (m : Outcome A) (f g : A → Outcome B)
    → Holds (λ a. f a ≡ g a) m
    → (m ▸ f) ≡ (m ▸ g)
▸-congr (done a) f g h = h
▸-congr waits f g h = refl
▸-congr dies f g h = refl

pub ▸-ext :
    {A B : Type 0} (m : Outcome A) (f g : A → Outcome B) → ((a : A) → f a ≡ g a) → (m ▸ f) ≡ (m ▸ g)
▸-ext (done a) f g h = h a
▸-ext waits f g h = refl
▸-ext dies f g h = refl

pub ▸-assoc :
    {A B C : Type 0} (m : Outcome A) (f : A → Outcome B) (g : B → Outcome C)
    → (m ▸ f ▸ g) ≡ (m ▸ λ a. f a ▸ g)
▸-assoc (done a) f g = refl
▸-assoc waits f g = refl
▸-assoc dies f g = refl

pub done_inj : {A : Type 0} {a b : A} → done a ≡ done b → a ≡ b
done_inj e = cc

-- Inversion of a chain that has a result.
pub ▸-eq-done :
    {A B : Type 0} (m : Outcome A) (f : A → Outcome B) {b : B}
    → (m ▸ f) ≡ done b
    → (a : A) × ((m ≡ done a) × (f a ≡ done b))
▸-eq-done (done a) f h = (a, (refl, h))
▸-eq-done waits f h = cc
▸-eq-done dies f h = cc

pub Holds-map :
    {A : Type 0} {P Q : A → Type 0} (m : Outcome A) → ((a : A) → P a → Q a) → Holds P m → Holds Q m
Holds-map (done a) g h = g a h
Holds-map waits g h = tt
Holds-map dies g h = tt
