-- ===== src/Git/Run.antt =====
-- Go code that changes the outside world and can fail: it takes the world to an outcome and a world.
use stoker_operator.Prelude.{String, ◌≡◌, refl, ap}
use mathlib.Core.Path.{subst}
use stoker_operator.Prelude.Outcome.{Outcome, done, failed, wrapped, done_inj}

pub data Done : Type 0 where
  ok : Done

abbrev pub Run {ℓ κ} : Type ℓ → Type κ → Type (ℓ ⊔ κ)
Run S A = S → Outcome A × S

abbrev pub after {ℓ κ μ} :
    {S : Type ℓ} {A : Type κ} {B : Type μ} → Outcome A × S → (A → Run S B) → Outcome B × S
after (done a, s) k = k a s
after (failed e, s) k = (failed e, s)

infixl 5 ◌>>=◌
abbrev pub ◌>>=◌ {ℓ κ μ} :
    {S : Type ℓ} {A : Type κ} {B : Type μ} → Run S A → (A → Run S B) → Run S B
(m >>= k) s = after (m s) k

abbrev pub told {ℓ κ} : {S : Type ℓ} {A : Type κ} → String → Run S A → Run S A
told message m s = (wrapped message ((m s).0), (m s).1)

-- A run that is done ends in such a world, or it does where it started in one.
unfoldable pub Ensures {ℓ κ μ} :
    {S : Type ℓ} {A : Type κ} → (S → Type μ) → Run S A → Type (ℓ ⊔ κ ⊔ μ)
Ensures Q m = (s : _) (a : _) (t : _) → m s ≡ (done a, t) → Q t

unfoldable pub Keeps {ℓ κ μ} : {S : Type ℓ} {A : Type κ} → (S → Type μ) → Run S A → Type (ℓ ⊔ κ ⊔ μ)
Keeps Q m = (s : _) (a : _) (t : _) → Q s → m s ≡ (done a, t) → Q t

after_cases {ℓ κ μ ν} :
    {S : Type ℓ} {A : Type κ} {B : Type μ} {P : Type ν} (o : Outcome A × S) (k : A → Run S B)
    (b : B) (t : S)
    → after o k ≡ (done b, t)
    → ((a : A) (s : S) → o ≡ (done a, s) → k a s ≡ (done b, t) → P)
    → P
after_cases (done a, s) k b t h use_them = use_them a s refl h
after_cases (failed e, s) k b t h use_them = cc

told_done {ℓ κ} :
    {S : Type ℓ} {A : Type κ} (message : String) (o : Outcome A × S) (a : A) (t : S)
    → ◌≡◌ {A = Outcome A × S} (wrapped message o.0, o.1) (done a, t)
    → o ≡ (done a, t)
told_done message (done b, s) a t h = h
told_done message (failed e, s) a t h = cc

-- The rules for runs in sequence.
module _ {ℓ κ ν} {S : Type ℓ} {A : Type κ} (Q : S → Type ν) where
  pub Ensures-told : (message : String) (m : Run S A) → Ensures Q m → Ensures Q (told message m)
  unfolding Ensures
  Ensures-told message m e s a t h = e s a t (told_done message (m s) a t h)

  pub Keeps-told : (message : String) (m : Run S A) → Keeps Q m → Keeps Q (told message m)
  unfolding Keeps
  Keeps-told message m e s a t q h = e s a t q (told_done message (m s) a t h)

module _ {ℓ κ μ ν} {S : Type ℓ} {A : Type κ} {B : Type μ} (Q : S → Type ν) where
  pub Ensures-bind :
      (m : Run S A) (k : A → Run S B) → ((a : A) → Ensures Q (k a)) → Ensures Q (m >>= k)
  unfolding Ensures
  Ensures-bind m k later s b t h = after_cases (m s) k b t h (λ a u e f. later a u b t f)

  pub Ensures-kept :
      (m : Run S A) (k : A → Run S B)
      → Ensures Q m
      → ((a : A) → Keeps Q (k a))
      → Ensures Q (m >>= k)
  unfolding Ensures Keeps
  Ensures-kept m k first later s b t h =
      after_cases (m s) k b t h (λ a u e f. later a u b t (first s a u e) f)

  pub Keeps-bind :
      (m : Run S A) (k : A → Run S B) → Keeps Q m → ((a : A) → Keeps Q (k a)) → Keeps Q (m >>= k)
  unfolding Keeps
  Keeps-bind m k first later s b t q h =
      after_cases (m s) k b t h (λ a u e f. later a u b t (first s a u q e) f)

-- What a run that is done returns.
unfoldable pub Gives {ℓ κ μ} : {S : Type ℓ} {A : Type κ} → (A → Type μ) → Run S A → Type (ℓ ⊔ κ ⊔ μ)
Gives R m = (s : _) (a : _) (t : _) → m s ≡ (done a, t) → R a

pub Gives-return {ℓ κ μ} :
    (S : Type ℓ) {B : Type μ} (R : B → Type κ) (b : B) → R b → Gives R (λ (s : S). (done b, s))
unfolding Gives
Gives-return S {B = B} R b r s a t e = subst R (done_inj b a (ap (λ (x : Outcome B × S). x.0) e)) r

module _ {ℓ κ μ} {S : Type ℓ} {B : Type μ} (R : B → Type κ) where
  pub Gives-told : (message : String) (m : Run S B) → Gives R m → Gives R (told message m)
  unfolding Gives
  Gives-told message m e s a t h = e s a t (told_done message (m s) a t h)

  pub Gives-bind {ν} :
      {A : Type ν} (m : Run S A) (k : A → Run S B) → ((a : A) → Gives R (k a)) → Gives R (m >>= k)
  unfolding Gives
  Gives-bind m k later s b t h = after_cases (m s) k b t h (λ a u e f. later a u b t f)

-- A run that is done, followed by one that uses what it gave.
pub Ensures-given {ℓ κ μ ν η} :
    {S : Type ℓ} {A : Type κ} {B : Type μ} (Q : S → Type ν) (R : A → Type η) (m : Run S A)
    (k : A → Run S B)
    → Gives R m
    → ((a : A) → R a → Ensures Q (k a))
    → Ensures Q (m >>= k)
unfolding Ensures Gives
Ensures-given Q R m k given later s b t h =
    after_cases (m s) k b t h (λ a u e f. later a (given s a u e) u b t f)
