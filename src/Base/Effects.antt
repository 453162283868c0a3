-- ===== src/Base/Effects.antt =====
-- Fallible code, and code that reads and writes a store. A store comes back after an exception
-- too: what was written before it stays written, unless a transaction takes it back.
use webrana_cloud.Base.Logic.{if◌then◌else◌}
use mathlib.Core.Path.{◌≡◌, refl}
use mathlib.Core.Logic.{◌⊎◌, inl, inr}
use mathlib.Core.Bool.{Bool, true, false}
use mathlib.Core.Option.{Option, none, some}

pub data Result (E A : Type 0) : Type 0 where
  ok : A → Result E A
  err : E → Result E A

abbrev pub is_ok : {E A : Type 0} → Result E A → Bool
is_ok (ok _) = true
is_ok (err _) = false

abbrev pub Action : Type 0 → Type 0 → Type 0 → Type 0
Action S E A = S → Result E A × S

module _ {S E A : Type 0} where
  abbrev pub pure : A → Action S E A
  pure a s = (ok a, s)

  abbrev pub raise : E → Action S E A
  raise e s = (err e, s)

  abbrev pub gets : (S → A) → Action S E A
  gets f s = (ok (f s), s)

  abbrev pub or_raise : Option A → E → Action S E A
  or_raise none e = raise e
  or_raise (some a) _ = pure a

  -- The end of a transaction that began at `s`.
  abbrev pub settle : Bool → E → S → Result E A × S → Result E A × S
  settle commits aborted s (ok a, s') = if commits then (ok a, s') else (err aborted, s)
  settle commits aborted s (err e, _) = (err e, s)

  -- `prisma.$transaction`: what an exception in the body has written is taken back. `commits` says
  -- whether the database commits the body; where it does not (a serialization failure, a timeout,
  -- a value that a column cannot hold) the store stays as it was too.
  abbrev pub transaction : Bool → E → Action S E A → Action S E A
  transaction commits aborted body s = settle commits aborted s (body s)

  abbrev pub recover : Result E A × S → (E → Action S E A) → Result E A × S
  recover (ok a, s) handler = (ok a, s)
  recover (err e, s) handler = handler e s

  -- `try { … } catch (error) { … }`.
  abbrev pub catch_with : Action S E A → (E → Action S E A) → Action S E A
  catch_with body handler s = recover (body s) handler

module _ {S E A B : Type 0} where
  abbrev pub continue : Result E A × S → (A → Action S E B) → Result E B × S
  continue (ok a, s) f = f a s
  continue (err e, s) f = (err e, s)

infixl 5 ◌>>=◌ ◌>>◌
abbrev pub ◌>>=◌ : {S E A B : Type 0} → Action S E A → (A → Action S E B) → Action S E B
◌>>=◌ m f s = continue (m s) f

abbrev pub ◌>>◌ : {S E A B : Type 0} → Action S E A → Action S E B → Action S E B
m >> k = m >>= λ _. k

module _ {S E : Type 0} where
  abbrev pub raise_if : Bool → E → Action S E (Unit {0})
  raise_if c e s = (if c then err e else ok tt, s)

  abbrev pub modify : (S → S) → Action S E (Unit {0})
  modify f s = (ok tt, f s)

-- A postcondition of a guarded call holds if it holds where the guard raises and where it passes.
pub raise_if-post {ℓ} :
    {S E A : Type 0} (P : Result E A × S → Type ℓ) (c : Bool) (e : E) (k : Action S E A) (s : S)
    → (c ≡ true → P (err e, s))
    → (c ≡ false → P (k s))
    → P ((raise_if c e >> k) s)
raise_if-post P true e k s f g = f refl
raise_if-post P false e k s f g = g refl

-- So for a look-up that raises where nothing is found.
pub or_raise-post {ℓ} :
    {S E A B : Type 0} (P : Result E B × S → Type ℓ) (o : Option A) (e : E) (k : A → Action S E B)
    (s : S)
    → (o ≡ none → P (err e, s))
    → ((a : A) → o ≡ some a → P (k a s))
    → P ((or_raise o e >>= k) s)
or_raise-post P none e k s f g = f refl
or_raise-post P (some a) e k s f g = g a refl

module _ {S E A B : Type 0} where
  continue-ok :
      (r : Result E A × S) (k : A → Action S E B)
      → is_ok (continue r k).0 ≡ true
      → (a : A) × (r.0 ≡ ok a) × (continue r k ≡ k a r.1)
  continue-ok (ok a, s) k h = (a, refl, refl)
  continue-ok (err e, s) k h = cc

  -- A sequence that raises nothing has done its first step, and goes on from there.
  pub bind-ok :
      (m : Action S E A) (k : A → Action S E B) (s : S)
      → is_ok ((m >>= k) s).0 ≡ true
      → (a : A) × ((m s).0 ≡ ok a) × ((m >>= k) s ≡ k a (m s).1)
  bind-ok m k s h = continue-ok (m s) k h

  continue-kept {ℓ} :
      {V : Type ℓ} (view : S → V) (r : Result E A × S) (k : A → Action S E B)
      → ((a : A) (t : S) → view (k a t).1 ≡ view t)
      → view (continue r k).1 ≡ view r.1
  continue-kept view (ok a, s) k keeps = keeps a s
  continue-kept view (err e, s) k keeps = refl

  -- What the second step never writes is as the first step leaves it.
  pub bind-kept {ℓ} :
      {V : Type ℓ} (view : S → V) (m : Action S E A) (k : A → Action S E B) (s : S)
      → ((a : A) (t : S) → view (k a t).1 ≡ view t)
      → view ((m >>= k) s).1 ≡ view (m s).1
  bind-kept view m k s keeps = continue-kept view (m s) k keeps

continue-post {ℓ} :
    {S E A B : Type 0} (P : Result E B × S → Type ℓ) (r : Result E A × S) (k : A → Action S E B)
    → ((a : A) → r.0 ≡ ok a → P (k a r.1))
    → ((e : E) → r.0 ≡ err e → P (err e, r.1))
    → P (continue r k)
continue-post P (ok a, s) k f g = f a refl
continue-post P (err e, s) k f g = g e refl

-- A postcondition of a sequence holds where its first step raises and where it goes on.
pub bind-post {ℓ} :
    {S E A B : Type 0} (P : Result E B × S → Type ℓ) (m : Action S E A) (k : A → Action S E B)
    (s : S)
    → ((a : A) → (m s).0 ≡ ok a → P (k a (m s).1))
    → ((e : E) → (m s).0 ≡ err e → P (err e, (m s).1))
    → P ((m >>= k) s)
bind-post P m k s f g = continue-post P (m s) k f g

pub recover-post {ℓ} :
    {S E A : Type 0} (P : Result E A × S → Type ℓ) (r : Result E A × S) (handler : E → Action S E A)
    → ((a : A) → r.0 ≡ ok a → P r)
    → ((e : E) → r.0 ≡ err e → P (handler e r.1))
    → P (recover r handler)
recover-post P (ok a, s) handler f g = f a refl
recover-post P (err e, s) handler f g = g e refl

pub recover-kept {ℓ} :
    {S E A : Type 0} {V : Type ℓ} (view : S → V) (r : Result E A × S) (handler : E → Action S E A)
    → ((e : E) (t : S) → view (handler e t).1 ≡ view t)
    → view (recover r handler).1 ≡ view r.1
recover-kept view (ok a, s) handler keeps = refl
recover-kept view (err e, s) handler keeps = keeps e s

pub Result-cases :
    {E A : Type 0} (r : Result E A) → ((a : A) × (r ≡ ok a)) ⊎ ((e : E) × (r ≡ err e))
Result-cases (ok a) = inl (a, refl)
Result-cases (err e) = inr (e, refl)

-- A call on which something outside decides: it raises without effect, or it writes.
abbrev pub attempt : {S E : Type 0} → Bool → E → (S → S) → Action S E (Unit {0})
attempt succeeds e f s = if succeeds then (ok tt, f s) else (err e, s)
