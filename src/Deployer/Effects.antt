-- ===== src/Deployer/Effects.antt =====
-- Calls that read the chain and change it: the state of the chain goes in and comes out.
use mathlib.Core.Path.{subst₂}
use go_sequence.Base.{◌≡◌, refl, ap, Bool, true, false, if◌then◌else◌}
use go_sequence.Base.Result.{Error, Result, ok, err, panic, out_of_fuel}

abbrev pub Action : Type 0 → Type 0 → Type 0
Action World A = World → World × Result A

-- An error, like a panic, ends the call with the chain as it is then.
abbrev pub after : {World A B : Type 0} → (A → Action World B) → World × Result A → World × Result B
after f (w, ok a) = f a w
after f (w, err e) = (w, err e)
after f (w, panic) = (w, panic)
after f (w, out_of_fuel) = (w, out_of_fuel)

infixl 5 ◌>>=◌
unfoldable pub ◌>>=◌ : {World A B : Type 0} → Action World A → (A → Action World B) → Action World B
m >>= f = λ w. after f (m w)

infixl 5 ◌>>◌
abbrev pub ◌>>◌ : {World A B : Type 0} → Action World A → Action World B → Action World B
m >> k = m >>= λ _. k

-- A result that does not depend on the chain, and one that is read off it.
abbrev pub done : {World A : Type 0} → Result A → Action World A
done r = λ w. (w, r)

abbrev pub query : {World A : Type 0} → (World → Result A) → Action World A
query f = λ w. (w, f w)

-- When the call returns a value, the property holds of the chain and of the value.
pub data Ensures {World A : Type 0} (Q : World → A → Type 0) : World × Result A → Type 0 where
  returned : (w : World) (a : A) → Q w a → Ensures Q (w, ok a)
  failed : (w : World) (e : Error) → Ensures Q (w, err e)
  panicked : (w : World) → Ensures Q (w, panic)
  exhausted : (w : World) → Ensures Q (w, out_of_fuel)

-- The call returns a value, and the property holds of the chain and of the value.
pub data Succeeds {World A : Type 0} (Q : World → A → Type 0) : World × Result A → Type 0 where
  succeeded : (w : World) (a : A) → Q w a → Succeeds Q (w, ok a)

module _ {World A : Type 0} {Q : World → A → Type 0} where
  -- A result that is read off the chain leaves it as it is.
  pub Ensures-query : (w : World) (r : Result A) → ((a : A) → r ≡ ok a → Q w a) → Ensures Q (w, r)
  Ensures-query w (ok a) h = returned w a (h a refl)
  Ensures-query w (err e) h = failed w e
  Ensures-query w panic h = panicked w
  Ensures-query w out_of_fuel h = exhausted w

  pub Ensures-if :
      (b : Bool) (m n : Action World A) (w : World)
      → (b ≡ true → Ensures Q (m w))
      → (b ≡ false → Ensures Q (n w))
      → Ensures Q ((if b then m else n) w)
  Ensures-if true m n w hm hn = hm refl
  Ensures-if false m n w hm hn = hn refl

  pub Succeeds-if :
      (b : Bool) (m n : Action World A) (w : World)
      → (b ≡ true → Succeeds Q (m w))
      → (b ≡ false → Succeeds Q (n w))
      → Succeeds Q ((if b then m else n) w)
  Succeeds-if true m n w hm hn = hm refl
  Succeeds-if false m n w hm hn = hn refl

  pub Ensures-eq : {r : World × Result A} {w : World} {a : A} → Ensures Q r → r ≡ (w, ok a) → Q w a
  Ensures-eq (returned v b h) e = subst₂ Q (ap (λ r. r.0) e) (value_of (ap (λ r. r.1) e)) h
    where
      value_of : {c d : A} → ok c ≡ ok d → c ≡ d
      value_of e' = cc
  Ensures-eq {a = a} (failed v x) e = let apart : err x ≡ ok a = ap (λ r. r.1) e in cc
  Ensures-eq {a = a} (panicked v) e = let apart : panic ≡ ok a = ap (λ r. r.1) e in cc
  Ensures-eq {a = a} (exhausted v) e = let apart : out_of_fuel ≡ ok a = ap (λ r. r.1) e in cc

module _ {World A B : Type 0} {P : World → A → Type 0} {Q : World → B → Type 0} where
  Ensures-after :
      {r : World × Result A} {f : A → Action World B}
      → Ensures P r
      → ((w : World) (a : A) → P w a → Ensures Q (f a w))
      → Ensures Q (after f r)
  Ensures-after (returned w a h) k = k w a h
  Ensures-after (failed w e) k = failed w e
  Ensures-after (panicked w) k = panicked w
  Ensures-after (exhausted w) k = exhausted w

  pub Ensures-bind :
      (m : Action World A) (f : A → Action World B) (w : World)
      → Ensures P (m w)
      → ((w : World) (a : A) → P w a → Ensures Q (f a w))
      → Ensures Q ((m >>= f) w)
  unfolding ◌>>=◌
  Ensures-bind m f w h k = Ensures-after h k

  Succeeds-after :
      {r : World × Result A} {f : A → Action World B}
      → Succeeds P r
      → ((w : World) (a : A) → P w a → Succeeds Q (f a w))
      → Succeeds Q (after f r)
  Succeeds-after (succeeded w a h) k = k w a h

  pub Succeeds-bind :
      (m : Action World A) (f : A → Action World B) (w : World)
      → Succeeds P (m w)
      → ((w : World) (a : A) → P w a → Succeeds Q (f a w))
      → Succeeds Q ((m >>= f) w)
  unfolding ◌>>=◌
  Succeeds-bind m f w h k = Succeeds-after h k

pub Ensures-map :
    {World A : Type 0} {P Q : World → A → Type 0} {r : World × Result A}
    → Ensures P r
    → ((w : World) (a : A) → P w a → Q w a)
    → Ensures Q r
Ensures-map (returned w a h) k = returned w a (k w a h)
Ensures-map (failed w e) k = failed w e
Ensures-map (panicked w) k = panicked w
Ensures-map (exhausted w) k = exhausted w

pub Succeeds-map :
    {World A : Type 0} {P Q : World → A → Type 0} {r : World × Result A}
    → Succeeds P r
    → ((w : World) (a : A) → P w a → Q w a)
    → Succeeds Q r
Succeeds-map (succeeded w a h) k = succeeded w a (k w a h)

-- A result that is known, read off the chain.
pub Succeeds-read :
    {World A B : Type 0} {Q : World → B → Type 0} (f : World → Result A) (m : A → Action World B)
    (w : World) (a : A)
    → f w ≡ ok a
    → Succeeds Q (m a w)
    → Succeeds Q ((query f >>= m) w)
unfolding ◌>>=◌
Succeeds-read f m w a e h = rw e h

-- Nothing is known of the chain and of the value.
abbrev pub Any : {World A : Type 0} → World → A → Type 0
Any w a = Unit

pub Ensures-Any : {World A : Type 0} (r : World × Result A) → Ensures Any r
Ensures-Any (w, ok a) = returned w a tt
Ensures-Any (w, err e) = failed w e
Ensures-Any (w, panic) = panicked w
Ensures-Any (w, out_of_fuel) = exhausted w
