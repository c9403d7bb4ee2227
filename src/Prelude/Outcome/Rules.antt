-- ===== src/Prelude/Outcome/Rules.antt =====
-- What holds of an action's outcome, with one rule for each way to build an action.
use Prim.Native.String.{String}
use autobench.Prelude.Outcome.{
  Action, Outcome, return, raise, failure, interrupt, deadline, pure, handle, try_except, keep,
  try_finally, and_then, ◌>>=◌,
}

abbrev pub OnReturn {ℓ} : {A : Type 0} → (A → Type ℓ) → Outcome A → Type ℓ
OnReturn R (return a) = R a
OnReturn R (raise e) = Unit

abbrev pub NoFailure : {A : Type 0} → Outcome A → Type 0
NoFailure (raise (failure _)) = ⊥
NoFailure _ = Unit

-- Whatever `m` returns meets `R`.
pub record Returns {S A : Type 0} (R : A → Type 0) (m : Action S A) : Type 0 where
  pub at : (s : S) → OnReturn R (m s).0

-- `m` lets no `Exception` out.
pub record Catches {S A : Type 0} (m : Action S A) : Type 0 where
  pub at : (s : S) → NoFailure (m s).0

module _ {S A : Type 0} where
  pub Catches-pure : (a : A) → Catches (pure {S = S} a)
  Catches-pure a = record { at = λ s. tt }

  NoFailure-handle :
      (handler : String → Action S A)
      → ((text : String) → Catches (handler text))
      → (r : Outcome A × S) → NoFailure (handle handler r).0
  NoFailure-handle handler h (return a, s) = tt
  NoFailure-handle handler h (raise (failure text), s) = (h text).at s
  NoFailure-handle handler h (raise (interrupt repr), s) = tt
  NoFailure-handle handler h (raise deadline, s) = tt

  pub Catches-try_except :
      (body : Action S A) (handler : String → Action S A)
      → ((text : String) → Catches (handler text))
      → Catches (try_except body handler)
  Catches-try_except body handler h = record { at = λ s. NoFailure-handle handler h (body s) }

  NoFailure-keep :
      (r : Outcome A) (t : Outcome (Unit {0}) × S)
      → NoFailure r
      → NoFailure t.0
      → NoFailure (keep r t).0
  NoFailure-keep r (return _, s) h k = h
  NoFailure-keep r (raise (failure _), s) h k = k
  NoFailure-keep r (raise (interrupt _), s) h k = tt
  NoFailure-keep r (raise deadline, s) h k = tt

  pub Catches-try_finally :
      (body : Action S A) (cleanup : Action S (Unit {0}))
      → Catches body
      → Catches cleanup
      → Catches (try_finally body cleanup)
  Catches-try_finally body cleanup hb hc = record {
    at = λ s. let (r, after) = body s in NoFailure-keep r (cleanup after) (hb.at s) (hc.at after);
  }

module _ {S A B : Type 0} where
  NoFailure-and_then :
      (f : A → Action S B)
      → ((a : A) → Catches (f a))
      → (r : Outcome A) (s : S) → NoFailure r
      → NoFailure (and_then r f s).0
  NoFailure-and_then f h (return a) s k = (h a).at s
  NoFailure-and_then f h (raise (failure _)) s k = k
  NoFailure-and_then f h (raise (interrupt _)) s k = tt
  NoFailure-and_then f h (raise deadline) s k = tt

  pub Catches-bind :
      (m : Action S A) (f : A → Action S B)
      → Catches m
      → ((a : A) → Catches (f a))
      → Catches (m >>= f)
  Catches-bind m f hm hf = record {
    at = λ s. let (r, after) = m s in NoFailure-and_then f hf r after (hm.at s);
  }

pub ruleset catches_rules = (Catches-pure, Catches-try_except, Catches-try_finally, Catches-bind)

module _ {S A : Type 0} (R : A → Type 0) where
  pub Returns-pure : (a : A) → R a → Returns R (pure {S = S} a)
  Returns-pure a h = record { at = λ s. h }

  OnReturn-handle :
      (handler : String → Action S A)
      → ((text : String) → Returns R (handler text))
      → (r : Outcome A × S) → OnReturn R r.0
      → OnReturn R (handle handler r).0
  OnReturn-handle handler h (return a, s) k = k
  OnReturn-handle handler h (raise (failure text), s) k = (h text).at s
  OnReturn-handle handler h (raise (interrupt repr), s) k = tt
  OnReturn-handle handler h (raise deadline, s) k = tt

  pub Returns-try_except :
      (body : Action S A) (handler : String → Action S A)
      → Returns R body
      → ((text : String) → Returns R (handler text))
      → Returns R (try_except body handler)
  Returns-try_except body handler hb hh = record {
    at = λ s. OnReturn-handle handler hh (body s) (hb.at s);
  }

  OnReturn-keep :
      (r : Outcome A) (t : Outcome (Unit {0}) × S) → OnReturn R r → OnReturn R (keep r t).0
  OnReturn-keep r (return _, s) h = h
  OnReturn-keep r (raise _, s) h = tt

  pub Returns-try_finally :
      (body : Action S A) (cleanup : Action S (Unit {0}))
      → Returns R body
      → Returns R (try_finally body cleanup)
  Returns-try_finally body cleanup hb = record {
    at = λ s. let (r, after) = body s in OnReturn-keep r (cleanup after) (hb.at s);
  }

  OnReturn-and_then :
      {A' : Type 0} (f : A' → Action S A)
      → ((a : A') → Returns R (f a))
      → (r : Outcome A') (s : S) → OnReturn R (and_then r f s).0
  OnReturn-and_then f h (return a) s = (h a).at s
  OnReturn-and_then f h (raise _) s = tt

  pub Returns-bind :
      {A' : Type 0} (m : Action S A') (f : A' → Action S A)
      → ((a : A') → Returns R (f a))
      → Returns R (m >>= f)
  Returns-bind m f hf = record { at = λ s. let (r, after) = m s in OnReturn-and_then f hf r after }

pub ruleset returns_rules = (Returns-pure, Returns-try_except, Returns-try_finally, Returns-bind)

-- `m` keeps `P`, whether it returns or raises.
pub record Keeps {S A : Type 0} (P : S → Type 0) (m : Action S A) : Type 0 where
  pub at : (s : S) → P s → P (m s).1

module _ {S A : Type 0} (P : S → Type 0) where
  pub Keeps-pure : (a : A) → Keeps P (pure a)
  Keeps-pure a = record { at = λ s h. h }

  pub keep_keeps : (r : Outcome A) (t : Outcome (Unit {0}) × S) → P t.1 → P (keep r t).1
  keep_keeps r (return _, s) h = h
  keep_keeps r (raise e, s) h = h

  pub Keeps-handle :
      (handler : String → Action S A)
      → ((text : String) → Keeps P (handler text))
      → (r : Outcome A × S) → P r.1
      → P (handle handler r).1
  Keeps-handle handler h (return a, s) k = k
  Keeps-handle handler h (raise (failure text), s) k = (h text).at s k
  Keeps-handle handler h (raise (interrupt repr), s) k = k
  Keeps-handle handler h (raise deadline, s) k = k

  pub Keeps-and_then :
      {A' : Type 0} (f : A' → Action S A)
      → ((a : A') → Keeps P (f a))
      → (r : Outcome A') (s : S) → P s
      → P (and_then r f s).1
  Keeps-and_then f h (return a) s k = (h a).at s k
  Keeps-and_then f h (raise e) s k = k

  pub Keeps-bind :
      {A' : Type 0} (m : Action S A') (f : A' → Action S A)
      → Keeps P m
      → ((a : A') → Keeps P (f a))
      → Keeps P (m >>= f)
  Keeps-bind m f hm hf = record {
    at = λ s h. let (r, after) = m s in Keeps-and_then f hf r after (hm.at s h);
  }

pub ruleset keeps_rules = (Keeps-pure, Keeps-bind)
