-- ===== src/Base/Method.antt =====
-- Methods of an object that may throw: what was changed before an exception stays changed.
use libcosim.Base.Outcome.{Outcome, Failure, ok, err}

abbrev pub Method : Type 0 → Type 0 → Type 0
Method S A = S → Outcome A × S

abbrev pub pure : {S A : Type 0} → A → Method S A
pure a s = (ok a, s)

abbrev pub throw : {S A : Type 0} → Failure → Method S A
throw e s = (err e, s)

abbrev pub continue : {S A B : Type 0} → Outcome A → S → (A → Method S B) → Outcome B × S
continue (ok a) s f = f a s
continue (err e) s f = (err e, s)

infixl 5 ◌>>=◌ ◌>>◌
abbrev pub ◌>>=◌ : {S A B : Type 0} → Method S A → (A → Method S B) → Method S B
◌>>=◌ m f s = let r = m s in continue r.0 r.1 f

abbrev pub ◌>>◌ : {S B : Type 0} → Method S (Unit {0}) → Method S B → Method S B
m >> k = m >>= λ _. k

abbrev pub read : {S A : Type 0} → (S → A) → Method S A
read f s = (ok (f s), s)

abbrev pub modify : {S : Type 0} → (S → S) → Method S (Unit {0})
modify f s = (ok tt, f s)

abbrev pub lift : {S A : Type 0} → Outcome A → Method S A
lift o s = (o, s)

-- A method of a part of the object.
abbrev pub zoom : {S C A : Type 0} → (S → C) → (C → S → S) → Method C A → Method S A
zoom part put m s = let r = m (part s) in (r.0, put r.1 s)

-- What holds of how the first call ends is carried through the second, or through its failure.
pub >>=-ends {ℓ κ} :
    {S A B : Type 0} (m : Method S A) (f : A → Method S B) (s : S) (P : Outcome A → S → Type ℓ)
    (Q : Outcome B → S → Type κ)
    → P (m s).0 (m s).1
    → ((a : A) (t : S) → P (ok a) t → Q (f a t).0 (f a t).1)
    → ((x : Failure) (t : S) → P (err x) t → Q (err x) t)
    → Q ((m >>= f) s).0 ((m >>= f) s).1
>>=-ends m f s P Q h next failed = go (m s).0 (m s).1 h
  where
    go : (o : Outcome _) (t : _) → P o t → Q (continue o t f).0 (continue o t f).1
    go (ok a) t p = next a t p
    go (err x) t p = failed x t p
