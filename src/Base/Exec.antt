-- ===== src/Base/Exec.antt =====
-- Go methods over a state: a result, an error value or a run-time panic, and the state beside it,
-- since what was written before an early return stays written.
use Prim.Native.Nat.{ℕ}
use Prim.Native.String.{String}
use mathlib.Core.Bool.{Bool, true, false}
use mathlib.Core.Logic.{◌⊎◌, inl, inr}
use mathlib.Core.Path.{◌≡◌, refl, ap, subst}
use mathlib.Core.List.{List, [], ◌∷◌}
use cnr_sandbox.Base.Tests.{if◌then◌else◌, ℤ}

-- The error values that the code makes. `external` is an error of a library; `wrap` is `%w`,
-- `both` is `multierr.Append`.
pub data Error : Type 0 where
  err_stopped err_node_not_found err_snapshot_not_found : Error
  external : String → Error
  wrap : String → Error → Error
  both : Error → Error → Error
  node_not_found repeated_node_name : String → Error
  node_exited : String → ℤ → Error
  already_paused not_paused : Error
  wrong_flag_type : String → String → String → Error
  port_not_free : ℕ → Error
  missing_key : String → Error
  message : String → Error
  err_already_bootstrapped err_not_bootstrapped err_not_enough_nodes err_aborted : Error
  err_invalid_vm_name err_no_blockchain_spec err_invalid_exec_path : Error
  err_not_exists err_not_exists_plugin err_not_exists_plugin_genesis : Error

-- What a call comes back with. `crash` is a panic of the run time.
pub data Result {ℓ} (A : Type ℓ) : Type ℓ where
  ok : A → Result A
  err : Error → Result A
  crash : String → Result A

abbrev pub Exec {ℓ} : Type ℓ → Type ℓ → Type ℓ
Exec S A = S → Result A × S

abbrev pub pure {ℓ} : {S A : Type ℓ} → A → Exec S A
pure a s = (ok a, s)

abbrev pub fail {ℓ} : {S A : Type ℓ} → Error → Exec S A
fail e s = (err e, s)

abbrev pub panic {ℓ} : {S A : Type ℓ} → String → Exec S A
panic m s = (crash m, s)

abbrev pub lift {ℓ} : {S A : Type ℓ} → Result A → Exec S A
lift r s = (r, s)

abbrev pub get {ℓ} : {S : Type ℓ} → Exec S S
get s = (ok s, s)

abbrev pub modify : {S : Type 0} → (S → S) → Exec S (Unit {0})
modify f s = (ok tt, f s)

abbrev pub continue {ℓ} : {S A B : Type ℓ} → Result A → (A → Exec S B) → Exec S B
continue (ok a) f s = f a s
continue (err e) f s = (err e, s)
continue (crash m) f s = (crash m, s)

infixl 5 ◌>>=◌ ◌>>◌
abbrev pub ◌>>=◌ {ℓ} : {S A B : Type ℓ} → Exec S A → (A → Exec S B) → Exec S B
◌>>=◌ m f s = let (r, s') = m s in continue r f s'

abbrev pub ◌>>◌ {ℓ} : {S A B : Type ℓ} → Exec S A → Exec S B → Exec S B
m >> n = m >>= λ _. n

-- An error value wrapped on its way up, as `fmt.Errorf` with `%w` does.
abbrev pub wrapping {ℓ} : {A : Type ℓ} → String → Result A → Result A
wrapping text (ok a) = ok a
wrapping text (err e) = err (wrap text e)
wrapping text (crash m) = crash m

abbrev pub wrap_exec {ℓ} : {S A : Type ℓ} → String → Exec S A → Exec S A
wrap_exec text m s = let (r, s') = m s in (wrapping text r, s')

abbrev pub bind_result {ℓ κ} : {A : Type ℓ} {B : Type κ} → Result A → (A → Result B) → Result B
bind_result (ok a) f = f a
bind_result (err e) f = err e
bind_result (crash m) f = crash m

-- A chain of results that succeeds has a first one that does.
pub bind_result-eq-ok :
    {A B : Type 0} (r : Result A) (f : A → Result B) {b : B}
    → bind_result r f ≡ ok b
    → (a : A) × (r ≡ ok a) × (f a ≡ ok b)
bind_result-eq-ok (ok a) f h = (a, refl, h)
bind_result-eq-ok (err e) f h = cc
bind_result-eq-ok (crash m) f h = cc

module _ {S A B : Type 0} where
  continue-eq-ok :
      (r : Result A) (f : A → Exec S B) (u : S) {b : B} {t : S}
      → continue r f u ≡ (ok b, t)
      → (a : A) × (r ≡ ok a) × (f a u ≡ (ok b, t))
  continue-eq-ok (ok a) f u h = (a, refl, h)
  continue-eq-ok (err e) f u h = cc
  continue-eq-ok (crash m) f u h = cc

  -- A block that succeeds has a first step that succeeds.
  pub >>=-eq-ok :
      (m : Exec S A) (f : A → Exec S B) (s : S) {b : B} {t : S}
      → (m >>= f) s ≡ (ok b, t)
      → (a : A) × (u : S) × (m s ≡ (ok a, u)) × (f a u ≡ (ok b, t))
  >>=-eq-ok m f s h =
      let (r, u) = m s in
      let inner = continue-eq-ok r f u h in
      (inner.0, u, ap (λ (x : Result A). (x, u)) inner.1, inner.2)

-- A block whose first step panics does so.
pub >>=-crash :
    {S A B : Type 0} (m : Exec S A) (f : A → Exec S B) (s t : S) (x : String)
    → m s ≡ (crash x, t)
    → (m >>= f) s ≡ (crash x, t)
>>=-crash m f s t x h = rw h refl

-- The call does not come back with a value.
abbrev pub Fails {ℓ} : {A : Type ℓ} → Result A → Type 0
Fails (ok a) = ⊥
Fails (err e) = Unit
Fails (crash m) = Unit

pub Result-cases : {A : Type 0} (r : Result A) → ((a : A) × (r ≡ ok a)) ⊎ Fails r
Result-cases (ok a) = inl (a, refl)
Result-cases (err e) = inr tt
Result-cases (crash m) = inr tt

module _ {S A B : Type 0} where
  continue-cases :
      (r : Result A) (f : A → Exec S B) (u : S)
      → ((a : A) × (r ≡ ok a) × (continue r f u ≡ f a u))
        ⊎ (Fails (continue r f u).0 × ((continue r f u).1 ≡ u))
  continue-cases (ok a) f u = inl (a, refl, refl)
  continue-cases (err e) f u = inr (tt, refl)
  continue-cases (crash m) f u = inr (tt, refl)

  -- A block goes on with the value of its first step, or ends with it.
  pub >>=-cases :
      (m : Exec S A) (f : A → Exec S B) (s : S)
      → ((a : A) × (m s ≡ (ok a, (m s).1)) × ((m >>= f) s ≡ f a (m s).1))
        ⊎ (Fails ((m >>= f) s).0 × (((m >>= f) s).1 ≡ (m s).1))
  >>=-cases m f s =
      let (r, u) = m s in
      elim (continue-cases r f u) [
        | inl x ↦ inl (x.0, ap (λ (y : Result A). (y, u)) x.1, x.2)
        | inr x ↦ inr x
      ]

-- `for _, x := range xs { if err := body(x); err != nil { return err } }`
unfoldable pub for_each : {S A : Type 0} → List A → (A → Exec S (Unit {0})) → Exec S (Unit {0})
for_each [] body = pure tt
for_each (x ∷ xs) body = body x >> for_each xs body

-- How the state may change. With `R s t = P s → P t` this says that an invariant is kept.
pub record IsPreorder {S : Type 0} (R : S → S → Type 0) : Type 0 where
  pub reflexive : (s : S) → R s s
  pub transitive : (s t u : S) → R s t → R t u → R s u

pub record Within {S A : Type 0} (R : S → S → Type 0) (m : Exec S A) : Type 0 where
  pub at : (s : S) → R s (m s).1

module _ {S A : Type 0} {R : S → S → Type 0} (order : IsPreorder R) where
  pub Within-pure : (a : A) → Within R (pure {S = S} a)
  Within-pure a = record { at = λ s. order.reflexive s }

  pub Within-fail : (e : Error) → Within R (fail {S = S} {A = A} e)
  Within-fail e = record { at = λ s. order.reflexive s }

  pub Within-panic : (m : String) → Within R (panic {S = S} {A = A} m)
  Within-panic m = record { at = λ s. order.reflexive s }

  pub Within-lift : (r : Result A) → Within R (lift {S = S} r)
  Within-lift r = record { at = λ s. order.reflexive s }

module _ {S A : Type 0} {R : S → S → Type 0} where
  pub Within-if :
      (b : Bool) (m n : Exec S A) → Within R m → Within R n → Within R (if b then m else n)
  Within-if true m n hm hn = hm
  Within-if false m n hm hn = hn

module _ {S A B : Type 0} {R : S → S → Type 0} (order : IsPreorder R) where
  Within-continue :
      (r : Result A) (f : A → Exec S B) → ((a : A) → Within R (f a)) → Within R (continue r f)
  Within-continue (ok a) f h = record { at = λ s. (h a).at s }
  Within-continue (err e) f h = record { at = λ s. order.reflexive s }
  Within-continue (crash m) f h = record { at = λ s. order.reflexive s }

  pub Within-bind :
      (m : Exec S A) (f : A → Exec S B)
      → Within R m
      → ((a : A) → Within R (f a))
      → Within R (m >>= f)
  Within-bind m f hm hf = record {
    at = λ s. let (r, t) = m s in order.transitive s t _ (hm.at s) ((Within-continue r f hf).at t);
  }

module _ {S A : Type 0} {R : S → S → Type 0} (order : IsPreorder R) where
  pub Within-for_each :
      (xs : List A) (body : A → Exec S (Unit {0}))
      → ((x : A) → Within R (body x))
      → Within R (for_each xs body)
  unfolding for_each
  Within-for_each [] body h = Within-pure order tt
  Within-for_each (x ∷ xs) body h =
      Within-bind order (body x) (λ _. for_each xs body) (h x) (λ _. Within-for_each xs body h)

module _ {S A : Type 0} {R : S → S → Type 0} where
  pub Within-wrap_exec : (text : String) (m : Exec S A) → Within R m → Within R (wrap_exec text m)
  Within-wrap_exec text m h = record { at = λ s. h.at s }

  -- An operation on a part of the state that the relation ignores.
  pub Within-of : (m : Exec S A) → ((s : S) → R s (m s).1) → Within R m
  Within-of m h = record { at = h }

pub ok_injective {ℓ} : {A : Type ℓ} {a b : A} → ok a ≡ ok b → a ≡ b
ok_injective h = cc

-- Every value that the call comes back with has the property.
pub record Gives {S A : Type 0} (Q : A → Type 0) (m : Exec S A) : Type 0 where
  pub at : (s t : S) (a : A) → m s ≡ (ok a, t) → Q a

pub Gives-pure : {S A : Type 0} {Q : A → Type 0} (a : A) → Q a → Gives Q (pure {S = S} a)
Gives-pure {Q = Q} a q = record { at = λ s t b h. subst Q (ok_injective (ap (λ x. x.0) h)) q }

pub Gives-bind :
    {S A B : Type 0} {Q : B → Type 0} (m : Exec S A) (f : A → Exec S B)
    → ((a : A) → Gives Q (f a))
    → Gives Q (m >>= f)
Gives-bind m f h = record {
  at = λ s t b e. let (a, u, _, e') = >>=-eq-ok m f s e in (h a).at u t b e';
}

-- What the call comes back with, and the state that it leaves.
pub record Ends {S A : Type 0} (Q : A → S → Type 0) (m : Exec S A) : Type 0 where
  pub at : (s t : S) (a : A) → m s ≡ (ok a, t) → Q a t

module _ {S A B : Type 0} {Q : B → S → Type 0} where
  pub Ends-bind : (m : Exec S A) (f : A → Exec S B) → ((a : A) → Ends Q (f a)) → Ends Q (m >>= f)
  Ends-bind m f h = record {
    at = λ s t b e. let (a, u, _, e') = >>=-eq-ok m f s e in (h a).at u t b e';
  }

  pub Ends-bind_given :
      {P : A → Type 0} (m : Exec S A) (f : A → Exec S B)
      → Gives P m
      → ((a : A) → P a → Ends Q (f a))
      → Ends Q (m >>= f)
  Ends-bind_given m f g h = record {
    at = λ s t b e. let (a, u, e0, e') = >>=-eq-ok m f s e in (h a (g.at s u a e0)).at u t b e';
  }

pub ruleset gives_rules = (Gives-pure, Gives-bind)

pub ruleset within_rules = (
  Within-pure, Within-fail, Within-panic, Within-lift, Within-if, Within-bind, Within-wrap_exec,
  Within-for_each,
)
