-- ===== src/Tests/Commas.antt =====
-- Lists of texts in one text, with commas between them.
use Prim.Native.Char.{Char, code}
use Prim.Native.String.{String, [], ◌∷◌, ◌++◌ as ◌<>◌}
use Prim.Native.String.append.{cons as append_cons, nil as append_nil}
use cnr_sandbox.Base.{
  arith, eq_iff, Bool, true, false, not, ◌&&◌, List, [], ◌∷◌, ◌≡◌, ◌≢◌, refl, ap, ◌∙◌, ◌==◌, ◌=?◌,
  Bool-cases, inl, inr,
}
use cnr_sandbox.Local.Chain.Nodes.{contains}

abbrev comma : Char
comma = ","

abbrev is_comma : Char → Bool
is_comma c = code c =? 44

abbrev cut : Bool → Char → List String → List String
cut true c rest = "" ∷ rest
cut false c [] = (c ∷ "") ∷ []
cut false c (x ∷ xs) = (c ∷ x) ∷ xs

unfoldable pub split_comma : String → List String
split_comma [] = "" ∷ []
split_comma (c ∷ s) = cut (is_comma c) c (split_comma s)

unfoldable join_from : String → List String → String
join_from x [] = x
join_from x (y ∷ ys) = x <> (comma ∷ join_from y ys)

unfoldable pub join_comma : List String → String
unfolding join_from
join_comma [] = ""
join_comma (x ∷ xs) = join_from x xs

-- No comma.
unfoldable pub plain : String → Bool
plain [] = true
plain (c ∷ s) = not (is_comma c) && plain s

cut_plain :
    (b : Bool) (c : Char) (x : String) (xs : List String)
    → b ≡ false
    → cut b c (x ∷ xs) ≡ (c ∷ x) ∷ xs
cut_plain b c x xs h = rw h refl

split_one : (x : String) → plain x ≡ true → split_comma x ≡ x ∷ []
unfolding split_comma plain
split_one [] h = refl
split_one (c ∷ s) h = rw (split_one s (ground arith)) (cut_plain (is_comma c) c s [] (ground arith))

nil_lem : (t : String) → "" <> t ≡ t
nil_lem t = λ i. append_nil t i

cons_lem : (c : Char) (s t : String) → (c ∷ s) <> t ≡ c ∷ (s <> t)
cons_lem c s t = λ i. append_cons c s t i

split_more : (x t : String) → plain x ≡ true → split_comma (x <> (comma ∷ t)) ≡ x ∷ split_comma t
unfolding split_comma plain
split_more [] t h = ap split_comma (nil_lem (comma ∷ t))
split_more (c ∷ s) t h =
    ap split_comma (cons_lem c s (comma ∷ t))
    ∙ rw (split_more s t (ground arith)) (cut_plain (is_comma c) c s (split_comma t) (ground arith))

AllPlain : List String → Type 0
AllPlain xs = (x : String) → contains x xs ≡ true → plain x ≡ true

head_plain : (x : String) (xs : List String) → AllPlain (x ∷ xs) → plain x ≡ true
unfolding AllPlain contains
head_plain x xs h = h x (ground (arith, eq_iff x x))

tail_plain : (x : String) (xs : List String) → AllPlain (x ∷ xs) → AllPlain xs
unfolding AllPlain contains
tail_plain x xs h y e = h y (ground arith)

split_join_from :
    (x : String) (xs : List String) → AllPlain (x ∷ xs) → split_comma (join_from x xs) ≡ x ∷ xs
unfolding join_from
split_join_from x [] h = split_one x (head_plain x [] h)
split_join_from x (y ∷ ys) h =
    split_more x (join_from y ys) (head_plain x (y ∷ ys) h)
    ∙ ap (λ (zs : List String). x ∷ zs) (split_join_from y ys (tail_plain x (y ∷ ys) h))

pub split_comma-join_comma :
    (xs : List String)
    → xs ≢ []
    → ((x : String) → contains x xs ≡ true → plain x ≡ true)
    → split_comma (join_comma xs) ≡ xs
unfolding join_comma AllPlain
split_comma-join_comma [] n h = absurd (n refl)
split_comma-join_comma (x ∷ xs) n h = split_join_from x xs h

cut_all :
    (b : Bool) (c : Char) (rest : List String)
    → is_comma c ≡ b
    → AllPlain rest
    → AllPlain (cut b c rest)
unfolding AllPlain contains plain
cut_all true c rest e h x m = elim (Bool-cases ("" == x)) [
  | inl same ↦ rw (← (eq_iff "" x).0 same) refl
  | inr other ↦ h x (ground arith)
]
cut_all false c [] e h x m = elim (Bool-cases ((c ∷ "") == x)) [
  | inl same ↦ rw (← (eq_iff (c ∷ "") x).0 same) (ground arith)
  | inr other ↦ ground arith
]
cut_all false c (y ∷ ys) e h x m = elim (Bool-cases ((c ∷ y) == x)) [
  | inl same ↦ rw (← (eq_iff (c ∷ y) x).0 same) (ground (arith, h y, eq_iff y y))
  | inr other ↦ h x (ground arith)
]

all_split : (t : String) → AllPlain (split_comma t)
unfolding split_comma AllPlain contains plain
all_split [] x h = elim (Bool-cases ("" == x)) [
  | inl same ↦ rw (← (eq_iff "" x).0 same) refl
  | inr other ↦ ground arith
]
all_split (c ∷ s) x h = cut_all (is_comma c) c (split_comma s) refl (all_split s) x h

apart : (c : Char) (u : String) → ◌≢◌ {A = String} (c ∷ u) ""
apart c u e = cc

pub cons_nonempty : (c : Char) (u : String) → ((c ∷ u) == "") ≡ false
cons_nonempty c u = elim (Bool-cases ((c ∷ u) == "")) [
  | inl same ↦ absurd (apart c u ((eq_iff (c ∷ u) "").0 same))
  | inr other ↦ other
]

append_nonempty : (s t : String) (c : Char) → ((s <> (c ∷ t)) == "") ≡ false
append_nonempty [] t c = rw (nil_lem (c ∷ t)) (cons_nonempty c t)
append_nonempty (d ∷ s) t c = rw (cons_lem d s (c ∷ t)) (cons_nonempty d (s <> (c ∷ t)))

pub split_comma-plain : (t x : String) → contains x (split_comma t) ≡ true → plain x ≡ true
unfolding AllPlain
split_comma-plain t x h = all_split t x h

pub join_comma-nonempty :
    (x : String) (xs : List String)
    → contains x xs ≡ true
    → (x == "") ≡ false
    → (join_comma xs == "") ≡ false
unfolding join_comma join_from contains
join_comma-nonempty x [] h n = cc
join_comma-nonempty x (y ∷ []) h n = ground (arith, eq_iff y x)
join_comma-nonempty x (y ∷ z ∷ zs) h n = append_nonempty y (join_from z zs) comma
