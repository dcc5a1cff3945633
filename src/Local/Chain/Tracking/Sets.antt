-- ===== src/Local/Chain/Tracking/Sets.antt =====
-- The sets of subnets that a node tracks, in the flag that `restartNodes` of local/blockchain.go
-- reads and writes.
use cnr_sandbox.Base.{
  arith, eq_iff, String, ◌==◌, Bool, true, false, List, [], ◌∷◌, ◌≡◌, refl, ◌∙◌, ◌≢◌, ◌||◌,
  Bool-cases, inl, inr,
}
use cnr_sandbox.World.{World}
use cnr_sandbox.Local.Ledger.{Ledger}
use cnr_sandbox.Local.Chain.Nodes.{contains, add_member}
use cnr_sandbox.Local.Chain.Tracking.{add_all, texts, tracked_before, tracked_flag}

-- What is assumed of strings.Split, strings.Join, sort.Strings and the text of an ID. `plain` says
-- that a text has no comma.
pub record SplitsAtCommas {W : World} (L : Ledger W) (plain : String → Bool) : Type 0 where
  pub split_join :
      (xs : List String)
      → xs ≢ []
      → ((x : String) → contains x xs ≡ true → plain x ≡ true)
      → L.split (L.join_all xs) ≡ xs
  pub split_plain : (t x : String) → contains x (L.split t) ≡ true → plain x ≡ true
  pub join_nonempty :
      (x : String) (xs : List String)
      → contains x xs ≡ true
      → (x == "") ≡ false
      → (L.join_all xs == "") ≡ false
  pub contains-sort : (x : String) (xs : List String) → contains x (L.sort xs) ≡ contains x xs
  pub id_plain : (id : String) → plain (L.id_text id) ≡ true
  pub id_nonempty : (id : String) → (L.id_text id == "") ≡ false

contains-add_member :
    (x y : String) (xs : List String) → contains x (add_member y xs) ≡ (y == x || contains x xs)
unfolding add_member contains
contains-add_member x y xs = ground (arith, eq_iff y x)

contains-add_all :
    (x : String) (ys xs : List String)
    → contains x (add_all ys xs) ≡ (contains x ys || contains x xs)
unfolding add_all contains
contains-add_all x [] xs = refl
contains-add_all x (y ∷ ys) xs =
    ground (arith, contains-add_all x ys (add_member y xs), contains-add_member x y xs)

module _ {W : World} (L : Ledger W) (plain : String → Bool) (H : SplitsAtCommas L plain) where
  texts-plain :
      (ids : List String) (x : String) → contains x (texts L.id_text ids) ≡ true → plain x ≡ true
  unfolding texts contains
  texts-plain [] x h = cc
  texts-plain (id ∷ ids) x h = elim (Bool-cases (L.id_text id == x)) [
    | inl same ↦ rw (← (eq_iff (L.id_text id) x).0 same) (H.id_plain id)
    | inr other ↦ texts-plain ids x (ground arith)
  ]

  before_plain : (t x : String) → contains x (tracked_before W L t) ≡ true → plain x ≡ true
  unfolding tracked_before contains
  before_plain t x h = ground (arith, contains-add_all x (L.split t) [], H.split_plain t x)

  nonempty : (x : String) (xs : List String) → contains x xs ≡ true → xs ≢ []
  unfolding contains
  nonempty x [] h e = cc
  nonempty x (y ∷ ys) h e = cc

  first_text :
      (id : String) (ids : List String)
      → contains (L.id_text id) (texts L.id_text (id ∷ ids)) ≡ true
  unfolding texts contains
  first_text id ids = ground (arith, eq_iff (L.id_text id) (L.id_text id))

  -- A flag that was joined from such texts is read as the set of them.
  read_back :
      (xs : List String) (x y : String)
      → contains y xs ≡ true
      → (y == "") ≡ false
      → ((z : String) → contains z xs ≡ true → plain z ≡ true)
      → contains x (tracked_before W L (L.join_all xs)) ≡ contains x xs
  unfolding tracked_before contains
  read_back xs x y here shown all =
      let filled = H.join_nonempty y xs here shown in
      let pieces = H.split_join xs (nonempty y xs here) all in
      rw (filled, pieces) (ground (arith, contains-add_all x xs []))

  -- The subnets that a node tracks after new ones were added to its flag, read back from the flag, are the new ones and those that were read before, for a nonempty list of new subnets; under the assumptions on commas, sorting and the texts of IDs.
  pub tracked_roundtrip :
      (t id : String) (ids : List String) (x : String)
      → contains x (tracked_before W L (tracked_flag W L t (id ∷ ids)))
        ≡ (contains x (texts L.id_text (id ∷ ids)) || contains x (tracked_before W L t))
  unfolding tracked_before tracked_flag
  tracked_roundtrip t id ids x =
      let news = texts L.id_text (id ∷ ids) in
      let before = tracked_before W L t in
      let set = add_all news before in
      let member = λ (z : String). H.contains-sort z set ∙ contains-add_all z news before in
      let first : contains (L.id_text id) (L.sort set) ≡ true =
        ground (arith, member (L.id_text id), first_text id ids) in
      read_back (L.sort set) x (L.id_text id) first (H.id_nonempty id)
        (λ z h. ground (arith, member z, texts-plain (id ∷ ids) z, before_plain t z))
      ∙ member x
