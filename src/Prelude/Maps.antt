-- ===== src/Prelude/Maps.antt =====
-- `BTreeMap<String, V>` as its entries in key order, and `HashMap<String, V>` where no code reads
-- the order.
use mathlib.Core.Path.{◌≡◌, refl}
use mathlib.Core.Logic.{◌↔◌, inl, inr}
use mathlib.Core.Bool.{Bool, true, false, ◌&&◌, ◌||◌}
use mathlib.Core.Option.{Option, none, some}
use mathlib.Core.List.{List, [], ◌∷◌, map}
use native.Mathlib.Omega.{arith}
use alpha_swarm.Prelude.Tests.{nat_eq, ltb, if◌then◌else◌, Bool-cases}
use alpha_swarm.Prelude.Texts.{Text, text_eq, text_eq_iff, contains}
use alpha_swarm.Prelude.Keys.{Distinct}

-- The order of `str`: by bytes.
unfoldable pub text_lt : Text → Text → Bool
text_lt a [] = false
text_lt [] (b ∷ bs) = true
text_lt (a ∷ as') (b ∷ bs) = ltb a b || (nat_eq a b && text_lt as' bs)

abbrev pub Map {ℓ} : Type ℓ → Type ℓ
Map A = List (Text × A)

module _ {ℓ} {A : Type ℓ} where
  abbrev pub keys : Map A → List Text
  keys m = map (λ e. e.0) m

  abbrev pub has_key : Text → Map A → Bool
  has_key k m = contains (keys m) k

  abbrev pub get : Text → Map A → Option A
  get k [] = none
  get k ((j, v) ∷ m) = if text_eq j k then some v else get k m

  abbrev pub place : Text → A → Map A → Map A
  place k v [] = (k, v) ∷ []
  place k v ((j, u) ∷ m) = if text_lt k j then (k, v) ∷ (j, u) ∷ m else (j, u) ∷ place k v m

  abbrev pub replace : Text → A → Map A → Map A
  replace k v [] = []
  replace k v ((j, u) ∷ m) = if text_eq j k then (j, v) ∷ m else (j, u) ∷ replace k v m

  unfoldable pub insert : Text → A → Map A → Map A
  insert k v m = if has_key k m then replace k v m else place k v m

  unfoldable pub remove : Text → Map A → Map A
  remove k [] = []
  remove k ((j, u) ∷ m) = if text_eq j k then remove k m else (j, u) ∷ remove k m

  get-place :
      (k p : Text) (v : A) (m : Map A)
      → has_key k m ≡ false
      → get p (place k v m) ≡ (if text_eq k p then some v else get p m)
  get-place k p v [] h = refl
  get-place k p v ((j, u) ∷ m) h =
      ground (arith, text_eq_iff k p, text_eq_iff j p, text_eq_iff j k, get-place k p v m)

  get-replace :
      (k p : Text) (v : A) (m : Map A)
      → has_key k m ≡ true
      → get p (replace k v m) ≡ (if text_eq k p then some v else get p m)
  get-replace k p v [] h = cc
  get-replace k p v ((j, u) ∷ m) h =
      ground (arith, text_eq_iff k p, text_eq_iff j p, text_eq_iff j k, get-replace k p v m)

  pub get-insert :
      (k p : Text) (v : A) (m : Map A)
      → get p (insert k v m) ≡ (if text_eq k p then some v else get p m)
  unfolding insert
  get-insert k p v m = ground (arith, get-place k p v m, get-replace k p v m)

  pub get-remove :
      (k p : Text) (m : Map A) → get p (remove k m) ≡ (if text_eq k p then none else get p m)
  unfolding remove
  get-remove k p [] = ground arith
  get-remove k p ((j, u) ∷ m) =
      ground (arith, text_eq_iff k p, text_eq_iff j p, text_eq_iff j k, get-remove k p m)

  pub has_key-get : (k : Text) (m : Map A) → (has_key k m ≡ false) ↔ (get k m ≡ none)
  has_key-get k [] = ground arith
  has_key-get k ((j, u) ∷ m) = ground (arith, has_key-get k m)

  has_key-place :
      (k p : Text) (v : A) (m : Map A) → has_key p (place k v m) ≡ (text_eq k p || has_key p m)
  has_key-place k p v [] = refl
  has_key-place k p v ((j, u) ∷ m) = ground (arith, has_key-place k p v m)

  keys-replace : (k : Text) (v : A) (m : Map A) → keys (replace k v m) ≡ keys m
  keys-replace k v [] = refl
  keys-replace k v ((j, u) ∷ m) = ground (arith, keys-replace k v m)

  Distinct-place :
      (k : Text) (v : A) (m : Map A)
      → has_key k m ≡ false
      → Distinct (keys m)
      → Distinct (keys (place k v m))
  Distinct-place k v [] h d = (refl, tt)
  Distinct-place k v ((j, u) ∷ m) h d =
      ground (arith, text_eq_iff k j, text_eq_iff j k, has_key-place k j v m, Distinct-place k v m)

  -- A map has each key once, whatever is inserted.
  pub Distinct-insert :
      (k : Text) (v : A) (m : Map A) → Distinct (keys m) → Distinct (keys (insert k v m))
  unfolding insert
  Distinct-insert k v m d = ground (arith, Distinct-place k v m, keys-replace k v m)

  has_key-remove : (k p : Text) (m : Map A) → has_key p m ≡ false → has_key p (remove k m) ≡ false
  unfolding remove
  has_key-remove k p [] h = refl
  has_key-remove k p ((j, u) ∷ m) h = ground (arith, has_key-remove k p m)

  pub Distinct-remove : (k : Text) (m : Map A) → Distinct (keys m) → Distinct (keys (remove k m))
  unfolding remove
  Distinct-remove k [] d = tt
  Distinct-remove k ((j, u) ∷ m) d = ground (arith, has_key-remove k j m, Distinct-remove k m)

  pub has_key-insert :
      (k p : Text) (v : A) (m : Map A) → has_key p (insert k v m) ≡ (text_eq k p || has_key p m)
  unfolding insert
  has_key-insert k p v m = elim (Bool-cases (has_key k m)) [
    | inl has ↦ rw (has, keys-replace k v m) (ground (arith, text_eq_iff k p))
    | inr lacks ↦ rw lacks (has_key-place k p v m)
  ]
