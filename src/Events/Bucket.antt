-- ===== src/Events/Bucket.antt =====
-- A NATS key-value bucket (`async_nats::jetstream::kv::Store`) as an interface: what the scheduler
-- calls, what the service documents, and an implementation by a map that shows it can hold.
use alpha_swarm.Prelude.{
  Text, text_eq, text_eq_refl, subst, List, Option, none, some, Bool, true, false, ◌≡◌, sym, arith,
  Result, ok, contains, if◌then◌else◌,
}
use alpha_swarm.Prelude.Maps.{
  Map, get, insert, remove, has_key, keys, get-insert, get-remove, has_key-get,
}

-- Each call changes the bucket and says whether it succeeded.
pub record Bucket : Type 1 where
  pub State : Type 0
  pub create : Text → Text → State → Bool × State
  pub write : Text → Text → State → Bool × State
  pub purge : Text → State → Bool × State
  pub lookup : Text → State → Result Text (Option Text)
  -- the keys, unless they cannot be listed
  pub keys_of : State → Option (List Text)
  -- an entry passes its maximal age
  pub expire : Text → State → State
  -- what the bucket holds
  pub value : Text → State → Option Text

abbrev pub is_held : (b : Bucket) → Text → b.State → Bool
is_held b k s = elim (b.value k s) [ none ↦ false | some v ↦ true ]

-- A create succeeds on a free key only and leaves it taken; no call but a purge or the expiry of a
-- key frees it. A call that fails may have happened.
pub record IsBucket (b : Bucket) : Type 0 where
  pub create_free :
      (k v : Text) (s : b.State)
      → (b.create k v s).0 ≡ true
      → (is_held b k s ≡ false) × (is_held b k (b.create k v s).1 ≡ true)
  pub create_keeps :
      (k v q : Text) (s : b.State) → is_held b q s ≡ true → is_held b q (b.create k v s).1 ≡ true
  pub write_keeps :
      (k v q : Text) (s : b.State) → is_held b q s ≡ true → is_held b q (b.write k v s).1 ≡ true
  pub purge_keeps :
      (k q : Text) (s : b.State)
      → text_eq k q ≡ false
      → is_held b q s ≡ true
      → is_held b q (b.purge k s).1 ≡ true
  pub expire_keeps :
      (k q : Text) (s : b.State)
      → text_eq k q ≡ false
      → is_held b q s ≡ true
      → is_held b q (b.expire k s) ≡ true

-- While the service is reachable, its calls do what they say.
pub record IsReliable (b : Bucket) : Type 0 where
  pub create_succeeds :
      (k v : Text) (s : b.State) → is_held b k s ≡ false → (b.create k v s).0 ≡ true
  pub purge_frees : (k : Text) (s : b.State) → is_held b k (b.purge k s).1 ≡ false
  pub purge_frees_no_more :
      (k q : Text) (s : b.State) → is_held b q s ≡ false → is_held b q (b.purge k s).1 ≡ false
  pub keys_complete :
      (s : b.State) (ks : List Text) (k : Text)
      → b.keys_of s ≡ some ks
      → contains ks k ≡ false
      → is_held b k s ≡ false

abbrev pub map_bucket : Bucket
map_bucket = record {
  State = Map Text;
  create = λ k v s. if has_key k s then (false, s) else (true, insert k v s);
  write = λ k v s. (true, insert k v s);
  purge = λ k s. (true, remove k s);
  lookup = λ k s. ok (get k s);
  keys_of = λ s. some (keys s);
  expire = remove;
  value = get;
}

pub map_bucket-IsBucket : IsBucket map_bucket
map_bucket-IsBucket = record {
  create_free = λ k v s e. ground (arith, has_key-get k s, get-insert k k v s, text_eq_refl k);
  create_keeps = λ k v q s h. ground (arith, get-insert k q v s);
  write_keeps = λ k v q s h. ground (arith, get-insert k q v s);
  purge_keeps = λ k q s n h. ground (arith, get-remove k q s);
  expire_keeps = λ k q s n h. ground (arith, get-remove k q s);
}

pub map_bucket-IsReliable : IsReliable map_bucket
map_bucket-IsReliable = record {
  create_succeeds = λ k v s h. ground (arith, has_key-get k s);
  purge_frees = λ k s. ground (arith, get-remove k k s, text_eq_refl k);
  purge_frees_no_more = λ k q s h. ground (arith, get-remove k q s);
  keys_complete = λ s ks k e h.
      let same : keys s ≡ ks = cc in
      ground (arith, (has_key-get k s).0 (subst (λ l. contains l k ≡ false) (sym same) h));
}
