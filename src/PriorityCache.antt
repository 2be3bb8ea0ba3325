-- ===== src/PriorityCache.antt =====
-- The class template `PriorityCache` of lib/include/PriorityCache.h. `reserve` changes no value.
pub mod Bounds
use spacedisplay.Common.{
  ℕ, ◌+◌, ◌-◌, ◌%◌, ◌^◌, Bool, true, false, not, ◌&&◌, Option, none, some, List, [], ◌∷◌, ltb, ◌==◌,
  if◌then◌else◌, length, take, drop, push_back,
}
use spacedisplay.FilePath.{Result, ok, err}

pub record KeyAccess {ℓ} (K : Type ℓ) : Type ℓ where
  pub key : K
  pub last_access : ℕ

-- `key` points to the `KeyAccess`.
pub record Value {ℓ} (V : Type ℓ) : Type ℓ where
  pub value : V
  pub key : ℕ

-- `keys` points to the accesses, which stand in a heap. `next` is where the next one goes.
pub record PriorityCache {ℓ} (K V : Type ℓ) : Type ℓ where
  pub values : List (K × Value V)
  pub keys : List ℕ
  pub accesses : ℕ → Option (KeyAccess K)
  pub next : ℕ
  pub max_size : ℕ
  pub access_counter : ℕ

-- `++accessCounter` on `uint64_t`.
abbrev pub tick : ℕ → ℕ
tick n = (n + 1) % 2 ^ 64

abbrev pub new_cache {ℓ} : {K V : Type ℓ} → PriorityCache K V
new_cache = record {
  values = [];
  keys = [];
  accesses = λ a. none;
  next = 0;
  max_size = 2 ^ 64 - 1;
  access_counter = 0;
}

-- The time of a key that is still there.
unfoldable pub time {ℓ} : {K : Type ℓ} → (ℕ → Option (KeyAccess K)) → ℕ → ℕ
time accesses a = elim (accesses a) [ none ↦ 0 | some k ↦ k.last_access ]

-- `same` is the keys' `==`, and `sort` is `std::sort` of the keys by their last access, the latest
-- first.
module _ {ℓ} {K V : Type ℓ} (same : K → K → Bool) (sort : (ℕ → ℕ) → List ℕ → List ℕ) where
  unfoldable pub find_value : K → List (K × Value V) → Option (Value V)
  find_value k [] = none
  find_value k ((x, v) ∷ vs) = if same x k then some v else find_value k vs

  unfoldable pub erase_value : K → List (K × Value V) → List (K × Value V)
  erase_value k [] = []
  erase_value k ((x, v) ∷ vs) = if same x k then vs else (x, v) ∷ erase_value k vs

  unfoldable pub erase_all :
      (ℕ → Option (KeyAccess K)) → List ℕ → List (K × Value V) → List (K × Value V)
  unfolding erase_value
  erase_all accesses [] vs = vs
  erase_all accesses (a ∷ more) vs = elim (accesses a) [
    | none ↦ erase_all accesses more vs
    | some k ↦ erase_all accesses more (erase_value k.key vs)
  ]

  unfoldable pub trim : ℕ → PriorityCache K V → PriorityCache K V
  unfolding time erase_all
  trim n c =
      let keys = sort (time c.accesses) c.keys in
      if not (ltb n (length c.keys))
      then c
      else record c { values = erase_all c.accesses (drop n keys) c.values; keys = take n keys }

  -- `it->second.key->lastAccess = accessCounter`, and the counter's step.
  unfoldable pub touch : ℕ → PriorityCache K V → PriorityCache K V
  touch a c = record c {
    accesses = λ x.
        if x == a
        then elim (c.accesses a) [
          | none ↦ none
          | some k ↦ some (record k { last_access = c.access_counter })
        ]
        else c.accesses x;
    access_counter = tick c.access_counter;
  }

  unfoldable pub add_new_value : K → V → PriorityCache K V → PriorityCache K V
  unfolding trim
  add_new_value k v c =
      let access : KeyAccess K = record { key = k; last_access = c.access_counter } in
      let new : Value V = record { value = v; key = c.next } in
      let added : PriorityCache K V = record c {
        values = (k, new) ∷ c.values;
        keys = push_back c.keys c.next;
        accesses = λ x. if x == c.next then some access else c.accesses x;
        next = c.next + 1;
        access_counter = tick c.access_counter;
      } in
      if ltb 0 c.max_size && ltb c.max_size (length added.keys)
      then trim c.max_size added
      else added

  unfoldable pub set_value : K → V → List (K × Value V) → List (K × Value V)
  set_value k new [] = []
  set_value k new ((x, v) ∷ vs) =
      if same x k then (x, record v { value = new }) ∷ vs else (x, v) ∷ set_value k new vs

  unfoldable pub put : K → V → PriorityCache K V → PriorityCache K V
  unfolding find_value touch add_new_value set_value
  put k v c = elim (find_value k c.values) [
    | none ↦ add_new_value k v c
    | some old ↦ let t = touch old.key c in record t { values = set_value k v t.values }
  ]

  unfoldable pub is_cached : K → PriorityCache K V → Bool
  unfolding find_value
  is_cached k c = elim (find_value k c.values) [ none ↦ false | some v ↦ true ]

  unfoldable pub set_max_size : ℕ → PriorityCache K V → PriorityCache K V
  unfolding trim
  set_max_size n c =
      let t = if ltb n (length c.keys) then trim n c else c in record t { max_size = n }

  unfoldable pub invalidate : PriorityCache K V → PriorityCache K V
  invalidate c = record c { values = []; keys = [] }

  -- The supplier may throw. The value is `none` where the source dereferences `values.end()`.
  unfoldable pub get :
      (K → Result V) → K → PriorityCache K V → Result (PriorityCache K V × Option V)
  unfolding find_value touch add_new_value
  get supplier k c = elim (find_value k c.values) [
    | some v ↦ ok (touch v.key c, some v.value)
    | none ↦ elim (supplier k) [
      | err ↦ err
      | ok v ↦
          let d = add_new_value k v c in
          ok (d, elim (find_value k d.values) [ none ↦ none | some w ↦ some w.value ])
    ]
  ]
