-- ===== src/Auth/Lru.antt =====
-- The cache of github.com/hashicorp/golang-lru/v2, which is not part of this repository: its
-- operations, and what its documentation says of them. `peek` is what a cache holds under a key.
use majordomo_steward.Prelude.{
  Str, false, Option, none, some, ◌≡◌, ◌⊎◌, inr, refl, str_eq, str_eq_iff, str_eq_sound, sym, ◌∙◌,
  inl, arith, Bool-cases, if◌then◌else◌,
}

pub record Lru (V : Type 0) : Type 1 where
  pub Cache : Type 0
  pub empty : Cache
  pub peek : Cache → Str → Option V
  pub get : Cache → Str → Option V × Cache
  pub add : Cache → Str → V → Cache
  pub remove : Cache → Str → Cache
  pub peek-empty : (k : Str) → peek empty k ≡ none
  -- Get returns what is held; it moves the key to the front and drops nothing.
  pub get-value : (c : Cache) (k : Str) → (get c k).0 ≡ peek c k
  pub peek-get : (c : Cache) (k j : Str) → peek (get c k).1 j ≡ peek c j
  -- Add holds the new value, and may evict another key.
  pub peek-add_self : (c : Cache) (k : Str) (v : V) → peek (add c k v) k ≡ some v
  pub peek-add_ne :
      (c : Cache) (k j : Str) (v : V)
      → str_eq j k ≡ false
      → (peek (add c k v) j ≡ none) ⊎ (peek (add c k v) j ≡ peek c j)
  pub peek-remove :
      (c : Cache) (k j : Str) → peek (remove c k) j ≡ (if str_eq j k then none else peek c j)

-- A cache that never evicts, as a function.
abbrev pub unbounded : (V : Type 0) → Lru V
unbounded V = record {
  Cache = Str → Option V;
  empty = λ k. none;
  peek = λ c k. c k;
  get = λ c k. (c k, c);
  add = λ c k v j. if str_eq j k then some v else c j;
  remove = λ c k j. if str_eq j k then none else c j;
  peek-empty = λ k. refl;
  get-value = λ c k. refl;
  peek-get = λ c k j. refl;
  peek-add_self = λ c k v. added c k v;
  peek-add_ne = λ c k j v h. inr (kept c k j v h);
  peek-remove = λ c k j. refl;
}
  where
    added : (c : Str → Option V) (k : Str) (v : V) → (if str_eq k k then some v else c k) ≡ some v
    added c k v = rw ((str_eq_iff k k).1 refl)

    kept :
        (c : Str → Option V) (k j : Str) (v : V)
        → str_eq j k ≡ false
        → (if str_eq j k then some v else c j) ≡ c j
    kept c k j v h = rw h

module _ {V : Type 0} (lru : Lru V) where
  open lru use {Cache, peek, add, remove}

  -- What is held after an addition is the new value or was held before.
  pub peek-add :
      (c : Cache) (k j : Str) (v e : V)
      → peek (add c k v) j ≡ some e
      → ((j ≡ k) × (v ≡ e)) ⊎ (peek c j ≡ some e)
  peek-add c k j v e h = elim (Bool-cases (str_eq j k)) [
    | inl same ↦
        let at : j ≡ k = str_eq_sound j k same in
        let stored : peek (add c k v) j ≡ some v = rw at (lru.peek-add_self c k v) in inl (at, cc)
    | inr other ↦ inr (kept (lru.peek-add_ne c k j v other))
  ]
    where
      kept : (peek (add c k v) j ≡ none) ⊎ (peek (add c k v) j ≡ peek c j) → peek c j ≡ some e
      kept (inl evicted) = absurd (cc)
      kept (inr same) = sym same ∙ h

  pub peek-remove_sub :
      (c : Cache) (k j : Str) (e : V) → peek (remove c k) j ≡ some e → peek c j ≡ some e
  peek-remove_sub c k j e h = ground (arith, lru.peek-remove c k j)
