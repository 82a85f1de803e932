-- ===== src/Utils/PatchLaws.antt =====
-- What a patch leaves alone (patroni/utils.py: `patch_config`).
use pennsignals_postgres.Base.{
  String, Bool, true, false, ◌==◌, ◌≡◌, refl, sym, ◌∙◌, ap, inl, inr, Bool-cases, arith, subst,
  if◌then◌else◌,
}
use pennsignals_postgres.Base.TextLaws.{other_key}
use pennsignals_postgres.Json.{
  Value, null, obj, str, num, bool, arr, Fields, end, field, get, has_key, put, remove,
}
use pennsignals_postgres.Utils.Patch.{is_none, patch_nested, patch_plain, patch_config, patch_entry}

-- A dictionary without a `None` at any depth of dictionaries.
unfoldable mutual
  pub IsFull : Fields → Type 0
  IsFull end = Unit
  IsFull (field k v d) = HasNoNone v × IsFull d

  pub HasNoNone : Value → Type 0
  HasNoNone null = true ≡ false
  HasNoNone (obj d) = IsFull d
  HasNoNone _ = Unit

get_later :
    (name k : String) (v : Value) (c : Fields)
    → (k == name) ≡ false
    → get name (field k v c) ≡ get name c
unfolding get
get_later name k v c e = rw e refl

put-get : (name : String) (c : Fields) → has_key name c ≡ true → put name (get name c) c ≡ c
unfolding put get has_key
put-get name end h = cc
put-get name (field k v c) h = elim (Bool-cases (k == name)) [
  | inl e ↦ rw e refl
  | inr e ↦
      let same =
        subst (λ x. put name x c ≡ c) (sym (get_later name k v c e))
          (put-get name c (ground arith)) in
      rw e (ap (field k v) same)
]

remove-absent : (name : String) (c : Fields) → has_key name c ≡ false → remove name c ≡ c
unfolding remove has_key
remove-absent name end h = refl
remove-absent name (field k v c) h = elim (Bool-cases (k == name)) [
  | inl e ↦ absurd (ground arith)
  | inr e ↦ rw e (ap (field k v) (remove-absent name c (ground arith)))
]

get-HasNoNone :
    (name : String) (c : Fields) → IsFull c → has_key name c ≡ true → HasNoNone (get name c)
unfolding get has_key IsFull
get-HasNoNone name end f h = cc
get-HasNoNone name (field k v c) f h = elim (Bool-cases (k == name)) [
  | inl e ↦ rw e f.0
  | inr e ↦ rw e (get-HasNoNone name c f.1 (ground arith))
]

get-put :
    (name other : String) (v : Value) (c : Fields)
    → (name == other) ≡ false
    → get other (put name v c) ≡ get other c
unfolding get put
get-put name other v end n = rw n refl
get-put name other v (field k w c) n = elim (Bool-cases (k == name)) [
  | inl e ↦ rw (e, other_key k name other e n) refl
  | inr e ↦ rw e (ap (λ x. if k == other then w else x) (get-put name other v c n))
]

get-remove :
    (name other : String) (c : Fields)
    → (name == other) ≡ false
    → get other (remove name c) ≡ get other c
unfolding get remove
get-remove name other end n = refl
get-remove name other (field k w c) n = elim (Bool-cases (k == name)) [
  | inl e ↦ rw (e, other_key k name other e n) (get-remove name other c n)
  | inr e ↦ rw e (ap (λ x. if k == other then w else x) (get-remove name other c n))
]

module _ (text : Value → String) where
  nested-get :
      (f : Fields → Bool × Fields) (d c : Fields) (name other : String) (v : Value)
      → (name == other) ≡ false
      → get other (patch_nested text f d c name v).1 ≡ get other c
  nested-get f d c name other (obj e) n = get-put name other _ c n
  nested-get f d c name other null n = get-put name other _ c n
  nested-get f d c name other (str s) n = get-put name other _ c n
  nested-get f d c name other (num i) n = get-put name other _ c n
  nested-get f d c name other (bool b) n = get-put name other _ c n
  nested-get f d c name other (arr vs) n = get-put name other _ c n

  plain-get :
      (c : Fields) (name other : String) (v : Value)
      → (name == other) ≡ false
      → get other (patch_plain text c name v).1 ≡ get other c
  plain-get c name other v n = elim (Bool-cases (has_key name c)) [
    | inr h ↦ rw h (get-put name other v c n)
    | inl h ↦ elim (Bool-cases (text (get name c) == text v)) [
      | inl e ↦ rw (h, e) refl
      | inr e ↦ rw (h, e) (get-put name other v c n)
    ]
  ]

  entry-get :
      (c : Fields) (name other : String) (v : Value)
      → (name == other) ≡ false
      → get other (patch_entry text c name v).1 ≡ get other c
  unfolding patch_entry
  entry-get c name other null n = get-remove name other c n
  entry-get c name other (obj d) n = elim (Bool-cases (has_key name c)) [
    | inl h ↦ rw h (nested-get _ d c name other (get name c) n)
    | inr h ↦ rw h (get-put name other (obj d) c n)
  ]
  entry-get c name other (str s) n = plain-get c name other (str s) n
  entry-get c name other (num i) n = plain-get c name other (num i) n
  entry-get c name other (bool b) n = plain-get c name other (bool b) n
  entry-get c name other (arr vs) n = plain-get c name other (arr vs) n

  -- A patch leaves the value of each name that it does not hold.
  pub patch_config-get :
      (c d : Fields) (other : String)
      → has_key other d ≡ false
      → get other (patch_config text c d).1 ≡ get other c
  unfolding patch_config has_key
  patch_config-get c end other h = refl
  patch_config-get c (field name v d) other h =
      patch_config-get (patch_entry text c name v).1 d other (ground arith)
      ∙ entry-get c name other v (ground arith)

  set_is_none : (v : Value) → HasNoNone v → is_none v ≡ false
  unfolding is_none HasNoNone
  set_is_none null h = cc
  set_is_none (obj d) h = refl
  set_is_none (str x) h = refl
  set_is_none (num i) h = refl
  set_is_none (bool b) h = refl
  set_is_none (arr vs) h = refl

  abbrev IsSame : Fields → Bool × Fields → Type 0
  IsSame c r = r.0 ≡ false → r.1 ≡ c

  plain_IsSame : (c : Fields) (name : String) (v : Value) → IsSame c (patch_plain text c name v)
  plain_IsSame c name v = elim (Bool-cases (has_key name c)) [
    | inr h ↦ rw h (λ e. cc)
    | inl h ↦ elim (Bool-cases (text (get name c) == text v)) [
      | inl e ↦ rw (h, e) (λ q. refl)
      | inr e ↦ rw (h, e) (λ q. cc)
    ]
  ]

  nested_IsSame :
      (f : Fields → Bool × Fields) (d c : Fields) (name : String) (v : Value)
      → ((e : Fields) → IsFull e → IsSame e (f e))
      → HasNoNone v
      → put name v c ≡ c
      → IsSame c (patch_nested text f d c name v)
  unfolding HasNoNone
  nested_IsSame f d c name (obj e) h s q z = rw (h e s z) q
  nested_IsSame f d c name null h s q z = cc
  nested_IsSame f d c name (str x) h s q z = cc
  nested_IsSame f d c name (num i) h s q z = cc
  nested_IsSame f d c name (bool b) h s q z = cc
  nested_IsSame f d c name (arr vs) h s q z = cc

  mutual
    unfolding patch_config patch_entry

    config_IsSame : (c d : Fields) → IsFull c → IsSame c (patch_config text c d)
    config_IsSame c end f h = refl
    config_IsSame c (field name v d) f h =
        let q = entry_IsSame c name v f (ground arith) in
        let g : (patch_config text (patch_entry text c name v).1 d).0 ≡ false = ground arith in
        subst (λ x. IsSame c (patch_config text x d)) (sym q) (config_IsSame c d f) g

    entry_IsSame :
        (c : Fields) (name : String) (v : Value) → IsFull c → IsSame c (patch_entry text c name v)
    entry_IsSame c name null f h = elim (Bool-cases (has_key name c)) [
      | inl k ↦ let n = set_is_none (get name c) (get-HasNoNone name c f k) in absurd (ground arith)
      | inr k ↦ remove-absent name c k
    ]
    entry_IsSame c name (obj d) f h = elim (Bool-cases (has_key name c)) [
      | inl k ↦
          subst
            (λ b. IsSame c (
              if b
              then patch_nested text (λ e. patch_config text e d) d c name (get name c)
              else (true, put name (obj d) c)))
            (sym k)
            (nested_IsSame (λ e. patch_config text e d) d c name (get name c)
              (λ e q. config_IsSame e d q) (get-HasNoNone name c f k) (put-get name c k))
            h
      | inr k ↦
          subst
            (λ b. IsSame c (
              if b
              then patch_nested text (λ e. patch_config text e d) d c name (get name c)
              else (true, put name (obj d) c)))
            (sym k) (λ q. cc) h
    ]
    entry_IsSame c name (str s) f h = plain_IsSame c name (str s) h
    entry_IsSame c name (num i) f h = plain_IsSame c name (num i) h
    entry_IsSame c name (bool b) f h = plain_IsSame c name (bool b) h
    entry_IsSame c name (arr vs) f h = plain_IsSame c name (arr vs) h

  -- Where a patch tells that it changed nothing, the configuration is as it was, to every depth, if it
  -- held no `None`.
  pub patch_config-unchanged :
      (c d : Fields) → IsFull c → (patch_config text c d).0 ≡ false → (patch_config text c d).1 ≡ c
  patch_config-unchanged c d f h = config_IsSame c d f h
