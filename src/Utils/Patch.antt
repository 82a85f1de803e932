-- ===== src/Utils/Patch.antt =====
-- patroni/utils.py: `deep_compare` and `patch_config`. Of `str`, a parameter, only equality of its
-- results is used. A dictionary that is changed in place is returned in its new form.
use pennsignals_postgres.Base.{String, Bool, true, false, not, ◌&&◌, ◌||◌, ◌==◌, if◌then◌else◌}
use pennsignals_postgres.Json.{
  Value, null, obj, str, num, bool, arr, Fields, end, field, get, has_key, put, remove,
}

-- `set(obj1.keys()) <= set(obj2.keys())`
unfoldable pub keys_within : Fields → Fields → Bool
keys_within end b = true
keys_within (field k v a) b = has_key k b && keys_within a b

unfoldable pub is_none : Value → Bool
is_none null = true
is_none _ = false

module _ (text : Value → String) where
  unfoldable mutual
    pub same_entries : Fields → Fields → Bool
    same_entries end b = true
    same_entries (field k v a) b = same_entry v (get k b) && same_entries a b

    pub same_entry : Value → Value → Bool
    same_entry (obj a) (obj b) = keys_within a b && (keys_within b a && same_entries a b)
    same_entry (obj a) _ = false
    same_entry v w = text v == text w

  unfoldable pub deep_compare : Fields → Fields → Bool
  deep_compare a b = keys_within a b && (keys_within b a && same_entries a b)

  -- A dictionary in place of what the configuration has under its name: `f` patches a dictionary.
  abbrev pub patch_nested :
      (Fields → Bool × Fields) → Fields → Fields → String → Value → Bool × Fields
  patch_nested f d config name (obj c) =
      let (changed, new) = f c in (changed, put name (obj new) config)
  patch_nested f d config name _ = (true, put name (obj d) config)

  abbrev pub patch_plain : Fields → String → Value → Bool × Fields
  patch_plain config name value =
      if not (has_key name config)
      then (true, put name value config)
      else if text (get name config) == text value
      then (false, config)
      else (true, put name value config)

  unfoldable mutual
    -- Whether the dictionary was changed, and what it is now.
    pub patch_config : Fields → Fields → Bool × Fields
    patch_config config end = (false, config)
    patch_config config (field name value rest) =
        let (first, patched) = patch_entry config name value in
        let (others, result) = patch_config patched rest in (first || others, result)

    pub patch_entry : Fields → String → Value → Bool × Fields
    patch_entry config name null = (not (is_none (get name config)), remove name config)
    patch_entry config name (obj d) =
        if has_key name config
        then patch_nested (λ c. patch_config c d) d config name (get name config)
        else (true, put name (obj d) config)
    patch_entry config name (str s) = patch_plain config name (str s)
    patch_entry config name (num n) = patch_plain config name (num n)
    patch_entry config name (bool b) = patch_plain config name (bool b)
    patch_entry config name (arr vs) = patch_plain config name (arr vs)
