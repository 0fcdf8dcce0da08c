-- ===== src/Env/Lookup.antt =====
-- What `Set` does to the entry of each key, and to the order of the keys.
use claude_contained.Env.Store.{Origin, Entry, Store, index_of, put, set, validate, key_and_value}
use claude_contained.Base.{◌≡◌, refl}
use claude_contained.Base.{Option, none, some, arith, if◌then◌else◌, is_some}
use claude_contained.Base.{List, [], ◌∷◌, ◌++◌, map}
use claude_contained.Base.{Bytes, same, same_iff, contains}

-- The entry of a key.
abbrev pub get : Store → Bytes → Option Entry
get [] key = none
get (e ∷ s) key = let rest = get s key in if same e.key key then some e else rest

abbrev pub keys : Store → List Bytes
keys = map (λ e. e.key)

-- The index of `Set` as a recursion on the entries.
pub put-cons :
    (e : Entry) (s : Store) (key value : Bytes) (origin : Origin)
    → put (e ∷ s) key value origin ≡ (
        if same e.key key
        then record e { value = value; origin = origin } ∷ s
        else e ∷ put s key value origin)
unfolding put
put-cons e s key value origin = ground arith

pub get-put :
    (s : Store) (key value : Bytes) (origin : Origin) (j : Bytes)
    → get (put s key value origin) j ≡ (
        if same key j then some (record { key = key; value = value; origin = origin }) else get s j)
unfolding put
get-put [] key value origin j = refl
get-put (e ∷ s) key value origin j =
    ground
      (arith, same_iff e.key key, same_iff key j, same_iff e.key j, get-put s key value origin j)

pub is_some-index_of : (s : Store) (key : Bytes) → is_some (index_of s key) ≡ contains (keys s) key
unfolding index_of contains
is_some-index_of [] key = refl
is_some-index_of (e ∷ s) key = ground (arith, is_some-index_of s key)

-- A known key keeps its place; a new one goes last.
pub keys-put :
    (s : Store) (key value : Bytes) (origin : Origin)
    → keys (put s key value origin) ≡ (if contains (keys s) key then keys s else keys s ++ key ∷ [])
unfolding put contains
keys-put [] key value origin = refl
keys-put (e ∷ s) key value origin =
    ground (arith, put-cons e s key value origin, keys-put s key value origin)

-- `Set` returns the error of `validate`. With no error the key of the assignment gets the new value
-- and origin, every other key has what it had, and the order of the keys changes at most by a new
-- key at the end. With an error the store is what it was.
pub set_lem :
    (s : Store) (assignment source : Bytes) (origin : Origin) (j : Bytes)
    → let (key, value) = key_and_value assignment in
      let failed = is_some (validate assignment source origin) in
      ((set s assignment source origin).1 ≡ validate assignment source origin)
      × (get (set s assignment source origin).0 j ≡ (
          if failed
          then get s j
          else if same key j
          then some (record { key = key; value = value; origin = origin })
          else get s j))
      × (keys (set s assignment source origin).0 ≡ (
          if failed then keys s else if contains (keys s) key then keys s else keys s ++ key ∷ []))
unfolding set
set_lem s assignment source origin j =
    let key = (key_and_value assignment).0 in
    let value = (key_and_value assignment).1 in
    ground (arith, get-put s key value origin j, keys-put s key value origin)
