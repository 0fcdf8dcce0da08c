-- ===== src/Plan/Separate.antt =====
-- The mounts of --share-skills as a whole.
use claude_contained.Env.Invariant.{is_distinct, is_distinct-append}
use claude_contained.Runtime.Spec.{Arg, mount_arg}
use claude_contained.Plan.Mounts.{
  MountRecord, MountRegistry, record_for_dst, readonly_covers, Added, skipped, added, conflict,
  against_user, against_shared, register_shared, add_shared,
}
use claude_contained.Plan.Skills.{Sharing, Action, note_added, share}
use claude_contained.Base.{◌≡◌, refl, sym, ap, ◌∙◌, ◌⊎◌, inl, inr}
use claude_contained.Base.{
  Bool, true, false, not, ◌&&◌, ◌||◌, none, arith, Bool-cases, Option-cases,
}
use claude_contained.Base.{List, [], ◌∷◌, ◌++◌, map, every, every-append}
use claude_contained.Base.{Bytes, bytes, contains}

abbrev pub destinations : List MountRecord → List Bytes
destinations = map (λ rec. rec.dst)

abbrev pub readonly_mount : MountRecord → Arg
readonly_mount rec = mount_arg rec.src rec.dst true

abbrev is_apart : List Bytes → MountRecord → Bool
is_apart taken rec = not (contains taken rec.dst)

-- The mounts to emit are the shared records in order, each read-only; no two have one destination, and
-- none has one of those taken, which are still those of the registry's mounts of the user.
pub record IsSeparate (taken : List Bytes) (s : Sharing) : Type 0 where
  pub mounts : s.args ≡ map readonly_mount s.registry.shared
  pub distinct : is_distinct (destinations s.registry.shared) ≡ true
  pub apart : every (is_apart taken) s.registry.shared ≡ true
  pub users : destinations s.registry.user ≡ taken

record_for_dst-none :
    (recs : List MountRecord) (dst : Bytes)
    → record_for_dst recs dst ≡ none
    → contains (destinations recs) dst ≡ false
unfolding record_for_dst contains
record_for_dst-none [] dst e = refl
record_for_dst-none (rec ∷ recs) dst e = ground (arith, record_for_dst-none recs dst, e)

pub map-append :
    {A B : Type 0} (f : A → B) (xs ys : List A) → map f (xs ++ ys) ≡ map f xs ++ map f ys
map-append f [] ys = refl
map-append f (x ∷ xs) ys = ap (λ l. f x ∷ l) (map-append f xs ys)

-- A new record.
added-IsSeparate :
    (taken : List Bytes) (s : Sharing) (src dst : Bytes) (line : Bytes)
    → IsSeparate taken s
    → contains (destinations s.registry.user) dst ≡ false
    → contains (destinations s.registry.shared) dst ≡ false
    → IsSeparate taken
        (note_added
          (added (mount_arg src dst true) line)
          (record s { registry = register_shared s.registry src dst })).0
unfolding note_added register_shared
added-IsSeparate taken s src dst line i u v =
    let new : MountRecord = record { src = src; dst = dst; mode = bytes "ro" } in
    record {
      mounts =
          ap (λ l. l ++ mount_arg src dst true ∷ []) i.mounts
          ∙ sym (map-append readonly_mount s.registry.shared (new ∷ []));
      distinct =
          ap is_distinct (map-append (λ rec. rec.dst) s.registry.shared (new ∷ []))
          ∙ is_distinct-append (destinations s.registry.shared) dst
          ∙ rw (i.distinct, v) refl;
      apart =
          every-append (is_apart taken) s.registry.shared (new ∷ [])
          ∙ rw (i.apart, (rw i.users at u)) refl;
      users = i.users;
    }

abbrev is_added : Added → Bool
is_added skipped = false
is_added (added mount line) = true
is_added (conflict lines) = false

not_added-IsSeparate :
    (taken : List Bytes) (a : Added) (s : Sharing)
    → is_added a ≡ false
    → IsSeparate taken s
    → IsSeparate taken (note_added a (record s { registry = s.registry })).0
unfolding note_added
not_added-IsSeparate taken skipped s e i = record {
  mounts = i.mounts;
  distinct = i.distinct;
  apart = i.apart;
  users = i.users;
}
not_added-IsSeparate taken (added mount line) s e i = cc
not_added-IsSeparate taken (conflict lines) s e i = record {
  mounts = i.mounts;
  distinct = i.distinct;
  apart = i.apart;
  users = i.users;
}

against_user-is_added :
    (rec : MountRecord) (src dst : Bytes) → is_added (against_user rec src dst) ≡ false
unfolding against_user
against_user-is_added rec src dst = ground arith

against_shared-is_added :
    (rec : MountRecord) (src dst : Bytes) → is_added (against_shared rec src dst) ≡ false
unfolding against_shared
against_shared-is_added rec src dst = ground arith

-- The registry is left as it is and nothing is added, or it gets the record of a new destination.
abbrev AddedCases : MountRegistry → Bytes → Bytes → MountRegistry × Added → Type 0
AddedCases r src dst result =
    ((a : Added) × (is_added a ≡ false) × (result ≡ (r, a)))
    ⊎ ((line : Bytes) × (contains (destinations r.user) dst ≡ false)
        × (contains (destinations r.shared) dst ≡ false)
        × (result ≡ (register_shared r src dst, added (mount_arg src dst true) line)))

add_shared-AddedCases :
    (r : MountRegistry) (src dst : Bytes) (cover : Bool) (label : Bytes)
    → AddedCases r src dst (add_shared r src dst cover label)
unfolding add_shared
add_shared-AddedCases r src dst cover label = elim (Option-cases (record_for_dst r.user dst)) [
  | inr (rec, q) ↦ rw (q, add_shared) (inl (_, against_user-is_added rec src dst, refl))
  | inl q ↦ elim (Option-cases (record_for_dst r.shared dst)) [
    | inr (rec, p) ↦ rw (q, p, add_shared) (inl (_, against_shared-is_added rec src dst, refl))
    | inl p ↦
        elim (Bool-cases (cover && (readonly_covers r.user dst || readonly_covers r.shared dst))) [
          | inl c ↦ rw (q, p, c, add_shared) (inl (skipped, refl, refl))
          | inr c ↦
              rw (q, p, c, add_shared)
                (inr
                  (_, record_for_dst-none r.user dst q, record_for_dst-none r.shared dst p, refl))
        ]
  ]
]

-- An action that keeps this.
pub record Keeps (taken : List Bytes) (m : Action) : Type 0 where
  pub kept : (s : Sharing) → IsSeparate taken s → IsSeparate taken (m s).0

share_kept :
    (taken : List Bytes) (src dst : Bytes) (s : Sharing) (result : MountRegistry × Added)
    → AddedCases s.registry src dst result
    → IsSeparate taken s
    → IsSeparate taken (note_added result.1 (record s { registry = result.0 })).0
share_kept taken src dst s result (inl (a, n, e)) i = rw e (not_added-IsSeparate taken a s n i)
share_kept taken src dst s result (inr (line, u, v, e)) i =
    rw e (added-IsSeparate taken s src dst line i u v)

pub share-Keeps :
    (taken : List Bytes) (src dst : Bytes) (cover : Bool) (label : Bytes)
    → Keeps taken (share src dst cover label)
unfolding share
share-Keeps taken src dst cover label = record {
  kept =
      λ s i. share_kept taken src dst s _ (add_shared-AddedCases s.registry src dst cover label) i;
}
