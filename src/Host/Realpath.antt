-- ===== src/Host/Realpath.antt =====
-- `ResolvePath` of internal/host/path.go. `os.Readlink` is a parameter, with an error as nothing, and so is
-- the directory that a relative path is anchored to.
use claude_contained.Host.FilePath.{is_abs, join_path, dir}
use claude_contained.Base.{ℕ, zero, suc, ◌+◌, ◌-◌, ◌*◌, ◌≤◌, ◌≡◌, refl, ap, inl, inr}
use claude_contained.Base.{
  true, false, ◌||◌, Option, none, some, arith, ltb, if◌then◌else◌, if_either, Bool-cases, is_some,
}
use claude_contained.Base.{List, [], ◌∷◌, ◌++◌, length, is_nil, length-append}
use claude_contained.Base.{Bytes, bytes, same, split}

abbrev pub max_symlink_hops : ℕ
max_symlink_hops = 40

abbrev pub non_empty : List Bytes → List Bytes
non_empty [] = []
non_empty (p ∷ parts) = if is_nil p then non_empty parts else p ∷ non_empty parts

unfoldable pub split_components : Bytes → List Bytes
unfolding split
split_components path = non_empty (split b'/' path)

-- What the loop changes: the queue, the path resolved so far, and the links followed.
pub record Walk : Type 0 where
  pub queue : List Bytes
  pub resolved : Bytes
  pub hops : ℕ

-- The path that the loop works on.
unfoldable pub anchored : Option Bytes → Bytes → Bytes
anchored base path =
    let p = if is_nil path then bytes "." else path in
    if is_abs p then p else elim (base) [ none ↦ p | some d ↦ d ++ b'/' ∷ p ]

module _ (read_link : Bytes → Option Bytes) where
  unfoldable pub follow : Bytes → Option Bytes → List Bytes → Bytes → ℕ → Walk
  unfolding split_components
  follow next none queue resolved hops = record { queue = queue; resolved = next; hops = hops }
  follow next (some target) queue resolved hops =
      if ltb max_symlink_hops (suc hops)
      then record { queue = queue; resolved = next; hops = suc hops }
      else record {
        queue = split_components target ++ queue;
        resolved = if is_abs target then bytes "/" else resolved;
        hops = suc hops;
      }

  -- One round of the loop on the first component of the queue.
  unfoldable pub walk_round : Bytes → List Bytes → Bytes → ℕ → Walk
  unfolding follow join_path dir same
  walk_round comp queue resolved hops =
      let next = join_path (resolved ∷ comp ∷ []) in
      if is_nil comp || same comp (bytes ".")
      then record { queue = queue; resolved = resolved; hops = hops }
      else if same comp (bytes "..")
      then record { queue = queue; resolved = dir resolved; hops = hops }
      else follow next (read_link next) queue resolved hops

  -- The loop, or nothing when there is no fuel for another round.
  unfoldable pub walk_loop : ℕ → List Bytes → Bytes → ℕ → Option Bytes
  unfolding walk_round
  walk_loop fuel [] resolved hops = some resolved
  walk_loop zero (comp ∷ queue) resolved hops = none
  walk_loop (suc fuel) (comp ∷ queue) resolved hops =
      let w = walk_round comp queue resolved hops in walk_loop fuel w.queue w.resolved w.hops

  unfoldable pub resolve_path_from : ℕ → Option Bytes → Bytes → Option Bytes
  unfolding walk_loop anchored
  resolve_path_from fuel base path =
      walk_loop fuel (split_components (anchored base path)) (bytes "/") 0

  module _ (longest : ℕ)
      (link_length : (p t : Bytes)
        → read_link p ≡ some t
        → length (split_components t) ≤ longest) where
    -- The rounds that are left at most.
    abbrev rounds_left : Walk → ℕ
    rounds_left w = length w.queue + (max_symlink_hops - w.hops) * longest

    hop-rounds :
        (hops : ℕ)
        → ltb max_symlink_hops (suc hops) ≡ false
        → (max_symlink_hops - hops) * longest ≡ longest + (max_symlink_hops - suc hops) * longest
    hop-rounds hops h =
        let e : max_symlink_hops - hops ≡ suc (max_symlink_hops - suc hops) = ground (arith, h) in
        rw e (omega arith)

    follow-rounds :
        (next : Bytes) (target : Option Bytes) (queue : List Bytes) (resolved : Bytes) (hops : ℕ)
        → read_link next ≡ target
        → rounds_left (follow next target queue resolved hops)
          ≤ length queue + (max_symlink_hops - hops) * longest
    unfolding follow
    follow-rounds next none queue resolved hops e = omega arith
    follow-rounds next (some target) queue resolved hops e =
        elim (Bool-cases (ltb max_symlink_hops (suc hops))) [
          | inl z ↦
              let none_left : max_symlink_hops - suc hops ≡ 0 = ground (arith, z) in
              rw z (omega (arith, ap (λ k. k * longest) none_left))
          | inr z ↦
              rw (z, length-append (split_components target) queue)
                (omega (arith, hop-rounds hops z, link_length next target e))
        ]

    walk_round-rounds :
        (comp : Bytes) (queue : List Bytes) (resolved : Bytes) (hops : ℕ)
        → rounds_left (walk_round comp queue resolved hops)
          ≤ length queue + (max_symlink_hops - hops) * longest
    unfolding walk_round
    walk_round-rounds comp queue resolved hops =
        let next = join_path (resolved ∷ comp ∷ []) in
        let Few : Walk → Type 0 =
          λ w. rounds_left w ≤ length queue + (max_symlink_hops - hops) * longest in
        if_either Few (is_nil comp || same comp (bytes "."))
          (record { queue = queue; resolved = resolved; hops = hops })
          (if same comp (bytes "..")
            then record { queue = queue; resolved = dir resolved; hops = hops }
            else follow next (read_link next) queue resolved hops)
          (omega arith)
          (if_either Few (same comp (bytes ".."))
            (record { queue = queue; resolved = dir resolved; hops = hops })
            (follow next (read_link next) queue resolved hops) (omega arith)
            (follow-rounds next (read_link next) queue resolved hops refl))

    walk_loop-ends :
        (fuel : ℕ) (queue : List Bytes) (resolved : Bytes) (hops : ℕ)
        → length queue + (max_symlink_hops - hops) * longest ≤ fuel
        → is_some (walk_loop fuel queue resolved hops) ≡ true
    unfolding walk_loop
    walk_loop-ends zero [] resolved hops l = refl
    walk_loop-ends (suc fuel) [] resolved hops l = refl
    walk_loop-ends zero (comp ∷ queue) resolved hops l = absurd (omega (arith, l))
    walk_loop-ends (suc fuel) (comp ∷ queue) resolved hops l =
        let w = walk_round comp queue resolved hops in
        walk_loop-ends fuel w.queue w.resolved w.hops
          (omega (arith, l, walk_round-rounds comp queue resolved hops))

    -- Where no link leads to more than `longest` components, the loop ends, loops of links included,
    -- within a round for each component of the path and 40 times `longest` more.
    pub resolve_path_from-ends :
        (fuel : ℕ) (base : Option Bytes) (path : Bytes)
        → length (split_components (anchored base path)) + max_symlink_hops * longest ≤ fuel
        → is_some (resolve_path_from fuel base path) ≡ true
    unfolding resolve_path_from
    resolve_path_from-ends fuel base path l =
        walk_loop-ends fuel (split_components (anchored base path)) (bytes "/") 0 l
