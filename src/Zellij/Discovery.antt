-- ===== src/Zellij/Discovery.antt =====
-- internal/zellij/zellij.go: the session that the variables of a planned run tell of.
use claude_contained.Cli.Config.{Config}
use claude_contained.Env.Store.{Store, pairs, valid_key, is_key_byte, key_reserved_always}
use claude_contained.Env.Invariant.{IsAllowed, Operation, run, run-IsWellFormed}
use claude_contained.Env.Keys.{valid_key-is_free_of}
use claude_contained.Runtime.Spec.{
  Arg, memory_arg, name_arg, workdir_arg, port_arg, dns_arg, env_arg, label_arg, mount_arg, ssh_arg,
  host_gateway_arg, Profile,
}
use claude_contained.Runtime.ReadBack.{assignments}
use claude_contained.Plan.Facts.{Facts, HostState, HostPaths}
use claude_contained.Plan.Args.{
  claude_extension_resources, zellij_root_of, project_args, contained_args, env_args, resource_args,
  git_args, network_args, zellij_args, fixed_args,
}
use claude_contained.Zellij.Names.{marker_env, session_env}
use claude_contained.Zellij.Resolve.{session_from, session_from_env}
use claude_contained.Base.{◌≡◌, refl, sym, ap, ◌∙◌, inl, inr}
use claude_contained.Base.{Bool, true, false, not, ◌&&◌, arith, if◌then◌else◌, Bool-cases}
use claude_contained.Base.{
  List, [], ◌∷◌, ◌++◌, map, append-nil, append_assoc, is_nil, All, every, every-append,
}
use claude_contained.Base.{Bytes, bytes, same, after_prefix, has_prefix, trim_prefix, is_free_of}

-- Neither the marker nor the session.
abbrev is_other_line : Bytes → Bool
is_other_line line =
    not (same line (marker_env ++ bytes "=1")) && not (has_prefix line (session_env ++ bytes "="))

abbrev is_other : Arg → Bool
is_other (env_arg key value) = is_other_line (key ++ b'=' ∷ value)
is_other a = true

session_from-others :
    (args more : List Arg) (marker : Bool) (session : Bytes)
    → every is_other args ≡ true
    → session_from marker session (assignments (args ++ more))
      ≡ session_from marker session (assignments more)
unfolding session_from
session_from-others [] more marker session h = refl
session_from-others (env_arg key value ∷ args) more marker session h =
    ground (arith, session_from-others args more marker session)
session_from-others (memory_arg v ∷ args) more marker session h =
    session_from-others args more marker session h
session_from-others (name_arg v ∷ args) more marker session h =
    session_from-others args more marker session h
session_from-others (workdir_arg v ∷ args) more marker session h =
    session_from-others args more marker session h
session_from-others (port_arg v ∷ args) more marker session h =
    session_from-others args more marker session h
session_from-others (dns_arg v ∷ args) more marker session h =
    session_from-others args more marker session h
session_from-others (label_arg k v ∷ args) more marker session h =
    session_from-others args more marker session h
session_from-others (mount_arg s d r ∷ args) more marker session h =
    session_from-others args more marker session h
session_from-others (ssh_arg ∷ args) more marker session h =
    session_from-others args more marker session h
session_from-others (host_gateway_arg ∷ args) more marker session h =
    session_from-others args more marker session h

-- A key without `=` that does not start with a prefix without `=` heads no line that does.
has_prefix_key :
    (key value p q : Bytes)
    → is_free_of b'=' key ≡ true
    → is_free_of b'=' p ≡ true
    → has_prefix key p ≡ false
    → has_prefix (key ++ b'=' ∷ value) (p ++ q) ≡ false
unfolding has_prefix
has_prefix_key key value [] q h k n = ground arith
has_prefix_key [] value (c ∷ p) q h k n = ground arith
has_prefix_key (d ∷ key) value (c ∷ p) q h k n = ground (arith, has_prefix_key key value p q)

-- The same for a line as a whole.
same-has_prefix : (line p : Bytes) → has_prefix line p ≡ false → same line p ≡ false
unfolding has_prefix same
same-has_prefix [] [] h = cc
same-has_prefix [] (c ∷ p) h = refl
same-has_prefix (d ∷ line) [] h = refl
same-has_prefix (d ∷ line) (c ∷ p) h = ground (arith, same-has_prefix line p)

both_false : (a b : Bool) → a ≡ false → b ≡ false → (not a && not b) ≡ true
both_false a b h k = ground arith

other_key :
    (key value : Bytes)
    → valid_key key ≡ true
    → key_reserved_always key ≡ false
    → is_other_line (key ++ b'=' ∷ value) ≡ true
unfolding key_reserved_always is_key_byte
other_key key value v r =
    let free = valid_key-is_free_of key b'=' v refl in
    let prefix = bytes "CLAUDE_CONTAINED_" in
    let outside : has_prefix key prefix ≡ false = ground (arith, r) in
    let marker = has_prefix_key key value prefix (bytes "ZELLIJ=1") free refl outside in
    let session = has_prefix_key key value prefix (bytes "ZELLIJ_SESSION=") free refl outside in
    let no_marker = same-has_prefix (key ++ b'=' ∷ value) (marker_env ++ bytes "=1") marker in
    both_false _ _ no_marker session

record IsOther (args : List Arg) : Type 0 where
  holds : every is_other args ≡ true

nil-IsOther : IsOther []
nil-IsOther = record { holds = refl }

append-IsOther : (xs ys : List Arg) → IsOther xs → IsOther ys → IsOther (xs ++ ys)
append-IsOther xs ys h k = record {
  holds = every-append is_other xs ys ∙ rw (h.holds, k.holds) refl;
}

if-IsOther :
    (test : Bool) (xs ys : List Arg) → IsOther xs → IsOther ys → IsOther (if test then xs else ys)
if-IsOther true xs ys h k = h
if-IsOther false xs ys h k = k

cons-IsOther : (a : Arg) (args : List Arg) → is_other a ≡ true → IsOther args → IsOther (a ∷ args)
cons-IsOther a args e h = record { holds = rw (e, h.holds) refl }

port_args-IsOther : (xs : List Bytes) → IsOther (map port_arg xs)
port_args-IsOther [] = nil-IsOther
port_args-IsOther (x ∷ xs) = record { holds = (port_args-IsOther xs).holds }

dns_args-IsOther : (xs : List Bytes) → IsOther (map dns_arg xs)
dns_args-IsOther [] = nil-IsOther
dns_args-IsOther (x ∷ xs) = record { holds = (dns_args-IsOther xs).holds }

ruleset others =
    (nil-IsOther, append-IsOther, if-IsOther, cons-IsOther, port_args-IsOther, dns_args-IsOther)

pairs-IsOther : (s : Store) → All IsAllowed s → IsOther (map (λ p. env_arg p.key p.value) (pairs s))
pairs-IsOther [] h = nil-IsOther
pairs-IsOther (e ∷ s) (h, hs) =
    cons-IsOther _ _ (other_key e.key e.value h.0 h.1) (pairs-IsOther s hs)

resource_args-IsOther :
    (cfg : Config) (paths : HostPaths) (rs : List Bytes) → IsOther (resource_args cfg paths rs)
unfolding resource_args
resource_args-IsOther cfg paths [] = nil-IsOther
resource_args-IsOther cfg paths (r ∷ rs) =
    let rest = resource_args-IsOther cfg paths rs in
    if-IsOther _ _ _ rest (cons-IsOther _ _ refl rest)

is_nil-eq : (s : Bytes) → is_nil s ≡ true → s ≡ []
is_nil-eq [] e = refl
is_nil-eq (c ∷ s) e = cc

module _ (cfg : Config) (h : HostState) (f : Facts) (prof : Profile) (paths : HostPaths) where
  project_args-IsOther : (name : Bytes) → IsOther (project_args h f paths name)
  unfolding project_args same has_prefix
  project_args-IsOther name = record { holds = refl }

  contained_args-IsOther : (root : Bytes) → IsOther (contained_args f root)
  unfolding contained_args
  contained_args-IsOther root = search others depth 12

  env_args-IsOther : (s : Store) → All IsAllowed s → IsOther (env_args (pairs s))
  unfolding env_args same has_prefix
  env_args-IsOther s a = append-IsOther _ _ (pairs-IsOther s a) (cons-IsOther _ _ refl nil-IsOther)

  git_args-IsOther : (repo : Bytes) → IsOther (git_args f repo)
  unfolding git_args same has_prefix
  git_args-IsOther repo = search others depth 12

  network_args-IsOther : IsOther (network_args cfg h prof)
  unfolding network_args same has_prefix
  network_args-IsOther = search others depth 16

  front_args : Bytes → Bytes → List Arg
  front_args repo name =
      project_args h f paths name
      ++ contained_args f (zellij_root_of f)
      ++ env_args f.env
      ++ (if cfg.share_host_claude then [] else resource_args cfg paths claude_extension_resources)
      ++ git_args f repo
      ++ network_args cfg h prof

  front_args-IsOther :
      (s : Store) (repo name : Bytes)
      → All IsAllowed s
      → f.env ≡ pairs s
      → IsOther (front_args repo name)
  unfolding front_args
  front_args-IsOther s repo name a e =
      append-IsOther _ _
        (append-IsOther _ _
          (append-IsOther _ _
            (append-IsOther _ _
              (append-IsOther _ _ (project_args-IsOther name)
                (contained_args-IsOther (zellij_root_of f)))
              (rw e (env_args-IsOther s a)))
            (if-IsOther cfg.share_host_claude _ _ nil-IsOther
              (resource_args-IsOther cfg paths claude_extension_resources)))
          (git_args-IsOther repo))
        network_args-IsOther

  session_from-rest :
      (t : List Arg) (marker : Bool) (session : Bytes)
      → IsOther t
      → session_from marker session (assignments t)
        ≡ (if marker && not (is_nil session) then session else [])
  unfolding session_from
  session_from-rest t marker session o =
      ap (λ l. session_from marker session (assignments l)) (sym (append-nil t))
      ∙ session_from-others t [] marker session o.holds

  session_from-zellij_args :
      (t : List Arg) (root : Bytes)
      → IsOther t
      → session_from false [] (assignments (zellij_args f root ++ t)) ≡ f.zellij_session
  unfolding zellij_args session_from same has_prefix trim_prefix after_prefix
  session_from-zellij_args t root o = elim (Bool-cases (is_nil f.zellij_session)) [
    | inl n ↦
        rw (n, zellij_args) (session_from-rest t false [] o ∙ sym (is_nil-eq f.zellij_session n))
    | inr n ↦ rw (n, zellij_args) (session_from-rest t true f.zellij_session o ∙ rw n refl)
  ]

  -- The variables of the arguments in front of the mounts.
  pub session_from_env-fixed_args :
      (os : List Operation) (repo name : Bytes)
      → f.env ≡ pairs (run os [])
      → session_from_env (assignments (fixed_args cfg h f prof paths repo name)) ≡ f.zellij_session
  unfolding session_from_env fixed_args front_args
  session_from_env-fixed_args os repo name e =
      let front = front_args repo name in
      let z = zellij_args f (zellij_root_of f) in
      let ssh : List Arg = if cfg.ssh_mode then ssh_arg ∷ [] else [] in
      let rest : List Arg =
        host_gateway_arg ∷ mount_arg paths.claude_contained paths.claude_contained false ∷ [] in
      let regroup : fixed_args cfg h f prof paths repo name ≡ front ++ (z ++ (ssh ++ rest)) =
        append_assoc (front ++ z ++ ssh) (host_gateway_arg ∷ []) _
        ∙ append_assoc (front ++ z) ssh rest
        ∙ append_assoc front z (ssh ++ rest) in
      ap (λ l. session_from false [] (assignments l)) regroup
      ∙ session_from-others front (z ++ (ssh ++ rest)) false []
          (front_args-IsOther (run os []) repo name (run-IsWellFormed os).allowed e).holds
      ∙ session_from-zellij_args (ssh ++ rest) (zellij_root_of f) (
          append-IsOther ssh rest
            (if-IsOther cfg.ssh_mode _ _ (cons-IsOther _ _ refl nil-IsOther) nil-IsOther)
            (record { holds = refl }))
