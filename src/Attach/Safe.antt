-- ===== src/Attach/Safe.antt =====
-- What `Resolve` may decide.
use claude_contained.Attach.Resolve.{
  prefix, Request, Verdict, exec, leave, panic, filter_running, normalize_name, Selection, quit,
  invalid, choice, get_elem?, build_spec, selected, read_line, select_from, resolve,
}
use claude_contained.Attach.Selection.{IsShown, parse_selection-IsShown, get_elem?-is_some}
use claude_contained.Base.{ℕ, zero, suc, ◌-◌, ◌≤◌, ◌≡◌, refl, sym, ap, ◌∙◌, inl, inr}
use claude_contained.Base.{
  Bool, true, false, ◌&&◌, some, arith, if◌then◌else◌, Bool-cases, Option-cases,
}
use claude_contained.Base.{List, [], ◌∷◌, ◌++◌, length, is_nil}
use claude_contained.Base.{
  Bytes, bytes, same, same_iff, same_refl, has_prefix, contains, has_prefix-append, decimal,
}

prefix_of_nil : has_prefix [] prefix ≡ false
unfolding has_prefix
prefix_of_nil = refl

and_false : (b : Bool) → (b && false) ≡ false
and_false b = ground arith

normalize_name-prefix : (name : Bytes) → has_prefix (normalize_name name) prefix ≡ true
unfolding normalize_name
normalize_name-prefix name = elim (Bool-cases (has_prefix name prefix)) [
  | inl e ↦ rw (e, normalize_name) e
  | inr e ↦ rw (e, normalize_name) (has_prefix-append prefix name)
]

filter_running-contains :
    (names : List Bytes) (n : Bytes)
    → contains (filter_running names) n ≡ (contains names n && has_prefix n prefix)
unfolding filter_running contains
filter_running-contains [] n = refl
filter_running-contains ([] ∷ names) n = elim (Bool-cases (same [] n)) [
  | inl e ↦
      rw (filter_running-contains names n, e, sym ((same_iff [] n).0 e), prefix_of_nil)
        (and_false (contains names []))
  | inr e ↦ rw (filter_running-contains names n, e) refl
]
filter_running-contains ((c ∷ x) ∷ names) n = elim (Bool-cases (same (c ∷ x) n)) [
  | inl e ↦
      let same_prefix = ap (λ s. has_prefix s prefix) ((same_iff (c ∷ x) n).0 e) in
      ground (arith, filter_running-contains names n, e, same_prefix)
  | inr e ↦ ground (arith, filter_running-contains names n, e)
]

get_elem?-contains :
    (xs : List Bytes) (i : ℕ) (x : Bytes) → get_elem? xs i ≡ some x → contains xs x ≡ true
unfolding get_elem? contains
get_elem?-contains [] i x e = cc
get_elem?-contains (y ∷ xs) zero x e = ground (arith, same_refl x, e)
get_elem?-contains (y ∷ xs) (suc i) x e = ground (arith, get_elem?-contains xs i x e)

-- A command runs only in a running container with the prefix, and it is the one built for it; the
-- launcher leaves with 0 or 1, and no index is out of range.
abbrev pub IsSafe : Request → Verdict → Type 0
IsSafe req (exec s) =
    (contains req.running s.container ≡ true)
    × (has_prefix s.container prefix ≡ true)
    × (s ≡ build_spec req s.container)
IsSafe req (leave c) = c ≤ 1
IsSafe req panic = true ≡ false

build_spec-IsSafe :
    (req : Request) (name : Bytes)
    → contains (filter_running req.running) name ≡ true
    → IsSafe req (exec (build_spec req name))
unfolding build_spec
build_spec-IsSafe req name h =
    let both = filter_running-contains req.running name in (ground arith, ground arith, refl)

selected-IsSafe :
    (req : Request) (s : Selection)
    → IsShown (length (filter_running req.running)) s
    → IsSafe req (selected req (filter_running req.running) s).0
unfolding selected
selected-IsSafe req quit h = omega arith
selected-IsSafe req invalid h = omega arith
selected-IsSafe req (choice n) h =
    elim (Option-cases (get_elem? (filter_running req.running) (n - 1))) [
      | inl q ↦
          absurd (
            ground (arith, get_elem?-is_some (filter_running req.running) (n - 1) (omega arith), q))
      | inr (name, q) ↦
          rw (q, selected) (build_spec-IsSafe req name (get_elem?-contains _ (n - 1) name q))
    ]

select_from-IsSafe :
    (req : Request) → IsSafe req (select_from req (filter_running req.running)).verdict
unfolding select_from
select_from-IsSafe req = elim (Bool-cases (is_nil (filter_running req.running))) [
  | inl e ↦ rw (e, select_from) (omega arith)
  | inr e ↦
      let count = length (filter_running req.running) in
      let text = bytes "Select container (1-" ++ decimal count ++ bytes ", q to quit): " in
      elim (Option-cases (read_line req.prompt text)) [
        | inl q ↦ rw (e, q, select_from) (omega arith)
        | inr (line, q) ↦
            rw (e, q, select_from) (selected-IsSafe req _ (parse_selection-IsShown line count))
      ]
]

-- Whatever is requested and whatever the user types, `Resolve` runs a command only in a container that
-- is running and whose name has the prefix, and the command, the user and the environment are those
-- built from the request; else it leaves with status 0 or 1. It never takes an element out of range.
pub resolve-IsSafe : (req : Request) → IsSafe req (resolve req).verdict
unfolding resolve
resolve-IsSafe req = elim (Bool-cases (is_nil req.name)) [
  | inl e ↦ rw (e, resolve) (select_from-IsSafe req)
  | inr e ↦ elim (Bool-cases (contains (filter_running req.running) (normalize_name req.name))) [
    | inl c ↦ rw (e, c, resolve) (build_spec-IsSafe req (normalize_name req.name) c)
    | inr c ↦ rw (e, c, resolve) (omega arith)
  ]
]

-- With a name given, `Resolve` runs a command exactly when a running container has that name, with the
-- prefix put in front where it was left out.
resolve-named :
    (req : Request)
    → is_nil req.name ≡ false
    → (resolve req).verdict ≡ (
        if contains req.running (normalize_name req.name)
        then exec (build_spec req (normalize_name req.name))
        else leave 1)
unfolding resolve
resolve-named req e =
    let name = normalize_name req.name in
    let named : contains (filter_running req.running) name ≡ contains req.running name =
      ground (arith, filter_running-contains req.running name, normalize_name-prefix req.name) in
    elim (Bool-cases (contains req.running name)) [
      | inl c ↦ rw (e, named ∙ c, c, resolve) refl
      | inr c ↦ rw (e, named ∙ c, c, resolve) refl
    ]
