-- ===== src/Zellij/Safe.antt =====
-- What the Zellij attach may decide.
use claude_contained.Attach.Resolve.{
  Verdict, exec, leave, panic, Selection, quit, invalid, choice, get_elem?, read_line,
}
use claude_contained.Attach.Selection.{IsShown, parse_selection-IsShown, get_elem?-is_some}
use claude_contained.Zellij.Resolve.{
  Record, sessions, AttachRequest, build_attach_spec, selected_session, pick_session,
  resolve_interactive, matches, resolve_matches, resolve_attach,
}
use claude_contained.Base.{ℕ, zero, suc, ◌-◌, ◌≤◌, ◌≡◌, refl, ap, ◌≢◌, inl, inr}
use claude_contained.Base.{
  true, false, not, ◌&&◌, ◌||◌, none, some, arith, Bool-cases, Option-cases,
}
use claude_contained.Base.{List, [], ◌∷◌, ◌++◌, length, is_nil}
use claude_contained.Base.{Bytes, bytes, same, contains, decimal}

-- One of the live records is attached to, in the container that it names; with a session requested it
-- is the only record with that session. Otherwise the launcher leaves with 0 or 1.
abbrev pub IsLive : AttachRequest → Verdict → Type 0
IsLive req (exec s) =
    (front : List Record) × (rec : Record) × (back : List Record) × (req.records
      ≡ front ++ rec ∷ back)
    × (s ≡ build_attach_spec req rec)
    × ((is_nil req.session
          || (same rec.session req.session
              && not (contains (sessions (front ++ back)) req.session)))
        ≡ true)
IsLive req (leave c) = c ≤ 1
IsLive req panic = true ≡ false

some-injective : (y x : Record) → some y ≡ some x → y ≡ x
some-injective y x e = ap (λ o. elim o [ none ↦ y | some r ↦ r ]) e

cons-ne : (r : Record) (rs : List Record) → (r ∷ rs) ≢ []
cons-ne r rs e = cc

abbrev head_or : Record → List Record → Record
head_or r [] = r
head_or r (x ∷ xs) = x

abbrev tail : List Record → List Record
tail [] = []
tail (x ∷ xs) = xs

get_elem?-split :
    (xs : List Record) (i : ℕ) (x : Record)
    → get_elem? xs i ≡ some x
    → (front back : List Record) × (xs ≡ front ++ x ∷ back)
unfolding get_elem?
get_elem?-split [] i x e = cc
get_elem?-split (y ∷ xs) zero x e = ([], xs, ap (λ r. r ∷ xs) (some-injective y x e))
get_elem?-split (y ∷ xs) (suc i) x e =
    let (front, back, p) = get_elem?-split xs i x e in (y ∷ front, back, ap (λ l. y ∷ l) p)

matches_none :
    (session : Bytes) (records : List Record)
    → matches session records ≡ []
    → contains (sessions records) session ≡ false
unfolding matches contains
matches_none session [] e = refl
matches_none session (r ∷ records) e = elim (Bool-cases (same r.session session)) [
  | inl t ↦ absurd (cons-ne r (matches session records) (rw (t, matches) at e))
  | inr t ↦ rw t (matches_none session records (rw (t, matches) at e))
]

-- The only record with a session.
abbrev IsOnly : Bytes → List Record → Record → Type 0
IsOnly session records rec =
    (front back : List Record) × (records ≡ front ++ rec ∷ back)
    × ((same rec.session session && not (contains (sessions (front ++ back)) session)) ≡ true)

matches_one :
    (session : Bytes) (records : List Record) (rec : Record)
    → matches session records ≡ rec ∷ []
    → IsOnly session records rec
unfolding matches contains
matches_one session [] rec e = cc
matches_one session (r ∷ records) rec e = elim (Bool-cases (same r.session session)) [
  | inl t ↦
      let found = rw (t, matches) at e in
      let same_record = ap (head_or r) found in
      let none_left = matches_none session records (ap tail found) in
      ([], records, ap (λ x. x ∷ records) same_record, rw⁻¹ same_record (rw (t, none_left) refl))
  | inr t ↦
      let (front, back, p, q) = matches_one session records rec (rw (t, matches) at e) in
      (r ∷ front, back, ap (λ l. r ∷ l) p, rw t q)
]

selected_session-IsLive :
    (req : AttachRequest) (s : Selection)
    → is_nil req.session ≡ true
    → IsShown (length req.records) s
    → IsLive req (selected_session req s).0
unfolding selected_session
selected_session-IsLive req quit n h = omega arith
selected_session-IsLive req invalid n h = omega arith
selected_session-IsLive req (choice k) n h = elim (Option-cases (get_elem? req.records (k - 1))) [
  | inl q ↦ absurd (ground (arith, get_elem?-is_some req.records (k - 1) (omega arith), q))
  | inr (rec, q) ↦
      let (front, back, p) = get_elem?-split req.records (k - 1) rec q in
      rw (q, selected_session) (front, rec, back, p, refl, rw n refl)
]

pick_session-IsLive :
    (req : AttachRequest) → is_nil req.session ≡ true → IsLive req (pick_session req).verdict
unfolding pick_session
pick_session-IsLive req n =
    let count = length req.records in
    let text = bytes "Select session (1-" ++ decimal count ++ bytes ", q to quit): " in
    elim (Option-cases (read_line req.prompt text)) [
      | inl q ↦ rw (q, pick_session) (omega arith)
      | inr (line, q) ↦
          rw (q, pick_session)
            (selected_session-IsLive req _ n (parse_selection-IsShown line count))
    ]

interactive-IsLive :
    (records : List Record) (req : AttachRequest)
    → req.records ≡ records
    → is_nil req.session ≡ true
    → IsLive req (resolve_interactive records req).verdict
unfolding resolve_interactive
interactive-IsLive [] req e n = omega arith
interactive-IsLive (rec ∷ []) req e n = ([], rec, [], e, refl, rw n refl)
interactive-IsLive (rec ∷ other ∷ records) req e n = pick_session-IsLive req n

resolve_matches-IsLive :
    (found : List Record) (req : AttachRequest)
    → matches req.session req.records ≡ found
    → is_nil req.session ≡ false
    → IsLive req (resolve_matches found req).verdict
unfolding resolve_matches
resolve_matches-IsLive [] req e n = omega arith
resolve_matches-IsLive (rec ∷ []) req e n =
    let (front, back, p, q) = matches_one req.session req.records rec e in
    (front, rec, back, p, refl, rw n q)
resolve_matches-IsLive (rec ∷ other ∷ records) req e n = omega arith

-- Whatever the records are and whatever the user types, `ResolveAttach` attaches to the container of one
-- of the live records, with the command for that record's session; with a session requested, it is the
-- only record with that session. Else it leaves with status 0 or 1. It never takes a record out of range.
pub resolve_attach-IsLive : (req : AttachRequest) → IsLive req (resolve_attach req).verdict
unfolding resolve_attach
resolve_attach-IsLive req = elim (Bool-cases (is_nil req.session)) [
  | inl n ↦ rw (n, resolve_attach) (interactive-IsLive req.records req refl n)
  | inr n ↦ rw (n, resolve_attach) (resolve_matches-IsLive _ req refl n)
]
