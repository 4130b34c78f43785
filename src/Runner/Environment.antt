-- ===== src/Runner/Environment.antt =====
-- What the environment of a local subject says.
use octo_performance.Prelude.{
  Bool, true, false, String, Option, none, some, List, [], ◌∷◌, ◌++◌, ◌≡◌, refl, sym, ap, ◌∙◌,
  if◌then◌else◌, Bool-cases, inl, inr,
}
use octo_performance.Prelude.Text.{str_eq}
use octo_performance.Prelude.Maps.{lookup, insert}
use text.Mathlib.TextEquality.{eq_iff}
use octo_performance.Runner.Requests.{assign_all, merge_env, process_env}

-- No key stands twice.
abbrev pub IsMap : List (String × String) → Type 0
IsMap [] = Unit
IsMap ((k, v) ∷ m) = (lookup k m ≡ none) × IsMap m

-- The first if it is there, otherwise the second.
abbrev pub or_else : Option String → Option String → Option String
or_else (some v) o = some v
or_else none o = o

same_key : (i j : String) → str_eq i j ≡ true → i ≡ j
same_key i j e = (eq_iff i j).0 e

other_key : (i j : String) → str_eq i j ≡ false → str_eq j i ≡ false
other_key i j e = elim (Bool-cases (str_eq j i)) [
  | inl d ↦ absurd (cc (e, (eq_iff i j).1 (sym (same_key j i d))))
  | inr d ↦ d
]

lookup-insert :
    (k j v : String) (m : List (String × String))
    → lookup k (insert j v m) ≡ (if str_eq j k then some v else lookup k m)
lookup-insert k j v [] = refl
lookup-insert k j v ((i, w) ∷ m) = elim (Bool-cases (str_eq i j)) [
  | inl e ↦ elim (Bool-cases (str_eq i k)) [
    | inl d ↦ rw (e, d, sym (ap (λ z. str_eq z k) (same_key i j e)) ∙ d) refl
    | inr d ↦ rw (e, d, sym (ap (λ z. str_eq z k) (same_key i j e)) ∙ d) refl
  ]
  | inr e ↦ elim (Bool-cases (str_eq i k)) [
    | inl d ↦ elim (Bool-cases (str_eq j k)) [
      | inl f ↦ absurd (cc (e, (eq_iff i j).1 (same_key i k d ∙ sym (same_key j k f))))
      | inr f ↦ rw (e, d, f) refl
    ]
    | inr d ↦ rw (e, d) (lookup-insert k j v m)
  ]
]

lookup-assign_all :
    (k : String) (m kvs : List (String × String))
    → IsMap kvs
    → lookup k (assign_all m kvs) ≡ or_else (lookup k kvs) (lookup k m)
lookup-assign_all k m [] h = refl
lookup-assign_all k m ((j, v) ∷ kvs) (alone, h) =
    lookup-assign_all k (insert j v m) kvs h
    ∙ rw (lookup-insert k j v m) (elim (Bool-cases (str_eq j k)) [
      | inl e ↦ rw (e, ap (λ z. lookup z kvs) (sym (same_key j k e)) ∙ alone) refl
      | inr e ↦ rw e refl
    ])

insert-IsMap : (k v : String) (m : List (String × String)) → IsMap m → IsMap (insert k v m)
insert-IsMap k v [] h = (refl, tt)
insert-IsMap k v ((i, w) ∷ m) (alone, h) = elim (Bool-cases (str_eq i k)) [
  | inl e ↦ rw e (alone, h)
  | inr e ↦ rw e (lookup-insert i k v m ∙ rw (other_key i k e) alone, insert-IsMap k v m h)
]

assign_all-IsMap : (m kvs : List (String × String)) → IsMap m → IsMap (assign_all m kvs)
assign_all-IsMap m [] h = h
assign_all-IsMap m ((k, v) ∷ kvs) h = assign_all-IsMap (insert k v m) kvs (insert-IsMap k v m h)

assign_all-append :
    (m xs ys : List (String × String)) → assign_all m (xs ++ ys) ≡ assign_all (assign_all m xs) ys
assign_all-append m [] ys = refl
assign_all-append m ((k, v) ∷ xs) ys = assign_all-append (insert k v m) xs ys

or_else-none : (o : Option String) → or_else o none ≡ o
or_else-none none = refl
or_else-none (some v) = refl

lookup-merge_env :
    (k : String) (base over : List (String × String))
    → IsMap base
    → IsMap over
    → lookup k (merge_env base over) ≡ or_else (lookup k over) (lookup k base)
unfolding merge_env
lookup-merge_env k base over hb ho =
    lookup-assign_all k (assign_all [] base) over ho
    ∙ ap (or_else (lookup k over)) (lookup-assign_all k [] base hb ∙ or_else-none (lookup k base))

merge_env-IsMap : (base over : List (String × String)) → IsMap (merge_env base over)
unfolding merge_env
merge_env-IsMap base over = assign_all-IsMap (assign_all [] base) over (assign_all-IsMap [] base tt)

-- The value of a variable by the last entry for it.
abbrev pub last_entry : String → List (String × String) → Option String
last_entry k [] = none
last_entry k ((j, v) ∷ kvs) = or_else (last_entry k kvs) (if str_eq j k then some v else none)

or_else_assoc : (a b c : Option String) → or_else (or_else a b) c ≡ or_else a (or_else b c)
or_else_assoc none b c = refl
or_else_assoc (some v) b c = refl

lookup-assign_all-last_entry :
    (k : String) (m kvs : List (String × String))
    → lookup k (assign_all m kvs) ≡ or_else (last_entry k kvs) (lookup k m)
lookup-assign_all-last_entry k m [] = refl
lookup-assign_all-last_entry k m ((j, v) ∷ kvs) =
    lookup-assign_all-last_entry k (insert j v m) kvs
    ∙ ap (or_else (last_entry k kvs)) (lookup-insert k j v m ∙ pick (str_eq j k) (lookup k m))
    ∙ sym (or_else_assoc (last_entry k kvs) (if str_eq j k then some v else none) (lookup k m))
  where
    pick :
        (b : Bool) (o : Option String)
        → (if b then some v else o) ≡ or_else (if b then some v else none) o
    pick true o = refl
    pick false o = refl

-- In the environment of a local subject, for which the last entry for a variable counts, a variable has
-- the value that the arm gives it, or else the one that the scenario's dependencies give it, or else
-- the one that it has in the harness's own environment, and is missing where none of them has it.
pub last_entry-process_env :
    (k : String) (environ base over : List (String × String))
    → IsMap base
    → IsMap over
    → last_entry k (process_env environ (merge_env base over))
      ≡ or_else (lookup k over) (or_else (lookup k base) (last_entry k environ))
unfolding process_env
last_entry-process_env k environ base over hb ho =
    let env = merge_env base over in
    let own = lookup-assign_all-last_entry k [] environ ∙ or_else-none (last_entry k environ) in
    sym (or_else-none (last_entry k (environ ++ env)))
    ∙ sym (lookup-assign_all-last_entry k [] (environ ++ env))
    ∙ ap (lookup k) (assign_all-append [] environ env)
    ∙ lookup-assign_all k (assign_all [] environ) env (merge_env-IsMap base over)
    ∙ ap (or_else (lookup k env)) own
    ∙ ap (λ o. or_else o (last_entry k environ)) (lookup-merge_env k base over hb ho)
    ∙ or_else_assoc (lookup k over) (lookup k base) (last_entry k environ)
