-- ===== src/Messages/Renaming.antt =====
-- What becomes of a property when names are renamed one after the other, and others deleted.
use signalwire_node.Common.{
  ◌≡◌, refl, ap, ◌∙◌, true, false, Option, none, some, List, [], ◌∷◌, String, ◌==◌, arith, eq_iff,
  eq_refl, subst, includes, All, Bool-cases, Option-cases, inl, inr, if◌then◌else◌,
}
use signalwire_node.Common.Dict.{Dict, lookup, insert, delete, lookup-insert, lookup-delete}
use signalwire_node.Common.Json.{Json}
use signalwire_node.Messages.{without_names, rename, moved, rename_all}

abbrev pub client_names : List (String × String) → List String
client_names [] = []
client_names ((from, to) ∷ rs) = from ∷ client_names rs

abbrev pub names : List (String × String) → List String
names [] = []
names ((from, to) ∷ rs) = from ∷ to ∷ names rs

-- No name stands in a table twice.
abbrev pub IsTable : List (String × String) → Type 0
IsTable [] = Unit
IsTable ((from, to) ∷ rs) =
    ((from == to) ≡ false)
    × (includes (names rs) from ≡ false)
    × (includes (names rs) to ≡ false)
    × IsTable rs

-- A property after a renaming.
abbrev pub renamed : String → String → String → Option Json → Option Json → Option Json
renamed from to name none old = old
renamed from to name (some j) old =
    if from == name then none else (if to == name then some j else old)

lookup-moved :
    (from to name : String) (held : Option Json) (o : Dict Json)
    → lookup name (moved from to held o) ≡ renamed from to name held (lookup name o)
lookup-moved from to name none o = refl
lookup-moved from to name (some j) o =
    lookup-delete from name (insert to j o)
    ∙ ap (λ old. if from == name then none else old) (lookup-insert to name j o)

lookup-rename :
    (from to name : String) (o : Dict Json)
    → lookup name (rename from to o) ≡ renamed from to name (lookup from o) (lookup name o)
lookup-rename from to name o = lookup-moved from to name (lookup from o) o

-- A name that the table does not have keeps its value.
lookup-rename_other :
    (from to name : String) (o : Dict Json)
    → (from == name) ≡ false
    → (to == name) ≡ false
    → lookup name (rename from to o) ≡ lookup name o
lookup-rename_other from to name o f t =
    lookup-rename from to name o
    ∙ elim (Option-cases (lookup from o)) [ inl e ↦ rw e refl | inr (j, e) ↦ rw (e, f, t) refl ]

rename_all-other :
    (rs : List (String × String)) (name : String) (o : Dict Json)
    → includes (names rs) name ≡ false
    → lookup name (rename_all rs o) ≡ lookup name o
unfolding rename_all
rename_all-other [] name o h = refl
rename_all-other ((from, to) ∷ rs) name o h =
    rename_all-other rs name (rename from to o) (ground (arith, h))
    ∙ lookup-rename_other from to name o (ground (arith, h)) (ground (arith, h))

rename_self : (from to : String) (o : Dict Json) → lookup from (rename from to o) ≡ none
rename_self from to o = lookup-rename from to from o ∙ elim (Option-cases (lookup from o)) [
  | inl e ↦ rw e refl
  | inr (j, e) ↦ rw (e, eq_refl from) refl
]

rename-held :
    (from to : String) (o : Dict Json) {j : Json}
    → (from == to) ≡ false
    → lookup from o ≡ some j
    → lookup to (rename from to o) ≡ some j
rename-held from to o d h = lookup-rename from to to o ∙ rw (h, d, eq_refl to) refl

-- A client name goes, if no later server name is spelled like it.
rename_all-gone :
    (rs : List (String × String)) (name : String) (o : Dict Json)
    → IsTable rs
    → includes (client_names rs) name ≡ true
    → lookup name (rename_all rs o) ≡ none
unfolding rename_all
rename_all-gone [] name o t h = cc
rename_all-gone ((from, to) ∷ rs) name o (d, f, s, t) h = elim (Bool-cases (from == name)) [
  | inl e ↦
      subst (λ n. lookup n (rename_all rs (rename from to o)) ≡ none) ((eq_iff from name).0 e)
        (rename_all-other rs from (rename from to o) f ∙ rename_self from to o)
  | inr e ↦ rename_all-gone rs name (rename from to o) t (rw e at h)
]

-- The value of the client name that a server name stands for, and a value where there is none.
abbrev pub source : List (String × String) → String → Dict Json → Option Json
source [] name o = none
source ((from, to) ∷ rs) name o = if to == name then lookup from o else source rs name o

abbrev pub or_else : Option Json → Option Json → Option Json
or_else none other = other
or_else (some j) other = some j

source-rename :
    (rs : List (String × String)) (from to name : String) (o : Dict Json)
    → includes (names rs) from ≡ false
    → includes (names rs) to ≡ false
    → source rs name (rename from to o) ≡ source rs name o
source-rename [] from to name o f t = refl
source-rename ((from', to') ∷ rs) from to name o f t =
    let same =
      lookup-rename_other from to from' o (ground (arith, f, eq_iff from from', eq_iff from' from))
        (ground (arith, t, eq_iff to from', eq_iff from' to)) in
    let rest : source rs name (rename from to o) ≡ source rs name o =
      source-rename rs from to name o (ground (arith, f)) (ground (arith, t)) in
    rw (same, rest) refl

pub client_names-names :
    (rs : List (String × String)) (name : String)
    → includes (names rs) name ≡ false
    → includes (client_names rs) name ≡ false
client_names-names [] name h = refl
client_names-names ((from, to) ∷ rs) name h = ground (arith, client_names-names rs name, h)

abbrev pub told_by : List (String × String) → String → Dict Json → Option Json
told_by rs name o =
    if includes (client_names rs) name then none else or_else (source rs name o) (lookup name o)

pub rename_all-told_by :
    (rs : List (String × String)) (name : String) (o : Dict Json)
    → IsTable rs
    → lookup name (rename_all rs o) ≡ told_by rs name o
unfolding rename_all
rename_all-told_by [] name o t = refl
rename_all-told_by ((from, to) ∷ rs) name o (d, f, s, t) = elim (Bool-cases (from == name)) [
  | inl e ↦ rename_all-gone ((from, to) ∷ rs) name o (d, f, s, t) (ground (arith, e)) ∙ rw e refl
  | inr e ↦ elim (Bool-cases (to == name)) [
    | inl g ↦
        let unlisted = subst (λ n. includes (names rs) n ≡ false) ((eq_iff to name).0 g) s in
        rename_all-other rs name (rename from to o) unlisted
        ∙ lookup-rename from to name o
        ∙ elim (Option-cases (lookup from o)) [
          | inl h ↦ rw (h, e, g, client_names-names rs name unlisted) refl
          | inr (j, h) ↦ rw (h, e, g, client_names-names rs name unlisted) refl
        ]
    | inr g ↦
        rename_all-told_by rs name (rename from to o) t
        ∙ rw (source-rename rs from to name o f s, lookup-rename_other from to name o e g, e, g)
            refl
  ]
]

pub lookup-without_names :
    (ns : List String) (name : String) (o : Dict Json)
    → lookup name (without_names ns o) ≡ (if includes ns name then none else lookup name o)
unfolding without_names
lookup-without_names [] name o = refl
lookup-without_names (n ∷ ns) name o =
    lookup-without_names ns name (delete n o) ∙ ground (arith, lookup-delete n name o)

-- No name of one list is on the other.
pub disjoint :
    (xs ys : List String) (name : String)
    → All (λ x. includes ys x ≡ false) xs
    → includes xs name ≡ true
    → includes ys name ≡ false
disjoint [] ys name d h = cc
disjoint (x ∷ xs) ys name (d, ds) h = elim (Bool-cases (x == name)) [
  | inl e ↦ subst (λ n. includes ys n ≡ false) ((eq_iff x name).0 e) d
  | inr e ↦ disjoint xs ys name ds (rw e at h)
]

pub source-without_names :
    (rs : List (String × String)) (ns : List String) (name : String) (o : Dict Json)
    → All (λ r. includes ns r.0 ≡ false) rs
    → source rs name (without_names ns o) ≡ source rs name o
source-without_names [] ns name o d = refl
source-without_names ((from, to) ∷ rs) ns name o (d, ds) =
    let same : lookup from (without_names ns o) ≡ lookup from o =
      lookup-without_names ns from o ∙ rw d refl in
    rw (same, source-without_names rs ns name o ds) refl

pub source_none :
    (rs : List (String × String)) (name : String) (o : Dict Json)
    → includes (names rs) name ≡ false
    → source rs name o ≡ none
source_none [] name o h = refl
source_none ((from, to) ∷ rs) name o h = ground (arith, source_none rs name o)
