-- ===== src/Webrtc/Devices/Listing.antt =====
-- `getDevices` ends, and what it lists.
use signalwire_node.Common.{
  subst, ◌≡◌, refl, ap, sym, ◌∙◌, Bool, true, false, not, ◌&&◌, Option, List, [], ◌∷◌, ◌++◌, String,
  arith, ◌==◌, eq_iff, eq_refl, if◌then◌else◌, Bool-cases, inl, inr, includes, All, ◌⊎◌,
}
use signalwire_node.Webrtc.Devices.{
  Device, Round, found, of_kind, is_valid, group_key, one_per_group, get_devices,
}

-- A round that lists no valid devices, after which the permission is given.
abbrev pub IsUnlabelled : Option String → Round → Type 0
IsUnlabelled kind r = (is_valid (of_kind kind r.enumerated) ≡ false) × (r.granted ≡ true)

-- What is listed in the end: the full list only if it is asked for and no round came before.
abbrev pub listed_devices : Bool → List Round → List Device → List Device
listed_devices full_list [] ds = if full_list then ds else one_per_group [] ds
listed_devices full_list (q ∷ before) ds = one_per_group [] ds

get_devices-valid :
    (kind : Option String) (full_list : Bool) (r : Round) (rounds : List Round)
    → is_valid (of_kind kind r.enumerated) ≡ true
    → get_devices kind full_list (r ∷ rounds)
      ≡ found (listed_devices full_list [] (of_kind kind r.enumerated))
unfolding get_devices
get_devices-valid kind full_list r rounds h = rw (h, get_devices) refl

get_devices-again :
    (kind : Option String) (full_list : Bool) (r : Round) (rounds : List Round)
    → IsUnlabelled kind r
    → get_devices kind full_list (r ∷ rounds) ≡ get_devices kind false rounds
unfolding get_devices
get_devices-again kind full_list r rounds (h, k) = rw (h, k, get_devices) refl

listed_devices-false :
    (before : List Round) (ds : List Device) → listed_devices false before ds ≡ one_per_group [] ds
listed_devices-false [] ds = refl
listed_devices-false (q ∷ before) ds = refl

get_devices-found :
    (kind : Option String) (full_list : Bool) (before : List Round) (r : Round)
    (rounds : List Round)
    → All (IsUnlabelled kind) before
    → is_valid (of_kind kind r.enumerated) ≡ true
    → get_devices kind full_list (before ++ r ∷ rounds)
      ≡ found (listed_devices full_list before (of_kind kind r.enumerated))
get_devices-found kind full_list [] r rounds _ h = get_devices-valid kind full_list r rounds h
get_devices-found kind full_list (q ∷ before) r rounds (a, k) h =
    get_devices-again kind full_list q (before ++ r ∷ rounds) a
    ∙ get_devices-found kind false before r rounds k h
    ∙ ap found (listed_devices-false before (of_kind kind r.enumerated))

subst2 : {A : Type 0} (P : A → A → Type 0) {x x' y y' : A} → x ≡ x' → y ≡ y' → P x y → P x' y'
subst2 P {x = x} {y' = y'} e f h = subst (λ z. P z y') e (subst (P x) f h)

-- The groups of the devices that have one, each with its kind.
abbrev pub groups : List Device → List String
groups [] = []
groups (d ∷ ds) = if d.group_id == "" then groups ds else group_key d ∷ groups ds

abbrev pub IsDistinct : List String → Type 0
IsDistinct [] = Unit
IsDistinct (k ∷ ks) = (includes ks k ≡ false) × IsDistinct ks

groups_in :
    (d : Device) (ds : List Device)
    → (d.group_id == "") ≡ false
    → groups (d ∷ ds) ≡ group_key d ∷ groups ds
groups_in d ds h = rw h refl

groups_out :
    (d : Device) (ds : List Device) → (d.group_id == "") ≡ true → groups (d ∷ ds) ≡ groups ds
groups_out d ds h = rw h refl

-- The three cases of a device.
alone :
    (seen : List String) (d : Device) (ds : List Device)
    → (d.group_id == "") ≡ true
    → one_per_group seen (d ∷ ds) ≡ d ∷ one_per_group seen ds
unfolding one_per_group
alone seen d ds h = rw (h, one_per_group) refl

seen_before :
    (seen : List String) (d : Device) (ds : List Device)
    → (d.group_id == "") ≡ false
    → includes seen (group_key d) ≡ true
    → one_per_group seen (d ∷ ds) ≡ one_per_group seen ds
unfolding one_per_group
seen_before seen d ds h k = rw (h, k, one_per_group) refl

first_seen :
    (seen : List String) (d : Device) (ds : List Device)
    → (d.group_id == "") ≡ false
    → includes seen (group_key d) ≡ false
    → one_per_group seen (d ∷ ds) ≡ d ∷ one_per_group (group_key d ∷ seen) ds
unfolding one_per_group
first_seen seen d ds h k = rw (h, k, one_per_group) refl

-- The groups that are listed: those of the devices that were not seen before, each once.
Lists : List String → List String → List String → Type 0
Lists seen given listed =
    IsDistinct listed
    × ((k : String) → includes listed k ≡ (includes given k && not (includes seen k)))

Lists-seen :
    (key : String) (seen given listed : List String)
    → includes seen key ≡ true
    → Lists seen given listed
    → Lists seen (key ∷ given) listed
unfolding Lists
Lists-seen key seen given listed f (a, h) = (a, λ k. ground (arith, f, h k, eq_iff key k))

Lists-new :
    (key : String) (seen given listed : List String)
    → includes seen key ≡ false
    → Lists (key ∷ seen) given listed
    → Lists seen (key ∷ given) (key ∷ listed)
unfolding Lists
Lists-new key seen given listed f (a, h) =
    ((h key ∙ ground (arith, eq_refl key), a), λ k. ground (arith, f, h k, eq_iff key k))

one_per_group-Lists :
    (seen : List String) (ds : List Device)
    → Lists seen (groups ds) (groups (one_per_group seen ds))
unfolding one_per_group Lists
one_per_group-Lists seen [] = (tt, λ k. refl)
one_per_group-Lists seen (d ∷ ds) = elim (Bool-cases (d.group_id == "")) [
  | inl e ↦
      subst2 (Lists seen) (sym (groups_out d ds e))
        (sym (ap groups (alone seen d ds e) ∙ groups_out d (one_per_group seen ds) e))
        (one_per_group-Lists seen ds)
  | inr e ↦ elim (Bool-cases (includes seen (group_key d))) [
    | inl f ↦
        subst2 (Lists seen) (sym (groups_in d ds e)) (sym (ap groups (seen_before seen d ds e f))) (
          Lists-seen (group_key d) seen (groups ds) (groups (one_per_group seen ds)) f
            (one_per_group-Lists seen ds))
    | inr f ↦
        let rest = one_per_group (group_key d ∷ seen) ds in
        subst2 (Lists seen) (sym (groups_in d ds e))
          (sym (ap groups (first_seen seen d ds e f) ∙ groups_in d rest e))
          (Lists-new (group_key d) seen (groups ds) (groups rest) f
            (one_per_group-Lists (group_key d ∷ seen) ds))
  ]
]

-- The list without doubles has each group of the devices exactly once, and no other group.
one_per_group-groups :
    (ds : List Device)
    → IsDistinct (groups (one_per_group [] ds))
      × ((k : String) → includes (groups (one_per_group [] ds)) k ≡ includes (groups ds) k)
unfolding Lists
one_per_group-groups ds = let (a, h) = one_per_group-Lists [] ds in (a, λ k. h k ∙ ground arith)

-- Some of the devices, in their order.
abbrev IsPart : List Device → List Device → Type 0
IsPart listed [] = listed ≡ []
IsPart listed (d ∷ ds) =
    ((rest : List Device) × (listed ≡ d ∷ rest) × IsPart rest ds) ⊎ IsPart listed ds

one_per_group-IsPart : (seen : List String) (ds : List Device) → IsPart (one_per_group seen ds) ds
unfolding one_per_group
one_per_group-IsPart seen [] = refl
one_per_group-IsPart seen (d ∷ ds) = elim (Bool-cases (d.group_id == "")) [
  | inl e ↦ inl (one_per_group seen ds, alone seen d ds e, one_per_group-IsPart seen ds)
  | inr e ↦ elim (Bool-cases (includes seen (group_key d))) [
    | inl f ↦
        inr (
          subst (λ x. IsPart x ds) (sym (seen_before seen d ds e f)) (one_per_group-IsPart seen ds))
    | inr f ↦ inl (
      one_per_group (group_key d ∷ seen) ds,
      first_seen seen d ds e f,
      one_per_group-IsPart (group_key d ∷ seen) ds,
    )
  ]
]

-- Those without a group.
abbrev ungrouped : List Device → List Device
ungrouped [] = []
ungrouped (d ∷ ds) = if d.group_id == "" then d ∷ ungrouped ds else ungrouped ds

ungrouped_in :
    (d : Device) (ds : List Device)
    → (d.group_id == "") ≡ true
    → ungrouped (d ∷ ds) ≡ d ∷ ungrouped ds
ungrouped_in d ds h = rw h refl

ungrouped_out :
    (d : Device) (ds : List Device) → (d.group_id == "") ≡ false → ungrouped (d ∷ ds) ≡ ungrouped ds
ungrouped_out d ds h = rw h refl

ungrouped-one_per_group :
    (seen : List String) (ds : List Device) → ungrouped (one_per_group seen ds) ≡ ungrouped ds
unfolding one_per_group
ungrouped-one_per_group seen [] = refl
ungrouped-one_per_group seen (d ∷ ds) = elim (Bool-cases (d.group_id == "")) [
  | inl e ↦
      ap ungrouped (alone seen d ds e)
      ∙ ungrouped_in d (one_per_group seen ds) e
      ∙ ap (◌∷◌ d) (ungrouped-one_per_group seen ds)
      ∙ sym (ungrouped_in d ds e)
  | inr e ↦ elim (Bool-cases (includes seen (group_key d))) [
    | inl f ↦
        ap ungrouped (seen_before seen d ds e f)
        ∙ ungrouped-one_per_group seen ds
        ∙ sym (ungrouped_out d ds e)
    | inr f ↦
        ap ungrouped (first_seen seen d ds e f)
        ∙ ungrouped_out d (one_per_group (group_key d ∷ seen) ds) e
        ∙ ungrouped-one_per_group (group_key d ∷ seen) ds
        ∙ sym (ungrouped_out d ds e)
  ]
]

-- One device of each group, and all that have no group.
abbrev IsOnePerGroup : List Device → List Device → Type 0
IsOnePerGroup listed ds =
    IsPart listed ds
    × IsDistinct (groups listed)
    × ((k : String) → includes (groups listed) k ≡ includes (groups ds) k)
    × (ungrouped listed ≡ ungrouped ds)

abbrev pub IsListing : Bool → List Round → List Device → List Device → Type 0
IsListing true [] listed ds = listed ≡ ds
IsListing full_list before listed ds = IsOnePerGroup listed ds

one_per_group-IsOnePerGroup : (ds : List Device) → IsOnePerGroup (one_per_group [] ds) ds
one_per_group-IsOnePerGroup ds =
    let (a, h) = one_per_group-groups ds in
    (one_per_group-IsPart [] ds, a, h, ungrouped-one_per_group [] ds)

listed_devices-IsListing :
    (full_list : Bool) (before : List Round) (ds : List Device)
    → IsListing full_list before (listed_devices full_list before ds) ds
listed_devices-IsListing true [] ds = refl
listed_devices-IsListing false [] ds = one_per_group-IsOnePerGroup ds
listed_devices-IsListing true (q ∷ before) ds = one_per_group-IsOnePerGroup ds
listed_devices-IsListing false (q ∷ before) ds = one_per_group-IsOnePerGroup ds

-- `getDevices` ends as soon as a round lists valid devices, however many rounds came before in which
-- they had no labels and the permission was given. It lists some of the devices of the kind, in order:
-- each group among them once, and all that have no group. It lists all of them only if that was asked
-- for and the first round was valid.
pub get_devices-ends :
    (kind : Option String) (full_list : Bool) (before : List Round) (r : Round)
    (rounds : List Round)
    → All (IsUnlabelled kind) before
    → is_valid (of_kind kind r.enumerated) ≡ true
    → (listed : List Device) × (get_devices kind full_list (before ++ r ∷ rounds) ≡ found listed)
      × IsListing full_list before listed (of_kind kind r.enumerated)
get_devices-ends kind full_list before r rounds u h =
    let ds = of_kind kind r.enumerated in
    (
      listed_devices full_list before ds,
      get_devices-found kind full_list before r rounds u h,
      listed_devices-IsListing full_list before ds,
    )
