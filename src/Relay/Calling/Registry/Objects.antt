-- ===== src/Relay/Calling/Registry/Objects.antt =====
-- Lists of calls in which every object stands once, and what stores and removals make of them.
use signalwire_node.Common.{
  ℕ, suc, ◌≤◌, ◌≡◌, ◌≢◌, refl, sym, subst, List, [], ◌∷◌, ◌++◌, arith, eqb, eqb_iff, All,
  Bool-cases, inl, inr,
}
use signalwire_node.Relay.Constants.{CallState, call_state_text}
use signalwire_node.Relay.Calling.Call.{Call}
use signalwire_node.Relay.Calling.Registry.{Calling, store, without}

-- The object of a call is another one than `c`.
abbrev pub IsOther : Call → Call → Type 0
IsOther c d = d.ref ≢ c.ref

abbrev pub IsUnique : List Call → Type 0
IsUnique [] = Unit {0}
IsUnique (c ∷ cs) = All (IsOther c) cs × IsUnique cs

abbrev pub IsLive : Call → Type 0
IsLive c = c.state ≢ call_state_text CallState.ended

abbrev pub IsBefore : ℕ → Call → Type 0
IsBefore n c = suc c.ref ≤ n

pub record IsRegistry (k : Calling) : Type 0 where
  pub before : All (IsBefore k.next_ref) k.calls
  pub unique : IsUnique k.calls
  pub live : All IsLive k.calls

module _ {κ} (P : Call → Type κ) where
  pub store-All : (c : Call) (cs : List Call) → P c → All P cs → All P (store c cs)
  store-All c [] p h = tt
  store-All c (d ∷ ds) p (h, hs) = elim (Bool-cases (eqb d.ref c.ref)) [
    | inl same ↦ rw same (p, hs)
    | inr other ↦ rw other (h, store-All c ds p hs)
  ]

  pub without-All : (ref : ℕ) (cs : List Call) → All P cs → All P (without ref cs)
  without-All ref [] h = tt
  without-All ref (d ∷ ds) (h, hs) = elim (Bool-cases (eqb d.ref ref)) [
    | inl same ↦ rw same hs
    | inr other ↦ rw other (h, without-All ref ds hs)
  ]

  pub append-All : (cs : List Call) (c : Call) → All P cs → P c → All P (cs ++ c ∷ [])
  append-All [] c h p = (p, tt)
  append-All (d ∷ ds) c (h, hs) p = (h, append-All ds c hs p)

pub All-map :
    (P Q : Call → Type 0) → ((c : Call) → P c → Q c) → (cs : List Call) → All P cs → All Q cs
All-map P Q f [] h = tt
All-map P Q f (c ∷ cs) (h, hs) = (f c h, All-map P Q f cs hs)

pub store-IsUnique : (c : Call) (cs : List Call) → IsUnique cs → IsUnique (store c cs)
store-IsUnique c [] h = tt
store-IsUnique c (d ∷ ds) (h, hs) = elim (Bool-cases (eqb d.ref c.ref)) [
  | inl same ↦ rw same (subst (λ r. All (λ e. e.ref ≢ r) ds) ((eqb_iff d.ref c.ref).0 same) h, hs)
  | inr other ↦ rw other (
    store-All (IsOther d) c ds (λ e. ground (arith, eqb_iff d.ref c.ref)) h,
    store-IsUnique c ds hs,
  )
]

pub without-IsUnique : (ref : ℕ) (cs : List Call) → IsUnique cs → IsUnique (without ref cs)
without-IsUnique ref [] h = tt
without-IsUnique ref (d ∷ ds) (h, hs) = elim (Bool-cases (eqb d.ref ref)) [
  | inl same ↦ rw same hs
  | inr other ↦ rw other (without-All (IsOther d) ref ds h, without-IsUnique ref ds hs)
]

pub append-IsUnique :
    (cs : List Call) (c : Call) → IsUnique cs → All (IsOther c) cs → IsUnique (cs ++ c ∷ [])
append-IsUnique [] c u o = (tt, tt)
append-IsUnique (d ∷ ds) c (h, hs) (o, os) =
    (append-All (IsOther d) ds c h (λ e. o (sym e)), append-IsUnique ds c hs os)

-- Removing the object that has just been stored.
pub without-store : (c : Call) (cs : List Call) → without c.ref (store c cs) ≡ without c.ref cs
without-store c [] = refl
without-store c (d ∷ ds) = elim (Bool-cases (eqb d.ref c.ref)) [
  | inl same ↦ rw same (rw ((eqb_iff c.ref c.ref).1 refl) refl)
  | inr other ↦ rw other (rw (other, without-store c ds) refl)
]
