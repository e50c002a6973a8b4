-- ===== src/Relay/Calling/Registry/Invariant.antt =====
-- The registry of calls: every object is listed once, and no call that has ended stays listed.
use signalwire_node.Common.{
  if-true, if-false, if-both, suc, ◌≤◌, ◌≡◌, ◌≢◌, refl, sym, ◌∙◌, subst, Bool, true, false, Option,
  none, some, List, [], ◌∷◌, String, arith, eq_iff, eqb, eqb_iff, if◌then◌else◌, All, Bool-cases,
  inl, inr, not,
}
use signalwire_node.Relay.Constants.{CallState, call_state_text}
use signalwire_node.Relay.Calling.Params.{Params, StateParams, DialParams}
use signalwire_node.Relay.Calling.Call.{Call, CallOptions, new_call, Effect, is_multi_dial}
use signalwire_node.Relay.Calling.Call.Changes.{Changed, change}
use signalwire_node.Relay.Calling.Call.Ending.{state_change-removed}
use signalwire_node.Relay.Calling.Registry.{
  Calling, store, without, commit, remove_call, create_call, add_call, on_state, on_dial, on_call,
  notification, options_of, identify, find, get_call_by_id, get_call_by_tag, either_call,
  text_truthy, found_state, found,
}
use signalwire_node.Relay.Calling.Registry.Objects.{
  IsOther, IsUnique, IsLive, IsBefore, IsRegistry, store-All, without-All, append-All, All-map,
  store-IsUnique, without-IsUnique, append-IsUnique, without-store,
}
use signalwire_node.Relay.Calling.Registry.Kept.{change-IsSound}

-- Keeping a change that leaves the call listed, and one that removes it.
stored-IsRegistry :
    (c : Call) (k : Calling)
    → IsBefore k.next_ref c
    → IsLive c
    → IsRegistry k
    → IsRegistry (record k { calls = store c k.calls })
stored-IsRegistry c k b l h = record {
  before = store-All (IsBefore k.next_ref) c k.calls b h.before;
  unique = store-IsUnique c k.calls h.unique;
  live = store-All IsLive c k.calls l h.live;
}

removed-IsRegistry :
    (c : Call) (k : Calling)
    → IsRegistry k
    → IsRegistry (remove_call c.ref (record k { calls = store c k.calls }))
unfolding remove_call
removed-IsRegistry c k h = rw (without-store c k.calls) (record {
  before = without-All (IsBefore k.next_ref) c.ref k.calls h.before;
  unique = without-IsUnique c.ref k.calls h.unique;
  live = without-All IsLive c.ref k.calls h.live;
})

commit-IsRegistry :
    (r : Changed) (k : Calling)
    → IsBefore k.next_ref r.call
    → (r.removed ≡ false → IsLive r.call)
    → IsRegistry k
    → IsRegistry (commit r k).0
commit-IsRegistry r k b l h =
    if-both (λ k'. IsRegistry k') r.removed _ _ (λ gone. removed-IsRegistry r.call k h)
      (λ kept. stored-IsRegistry r.call k b (l kept) h)

find-All :
    (P : Call → Type 0) (f : Call → Bool) (cs : List Call) (c : Call)
    → find f cs ≡ some c
    → All P cs
    → P c
find-All P f [] c e h = ground arith
find-All P f (d ∷ ds) c e (h, hs) = elim (Bool-cases (f d)) [
  | inl hit ↦ subst (λ o. elim o [ none ↦ Unit {0} | some x ↦ P x ]) (sym (if-true _ _ hit) ∙ e) h
  | inr miss ↦ find-All P f ds c (sym (if-false _ _ miss) ∙ e) hs
]

-- A change of a listed call, or of one with the same object and state.
changed-IsRegistry :
    (p : Params) (c : Call) (k : Calling)
    → IsBefore k.next_ref c
    → IsLive c
    → IsRegistry k
    → IsRegistry (commit (change p c) k).0
changed-IsRegistry p c k b l h =
    let s = change-IsSound p c l in
    commit-IsRegistry (change p c) k (subst (λ r. suc r ≤ k.next_ref) (sym s.ref) b) s.live h

new_state : call_state_text CallState.none ≢ call_state_text CallState.ended
new_state = λ e. let same : (false ≡ true) = (eq_iff "none" "ended").1 e in ground arith

pub create-IsRegistry :
    (uuid : String) (o : CallOptions) (k : Calling)
    → IsRegistry k
    → IsRegistry (create_call uuid o k)
unfolding create_call add_call new_call
create-IsRegistry uuid o k h = record {
  before =
      append-All (IsBefore (suc k.next_ref)) k.calls (new_call k.next_ref uuid o)
        (All-map (IsBefore k.next_ref) (IsBefore (suc k.next_ref)) (λ c b. omega (arith, b)) k.calls
          h.before)
        (omega arith);
  unique = append-IsUnique k.calls (new_call k.next_ref uuid o) h.unique (
      All-map (IsBefore k.next_ref) (IsOther (new_call k.next_ref uuid o))
        (λ c b e. omega (arith, b, e)) k.calls h.before);
  live = append-All IsLive k.calls (new_call k.next_ref uuid o) h.live new_state;
}

identify-ref :
    (p : StateParams) (c : Call) → ((identify p c).ref ≡ c.ref) × ((identify p c).state ≡ c.state)
identify-ref p c = ground arith

either-P :
    (P : Call → Type 0) (a b : Option Call)
    → ((c : Call) → a ≡ some c → P c)
    → ((c : Call) → b ≡ some c → P c)
    → (c : Call) → either_call a b ≡ some c
    → P c
either-P P none b f g c e = g c e
either-P P (some d) b f g c e = f c e

unknown-IsRegistry :
    (uuid : String) (o : CallOptions) (named : Bool) (k : Calling)
    → IsRegistry k
    → IsRegistry (if named then create_call uuid o k else k)
unknown-IsRegistry uuid o true k h = create-IsRegistry uuid o k h
unknown-IsRegistry uuid o false k h = h

-- What the registry says of a call that is found in it.
abbrev IsKnown : Calling → Call → Type 0
IsKnown k c = IsBefore k.next_ref c × IsLive c

find-IsKnown :
    (f : Call → Bool) (k : Calling)
    → IsRegistry k
    → (c : Call) → find f k.calls ≡ some c
    → IsKnown k c
find-IsKnown f k h c e =
    (find-All (IsBefore k.next_ref) f k.calls c e h.before, find-All IsLive f k.calls c e h.live)

found_state-IsRegistry :
    (uuid : String) (p : StateParams) (o : Option Call) (k : Calling)
    → ((c : Call) → o ≡ some c → IsKnown k c)
    → IsRegistry k
    → IsRegistry (found_state uuid p o k).0
found_state-IsRegistry uuid p none k f h =
    unknown-IsRegistry uuid (options_of p) (text_truthy p.call_id) k h
found_state-IsRegistry uuid p (some c) k f h =
    if-both (λ (r : Calling × List Effect). IsRegistry r.0) (not (is_multi_dial c.options)) _ _
      (λ single.
        let (b, l) = f c refl in
        let (r, s) = identify-ref p c in
        changed-IsRegistry (Params.state p) (identify p c) k
          (subst (λ n. suc n ≤ k.next_ref) (sym r) b)
          (subst (λ t. t ≢ call_state_text CallState.ended) (sym s) l) h)
      (λ many. unknown-IsRegistry uuid (options_of p) (text_truthy p.call_id) k h)

on_state-IsRegistry :
    (uuid : String) (p : StateParams) (k : Calling)
    → IsRegistry k
    → IsRegistry (on_state uuid p k).0
unfolding on_state
on_state-IsRegistry uuid p k h =
    found_state-IsRegistry uuid p
      (either_call (get_call_by_id p.call_id k) (get_call_by_tag p.tag k)) k
      (either-P (IsKnown k) (get_call_by_id p.call_id k) (get_call_by_tag p.tag k)
        (find-IsKnown _ k h) (find-IsKnown _ k h))
      h

found-IsRegistry :
    (p : Params) (o : Option Call) (k : Calling)
    → ((c : Call) → o ≡ some c → IsKnown k c)
    → IsRegistry k
    → IsRegistry (found p o k).0
found-IsRegistry p none k f h = h
found-IsRegistry p (some c) k f h = let (b, l) = f c refl in changed-IsRegistry p c k b l h

on_dial-IsRegistry : (p : DialParams) (k : Calling) → IsRegistry k → IsRegistry (on_dial p k).0
unfolding on_dial
on_dial-IsRegistry p k h =
    found-IsRegistry (Params.dial p) (get_call_by_tag (some p.tag) k) k (find-IsKnown _ k h) h

on_call-IsRegistry :
    (call_id : String) (p : Params) (k : Calling)
    → IsRegistry k
    → IsRegistry (on_call call_id p k).0
unfolding on_call
on_call-IsRegistry call_id p k h =
    found-IsRegistry p (get_call_by_id (some call_id) k) k (find-IsKnown _ k h) h

-- Every notification keeps a registry in order: each object is listed at most once, all are older
-- than the next identity, and no listed call has ended.
pub notification-IsRegistry :
    (uuid : String) (p : Params) (k : Calling) → IsRegistry k → IsRegistry (notification uuid p k).0
unfolding notification
notification-IsRegistry uuid (Params.state p) k h = on_state-IsRegistry uuid p k h
notification-IsRegistry uuid (Params.dial p) k h = on_dial-IsRegistry p k h
notification-IsRegistry uuid (Params.connect p) k h =
    on_call-IsRegistry p.call_id (Params.connect p) k h
notification-IsRegistry uuid (Params.recording p) k h =
    on_call-IsRegistry p.call_id (Params.recording p) k h
notification-IsRegistry uuid (Params.play p) k h = on_call-IsRegistry p.call_id (Params.play p) k h
notification-IsRegistry uuid (Params.collect p) k h =
    on_call-IsRegistry p.call_id (Params.collect p) k h
notification-IsRegistry uuid (Params.fax p) k h = on_call-IsRegistry p.call_id (Params.fax p) k h
notification-IsRegistry uuid (Params.detect p) k h =
    on_call-IsRegistry p.call_id (Params.detect p) k h
notification-IsRegistry uuid (Params.tap p) k h = on_call-IsRegistry p.call_id (Params.tap p) k h
notification-IsRegistry uuid (Params.send_digits p) k h =
    on_call-IsRegistry p.call_id (Params.send_digits p) k h
notification-IsRegistry uuid (Params.refer p) k h =
    on_call-IsRegistry p.call_id (Params.refer p) k h

without-IsOther : (c : Call) (cs : List Call) → IsUnique cs → All (IsOther c) (without c.ref cs)
without-IsOther c [] h = tt
without-IsOther c (d ∷ ds) (h, hs) = elim (Bool-cases (eqb d.ref c.ref)) [
  | inl same ↦ rw same (subst (λ r. All (λ e. e.ref ≢ r) ds) ((eqb_iff d.ref c.ref).0 same) h)
  | inr other ↦ rw other (λ e. ground (arith, eqb_iff d.ref c.ref), without-IsOther c ds hs)
]

commit_removed-IsOther :
    (c : Call) (r : Changed) (k : Calling)
    → r.removed ≡ true
    → r.call.ref ≡ c.ref
    → IsUnique k.calls
    → All (IsOther c) (commit r k).0.calls
unfolding remove_call
commit_removed-IsOther c r k gone same u =
    if-both (λ (k' : Calling). All (IsOther c) k'.calls) r.removed _ _
      (λ b. rw (without-store r.call k.calls) (
        subst (λ n. All (λ d. d.ref ≢ n) (without r.call.ref k.calls)) same
          (without-IsOther r.call k.calls u)))
      (λ b. ground arith)

-- A call that is found by its id and is told that it has ended is listed no longer, if the
-- registry is in order and the call is not being dialled to several devices.
pub on_state-ended :
    (uuid : String) (p : StateParams) (k : Calling) (c : Call)
    → IsRegistry k
    → get_call_by_id p.call_id k ≡ some c
    → is_multi_dial c.options ≡ false
    → p.call_state ≡ call_state_text CallState.ended
    → All (IsOther c) (on_state uuid p k).0.calls
unfolding on_state change
on_state-ended uuid p k c h e single over =
    let live : IsLive (identify p c) =
      subst (λ t. t ≢ call_state_text CallState.ended) (sym (identify-ref p c).1)
        (find-IsKnown _ k h c e).1 in
    rw (e, single)
      (commit_removed-IsOther c (change (Params.state p) (identify p c)) k
        (state_change-removed p (identify p c) over)
        ((change-IsSound (Params.state p) (identify p c) live).ref ∙ (identify-ref p c).0) h.unique)
