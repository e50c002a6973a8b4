-- ===== src/Handler/Dispatch.antt =====
-- `trigger` walks an entry from its end while the callbacks may change it.

use signalwire_node.Common.{
  ℕ, suc, ◌≡◌, refl, sym, ap, ◌∙◌, true, false, none, some, List, [], ◌∷◌, ◌++◌, String, length,
  get_elem?, All,
}
use mathlib.Core.List.{append-nil}
use signalwire_node.Handler.{
  Fn, plain, once, Queue, fetch, de_register, Registry, returned, thrown, call_fn, run_fn,
  run_below, trigger_at, register_once,
}
use signalwire_node.Handler.Loop.{revcat, get_elem?-revcat}
use signalwire_node.Handler.Contents.{subscribers, non_nil, fetch-register}
use signalwire_node.Handler.Walk.{
  IsOwn, Spares, Apart, non_nil-revcat, same_refl, fetch-once, fetch-other, log-cons-calls,
  clear-cons, All-fst, length-revcat_rev, revcat-filled, All-nil, IsPassive, Ran,
}

module _ {D : Type 0} (body : ℕ → D → Queue → Queue) (e u : String) (d : D) where
  run_below-suc :
      (i : ℕ) (fns : List Fn) (fn : Fn) (r : Registry D)
      → fetch e u r.queue ≡ some fns
      → get_elem? fns i ≡ some fn
      → run_below body e u d (suc i) r ≡ run_below body e u d i (run_fn body d fn r)
  unfolding run_below
  run_below-suc i fns fn r h g = rw (h, run_below) (rw g)

module _ {D : Type 0} (body : ℕ → D → Queue → Queue) (passive : IsPassive body) (e u : String)
    (d : D) where
  run_fn-passive :
      (n : ℕ) (r : Registry D)
      → call_fn body d n r ≡ record { queue = r.queue; calls = r.calls ++ (n, d) ∷ [] }
  unfolding call_fn
  run_fn-passive n r = λ i. record { queue = passive n d r.queue i; calls = r.calls ++ (n, d) ∷ [] }

  run_fn-once :
      (w t : ℕ) (a b : String) (r : Registry D)
      → IsOwn e u (once w t a b)
      → run_fn body d (once w t a b) r
        ≡ record { queue = (de_register e (some w) u r.queue).0; calls = r.calls ++ (t, d) ∷ [] }
  unfolding run_fn
  run_fn-once w t a b r own =
      run_fn-passive t (record r { queue = (de_register a (some w) b r.queue).0 })
      ∙ rw (own.0, own.1)

  run_below-Ran :
      (rs ys : List Fn) (r : Registry D)
      → fetch e u r.queue ≡ non_nil (revcat rs ys)
      → All (IsOwn e u) rs
      → Apart rs
      → All (λ f. All (Spares f) ys) rs
      → (after : Registry D) × (run_below body e u d (length rs) r ≡ returned after true)
        × Ran e u d rs ys r after
  unfolding run_below run_fn
  run_below-Ran [] ys r h own apart clear =
      (r, refl, record { called = sym (append-nil r.calls); kept = h; others = λ e' u' _. refl })
  run_below-Ran (plain n ∷ rs) ys r h (_, own) (near, apart) (_, clear) =
      let (after, ends, ran) =
        run_below-Ran rs (plain n ∷ ys) (record { queue = r.queue; calls = r.calls ++ (n, d) ∷ [] })
          h own apart (clear-cons (plain n) rs ys near clear) in
      (
        after,
        run_below-suc body e u d (length rs) (revcat rs (plain n ∷ ys)) (plain n) r
              (h ∙ non_nil-revcat rs (plain n) ys) (get_elem?-revcat rs (plain n) ys)
            ∙ ap (run_below body e u d (length rs)) (run_fn-passive n r)
            ∙ ends,
        record {
          called = ran.called ∙ log-cons-calls d (plain n) rs r.calls;
          kept = ran.kept;
          others = ran.others;
        },
      )
  run_below-Ran (once w t a b ∷ rs) ys r h (own_f, own) (near, apart) (clear_f, clear) =
      let left : Queue = (de_register e (some w) u r.queue).0 in
      let (after, ends, ran) =
        run_below-Ran rs ys (record { queue = left; calls = r.calls ++ (t, d) ∷ [] })
          (fetch-once e u a b w t rs ys r.queue h (All-fst _ _ rs near) clear_f) own apart clear in
      (
        after,
        run_below-suc body e u d (length rs) (revcat rs (once w t a b ∷ ys)) (once w t a b) r
              (h ∙ non_nil-revcat rs (once w t a b) ys) (get_elem?-revcat rs (once w t a b) ys)
            ∙ ap (run_below body e u d (length rs)) (run_fn-once w t a b r own_f)
            ∙ ends,
        record {
          called = ran.called ∙ log-cons-calls d (once w t a b) rs r.calls;
          kept = ran.kept;
          others = λ e' u' o. ran.others e' u' o ∙ fetch-other e u w r.queue e' u' o;
        },
      )

  -- `rs` are the subscribers of an entry, the last registered first; its wrappers are their own
  -- and distinct from the other subscribers. If callbacks leave the registry alone, each is called
  -- exactly once in that order although once-wrappers remove themselves during the walk;
  -- afterwards the entry holds the plain subscribers in their order, no other entry has changed,
  -- and the answer is true.
  pub trigger_at-Ran :
      (f : Fn) (rs : List Fn) (r : Registry D)
      → fetch e u r.queue ≡ some (revcat (f ∷ rs) [])
      → All (IsOwn e u) (f ∷ rs)
      → Apart (f ∷ rs)
      → (after : Registry D) × (trigger_at body e d u r ≡ returned after true)
        × Ran e u d (f ∷ rs) [] r after
  unfolding trigger_at
  trigger_at-Ran f rs r h own apart =
      let (after, ends, ran) =
        run_below-Ran (f ∷ rs) [] r (h ∙ sym (non_nil-revcat rs f [])) own apart
          (All-nil (f ∷ rs)) in
      (
        after,
        rw (h, trigger_at) (rw (revcat-filled f rs []) (rw (length-revcat_rev (f ∷ rs)) ends)),
        ran,
      )

-- What `registerOnce` puts into an entry without subscribers.
fetch-register_once :
    (e : String) (t : ℕ) (u : String) (w : ℕ) (q : Queue)
    → fetch e u q ≡ none
    → fetch e u (register_once e t u w q) ≡ some (once w t e u ∷ [])
unfolding register_once subscribers
fetch-register_once e t u w q h = fetch-register e (once w t e u) u q e u ∙ rw (same_refl e u, h)

-- A function that is registered once, in an entry with no other subscriber and with callbacks that
-- leave the registry alone, is called by the first trigger of the entry and by no later one.
pub register_once-trigger_at :
    {D : Type 0} (body : ℕ → D → Queue → Queue)
    → IsPassive body
    → (e : String) (t : ℕ) (u : String) (w : ℕ) (q : Queue) (cs : List (ℕ × D)) (d d' : D)
    → fetch e u q ≡ none
    → (after : Registry D) × (trigger_at body e d u
          (record { queue = register_once e t u w q; calls = cs })
        ≡ returned after true)
      × (after.calls ≡ cs ++ (t, d) ∷ [])
      × (trigger_at body e d' u after ≡ returned after false)
unfolding trigger_at
register_once-trigger_at body passive e t u w q cs d d' h =
    let (after, ends, ran) =
      trigger_at-Ran body passive e u d (once w t e u) []
        (record { queue = register_once e t u w q; calls = cs }) (fetch-register_once e t u w q h)
        ((refl, refl), tt) (tt, tt) in
    (after, ends, ran.called, rw (ran.kept, trigger_at) refl)

walk_throws :
    {D : Type 0} (body : ℕ → D → Queue → Queue) (e u : String) (d : D) (n : ℕ) (f : Fn)
    (rs : List Fn) (r : Registry D)
    → fetch e u r.queue ≡ some (revcat (plain n ∷ f ∷ rs) [])
    → fetch e u (body n d r.queue) ≡ none
    → run_below body e u d (length (plain n ∷ f ∷ rs)) r ≡ thrown (call_fn body d n r)
unfolding run_below run_fn call_fn
walk_throws body e u d n f rs r h gone =
    run_below-suc body e u d (length (f ∷ rs)) (revcat (plain n ∷ f ∷ rs) []) (plain n) r h
      (get_elem?-revcat (f ∷ rs) (plain n) [])
    ∙ rw (gone, run_below)

-- If the callback that was registered last empties its own entry while an earlier subscriber is
-- still to be called, `trigger` throws after this one call.
pub trigger_at_throws :
    {D : Type 0} (body : ℕ → D → Queue → Queue) (e u : String) (d : D) (n : ℕ) (f : Fn)
    (rs : List Fn) (r : Registry D)
    → fetch e u r.queue ≡ some (revcat (plain n ∷ f ∷ rs) [])
    → fetch e u (body n d r.queue) ≡ none
    → trigger_at body e d u r ≡ thrown (call_fn body d n r)
unfolding trigger_at
trigger_at_throws body e u d n f rs r h gone =
    rw (h, trigger_at)
      (rw (revcat-filled f rs (plain n ∷ []))
        (rw (length-revcat_rev (plain n ∷ f ∷ rs)) (walk_throws body e u d n f rs r h gone)))
