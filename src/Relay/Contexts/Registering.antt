-- ===== src/Relay/Contexts/Registering.antt =====
-- A function that is registered for several contexts is registered once for each.
use signalwire_node.Common.{
  ◌≡◌, ◌≢◌, refl, ap, ◌∙◌, true, false, List, [], ◌∷◌, ◌++◌, String, ◌==◌, arith, Bool-cases, inl,
  inr, eq_iff, eq_refl, eq-false, subst, includes, differ,
}
use signalwire_node.Handler.{Fn, Queue, register}
use signalwire_node.Handler.Contents.{subscribers, subscribers-register}
use signalwire_node.Webrtc.Devices.Listing.{IsDistinct}
use signalwire_node.Relay.Contexts.{register_each}

-- What the registrations do to one entry.
subscribers-register_other :
    (p u u' : String) (h : Fn) (q : Queue)
    → u ≢ u'
    → subscribers p u' (register p h u q) ≡ subscribers p u' q
subscribers-register_other p u u' h q n =
    subscribers-register p h u q p u' ∙ rw (eq_refl p, eq-false u u' n) refl

subscribers-register_same :
    (p u : String) (h : Fn) (q : Queue)
    → subscribers p u (register p h u q) ≡ subscribers p u q ++ h ∷ []
subscribers-register_same p u h q =
    subscribers-register p h u q p u ∙ rw (eq_refl p, eq_refl u) refl

module _ (p : String) (f : String → String) (h : Fn) where
  pub register_each-other :
      (cs : List String) (q : Queue) (u : String)
      → ((c : String) → f c ≢ u)
      → subscribers p u (register_each p f h cs q) ≡ subscribers p u q
  register_each-other [] q u n = refl
  register_each-other (c ∷ cs) q u n =
      register_each-other cs (register p h (f c) q) u n
      ∙ subscribers-register_other p (f c) u h q (n c)

  module _ (injective : (c d : String) → f c ≡ f d → c ≡ d) where
    register_each-absent :
        (cs : List String) (q : Queue) (c : String)
        → includes cs c ≡ false
        → subscribers p (f c) (register_each p f h cs q) ≡ subscribers p (f c) q
    register_each-absent [] q c a = refl
    register_each-absent (d ∷ cs) q c a =
        register_each-absent cs (register p h (f d) q) c (ground arith)
        ∙ subscribers-register_other p (f d) (f c) h q
            (λ e. differ d c (ground arith) (injective d c e))

    pub register_each-once :
        (cs : List String) (q : Queue) (c : String)
        → IsDistinct cs
        → includes cs c ≡ true
        → subscribers p (f c) (register_each p f h cs q) ≡ subscribers p (f c) q ++ h ∷ []
    register_each-once [] q c d i = ground arith
    register_each-once (d ∷ cs) q c (a, ds) i = elim (Bool-cases (d == c)) [
      | inl e ↦
          subst
            (λ x.
              subscribers p (f x) (register_each p f h cs (register p h (f d) q))
              ≡ subscribers p (f x) q ++ h ∷ [])
            ((eq_iff d c).0 e)
            (register_each-absent cs (register p h (f d) q) d a
              ∙ subscribers-register_same p (f d) h q)
      | inr e ↦
          register_each-once cs (register p h (f d) q) c ds (ground (arith, e))
          ∙ ap (λ fs. fs ++ h ∷ [])
              (subscribers-register_other p (f d) (f c) h q
                (λ same. differ d c e (injective d c same)))
    ]
