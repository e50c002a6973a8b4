-- ===== src/Handler/Walk.antt =====
-- What one round of `trigger` does to an entry, and what a full pass over it leaves.
use signalwire_node.Common.{
  ℕ, ◌≡◌, refl, ap, ◌∙◌, Bool, true, false, some, List, [], ◌∷◌, ◌++◌, map, String, arith, eq_refl,
  length, keep, All,
}
use mathlib.Core.List.{append_assoc}
use signalwire_node.Handler.{Fn, plain, once, Queue, is_nil, fetch, de_register, Registry}
use signalwire_node.Handler.Loop.{
  revcat, survives, remaining-eq-keep, keep-revcat, length-revcat_nil,
}
use signalwire_node.Handler.Contents.{subscribers, non_nil, same, fetch-de_register}

-- The function of the user that a callback comes down to.
abbrev pub target : Fn → ℕ
target (plain n) = n
target (once w t e u) = t

abbrev pub is_plain : Fn → Bool
is_plain (plain n) = true
is_plain (once w t e u) = false

-- A wrapper belongs to the entry that it stands in, as `registerOnce` arranges.
abbrev pub IsOwn : String → String → Fn → Type 0
IsOwn e u (plain n) = Unit {0}
IsOwn e u (once w t e' u') = (e' ≡ e) × (u' ≡ u)

-- Deregistering a wrapper `f` does not remove `g`.
abbrev pub Spares : Fn → Fn → Type 0
Spares (plain n) g = Unit {0}
Spares (once w t e u) g = survives w g ≡ true

abbrev pub Apart : List Fn → Type 0
Apart [] = Unit {0}
Apart (f ∷ fs) = All (λ g. Spares f g × Spares g f) fs × Apart fs

keep-eq_self : (p : Fn → Bool) (fs : List Fn) → All (λ g. p g ≡ true) fs → keep p fs ≡ fs
keep-eq_self p [] h = refl
keep-eq_self p (f ∷ fs) (a, h) = rw a (ap (◌∷◌ f) (keep-eq_self p fs h))

survives_self : (w t : ℕ) (e u : String) → survives w (once w t e u) ≡ false
survives_self w t e u = ground arith

pub non_nil-revcat :
    (rs : List Fn) (y : Fn) (ys : List Fn)
    → non_nil (revcat rs (y ∷ ys)) ≡ some (revcat rs (y ∷ ys))
non_nil-revcat [] y ys = refl
non_nil-revcat (r ∷ rs) y ys = non_nil-revcat rs r (y ∷ ys)

or_empty-fetch :
    (e u : String) (q : Queue) (fs : List Fn) → fetch e u q ≡ non_nil fs → subscribers e u q ≡ fs
unfolding subscribers
or_empty-fetch e u q [] h = rw h
or_empty-fetch e u q (f ∷ fs) h = rw h

pub same_refl : (e u : String) → same e u e u ≡ true
same_refl e u = rw (eq_refl e, eq_refl u)

-- A wrapper at the index takes itself out, and nothing else.
pub fetch-once :
    (e u a b : String) (w t : ℕ) (rs ys : List Fn) (q : Queue)
    → fetch e u q ≡ non_nil (revcat (once w t a b ∷ rs) ys)
    → All (λ g. survives w g ≡ true) rs
    → All (λ g. survives w g ≡ true) ys
    → fetch e u (de_register e (some w) u q).0 ≡ non_nil (revcat rs ys)
fetch-once e u a b w t rs ys q h hr hy =
    fetch-de_register e (some w) u q e u
    ∙ rw
        (
          same_refl e u,
          or_empty-fetch e u q _ h,
          remaining-eq-keep w (revcat (once w t a b ∷ rs) ys),
          keep-revcat (survives w) rs (once w t a b ∷ ys),
          survives_self w t a b,
          keep-eq_self (survives w) rs hr,
          keep-eq_self (survives w) ys hy,
        )
        refl

pub fetch-other :
    (e u : String) (w : ℕ) (q : Queue) (e' u' : String)
    → same e u e' u' ≡ false
    → fetch e' u' (de_register e (some w) u q).0 ≡ fetch e' u' q
fetch-other e u w q e' u' h = fetch-de_register e (some w) u q e' u' ∙ rw h

abbrev pub log : {D : Type 0} → D → List Fn → List (ℕ × D)
log d = map (λ f. (target f, d))

-- What a full pass over an entry leaves: the calls made, and the table.
pub record Ran {D : Type 0} (e u : String) (d : D) (rs ys : List Fn) (before after : Registry D)
    : Type 0 where
  pub called : after.calls ≡ before.calls ++ log d rs
  pub kept : fetch e u after.queue ≡ non_nil (revcat (keep is_plain rs) ys)
  pub others :
      (e' u' : String) → same e u e' u' ≡ false → fetch e' u' after.queue ≡ fetch e' u' before.queue

pub log-cons-calls :
    {D : Type 0} (d : D) (f : Fn) (rs : List Fn) (cs : List (ℕ × D))
    → (cs ++ (target f, d) ∷ []) ++ log d rs ≡ cs ++ log d (f ∷ rs)
log-cons-calls d f rs cs = append_assoc cs ((target f, d) ∷ []) (log d rs)

pub clear-cons :
    (f : Fn) (rs ys : List Fn)
    → All (λ g. Spares f g × Spares g f) rs
    → All (λ g. All (Spares g) ys) rs
    → All (λ g. All (Spares g) (f ∷ ys)) rs
clear-cons f [] ys near clear = tt
clear-cons f (r ∷ rs) ys (n, near) (c, clear) = ((n.1, c), clear-cons f rs ys near clear)

pub All-fst : (P Q : Fn → Type 0) (rs : List Fn) → All (λ g. P g × Q g) rs → All P rs
All-fst P Q [] h = tt
All-fst P Q (r ∷ rs) (a, h) = (a.0, All-fst P Q rs h)

pub length-revcat_rev : (rs : List Fn) → length (revcat rs []) ≡ length rs
length-revcat_rev rs = length-revcat_nil rs

pub revcat-filled : (f : Fn) (rs ys : List Fn) → is_nil (revcat rs (f ∷ ys)) ≡ false
revcat-filled f [] ys = refl
revcat-filled f (r ∷ rs) ys = revcat-filled r rs (f ∷ ys)

pub All-nil : (rs : List Fn) → All (λ f. All (Spares f) []) rs
All-nil [] = tt
All-nil (r ∷ rs) = (tt, All-nil rs)

-- `body n` leaves the registry alone.
abbrev pub IsPassive : {D : Type 0} → (ℕ → D → Queue → Queue) → Type 0
IsPassive {D} body = (n : ℕ) (d : D) (q : Queue) → body n d q ≡ q
