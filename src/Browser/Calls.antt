-- ===== src/Browser/Calls.antt =====
-- Tables of calls with one entry for each key.
use signalwire_node.Common.{◌≡◌, ◌≢◌, refl, ap, [], ◌∷◌, String, eq-false, All}
use signalwire_node.Common.Dict.{Dict, delete}
use signalwire_node.Browser.{keys}

-- Each key stands there once, as in every object.
abbrev pub IsDict {ℓ} : {V : Type ℓ} → Dict V → Type 0
IsDict [] = Unit
IsDict ((k, v) ∷ m) = All (λ j. j ≢ k) (keys m) × IsDict m

pub delete-absent :
    {V : Type 0} (k : String) (m : Dict V) → All (λ j. j ≢ k) (keys m) → delete k m ≡ m
unfolding delete
delete-absent k [] h = refl
delete-absent k ((j, v) ∷ m) (a, h) = rw (eq-false j k a) (ap (◌∷◌ (j, v)) (delete-absent k m h))
