-- ===== src/Browser/Settings/SpeedTest.antt =====
-- How many chunks a speed test sends.
use Prim.Native.Nat.{◌/◌}
use signalwire_node.Common.{
  ◌≡◌, ◌≢◌, refl, ℕ, zero, suc, ◌+◌, ◌*◌, ◌%◌, ◌<◌, ◌≤◌, true, false, some, List, [], ◌∷◌, ◌++◌,
  arith, ltb, eqb, eqb_iff, if◌then◌else◌, Bool-cases, inl, inr,
}
use signalwire_node.Browser.Settings.{
  SpeedMessage, spu, spb, spe, speed_loop, speed_loops, speed_test,
}

abbrev pub chunks : ℕ → List SpeedMessage
chunks zero = []
chunks (suc n) = spb ∷ chunks n

ltb-true : (a b : ℕ) → a < b → ltb a b ≡ true
ltb-true a b h = ground arith

-- With the fuel, `k` rounds are made if `i + k` is the first that ends the loop.
speed_loop-chunks :
    (k fuel i loops : ℕ)
    → k < fuel
    → loops ≤ (i + k) * 1024
    → (i + k) * 1024 < loops + 1024
    → speed_loop fuel i loops ≡ some (chunks k)
unfolding speed_loop
speed_loop-chunks k zero i loops f l u = absurd (omega (arith, f))
speed_loop-chunks zero (suc fuel) i loops f l u = ground arith
speed_loop-chunks (suc k) (suc fuel) i loops f l u =
    let ih =
      speed_loop-chunks k fuel (suc i) loops (omega (arith, f)) (omega (arith, l))
        (omega (arith, u)) in
    rw (ltb-true (i * 1024) loops (omega (arith, u)), ih) refl

eqb-false : (a b : ℕ) → a ≢ b → eqb a b ≡ false
eqb-false a b h = ground arith

-- A speed test of some bytes ends, and sends one chunk for each 1024 bytes if they are a multiple of
-- it, but two chunks for the part that is left if they are not.
pub speed_test-chunks :
    (bytes : ℕ)
    → bytes ≢ 0
    → speed_test bytes
      ≡ some (
          spu bytes
          ∷ (chunks (if eqb (bytes % 1024) 0 then bytes / 1024 else bytes / 1024 + 2) ++ spe ∷ []))
unfolding speed_test speed_loops
speed_test-chunks bytes h = elim (Bool-cases (eqb (bytes % 1024) 0)) [
  | inl e ↦
      let divides = (eqb_iff (bytes % 1024) 0).0 e in
      let loop =
        speed_loop-chunks (bytes / 1024) (bytes + 3) 0 bytes (omega arith) (omega (arith, divides))
          (omega arith) in
      rw (eqb-false bytes 0 h, e, loop) refl
  | inr e ↦
      let left : bytes % 1024 ≢ 0 = λ z. ground (arith, e, z) in
      let loop =
        speed_loop-chunks (bytes / 1024 + 2) (bytes + 3) 0 (bytes + 1024) (omega arith)
          (omega arith) (omega (arith, left)) in
      rw (eqb-false bytes 0 h, e, loop) refl
]
