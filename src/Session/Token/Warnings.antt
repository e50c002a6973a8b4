-- ===== src/Session/Token/Warnings.antt =====
-- The checks warn in time, and they end.
use signalwire_node.Common.{
  ℕ, zero, suc, ◌+◌, ◌*◌, ◌≤◌, ◌<◌, ◌≡◌, ◌≢◌, refl, ap, ◌∙◌, true, false, some, arith, leb,
  Bool-cases, inl, inr, get_elem?,
}
use signalwire_node.Session.{Session}
use signalwire_node.Session.Token.{check_token_expiration, token_checks}

warns :
    (now : ℕ) (s : Session)
    → s.expires_at ≢ 0
    → 1000 * s.expires_at ≤ now + 60000
    → (check_token_expiration now s).0 ≡ true
unfolding check_token_expiration
warns now s h k = ground (arith, h, k)

waits :
    (now : ℕ) (s : Session)
    → s.expires_at ≢ 0
    → now + 60000 < 1000 * s.expires_at
    → check_token_expiration now s ≡ (false, true)
unfolding check_token_expiration
waits now s h k = ground (arith, h, k)

checks-warned :
    (fuel now : ℕ) (s : Session)
    → (check_token_expiration now s).0 ≡ true
    → get_elem? (token_checks (suc fuel) now s) 0 ≡ some now
unfolding token_checks
checks-warned fuel now s h = rw (h, token_checks) refl

checks-waited :
    (fuel now : ℕ) (s : Session)
    → check_token_expiration now s ≡ (false, true)
    → token_checks (suc fuel) now s ≡ token_checks fuel (now + 30000) s
unfolding token_checks
checks-waited fuel now s h = rw (h, token_checks) refl

-- If a token is checked before it expires, the checks first warn while it still has not expired, but
-- will within a minute, whatever its expiry is, and one check for each 30 seconds up to a minute
-- before the expiry, and one more, is enough.
pub token_checks-in_time :
    (fuel now : ℕ) (s : Session)
    → s.expires_at ≢ 0
    → now < 1000 * s.expires_at
    → 1000 * s.expires_at ≤ now + 30000 * fuel + 60000
    → (t : ℕ) × (get_elem? (token_checks (suc fuel) now s) 0 ≡ some t)
      × (t < 1000 * s.expires_at)
      × (1000 * s.expires_at ≤ t + 60000)
token_checks-in_time zero now s h b e =
    let k : 1000 * s.expires_at ≤ now + 60000 = omega (arith, e) in
    (now, checks-warned zero now s (warns now s h k), b, k)
token_checks-in_time (suc fuel) now s h b e =
    elim (Bool-cases (leb (1000 * s.expires_at) (now + 60000))) [
      | inl c ↦
          let k : 1000 * s.expires_at ≤ now + 60000 = ground (arith, c) in
          (now, checks-warned (suc fuel) now s (warns now s h k), b, k)
      | inr c ↦
          let k : now + 60000 < 1000 * s.expires_at = ground (arith, c) in
          let (t, f, g, l) =
            token_checks-in_time fuel (now + 30000) s h (omega (arith, k)) (omega (arith, e)) in
          (t, ap (λ w. get_elem? w 0) (checks-waited (suc fuel) now s (waits now s h k)) ∙ f, g, l)
    ]

over :
    (now : ℕ) (s : Session) → 1000 * s.expires_at ≤ now → (check_token_expiration now s).1 ≡ false
unfolding check_token_expiration
over now s k = ground (arith, k)

checks-over :
    (fuel more now : ℕ) (s : Session)
    → (check_token_expiration now s).1 ≡ false
    → token_checks (suc fuel) now s ≡ token_checks (suc more) now s
unfolding token_checks
checks-over fuel more now s h = rw (h, token_checks) refl

checks-same :
    (fuel more now : ℕ) (s : Session)
    → token_checks fuel (now + 30000) s ≡ token_checks more (now + 30000) s
    → token_checks (suc fuel) now s ≡ token_checks (suc more) now s
unfolding token_checks
checks-same fuel more now s h = rw h refl

-- The checks end by themselves: whatever number of them is allowed, from one for each 30 seconds up
-- to the expiry and one more on, makes no difference.
pub token_checks-ends :
    (fuel longer now : ℕ) (s : Session)
    → 1000 * s.expires_at ≤ now + 30000 * fuel
    → fuel ≤ longer
    → token_checks (suc longer) now s ≡ token_checks (suc fuel) now s
token_checks-ends zero longer now s e h =
    checks-over longer zero now s (over now s (omega (arith, e)))
token_checks-ends (suc fuel) zero now s e h = absurd (omega (arith, h))
token_checks-ends (suc fuel) (suc longer) now s e h =
    checks-same (suc longer) (suc fuel) now s
      (token_checks-ends fuel longer (now + 30000) s (omega (arith, e)) (omega (arith, h)))
