-- ===== src/Webrtc/Sdp/Stereo.antt =====
-- `sdpStereoHack` a second time.
use Prim.Native.String.{◌++◌ as ◌<>◌}
use text.Mathlib.TextLemmas.{append_assoc}
use signalwire_node.Common.{
  ◌≡◌, refl, ap, sym, ◌∙◌, true, ◌&&◌, none, some, String, arith, Bool-cases, Option-cases, inl,
  inr, List, [], ◌∷◌, zero, suc, ℕ, All, if-both,
}
use signalwire_node.Common.Text.{
  strip, begins, contains, split_lines, join_lines, find_index, change_at,
}
use signalwire_node.Common.Lines.{IsLine, append-IsLine, split-join, split-IsLine}
use signalwire_node.Common.Search.{
  contains-avoiding, begins-avoiding, contains-append, contains-suffix, contains-self_append,
}
use signalwire_node.Common.Changes.{
  insert_after, find_index-unseen, find_index-kept, elem-unseen, change-again, change-All,
  insert-All, find_index-insert, elem-insert, find_index-new, change-new,
}
use signalwire_node.Webrtc.Sdp.{
  is_opus, stereo_mark, stereo_params, fmtp, line_at, stereo_line, with_fmtp, stereo_lines,
  sdp_stereo_hack, codec_payload_type,
}
use signalwire_node.Webrtc.Sdp.Payload.{semicolon, params, codec_payload_type-add}
use signalwire_node.Webrtc.Sdp.Digits.{fmtp-IsLine}

-- What holds of a line, and of it with the parameters behind it, holds of a line made stereo.
stereo_line-both {κ} :
    (P : String → Type κ) (l : String) → P l → P (l <> stereo_params) → P (stereo_line l)
stereo_line-both P l h k =
    if-both P (contains stereo_mark l) l (l <> stereo_params) (λ _. h) (λ _. k)

params_mark : (l : String) → contains stereo_mark (l <> stereo_params) ≡ true
unfolding contains strip
params_mark l = contains-suffix stereo_mark l stereo_params refl

marked : (l : String) → contains stereo_mark l ≡ true → stereo_line l ≡ l
marked l h = rw h refl

stereo_line-stereo_line : (l : String) → stereo_line (stereo_line l) ≡ stereo_line l
stereo_line-stereo_line l = elim (Bool-cases (contains stereo_mark l)) [
  | inl e ↦ ap stereo_line (marked l e)
  | inr e ↦
      let f : stereo_line l ≡ l <> stereo_params = rw e refl in
      ap stereo_line f ∙ marked (l <> stereo_params) (params_mark l) ∙ sym f
]

is_opus-stereo_line : (l : String) → is_opus (stereo_line l) ≡ is_opus l
unfolding contains strip
is_opus-stereo_line l =
    stereo_line-both (λ x. is_opus x ≡ is_opus l) l refl
      (ap (λ b. b && contains "opus/48000" (l <> stereo_params))
          (begins-avoiding semicolon "a=rtpmap" l params
            (refl, (refl, (refl, (refl, (refl, (refl, (refl, (refl, tt)))))))))
        ∙ ap (λ b. begins "a=rtpmap" l && b)
            (contains-avoiding semicolon "opus/48000" l params
              (refl, (refl, (refl, (refl, (refl, (refl, (refl, (refl, (refl, (refl, tt))))))))))
              refl refl))

payload-stereo_line : (l : String) → codec_payload_type (stereo_line l) ≡ codec_payload_type l
payload-stereo_line l =
    stereo_line-both (λ x. codec_payload_type x ≡ codec_payload_type l) l refl
      (codec_payload_type-add l)

contains-stereo_line : (p l : String) → contains p l ≡ true → contains p (stereo_line l) ≡ true
contains-stereo_line p l h =
    stereo_line-both (λ x. contains p x ≡ true) l h (contains-append p l stereo_params h)

stereo_line-IsLine : (l : String) → IsLine l → IsLine (stereo_line l)
unfolding split_lines
stereo_line-IsLine l h = stereo_line-both IsLine l h (append-IsLine l semicolon params refl h refl)

-- The pattern of the format parameters, of the opus line of an index.
pattern : ℕ → List String → String
pattern opus ls = fmtp (codec_payload_type (line_at opus ls))

stereo_found :
    (opus i : ℕ) (ls : List String)
    → find_index (contains (pattern opus ls)) ls ≡ some i
    → stereo_lines opus ls ≡ change_at i stereo_line ls
unfolding stereo_lines pattern
stereo_found opus i ls h = rw (h, stereo_lines, pattern) refl

stereo_new :
    (opus : ℕ) (ls : List String)
    → find_index (contains (pattern opus ls)) ls ≡ none
    → stereo_lines opus ls ≡ change_at opus (with_fmtp (pattern opus ls)) ls
unfolding stereo_lines pattern
stereo_new opus ls h = rw (h, stereo_lines, pattern) refl

abbrev new_params : String → String
new_params q = q <> " stereo=1; sprop-stereo=1"

join-with_fmtp :
    (q : String) (i : ℕ) (ls : List String)
    → join_lines (change_at i (with_fmtp q) ls) ≡ join_lines (insert_after i (new_params q) ls)
unfolding join_lines change_at insert_after
join-with_fmtp q i [] = refl
join-with_fmtp q zero (l ∷ []) = refl
join-with_fmtp q zero (l ∷ m ∷ ls) =
    append_assoc l ("\r\n" <> new_params q) ("\r\n" <> join_lines (m ∷ ls))
    ∙ ap (λ x. l <> x) (append_assoc "\r\n" (new_params q) ("\r\n" <> join_lines (m ∷ ls)))
join-with_fmtp q (suc i) (l ∷ []) = refl
join-with_fmtp q (suc zero) (l ∷ m ∷ ls) =
    ap (λ x. l <> "\r\n" <> x) (join-with_fmtp q zero (m ∷ ls))
join-with_fmtp q (suc (suc i)) (l ∷ m ∷ ls) =
    ap (λ x. l <> "\r\n" <> x) (join-with_fmtp q (suc i) (m ∷ ls))

hack_opus :
    (sdp : String) (opus : ℕ)
    → find_index is_opus (split_lines sdp) ≡ some opus
    → sdp_stereo_hack sdp ≡ join_lines (stereo_lines opus (split_lines sdp))
unfolding sdp_stereo_hack
hack_opus sdp opus h = rw (h, sdp_stereo_hack) refl

hack_none : (sdp : String) → find_index is_opus (split_lines sdp) ≡ none → sdp_stereo_hack sdp ≡ sdp
unfolding sdp_stereo_hack
hack_none sdp h = rw (h, sdp_stereo_hack) refl

-- A description whose lines are stereo already stays as it is.
stays :
    (ls : List String) (opus : ℕ)
    → All IsLine ls
    → find_index is_opus ls ≡ some opus
    → stereo_lines opus ls ≡ ls
    → sdp_stereo_hack (join_lines ls) ≡ join_lines ls
unfolding find_index
stays [] opus h k e = absurd (ground arith)
stays (l ∷ ls) opus h k e =
    let f = split-join l ls h in
    hack_opus (join_lines (l ∷ ls)) opus (ap (find_index is_opus) f ∙ k)
    ∙ ap join_lines (ap (stereo_lines opus) f ∙ e)

pattern-changed :
    (opus i : ℕ) (ls : List String) → pattern opus (change_at i stereo_line ls) ≡ pattern opus ls
unfolding pattern
pattern-changed opus i ls =
    ap fmtp (elem-unseen codec_payload_type "" stereo_line payload-stereo_line opus i ls)

changed_again :
    (opus i : ℕ) (ls : List String)
    → find_index (contains (pattern opus ls)) ls ≡ some i
    → stereo_lines opus (change_at i stereo_line ls) ≡ change_at i stereo_line ls
changed_again opus i ls h =
    let q = pattern opus ls in
    let ls' = change_at i stereo_line ls in
    stereo_found opus i ls' (
      ap (λ p. find_index (contains p) ls') (pattern-changed opus i ls)
      ∙ find_index-kept (contains q) stereo_line (contains-stereo_line q) i ls h)
    ∙ change-again stereo_line stereo_line-stereo_line i ls

pattern-inserted :
    (opus : ℕ) (l : String) (ls : List String)
    → pattern opus (insert_after opus l ls) ≡ pattern opus ls
unfolding pattern
pattern-inserted opus l ls =
    ap (λ o. fmtp (codec_payload_type (elim o [ none ↦ "" | some x ↦ x ]))) (elem-insert opus l ls)

new_params_mark : (q : String) → contains stereo_mark (new_params q) ≡ true
unfolding contains strip
new_params_mark q = contains-suffix stereo_mark q " stereo=1; sprop-stereo=1" refl

inserted_again :
    (opus : ℕ) (ls : List String)
    → find_index is_opus ls ≡ some opus
    → find_index (contains (pattern opus ls)) ls ≡ none
    → stereo_lines opus (insert_after opus (new_params (pattern opus ls)) ls)
      ≡ insert_after opus (new_params (pattern opus ls)) ls
inserted_again opus ls k h =
    let q = pattern opus ls in
    let ls' = insert_after opus (new_params q) ls in
    stereo_found opus (suc opus) ls' (
      ap (λ p. find_index (contains p) ls') (pattern-inserted opus (new_params q) ls)
      ∙ find_index-new (contains q) is_opus opus (new_params q) ls h k
          (contains-self_append q " stereo=1; sprop-stereo=1"))
    ∙ change-new stereo_line opus (new_params q) ls (marked (new_params q) (new_params_mark q))

new_params-IsLine : (opus : ℕ) (ls : List String) → IsLine (new_params (pattern opus ls))
unfolding pattern split_lines
new_params-IsLine opus ls =
    append-IsLine (fmtp (codec_payload_type (line_at opus ls))) " " "stereo=1; sprop-stereo=1" refl
      (fmtp-IsLine (line_at opus ls)) refl

-- Adding stereo support a second time changes nothing.
pub sdp_stereo_hack-again :
    (sdp : String) → sdp_stereo_hack (sdp_stereo_hack sdp) ≡ sdp_stereo_hack sdp
sdp_stereo_hack-again sdp =
    let ls = split_lines sdp in
    elim (Option-cases (find_index is_opus ls)) [
      | inl e ↦ ap sdp_stereo_hack (hack_none sdp e)
      | inr (opus, e) ↦ elim (Option-cases (find_index (contains (pattern opus ls)) ls)) [
        | inl f ↦
            let g =
              hack_opus sdp opus e
              ∙ ap join_lines (stereo_new opus ls f)
              ∙ join-with_fmtp (pattern opus ls) opus ls in
            ap sdp_stereo_hack g
            ∙ stays (insert_after opus (new_params (pattern opus ls)) ls) opus
                (insert-All IsLine opus (new_params (pattern opus ls)) ls
                  (new_params-IsLine opus ls) (split-IsLine sdp))
                (find_index-insert is_opus opus (new_params (pattern opus ls)) ls e)
                (inserted_again opus ls e f)
            ∙ sym g
        | inr (i, f) ↦
            let g = hack_opus sdp opus e ∙ ap join_lines (stereo_found opus i ls f) in
            ap sdp_stereo_hack g
            ∙ stays (change_at i stereo_line ls) opus
                (change-All IsLine stereo_line stereo_line-IsLine i ls (split-IsLine sdp))
                (find_index-unseen is_opus stereo_line is_opus-stereo_line i ls ∙ e)
                (changed_again opus i ls f)
            ∙ sym g
      ]
    ]
