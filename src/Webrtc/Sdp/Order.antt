-- ===== src/Webrtc/Sdp/Order.antt =====
-- What `sdpMediaOrderHack` makes of an answer with an audio and a video section.
use signalwire_node.Common.{
  Option, none, some, if-both, ◌≤◌, ℕ, ◌-◌, ◌≡◌, refl, ap, sym, ◌∙◌, Bool, true, false, List, [],
  ◌∷◌, ◌++◌, String, arith, length, length-append,
}
use mathlib.Core.List.{append_assoc}
use signalwire_node.Common.Text.{join-split, split_lines, join_lines, find_index, slice}
use signalwire_node.Common.Slices.{
  slices-join, find_index-bound, find_index-Lacks, Lacks, Lacks-append, find_index-append,
  slice_first, slice_middle, slice_none,
}
use signalwire_node.Webrtc.Sdp.{
  is_audio_line, is_video_line, earlier, reordered, sdp_media_order_hack, place,
}

-- The offer does not have an audio section before its video section, or has no video section.
abbrev pub IsTurned : String → Type 0
IsTurned offer =
    earlier (find_index is_audio_line (split_lines offer))
      (find_index is_video_line (split_lines offer))
    ≡ false

-- A section with its first line.
abbrev pub IsSection : (String → Bool) → (String → Bool) → String → List String → Type 0
IsSection own other l ls = (own l ≡ true) × Lacks other (l ∷ ls)

abbrev last_line : List String
last_line = "" ∷ []

length-last : (xs : List String) → length (xs ++ last_line) - 1 ≡ length xs
length-last xs = omega (arith, length-append xs last_line)

hack_turned :
    (answer offer : String)
    → IsTurned offer
    → sdp_media_order_hack answer offer ≡ join_lines (reordered (split_lines answer))
unfolding sdp_media_order_hack
hack_turned answer offer h = rw h refl

-- What is joined, from the places of the sections.
reordered-at :
    (ls : List String) (i j : ℕ) {xs ys zs : List String}
    → find_index is_audio_line ls ≡ some i
    → find_index is_video_line ls ≡ some j
    → slice 0 i ls ≡ xs
    → slice j (length ls - 1) ls ≡ ys
    → slice i j ls ≡ zs
    → reordered ls ≡ xs ++ (ys ++ (zs ++ last_line))
unfolding reordered
reordered-at ls i j audio video f g h = rw (audio, video, f, g, h) refl

-- A list of three parts and an empty last line: all but the last line of what follows the first part.
slice_rest :
    (xs ys : List String) (i : ℕ)
    → i ≡ length xs
    → slice i (length (xs ++ (ys ++ last_line)) - 1) (xs ++ (ys ++ last_line)) ≡ ys
slice_rest xs ys i h =
    let e = length-append xs (ys ++ last_line) in
    let f = length-append ys last_line in
    slice_middle xs ys last_line i (length (xs ++ (ys ++ last_line)) - 1) h (omega (arith, e, f))

-- An answer with its two sections, each headed by its first line.
module _ (start : List String) (a : String) (audio : List String) (v : String) (video : List String)
    (lacks_audio : Lacks is_audio_line start) (lacks_video : Lacks is_video_line start)
    (audio_section : IsSection is_audio_line is_video_line a audio)
    (video_section : IsSection is_video_line is_audio_line v video) where
  abbrev audio_first : List String
  audio_first = start ++ ((a ∷ audio) ++ ((v ∷ video) ++ last_line))

  abbrev video_first : List String
  video_first = start ++ ((v ∷ video) ++ ((a ∷ audio) ++ last_line))

  abbrev video_twice : List String
  video_twice = start ++ ((v ∷ video) ++ ((v ∷ video) ++ ((a ∷ audio) ++ last_line)))

  reordered-audio_first : reordered audio_first ≡ video_first
  reordered-audio_first =
      let ys = a ∷ audio in
      let zs = v ∷ video in
      let r : audio_first ≡ (start ++ ys) ++ (zs ++ last_line) =
        sym (append_assoc start ys (zs ++ last_line)) in
      let found =
        find_index-append is_video_line (start ++ ys) v (video ++ last_line)
          (Lacks-append is_video_line start ys lacks_video audio_section.1) video_section.0 in
      reordered-at audio_first (length start) (length (start ++ ys))
        (find_index-append is_audio_line start a (audio ++ (zs ++ last_line)) lacks_audio
          audio_section.0)
        (ap (find_index is_video_line) r ∙ found)
        (slice_first start (ys ++ (zs ++ last_line)) (length start) refl)
        (ap (λ l. slice (length (start ++ ys)) (length l - 1) l) r
          ∙ slice_rest (start ++ ys) zs (length (start ++ ys)) refl)
        (slice_middle start ys (zs ++ last_line) (length start) (length (start ++ ys)) refl
          (length-append start ys))

  -- The sections of an answer change places, if its audio section comes first, for an offer that is turned.
  sdp_media_order_hack-swaps :
      (answer offer : String)
      → split_lines answer ≡ audio_first
      → IsTurned offer
      → sdp_media_order_hack answer offer ≡ join_lines video_first
  sdp_media_order_hack-swaps answer offer h turned =
      hack_turned answer offer turned ∙ ap join_lines (ap reordered h ∙ reordered-audio_first)

  reordered-video_first : reordered video_first ≡ video_twice
  reordered-video_first =
      let ys = v ∷ video in
      let zs = a ∷ audio in
      let r : video_first ≡ (start ++ ys) ++ (zs ++ last_line) =
        sym (append_assoc start ys (zs ++ last_line)) in
      let again : video_first ≡ start ++ ((ys ++ zs) ++ last_line) =
        ap (λ l. start ++ l) (sym (append_assoc ys zs last_line)) in
      let found =
        find_index-append is_audio_line (start ++ ys) a (audio ++ last_line)
          (Lacks-append is_audio_line start ys lacks_audio video_section.1) audio_section.0 in
      reordered-at video_first (length (start ++ ys)) (length start)
        (ap (find_index is_audio_line) r ∙ found)
        (find_index-append is_video_line start v (video ++ (zs ++ last_line)) lacks_video
          video_section.0)
        (ap (slice 0 (length (start ++ ys))) r
          ∙ slice_first (start ++ ys) (zs ++ last_line) (length (start ++ ys)) refl)
        (ap (λ l. slice (length start) (length l - 1) l) again
          ∙ slice_rest start (ys ++ zs) (length start) refl)
        (slice_none video_first (length (start ++ ys)) (length start)
          (omega (arith, length-append start ys)))
      ∙ append_assoc start ys ((ys ++ zs) ++ last_line)
      ∙ ap (λ l. start ++ (ys ++ l)) (append_assoc ys zs last_line)

  -- If the video section comes first already, it is there twice afterwards.
  sdp_media_order_hack-twice :
      (answer offer : String)
      → split_lines answer ≡ video_first
      → IsTurned offer
      → sdp_media_order_hack answer offer ≡ join_lines video_twice
  sdp_media_order_hack-twice answer offer h turned =
      hack_turned answer offer turned ∙ ap join_lines (ap reordered h ∙ reordered-video_first)

-- What precedes the place of an index, and what follows it up to the last line, is all but the last line.
module _ (ls : List String) (init : List String) (e : ls ≡ init ++ last_line)
    (no_video : Lacks is_video_line ls) where
  find_index-none : find_index is_video_line ls ≡ none
  find_index-none = find_index-Lacks is_video_line ls no_video

  end_place : length ls - 1 ≡ length init
  end_place = rw e (omega (arith, length-append init last_line))

  reordered-cut :
      (i : ℕ) → place ls (find_index is_audio_line ls) ≡ i → i ≤ length init → reordered ls ≡ ls
  unfolding reordered
  reordered-cut i f h =
      rw (find_index-none, f)
        (ap (λ l. slice 0 i ls ++ (l ++ (slice i (length ls - 1) ls ++ last_line)))
            (slice_none ls (length ls - 1) (length ls - 1) (omega arith))
          ∙ sym (append_assoc (slice 0 i ls) (slice i (length ls - 1) ls) last_line)
          ∙ ap (λ l. (slice 0 i l ++ slice i (length ls - 1) l) ++ last_line) e
          ∙ ap (λ l. l ++ last_line) (slices-join init last_line i (length ls - 1) h end_place)
          ∙ sym e)

  audio_place : (o : Option ℕ) → find_index is_audio_line ls ≡ o → place ls o ≤ length init
  audio_place none h = omega (arith, end_place)
  audio_place (some i) h =
      let b = find_index-bound is_audio_line ls i h in omega (arith, b, end_place)

-- An answer without a video section, whose last line is ended, is left as it is.
sdp_media_order_hack-audio_only :
    (answer offer : String) (init : List String)
    → split_lines answer ≡ init ++ last_line
    → Lacks is_video_line (split_lines answer)
    → sdp_media_order_hack answer offer ≡ answer
unfolding sdp_media_order_hack
sdp_media_order_hack-audio_only answer offer init e no_video =
    if-both (λ t. t ≡ answer)
      (earlier (find_index is_audio_line (split_lines offer))
        (find_index is_video_line (split_lines offer)))
      answer (join_lines (reordered (split_lines answer))) (λ _. refl)
      (λ _.
        ap join_lines (
          reordered-cut (split_lines answer) init e no_video _ refl (
            audio_place (split_lines answer) init e no_video
              (find_index is_audio_line (split_lines answer)) refl))
        ∙ join-split answer)
