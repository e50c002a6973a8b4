-- ===== src/Webrtc/Sdp/Payload.antt =====
-- The payload number of a codec line: a text that begins with a semicolon does not change it.
use Prim.Native.Char.{Char}
use Prim.Native.String.{◌++◌ as ◌<>◌}
use text.Mathlib.TextLemmas.{nil-append, cons-append}
use signalwire_node.Common.{
  ◌≡◌, refl, ap, sym, ◌∙◌, Bool, true, false, Option, none, some, String, Bool-cases, inl, inr,
}
use signalwire_node.Common.Text.{strip}
use signalwire_node.Common.Search.{Avoids, extend, strip-avoiding}
use signalwire_node.Webrtc.Sdp.{
  is_digit, is_word, span, some_of, bind, clock_rate, codec_end, codec_name, number_end,
  payload_number, payload_here, codec_payload_type, or_else, stereo_params,
}

abbrev pub semicolon : Char
semicolon = ";"

-- The rest of `stereo_params`.
abbrev pub params : String
params = " stereo=1; sprop-stereo=1"

add : String → String
add s = s <> String.◌∷◌ semicolon params

pub span_in :
    (p : Char → Bool) (c : Char) (s : String)
    → p c ≡ true
    → span p (String.◌∷◌ c s) ≡ (String.◌∷◌ c (span p s).0, (span p s).1)
unfolding span
span_in p c s e = rw (e, span) refl

pub span_out :
    (p : Char → Bool) (c : Char) (s : String)
    → p c ≡ false
    → span p (String.◌∷◌ c s) ≡ ("", String.◌∷◌ c s)
unfolding span
span_out p c s e = rw (e, span) refl

span-add :
    (p : Char → Bool) (s : String)
    → p semicolon ≡ false
    → span p (add s) ≡ ((span p s).0, add (span p s).1)
unfolding span add
span-add p String.[] h =
    ap (span p) (nil-append (String.◌∷◌ semicolon params))
    ∙ span_out p semicolon params h
    ∙ ap (λ t. ("", t)) (sym (nil-append (String.◌∷◌ semicolon params)))
span-add p (String.◌∷◌ c s) h = elim (Bool-cases (p c)) [
  | inl e ↦
      ap (span p) (cons-append c s (String.◌∷◌ semicolon params))
      ∙ span_in p c (add s) e
      ∙ ap (λ x. (String.◌∷◌ c x.0, x.1)) (span-add p s h)
      ∙ ap (λ x. (x.0, add x.1)) (sym (span_in p c s e))
  | inr e ↦
      ap (span p) (cons-append c s (String.◌∷◌ semicolon params))
      ∙ span_out p c (add s) e
      ∙ ap (λ t. ("", t)) (sym (cons-append c s (String.◌∷◌ semicolon params)))
      ∙ ap (λ x. (x.0, add x.1)) (sym (span_out p c s e))
]

-- A step that sees only what comes before the addition.
bind-extend :
    (f : String → Option String)
    → ((s : String) → f (add s) ≡ f s)
    → (o : Option String) → bind (extend (String.◌∷◌ semicolon params) o) f ≡ bind o f
unfolding add
bind-extend f h none = refl
bind-extend f h (some r) = h r

bind-some_of :
    (f : String × String → Option String)
    → ((n s : String) → f (n, add s) ≡ f (n, s))
    → (n s : String) → bind (some_of (n, add s)) f ≡ bind (some_of (n, s)) f
bind-some_of f h String.[] s = refl
bind-some_of f h (String.◌∷◌ c n) s = h (String.◌∷◌ c n) s

bind-span :
    (f : String × String → Option String)
    → ((n s : String) → f (n, add s) ≡ f (n, s))
    → (p : Char → Bool) → p semicolon ≡ false
    → (s : String) → bind (some_of (span p (add s))) f ≡ bind (some_of (span p s)) f
bind-span f h p e s =
    ap (λ x. bind (some_of x) f) (span-add p s e) ∙ bind-some_of f h (span p s).0 (span p s).1

bind-strip :
    (f : String → Option String)
    → ((s : String) → f (add s) ≡ f s)
    → (p : String) → Avoids semicolon p
    → (s : String) → bind (strip p (add s)) f ≡ bind (strip p s) f
unfolding add
bind-strip f h p a s =
    ap (λ o. bind o f) (strip-avoiding semicolon p s params a) ∙ bind-extend f h (strip p s)

clock_rate-add : (n s : String) → clock_rate n (add s) ≡ clock_rate n s
clock_rate-add n s = bind-span (λ digits. some n) (λ m r. refl) is_digit refl s

codec_end-add : (n s : String) → codec_end n (add s) ≡ codec_end n s
codec_end-add n s = bind-strip (clock_rate n) (clock_rate-add n) "/" (refl, tt) s

codec_name-add : (n s : String) → codec_name n (add s) ≡ codec_name n s
codec_name-add n s =
    bind-span (λ name. codec_end n name.1) (λ m r. codec_end-add n r) is_word refl s

number_end-add : (n s : String) → number_end n (add s) ≡ number_end n s
number_end-add n s = bind-strip (codec_name n) (codec_name-add n) " " (refl, tt) s

payload_number-add : (s : String) → payload_number (add s) ≡ payload_number s
payload_number-add s =
    bind-span (λ number. number_end number.0 number.1) (λ m r. number_end-add m r) is_digit refl s

payload_here-add : (s : String) → payload_here (add s) ≡ payload_here s
unfolding payload_here
payload_here-add s =
    bind-strip payload_number payload_number-add "a=rtpmap:"
      (refl, (refl, (refl, (refl, (refl, (refl, (refl, (refl, (refl, tt))))))))) s

pub codec_payload_type-add :
    (s : String) → codec_payload_type (s <> stereo_params) ≡ codec_payload_type s
unfolding codec_payload_type add payload_here strip span
codec_payload_type-add String.[] = ap codec_payload_type (nil-append stereo_params)
codec_payload_type-add (String.◌∷◌ c s) =
    ap codec_payload_type (cons-append c s stereo_params)
    ∙ ap (λ o. or_else o (codec_payload_type (add s)))
        (ap payload_here (sym (cons-append c s stereo_params)) ∙ payload_here-add (String.◌∷◌ c s))
    ∙ ap (or_else (payload_here (String.◌∷◌ c s))) (codec_payload_type-add s)
