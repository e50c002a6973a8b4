-- ===== src/Webrtc/Sdp/Digits.antt =====
-- A payload number is made of digits, so that the lines built from it are lines.
use Prim.Native.Char.{Char, code}
use Prim.Native.String.{◌++◌ as ◌<>◌}
use signalwire_node.Webrtc.Sdp.Payload.{span_in, span_out}
use signalwire_node.Common.{
  eqb, ◌≡◌, refl, sym, subst, true, false, Option, none, some, String, arith, Bool-cases,
  Option-cases, inl, inr,
}
use signalwire_node.Common.Text.{strip, split_lines, is_end}
use signalwire_node.Common.Lines.{IsLine, append-IsLine, inside-IsLine}
use signalwire_node.Webrtc.Sdp.{
  is_digit, is_word, span, some_of, bind, clock_rate, codec_end, codec_name, number_end,
  payload_number, payload_here, codec_payload_type, or_else, fmtp,
}

-- Text made of digits.
abbrev pub IsNumber : String → Type 0
IsNumber String.[] = Unit
IsNumber (String.◌∷◌ c s) = (is_digit c ≡ true) × IsNumber s

-- A number, if there is one.
abbrev IsMaybeNumber : Option String → Type 0
IsMaybeNumber none = Unit
IsMaybeNumber (some n) = IsNumber n

digit_no_end : (c d : Char) → is_digit c ≡ true → (is_end c d ≡ false) × (is_end d c ≡ false)
digit_no_end c d h = ground arith

no_line_feed : (c : Char) → is_digit c ≡ true → eqb (code c) 10 ≡ false
no_line_feed c h = ground arith

number-IsLine : (n : String) → IsNumber n → IsLine n
unfolding split_lines
number-IsLine String.[] h = refl
number-IsLine (String.◌∷◌ c String.[]) h = refl
number-IsLine (String.◌∷◌ c (String.◌∷◌ d s)) (a, h) =
    inside-IsLine c d s (digit_no_end c d a).0 (number-IsLine (String.◌∷◌ d s) h)

span-IsNumber : (s : String) → IsNumber (span is_digit s).0
unfolding span
span-IsNumber String.[] = tt
span-IsNumber (String.◌∷◌ c s) = elim (Bool-cases (is_digit c)) [
  | inl e ↦ subst (λ x. IsNumber x.0) (sym (span_in is_digit c s e)) (e, span-IsNumber s)
  | inr e ↦ subst (λ x. IsNumber x.0) (sym (span_out is_digit c s e)) tt
]

bind-IsMaybeNumber :
    {A : Type 0} (o : Option A) (f : A → Option String)
    → ((a : A) → IsMaybeNumber (f a))
    → IsMaybeNumber (bind o f)
bind-IsMaybeNumber none f h = tt
bind-IsMaybeNumber (some a) f h = h a

some_of-IsMaybeNumber :
    (n s : String) (f : String × String → Option String)
    → ((r : String × String) → r.0 ≡ n → IsMaybeNumber (f r))
    → IsMaybeNumber (bind (some_of (n, s)) f)
some_of-IsMaybeNumber String.[] s f h = tt
some_of-IsMaybeNumber (String.◌∷◌ c n) s f h = h (String.◌∷◌ c n, s) refl

number_end-IsMaybeNumber : (n s : String) → IsNumber n → IsMaybeNumber (number_end n s)
number_end-IsMaybeNumber n s h = bind-IsMaybeNumber (strip " " s) (codec_name n) (λ r.
    bind-IsMaybeNumber (some_of (span is_word r)) (λ name. codec_end n name.1)
      (λ name. bind-IsMaybeNumber (strip "/" name.1) (clock_rate n) (λ rate.
        bind-IsMaybeNumber (some_of (span is_digit rate)) (λ digits. some n) (λ digits. h))))

payload_here-IsMaybeNumber : (s : String) → IsMaybeNumber (payload_here s)
unfolding payload_here
payload_here-IsMaybeNumber s = bind-IsMaybeNumber (strip "a=rtpmap:" s) payload_number (λ rest.
    some_of-IsMaybeNumber (span is_digit rest).0 (span is_digit rest).1
      (λ number. number_end number.0 number.1)
      (λ r e. number_end-IsMaybeNumber r.0 r.1 (subst IsNumber (sym e) (span-IsNumber rest))))

or_else-IsMaybeNumber :
    (o p : Option String) → IsMaybeNumber o → IsMaybeNumber p → IsMaybeNumber (or_else o p)
or_else-IsMaybeNumber none p h k = k
or_else-IsMaybeNumber (some n) p h k = h

codec_payload_type-IsMaybeNumber : (s : String) → IsMaybeNumber (codec_payload_type s)
unfolding codec_payload_type
codec_payload_type-IsMaybeNumber String.[] = tt
codec_payload_type-IsMaybeNumber (String.◌∷◌ c s) =
    or_else-IsMaybeNumber (payload_here (String.◌∷◌ c s)) (codec_payload_type s)
      (payload_here-IsMaybeNumber (String.◌∷◌ c s)) (codec_payload_type-IsMaybeNumber s)

fmtp_some-IsLine : (n : String) → IsNumber n → IsLine ("a=fmtp:" <> n)
unfolding split_lines
fmtp_some-IsLine String.[] h = refl
fmtp_some-IsLine (String.◌∷◌ c n) (a, h) =
    append-IsLine "a=fmtp:" c n (no_line_feed c a) refl (number-IsLine (String.◌∷◌ c n) (a, h))

-- The pattern made of a codec line is a line.
pub fmtp-IsLine : (s : String) → IsLine (fmtp (codec_payload_type s))
unfolding split_lines
fmtp-IsLine s = elim (Option-cases (codec_payload_type s)) [
  | inl e ↦ rw e refl
  | inr (n, e) ↦ rw e (fmtp_some-IsLine n (rw e at (codec_payload_type-IsMaybeNumber s)))
]
