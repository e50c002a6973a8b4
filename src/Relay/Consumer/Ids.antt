-- ===== src/Relay/Consumer/Ids.antt =====
-- The ids that a consumer listens under tell their kind and their context.
use Prim.Native.String.{◌++◌ as concat, count}
use text.Mathlib.TextLemmas.{append_cancel_left, append_inj, append_assoc}
use signalwire_node.Common.{◌≡◌, ◌≢◌, refl, sym, ◌∙◌, String}
use signalwire_node.Relay.Consumer.{Kind, calls, messages, states, tasks, unique_id}

-- The first characters of an id tell its kind.
abbrev pub prefix : Kind → String
prefix calls = "calling.ctxRec"
prefix messages = "messaging.ctxR"
prefix states = "messaging.ctxS"
prefix tasks = "tasking.ctxRec"

abbrev rest : Kind → String
rest calls = "eive."
rest messages = "eceive."
rest states = "tate."
rest tasks = "eive."

unique_id-prefix : (k : Kind) (c : String) → unique_id k c ≡ concat (prefix k) (concat (rest k) c)
unique_id-prefix calls c =
    sym (append_assoc "calling" ".ctxReceive." c) ∙ append_assoc "calling.ctxRec" "eive." c
unique_id-prefix messages c =
    sym (append_assoc "messaging" ".ctxReceive." c) ∙ append_assoc "messaging.ctxR" "eceive." c
unique_id-prefix states c =
    sym (append_assoc "messaging" ".ctxState." c) ∙ append_assoc "messaging.ctxS" "tate." c
unique_id-prefix tasks c =
    sym (append_assoc "tasking" ".ctxReceive." c) ∙ append_assoc "tasking.ctxRec" "eive." c

count-prefix : (k : Kind) → count (prefix k) ≡ 14
count-prefix calls = refl
count-prefix messages = refl
count-prefix states = refl
count-prefix tasks = refl

-- Ids of different kinds differ, and so do those of one kind and different contexts.
pub unique_id-apart :
    (k k' : Kind) (c d : String) → prefix k ≢ prefix k' → unique_id k c ≢ unique_id k' d
unique_id-apart k k' c d n e =
    n
      (append_inj (sym (unique_id-prefix k c) ∙ e ∙ unique_id-prefix k' d)
        (count-prefix k ∙ sym (count-prefix k'))).0

pub unique_id-injective : (k : Kind) (c d : String) → unique_id k c ≡ unique_id k d → c ≡ d
unique_id-injective k c d e = append_cancel_left (rest k) c d (
    append_cancel_left (prefix k) (concat (rest k) c) (concat (rest k) d)
      (sym (unique_id-prefix k c) ∙ e ∙ unique_id-prefix k d))
