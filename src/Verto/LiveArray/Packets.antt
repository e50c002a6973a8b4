-- ===== src/Verto/LiveArray/Packets.antt =====
-- The packets of a live array: numbering, and the call that they belong to.
use signalwire_node.Common.{
  if-false, ◌≡◌, ◌≢◌, refl, ap, ◌∙◌, true, none, some, List, [], ◌∷◌, ◌++◌, String, arith, ◌==◌,
  eq_iff, eq_refl, ℕ, suc, if-both, Bool-cases, inl, inr, includes, ◌↔◌,
}
use signalwire_node.Common.Dict.{Dict, insert}
use signalwire_node.Common.Json.{pos}
use signalwire_node.Webrtc.{RtcCall, check_conference_serno}
use signalwire_node.Browser.{Browser, subscribed_to}
use signalwire_node.Verto.LiveArray.{
  Packet, conference_update, add_channel, push_channel, retrieve_call_id, with_channel,
}

-- A packet with a number.
abbrev pub numbered : ℕ → String → Packet
numbered n name = record { boot = none; wire_serno = pos n; name = name }

-- After a valid boot packet the next packet is valid whatever its number is, which then is the last;
-- after that, a packet of another name is valid exactly if its number is the successor.
conference_update-boot :
    (ids : List String) (name la_name : String) (m n k : ℕ) (c : RtcCall)
    → (conference_update (record { boot = some ids; wire_serno = pos m; name = name }) la_name c).0
      ≡ true
    → name ≢ la_name
    → (let booted =
          (conference_update
            (record { boot = some ids; wire_serno = pos m; name = name })
            la_name
            c).1 in
        let (valid, next) = conference_update (numbered (suc n) name) la_name booted in
        (valid ≡ true)
        × (next.last_serno ≡ suc n)
        × (((conference_update (numbered k name) la_name next).0 ≡ true) ↔ (k ≡ suc (suc n))))
unfolding conference_update check_conference_serno
conference_update-boot ids name la_name m n k c h d = ground (arith, eq_iff name la_name)

includes-last : (xs : List String) (x : String) → includes (xs ++ x ∷ []) x ≡ true
includes-last [] x = rw (eq_refl x) refl
includes-last (y ∷ xs) x = ground (arith, includes-last xs x)

push_channel-includes :
    (channel : String) (channels : List String)
    → includes (push_channel channel channels) channel ≡ true
push_channel-includes channel channels = ground (arith, includes-last channels channel)

-- The first call of the table that has the channel.
with_channel-here :
    (id channel : String) (c : RtcCall) (calls : Dict RtcCall)
    → includes c.channels channel ≡ true
    → with_channel channel ((id, c) ∷ calls) ≡ some id
with_channel-here id channel c calls h = rw h refl

Found : String → Dict RtcCall → Type 0
Found channel calls = (found : String) × (with_channel channel calls ≡ some found)

Found-cons :
    (channel id : String) (c : RtcCall) (calls : Dict RtcCall)
    → Found channel calls
    → Found channel ((id, c) ∷ calls)
unfolding Found
Found-cons channel id c calls (found, e) = elim (Bool-cases (includes c.channels channel)) [
  | inl t ↦ (id, with_channel-here id channel c calls t)
  | inr t ↦ (found, if-false (some id) (with_channel channel calls) t ∙ e)
]

insert-Found :
    (id channel : String) (c : RtcCall) (calls : Dict RtcCall)
    → includes c.channels channel ≡ true
    → Found channel (insert id c calls)
unfolding insert Found
insert-Found id channel c [] h = (id, with_channel-here id channel c [] h)
insert-Found id channel c ((own, held) ∷ calls) h =
    if-both (Found channel) (own == id) ((id, c) ∷ calls) ((own, held) ∷ insert id c calls)
      (λ _. (id, with_channel-here id channel c calls h))
      (λ _. Found-cons channel own held (insert id c calls) (insert-Found id channel c calls h))

add_channel-calls :
    (id : String) (c : RtcCall) (channel : String) (b : Browser)
    → (add_channel id c channel b).calls
      ≡ insert id (record c { channels = push_channel channel c.channels }) b.calls
unfolding add_channel
add_channel-calls id c channel b =
    if-both
      (λ (x : Browser).
        x.calls ≡ insert id (record c { channels = push_channel channel c.channels }) b.calls)
      (subscribed_to channel b) _ _ (λ _. refl) (λ _. refl)

-- Once a call has been given the channel of a live array, a call is found for every later packet of
-- the array that names none.
pub add_channel-retrieve_call_id :
    (packet : Packet) (id : String) (c : RtcCall) (channel : String) (b : Browser)
    → packet.boot ≡ none
    → (found : String) × (retrieve_call_id packet channel (add_channel id c channel b) ≡ some found)
unfolding retrieve_call_id Found
add_channel-retrieve_call_id packet id c channel b h =
    let c' = record c { channels = push_channel channel c.channels } in
    let (found, e) =
      insert-Found id channel c' b.calls (push_channel-includes channel c.channels) in
    (found, rw h (ap (with_channel channel) (add_channel-calls id c channel b) ∙ e))
