-- ===== src/Verto/Conference/Moderating.antt =====
-- A call has the moderator's commands exactly while it is a moderator.
use signalwire_node.Common.{
  ◌≡◌, ◌≢◌, refl, sym, subst, Bool, true, false, not, ◌&&◌, Option, none, some, List, [], ◌∷◌, ◌++◌,
  String, ◌==◌, arith, if◌then◌else◌, if-both, includes, eq_refl,
}
use signalwire_node.Common.Json.{ℤ, pos, negsuc}
use signalwire_node.Webrtc.{RtcCall, check_conference_serno}
use signalwire_node.Verto.LiveArray.{push_channel}
use signalwire_node.Verto.Conference.{
  Member, Conference, moderator, subscribe_chat, subscribe_info, subscribe_moderator, join_channels,
  Action, boot, add, modify, del, clear, other, update, handle_conference_update, Update,
}

abbrev pub Moderated : Option String → String → List String → Type 0
Moderated none role channels = role ≢ moderator
Moderated (some channel) role channels = (role ≡ moderator) × (includes channels channel ≡ true)

-- Either the call is no moderator and has no commands, or it is one, has them, and has the channel
-- on which they go out among its own.
abbrev pub IsModerated : Member → Type 0
IsModerated m = Moderated m.commands m.role m.call.channels

includes-append :
    (xs ys : List String) (c : String) → includes xs c ≡ true → includes (xs ++ ys) c ≡ true
includes-append [] ys c h = cc
includes-append (x ∷ xs) ys c h = ground (arith, includes-append xs ys c, h)

includes-last : (xs : List String) (c : String) → includes (xs ++ c ∷ []) c ≡ true
includes-last [] c = ground (arith, eq_refl c)
includes-last (x ∷ xs) c = ground (arith, includes-last xs c)

push_channel-kept :
    (channel c : String) (xs : List String)
    → includes xs c ≡ true
    → includes (push_channel channel xs) c ≡ true
push_channel-kept channel c xs h =
    if-both (λ ys. includes ys c ≡ true) (includes xs channel) xs (xs ++ channel ∷ []) (λ e. h)
      (λ e. includes-append xs (channel ∷ []) c h)

push_channel-included :
    (channel : String) (xs : List String) → includes (push_channel channel xs) channel ≡ true
push_channel-included channel xs =
    if-both (λ ys. includes ys channel ≡ true) (includes xs channel) xs (xs ++ channel ∷ [])
      (λ e. e) (λ e. includes-last xs channel)

Moderated-push :
    (o : Option String) (role channel : String) (xs : List String)
    → Moderated o role xs
    → Moderated o role (push_channel channel xs)
Moderated-push none role channel xs h = h
Moderated-push (some c) role channel xs (r, h) = (r, push_channel-kept channel c xs h)

chat-IsModerated :
    (channel : String) (ok : Bool) (m : Member)
    → IsModerated m
    → IsModerated (subscribe_chat channel ok m)
unfolding subscribe_chat
chat-IsModerated channel true m h = Moderated-push m.commands m.role channel m.call.channels h
chat-IsModerated channel false m h = h

info-IsModerated :
    (channel : String) (ok : Bool) (m : Member)
    → IsModerated m
    → IsModerated (subscribe_info channel ok m)
unfolding subscribe_info
info-IsModerated channel true m h = Moderated-push m.commands m.role channel m.call.channels h
info-IsModerated channel false m h = h

moderator-IsModerated :
    (channel : String) (ok : Bool) (m : Member)
    → IsModerated m
    → IsModerated (subscribe_moderator channel ok m)
unfolding subscribe_moderator
moderator-IsModerated channel true m h = (refl, push_channel-included channel m.call.channels)
moderator-IsModerated channel false m h = h

unless-IsModerated :
    (b : Bool) (m m' : Member) → IsModerated m → IsModerated m' → IsModerated (if b then m else m')
unless-IsModerated true m m' h h' = h
unless-IsModerated false m m' h h' = h'

join_channels-IsModerated :
    (answers : String → Bool) (conf : Conference) (m : Member)
    → IsModerated m
    → IsModerated (join_channels answers conf m)
unfolding join_channels
join_channels-IsModerated answers conf m h =
    let chat = conf.chat_channel in
    let info = conf.info_channel in
    let mod_ch = conf.mod_channel in
    let m1 : Member = if chat == "" then m else subscribe_chat chat (answers chat) m in
    let h1 : IsModerated m1 =
      unless-IsModerated (chat == "") m (subscribe_chat chat (answers chat) m) h
        (chat-IsModerated chat (answers chat) m h) in
    let m2 : Member = if info == "" then m1 else subscribe_info info (answers info) m1 in
    let h2 : IsModerated m2 =
      unless-IsModerated (info == "") m1 (subscribe_info info (answers info) m1) h1
        (info-IsModerated info (answers info) m1 h1) in
    unless-IsModerated (not (mod_ch == "") && (conf.role == moderator))
      (subscribe_moderator mod_ch (answers mod_ch) m2) m2
      (moderator-IsModerated mod_ch (answers mod_ch) m2 h2) h2

update-IsModerated :
    {M : Type 0} (a : Action M) (conf : Conference) (answers : String → Bool) (m : Member)
    → IsModerated m
    → IsModerated (update a conf answers m).0
unfolding update
update-IsModerated (boot ms) conf answers m h =
    join_channels-IsModerated answers conf (record m { call = record m.call { last_serno = 0 } }) h
update-IsModerated (add key index member) conf answers m h = h
update-IsModerated (modify key index member) conf answers m h = h
update-IsModerated (del key index member) conf answers m h = h
update-IsModerated clear conf answers m h = h
update-IsModerated (other action) conf answers m h = h

check-channels : (n : ℤ) (c : RtcCall) → (check_conference_serno n c).1.channels ≡ c.channels
unfolding check_conference_serno
check-channels (pos n) c = ground arith
check-channels (negsuc n) c = refl

-- A packet, with what is known when it arrives.
pub record Arrival (M : Type 0) : Type 0 where
  pub wire_serno : ℤ
  pub name : String
  pub action : Action M
  pub conference : Conference
  pub answers : String → Bool

unfoldable pub arrive : {M : Type 0} → List (Arrival M) → Member → Member
unfolding handle_conference_update
arrive [] m = m
arrive (a ∷ as') m =
    arrive as' (handle_conference_update a.wire_serno a.name a.action a.conference a.answers m).0

handled-IsModerated :
    {M : Type 0} (a : Arrival M) (m : Member)
    → IsModerated m
    → IsModerated (handle_conference_update a.wire_serno a.name a.action a.conference a.answers m).0
unfolding handle_conference_update
handled-IsModerated a m h =
    let checked = check_conference_serno a.wire_serno m.call in
    let m' : Member = record m { call = checked.1 } in
    let h' : IsModerated m' =
      subst (Moderated m.commands m.role) (sym (check-channels a.wire_serno m.call)) h in
    let after = update a.action a.conference a.answers m' in
    if-both {A = Member × Option (List (Update _))} (λ r. IsModerated r.0)
      (not checked.0 && not (a.name == a.conference.la_name)) (m', none) (after.0, some after.1)
      (λ e. h') (λ e. update-IsModerated a.action a.conference a.answers m' h')

-- However many packets arrive for a call, in or out of order, and however its subscriptions are
-- answered, the call has the commands of a moderator exactly if it is one, and they go out on
-- a channel that the call has joined, if that was so before.
pub arrive-IsModerated :
    {M : Type 0} (as' : List (Arrival M)) (m : Member) → IsModerated m → IsModerated (arrive as' m)
unfolding arrive
arrive-IsModerated [] m h = h
arrive-IsModerated (a ∷ as') m h = arrive-IsModerated as' _ (handled-IsModerated a m h)
